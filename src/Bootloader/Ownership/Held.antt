-- ===== src/Bootloader/Ownership/Held.antt =====
-- The owner of the pages of a load plan (crates/bootloader/src/load_plan.rs) and the pages that are
-- allocated, through `prepare_targets`.
use unnamed_os_core.Common.{
  ℕ, ◌≡◌, refl, sym, ap, ◌∙◌, inl, inr, true, false, if◌then◌else◌, Result-cases, ok, err, Option,
  Option-cases, some, none, List, [], ◌∷◌, ◌++◌, map, All,
}
use mathlib.Core.List.{append_assoc, append-nil}
use unnamed_os_core.Bootloader.LoadPlan.{LoadItem, LoadPlan}
use unnamed_os_core.Bootloader.Ownership.{
  Reply, SegmentBackend, Slot, new_ownership, slot_of, Stopped, Prepared, LoadStage, LoadWorkKind,
  allocated_stage, zeroed_stage, copied_stage, verified_stage, zero_work, copy_work, verify_work,
  allocate_all, for_items, phase, allocate_phase, prepare_targets,
}

abbrev pub PageSpan : Type 0
PageSpan = ℕ × ℕ

-- The ranges of pages that are allocated at a backend, the last one at the end: a call that succeeds
-- adds its range, or removes it where it is the last; every other call keeps them.
pub record IsLedger {B E : Type 0} (ops : SegmentBackend B E) (live : B → List PageSpan)
    : Type 0 where
  pub allocated :
      (b : B) (start count : ℕ)
      → (ops.allocate_at b start count).result ≡ ok tt
      → live (ops.allocate_at b start count).backend ≡ live b ++ (start, count) ∷ []
  pub not_allocated :
      (b : B) (start count : ℕ) (e : E)
      → (ops.allocate_at b start count).result ≡ err e
      → live (ops.allocate_at b start count).backend ≡ live b
  pub freed :
      (b : B) (start count : ℕ) (others : List PageSpan)
      → (ops.free b start count).result ≡ ok tt
      → live b ≡ others ++ (start, count) ∷ []
      → live (ops.free b start count).backend ≡ others
  pub not_freed :
      (b : B) (start count : ℕ) (e : E)
      → (ops.free b start count).result ≡ err e
      → live (ops.free b start count).backend ≡ live b
  pub zeroed : (b : B) (item : LoadItem) → live (ops.zero_item b item).backend ≡ live b
  pub copied :
      (b : B) (item : LoadItem) (source : List ℕ) → live (ops.copy b item source).backend ≡ live b
  pub verified :
      (b : B) (item : LoadItem) (source : List ℕ) → live (ops.verify b item source).backend ≡ live b

abbrev pub range_of : Slot → PageSpan
range_of slot = (slot.page_start, slot.page_count)

-- The ranges of the slots that are owned.
abbrev pub owned_ranges : List Slot → List PageSpan
owned_ranges [] = []
owned_ranges (slot ∷ rest) =
    if slot.owned then range_of slot ∷ owned_ranges rest else owned_ranges rest

owned_ranges-none : (slots : List Slot) → All (λ s. s.owned ≡ false) slots → owned_ranges slots ≡ []
owned_ranges-none [] h = refl
owned_ranges-none (s ∷ rest) h = rw h.0 (owned_ranges-none rest h.1)

pub owned_ranges-owned :
    (s : Slot) (rest : List Slot)
    → s.owned ≡ true
    → owned_ranges (s ∷ rest) ≡ range_of s ∷ owned_ranges rest
owned_ranges-owned s rest h = rw h refl

pub owned_ranges-free :
    (s : Slot) (rest : List Slot) → s.owned ≡ false → owned_ranges (s ∷ rest) ≡ owned_ranges rest
owned_ranges-free s rest h = rw h refl

pub some_not_none : {A : Type 0} (a : A) → ◌≡◌ {A = Option A} (some a) none → ⊥
some_not_none a h = cc

-- The range of pages of an item.
abbrev pub item_span : LoadItem → PageSpan
item_span item = (item.page_start, item.page_count)

owned_ranges-All :
    (slots : List Slot) → All (λ s. s.owned ≡ true) slots → owned_ranges slots ≡ map range_of slots
owned_ranges-All [] h = refl
owned_ranges-All (s ∷ rest) h =
    owned_ranges-owned s rest h.0 ∙ ap (λ l. range_of s ∷ l) (owned_ranges-All rest h.1)

slot_of-span : (items : List LoadItem) → map range_of (map slot_of items) ≡ map item_span items
slot_of-span [] = refl
slot_of-span (item ∷ rest) = ap (λ l. item_span item ∷ l) (slot_of-span rest)

slot_of-free : (items : List LoadItem) → All (λ s. s.owned ≡ false) (map slot_of items)
slot_of-free [] = tt
slot_of-free (item ∷ rest) = (refl, slot_of-free rest)

module _ {B E : Type 0} (ops : SegmentBackend B E) (live : B → List PageSpan)
    (ledger : IsLedger ops live) where
  -- What the loop of the allocation leaves.
  record IsAllocated (b : B) (slots : List Slot) (after : Stopped B E) : Type 0 where
    spans : map range_of after.slots ≡ map range_of slots
    held : live after.backend ≡ live b ++ owned_ranges after.slots
    all : after.failed ≡ none → All (λ s. s.owned ≡ true) after.slots

  allocate_all-IsAllocated :
      (b : B) (slots : List Slot)
      → All (λ s. s.owned ≡ false) slots
      → IsAllocated b slots (allocate_all ops b slots)
  unfolding allocate_all
  allocate_all-IsAllocated b [] free = record {
    spans = refl;
    held = sym (append-nil (live b));
    all = λ h. tt;
  }
  allocate_all-IsAllocated b (slot ∷ rest) free =
      let reply = ops.allocate_at b slot.page_start slot.page_count in
      let more = allocate_all-IsAllocated reply.backend rest free.1 in
      elim (Result-cases reply.result) [
        | inr (e, failed) ↦
            let same = ledger.not_allocated b slot.page_start slot.page_count e failed in
            let nothing = owned_ranges-none (slot ∷ rest) free in
            rw (failed, allocate_all)
              (record {
                spans = refl;
                held = same ∙ sym (append-nil (live b)) ∙ ap (λ l. live b ++ l) (sym nothing);
                all = λ h. cc;
              })
        | inl (_, granted) ↦
            let grown = ledger.allocated b slot.page_start slot.page_count granted in
            rw (granted, allocate_all)
              (record {
                spans = ap (λ l. range_of slot ∷ l) more.spans;
                held =
                    more.held
                    ∙ ap (λ l. l ++ owned_ranges (allocate_all ops reply.backend rest).slots) grown
                    ∙ append_assoc (live b) _ _;
                all = λ h. (refl, more.all h);
              })
      ]

  for_items-keeps :
      (call : B → LoadItem → Reply B E)
      → ((b : B) (item : LoadItem) → live (call b item).backend ≡ live b)
      → (b : B) (items : List LoadItem) → live (for_items ops call b items).0 ≡ live b
  unfolding for_items
  for_items-keeps call keeps b [] = refl
  for_items-keeps call keeps b (item ∷ rest) =
      let reply = call b item in
      elim (Result-cases reply.result) [
        | inr (e, failed) ↦ rw (failed, for_items) (keeps b item)
        | inl (_, done) ↦
            rw (done, for_items) (for_items-keeps call keeps reply.backend rest ∙ keeps b item)
      ]

  -- Whatever a preparation has come to, its slots are the ranges of the items, and those that are owned
  -- are the ranges that are allocated; and if nothing has failed, the range of every item is allocated,
  -- and the stages are these.
  pub record IsPrepared (items : List LoadItem) (base : List PageSpan) (stages : List LoadStage)
      (p : Prepared B E) : Type 0 where
    pub slots : map range_of p.owner.slots ≡ map item_span items
    pub held : live p.owner.backend ≡ base ++ owned_ranges p.owner.slots
    pub all : p.failed ≡ none → live p.owner.backend ≡ base ++ map item_span items
    pub reached : p.failed ≡ none → p.stages ≡ stages

  phase-IsPrepared :
      (call : B → LoadItem → Reply B E) (kind : LoadWorkKind) (stage : LoadStage)
      (items : List LoadItem) (before : Prepared B E) (base : List PageSpan)
      (stages : List LoadStage)
      → ((b : B) (item : LoadItem) → live (call b item).backend ≡ live b)
      → IsPrepared items base stages before
      → IsPrepared items base (stage ∷ stages) (phase ops call kind stage items before)
  unfolding phase
  phase-IsPrepared call kind stage items before base stages keeps is =
      let after = for_items ops call before.owner.backend items in
      let same = for_items-keeps call keeps before.owner.backend items in
      elim (Option-cases before.failed) [
        | inr (failure, failed) ↦
            rw (failed, phase)
              (record {
                slots = is.slots;
                held = is.held;
                all = is.all;
                reached = λ h. absurd (some_not_none failure (sym failed ∙ h));
              })
        | inl fine ↦ elim (Option-cases after.1) [
          | inr (e, failed) ↦
              rw (fine, phase, failed)
                (record {
                  slots = is.slots;
                  held = same ∙ is.held;
                  all = λ h. absurd (some_not_none (kind, e) h);
                  reached = λ h. absurd (some_not_none (kind, e) h);
                })
          | inl done ↦
              rw (fine, phase, done)
                (record {
                  slots = is.slots;
                  held = same ∙ is.held;
                  all = λ h. same ∙ is.all fine;
                  reached = λ h. ap (λ l. stage ∷ l) (is.reached fine);
                })
        ]
      ]

  allocate_phase-IsPrepared :
      (plan : LoadPlan) (b : B)
      → IsPrepared plan.items
          (live b)
          (allocated_stage ∷ [])
          (allocate_phase ops (new_ownership plan b))
  unfolding allocate_phase new_ownership
  allocate_phase-IsPrepared plan b =
      let slots = map slot_of plan.items in
      let is = allocate_all-IsAllocated b slots (slot_of-free plan.items) in
      let spans = is.spans ∙ slot_of-span plan.items in
      elim (Option-cases (allocate_all ops b slots).failed) [
        | inr (e, failed) ↦
            rw (failed, allocate_phase)
              (record { slots = spans; held = is.held; all = λ h. cc; reached = λ h. cc })
        | inl done ↦
            rw (done, allocate_phase)
              (record {
                slots = spans;
                held = is.held;
                all = λ h.
                    is.held
                    ∙ ap (λ l. live b ++ l) (owned_ranges-All _ (is.all done))
                    ∙ ap (λ l. live b ++ l) spans;
                reached = λ h. refl;
              })
      ]

  -- Whatever call of the backend fails, when `prepare_targets` ends the ranges that are allocated are
  -- those there were before, and those of the slots that are owned: no range is lost and none is owned
  -- that is not allocated. The slots have the ranges of the plan's items, in their order. If nothing
  -- fails, the ranges of all items are allocated behind those there were before, and the stages have
  -- been allocated, zeroed, copied and verified, in this order.
  pub prepare_targets-IsPrepared :
      (plan : LoadPlan) (source : List ℕ) (b : B)
      → IsPrepared plan.items
          (live b)
          (verified_stage ∷ copied_stage ∷ zeroed_stage ∷ allocated_stage ∷ [])
          (prepare_targets ops plan source b)
  unfolding prepare_targets
  prepare_targets-IsPrepared plan source b =
      phase-IsPrepared _ verify_work verified_stage plan.items _ (live b) _
        (λ c item. ledger.verified c item source)
        (phase-IsPrepared _ copy_work copied_stage plan.items _ (live b) _
          (λ c item. ledger.copied c item source)
          (phase-IsPrepared _ zero_work zeroed_stage plan.items _ (live b) _ ledger.zeroed
            (allocate_phase-IsPrepared plan b)))
