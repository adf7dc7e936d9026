-- ===== src/Bootloader/Ownership/Released.antt =====
-- Releasing the pages of a load plan, `try_release` of crates/bootloader/src/load_plan.rs.
use unnamed_os_core.Common.{
  ℕ, suc, ◌≡◌, refl, sym, ap, ◌∙◌, inl, inr, true, false, Bool-cases, Result, Result-cases, ok, err,
  Option-cases, some, none, List, [], ◌∷◌, ◌++◌,
}
use mathlib.Core.List.{append_assoc, append-nil}
use unnamed_os_core.Bootloader.LoadPlan.{LoadPlan}
use unnamed_os_core.Bootloader.Ownership.{
  SegmentBackend, Slot, TargetOwnership, Stopped, prepare_targets, release, try_release,
}
use unnamed_os_core.Bootloader.Ownership.Held.{
  PageSpan, IsLedger, range_of, owned_ranges, owned_ranges-owned, owned_ranges-free, some_not_none,
  prepare_targets-IsPrepared,
}

module _ {B E : Type 0} (ops : SegmentBackend B E) (live : B → List PageSpan)
    (ledger : IsLedger ops live) where
  record IsReleased (base : List PageSpan) (after : Stopped B (ℕ × E)) : Type 0 where
    held : live after.backend ≡ base ++ owned_ranges after.slots
    none_left : after.failed ≡ none → owned_ranges after.slots ≡ []

  -- The slot in front of those that are released.
  module _ (index : ℕ) (b : B) (slot : Slot) (rest : List Slot) (base : List PageSpan) where
    abbrev after : Stopped B (ℕ × E)
    after = release ops (suc index) b rest

    abbrev whole : Stopped B (ℕ × E)
    whole = release ops index b (slot ∷ rest)

    release-stopped :
        (failure : ℕ × E)
        → after.failed ≡ some failure
        → live after.backend ≡ base ++ owned_ranges (slot ∷ after.slots)
        → IsReleased base whole
    unfolding release
    release-stopped failure failed held =
        rw (failed, release)
          (record { held = held; none_left = λ h. absurd (some_not_none failure (sym failed ∙ h)) })

    release-free :
        slot.owned ≡ false → IsReleased base after → after.failed ≡ none → IsReleased base whole
    unfolding release
    release-free free is done =
        let same = owned_ranges-free slot after.slots free in
        rw (done, release, free)
          (record {
            held = is.held ∙ ap (λ l. base ++ l) (sym same);
            none_left = λ h. same ∙ is.none_left done;
          })

    release-owned :
        slot.owned ≡ true
        → IsReleased (base ++ range_of slot ∷ []) after
        → after.failed ≡ none
        → IsReleased base whole
    unfolding release
    release-owned owned is done =
        let nothing = is.none_left done in
        let last : live after.backend ≡ base ++ range_of slot ∷ [] =
          is.held ∙ ap (λ l. (base ++ range_of slot ∷ []) ++ l) nothing ∙ append-nil _ in
        let reply = ops.free after.backend slot.page_start slot.page_count in
        elim (Result-cases reply.result) [
          | inr (e, failed) ↦
              let kept = ledger.not_freed after.backend slot.page_start slot.page_count e failed in
              let mine = owned_ranges-owned slot after.slots owned in
              rw (done, release, owned, failed)
                (record {
                  held =
                      kept
                      ∙ last
                      ∙ ap (λ l. base ++ l) (sym (mine ∙ ap (λ l. range_of slot ∷ l) nothing));
                  none_left = λ h. absurd (some_not_none (index, e) h);
                })
          | inl (_, granted) ↦
              let gone =
                ledger.freed after.backend slot.page_start slot.page_count base granted last in
              rw (done, release, owned, granted)
                (record {
                  held = gone ∙ sym (append-nil base) ∙ ap (λ l. base ++ l) (sym nothing);
                  none_left = λ h. nothing;
                })
        ]

  release-IsReleased :
      (index : ℕ) (b : B) (slots : List Slot) (base : List PageSpan)
      → live b ≡ base ++ owned_ranges slots
      → IsReleased base (release ops index b slots)
  unfolding release
  release-IsReleased index b [] base known = record { held = known; none_left = λ h. refl }
  release-IsReleased index b (slot ∷ rest) base known = elim (Bool-cases slot.owned) [
    | inr free ↦
        let same = ap (λ l. base ++ l) (owned_ranges-free slot rest free) in
        let is = release-IsReleased (suc index) b rest base (known ∙ same) in
        let here =
          ap (λ l. base ++ l) (owned_ranges-free slot (after index b slot rest base).slots free) in
        elim (Option-cases (after index b slot rest base).failed) [
          | inr (failure, failed) ↦
              release-stopped index b slot rest base failure failed (is.held ∙ sym here)
          | inl done ↦ release-free index b slot rest base free is done
        ]
    | inl owned ↦
        let mine = ap (λ l. base ++ l) (owned_ranges-owned slot rest owned) in
        let is =
          release-IsReleased (suc index) b rest (base ++ range_of slot ∷ [])
            (known ∙ mine ∙ sym (append_assoc base (range_of slot ∷ []) (owned_ranges rest))) in
        let others = (after index b slot rest base).slots in
        let here =
          append_assoc base (range_of slot ∷ []) (owned_ranges others)
          ∙ ap (λ l. base ++ l) (sym (owned_ranges-owned slot others owned)) in
        elim (Option-cases (after index b slot rest base).failed) [
          | inr (failure, failed) ↦
              release-stopped index b slot rest base failure failed (is.held ∙ here)
          | inl done ↦ release-owned index b slot rest base owned is done
        ]
  ]

  -- A release of an owner whose slots are the ranges that are allocated on top of `base` keeps that,
  -- whether it fails or not; if it succeeds, nothing is allocated but `base`. The owner is thus fit for
  -- another try.
  pub try_release-held :
      (owner : TargetOwnership B) (base : List PageSpan)
      → live owner.backend ≡ base ++ owned_ranges owner.slots
      → let after = try_release ops owner in
        (live after.0.backend ≡ base ++ owned_ranges after.0.slots)
        × (after.1 ≡ ok tt → live after.0.backend ≡ base)
  unfolding try_release
  try_release-held owner base known =
      let is = release-IsReleased 0 owner.backend owner.slots base known in
      elim (Option-cases (release ops 0 owner.backend owner.slots).failed) [
        | inr (failure, failed) ↦ rw (failed, try_release) (is.held, λ h. absurd (failing h))
        | inl done ↦
            let nothing = is.none_left done in
            rw (done, try_release)
              (is.held, λ h. is.held ∙ ap (λ l. base ++ l) nothing ∙ append-nil base)
      ]
    where
      failing : {F : Type 0} {e : F} → ◌≡◌ {0} {A = Result F (Unit {0})} (err e) (ok tt) → ⊥
      failing h = cc

  release-succeeds :
      ((b : B) (start count : ℕ) → (ops.free b start count).result ≡ ok tt)
      → (index : ℕ) (b : B) (slots : List Slot) → (release ops index b slots).failed ≡ none
  unfolding release
  release-succeeds frees index b [] = refl
  release-succeeds frees index b (slot ∷ rest) =
      let done = release-succeeds frees (suc index) b rest in
      elim (Bool-cases slot.owned) [
        | inr free ↦ rw (done, release, free) done
        | inl owned ↦ rw (done, release, owned, frees) refl
      ]

  released :
      (owner : TargetOwnership B)
      → (release ops 0 owner.backend owner.slots).failed ≡ none
      → (try_release ops owner).1 ≡ ok tt
  unfolding try_release
  released owner done = rw (done, try_release) refl

  -- At a backend whose calls of `free` succeed, the first try of a release after a preparation, however
  -- that has ended, succeeds, and leaves allocated what was before the preparation.
  pub try_release-prepare_targets :
      (plan : LoadPlan) (source : List ℕ) (b : B)
      → ((b : B) (start count : ℕ) → (ops.free b start count).result ≡ ok tt)
      → let after = try_release ops (prepare_targets ops plan source b).owner in
        (after.1 ≡ ok tt) × (live after.0.backend ≡ live b)
  try_release-prepare_targets plan source b frees =
      let owner = (prepare_targets ops plan source b).owner in
      let known = (prepare_targets-IsPrepared ops live ledger plan source b).held in
      let succeeds = released owner (release-succeeds frees 0 owner.backend owner.slots) in
      (succeeds, (try_release-held owner (live b) known).1 succeeds)
