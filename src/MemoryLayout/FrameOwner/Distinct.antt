-- ===== src/MemoryLayout/FrameOwner/Distinct.antt =====
-- The frames that `PageTableFrameOwner::allocate` of crates/memory-layout/src/frame_owner.rs returns,
-- whatever the backend does.
use unnamed_os_core.Common.{
  ℕ, zero, suc, ◌+◌, ◌%◌, ◌≤◌, ◌<◌, ◌≡◌, ◌≢◌, refl, sym, ap, ◌∙◌, subst, ◌⊎◌, inl, inr, arith, ltb,
  ok, >>=-eq-ok, Option-cases, List, [], ◌∷◌, ◌++◌, length, All, Pairwise, get_or, reject_if, true,
}
use unnamed_os_core.MemoryLayout.Address.{new_physical_address, supported_physical_end}
use unnamed_os_core.MemoryLayout.PageTable.{new_physical_frame}
use unnamed_os_core.MemoryLayout.PageTable.Construct.{ConstructionPlan}
use unnamed_os_core.MemoryLayout.FrameOwner.{
  FrameBackend, IncompleteFrameOwner, PageTableFrameOwner, oldest_first, position, push, give_up,
  zero_new, add_frame, acquire_frame, acquire, allocate,
}
use unnamed_os_core.MemoryLayout.FrameOwner.Ledger.{total, Reply-cases}
use unnamed_os_core.MemoryLayout.FrameOwner.Acquire.{
  Result-cases, position-none, total-oldest_first,
}

-- The address of a frame: page-aligned, above 0 and inside the physical addresses of the layout.
pub record IsFrame (a : ℕ) : Type 0 where
  pub above : 0 < a
  pub below : a < supported_physical_end
  pub aligned : a % 4096 ≡ 0

new_physical_frame-IsFrame : (a b : ℕ) → new_physical_frame a ≡ ok b → IsFrame a
unfolding new_physical_frame new_physical_address
new_physical_frame-IsFrame a b h = record {
  above = ground arith;
  below = ground arith;
  aligned = ground arith;
}

-- An address that is not counted in a list is none of its elements.
total-fresh : (a : ℕ) (xs : List ℕ) → total xs a ≡ 0 → All (λ x. a ≢ x) xs
total-fresh a [] h = tt
total-fresh a (x ∷ xs) h = (λ same. ground (arith, same, h), total-fresh a xs (ground (arith, h)))

-- The oldest of the frames, which are listed with the newest first.
abbrev pub IsOldest : List ℕ → ℕ → Type 0
IsOldest frames root = (frames ≡ []) ⊎ ((newer : List ℕ) × (frames ≡ newer ++ root ∷ []))

get_or-append : (xs : List ℕ) (y : ℕ) → (xs ≡ []) ⊎ (get_or (xs ++ y ∷ []) 0 0 ≡ get_or xs 0 0)
get_or-append [] y = inl refl
get_or-append (x ∷ xs) y = inr refl

oldest_first-IsOldest : (frames : List ℕ) → IsOldest frames (get_or (oldest_first frames) 0 0)
unfolding oldest_first
oldest_first-IsOldest [] = inl refl
oldest_first-IsOldest (f ∷ []) = inr ([], refl)
oldest_first-IsOldest (f ∷ g ∷ older) = elim (get_or-append (oldest_first (g ∷ older)) f) [
  | inl nothing ↦ absurd (not_empty (oldest_first older) g nothing)
  | inr same ↦ elim (oldest_first-IsOldest (g ∷ older)) [
    | inl empty_list ↦ absurd (cons_not_empty g older empty_list)
    | inr (newer, is) ↦
        inr (f ∷ newer, ap (λ l. f ∷ l) (subst (λ r. g ∷ older ≡ newer ++ r ∷ []) (sym same) is))
  ]
]
  where
    cons_not_empty : (x : ℕ) (xs : List ℕ) → x ∷ xs ≡ [] → ⊥
    cons_not_empty x xs h = cc

    not_empty : (xs : List ℕ) (x : ℕ) → xs ++ x ∷ [] ≡ [] → ⊥
    not_empty [] x h = cc
    not_empty (y ∷ ys) x h = cc

-- Addresses of frames, no two the same.
pub record IsFrames (frames : List ℕ) : Type 0 where
  pub each : All IsFrame frames
  pub distinct : Pairwise (λ a b. a ≢ b) frames

module _ {B E : Type 0} (ops : FrameBackend B E) where
  -- What a turn of the loop adds.
  record Grows (before after : List ℕ) : Type 0 where
    address : ℕ
    grown : address ∷ before ≡ after
    frame : IsFrame address
    fresh : All (λ a. address ≢ a) before

  zero_new-same :
      (slot frame : ℕ) (partial next : IncompleteFrameOwner B)
      → zero_new ops slot frame partial ≡ ok next
      → partial.frames ≡ next.frames
  unfolding zero_new give_up
  zero_new-same slot frame partial next h =
      elim (Reply-cases (ops.zero_frame frame partial.backend)) [
        | inl (u, b, done) ↦ ground (arith, done, h)
        | inr (e, b, refused) ↦ absurd (ground (arith, refused, h))
      ]

  add_frame-Grows :
      (slot address : ℕ) (partial next : IncompleteFrameOwner B)
      → add_frame ops slot address partial ≡ ok next
      → Grows partial.frames next.frames
  unfolding add_frame give_up
  add_frame-Grows slot address partial next h =
      elim (Option-cases (position 0 address (oldest_first partial.frames))) [
        | inr (j, twice) ↦ absurd (ground (arith, twice, h))
        | inl single ↦ elim (Result-cases (new_physical_frame address)) [
          | inr (e, bad) ↦ absurd (ground (arith, single, bad, h))
          | inl (frame, good) ↦
              let zeroed : zero_new ops slot frame (push address partial) ≡ ok next =
                ground (arith, single, good, h) in
              let uncounted =
                sym (total-oldest_first partial.frames address)
                ∙ position-none 0 address (oldest_first partial.frames) single in
              record {
                address = address;
                grown = zero_new-same slot frame (push address partial) next zeroed;
                frame = new_physical_frame-IsFrame address frame good;
                fresh = total-fresh address partial.frames uncounted;
              }
        ]
      ]

  acquire_frame-Grows :
      (slot : ℕ) (partial next : IncompleteFrameOwner B)
      → acquire_frame ops slot partial ≡ ok next
      → Grows partial.frames next.frames
  unfolding acquire_frame give_up
  acquire_frame-Grows slot partial next h =
      elim (Reply-cases (ops.allocate_frame partial.backend)) [
        | inl (address, b, got) ↦
            add_frame-Grows slot address (record partial { backend = b }) next
              (ground (arith, got, h))
        | inr (e, b, refused) ↦ absurd (ground (arith, refused, h))
      ]

  acquire-IsFrames :
      (rounds slot : ℕ) (partial last : IncompleteFrameOwner B)
      → acquire ops rounds slot partial ≡ ok last
      → IsFrames partial.frames
      → IsFrames last.frames × (length last.frames ≡ length partial.frames + rounds)
  unfolding acquire
  acquire-IsFrames zero slot partial last h is =
      let same : partial ≡ last = ground arith in
      (subst (λ p. IsFrames p.frames) same is, omega (arith, ap (λ p. length p.frames) same))
  acquire-IsFrames (suc rounds) slot partial last h is =
      let (next, first, others) = >>=-eq-ok (acquire_frame ops slot partial) _ h in
      let grows = acquire_frame-Grows slot partial next first in
      let (all, size) = acquire-IsFrames rounds (suc slot) next last others (
        subst IsFrames grows.grown
          (record { each = (grows.frame, is.each); distinct = (grows.fresh, is.distinct) })) in
      (all, omega (arith, size, ap length grows.grown))

  -- Whatever the backend does, also if it hands out an address twice: an owner that `allocate` returns
  -- holds as many frames as the plan has tables, which is at most the capacity; they are page-aligned,
  -- above 0 and below the end of the physical addresses, and no two are the same; the root is the one
  -- that was acquired first, and the owner owns them.
  pub allocate-IsFrames :
      (capacity : ℕ) (plan : ConstructionPlan) (b : B) (owner : PageTableFrameOwner B)
      → allocate ops capacity plan b ≡ ok owner
      → IsFrames owner.frames
        × (length owner.frames ≡ length plan.tables)
        × (length plan.tables ≤ capacity)
        × IsOldest owner.frames owner.root
        × (owner.owned ≡ true)
  unfolding allocate
  allocate-IsFrames capacity plan b owner h =
      let start : IncompleteFrameOwner B = record { backend = b; frames = [] } in
      let (_, fits, h1) = >>=-eq-ok (reject_if (ltb capacity (length plan.tables)) _) _ h in
      let (partial, got, made) = >>=-eq-ok (acquire ops (length plan.tables) 0 start) _ h1 in
      let (is, size) =
        acquire-IsFrames (length plan.tables) 0 start partial got
          (record { each = tt; distinct = tt }) in
      let frames : partial.frames ≡ owner.frames = ground arith in
      let root : get_or (oldest_first partial.frames) 0 0 ≡ owner.root = ground arith in
      (
        subst IsFrames frames is,
        omega (arith, size, ap length frames),
        ground arith,
        subst (λ r. IsOldest owner.frames r) root
            (subst (λ f. IsOldest f (get_or (oldest_first partial.frames) 0 0)) frames
              (oldest_first-IsOldest partial.frames)),
        ground arith,
      )
