-- ===== src/MemoryLayout/FrameOwner/Acquire.antt =====
-- What `allocate` of crates/memory-layout/src/frame_owner.rs holds when it returns an owner, and
-- when it gives up.
use unnamed_os_core.Common.{
  ℕ, zero, suc, ◌+◌, ◌≤◌, ◌≡◌, refl, sym, ap, ◌∙◌, subst, ◌⊎◌, inl, inr, arith, ltb, Result, ok,
  err, ◌>>=◌, >>=-eq-ok, none, some, Option-cases, List, [], ◌∷◌, ◌++◌, length, All, Bool-cases,
  reject_if, true,
}
use unnamed_os_core.MemoryLayout.PageTable.{new_physical_frame}
use unnamed_os_core.MemoryLayout.PageTable.Construct.{ConstructionPlan}
use unnamed_os_core.MemoryLayout.FrameOwner.{
  planned_frame_count_exceeds_capacity, FrameBackend, FrameOwnerCause, IncompleteFrameOwner,
  FrameOwnerBuildError, PageTableFrameOwner, oldest_first, position, push, give_up, zero_new,
  add_frame, acquire_frame, acquire, allocate,
}
use unnamed_os_core.MemoryLayout.FrameOwner.Ledger.{
  total, Lawful, Reply-cases, Owns, release_frames-Owns,
}

total-append : (xs ys : List ℕ) (x : ℕ) → total (xs ++ ys) x ≡ total xs x + total ys x
total-append [] ys x = omega arith
total-append (a ∷ xs) ys x = omega (arith, total-append xs ys x)

pub total-oldest_first : (xs : List ℕ) (x : ℕ) → total (oldest_first xs) x ≡ total xs x
unfolding oldest_first
total-oldest_first [] x = refl
total-oldest_first (a ∷ xs) x =
    omega (arith, total-append (oldest_first xs) (a ∷ []) x, total-oldest_first xs x)

position-some : (i a j : ℕ) (xs : List ℕ) → position i a xs ≡ some j → 1 ≤ total xs a
unfolding position
position-some i a j [] h = absurd (ground arith)
position-some i a j (x ∷ xs) h = ground (arith, position-some (suc i) a j xs)

pub position-none : (i a : ℕ) (xs : List ℕ) → position i a xs ≡ none → total xs a ≡ 0
unfolding position
position-none i a [] h = refl
position-none i a (x ∷ xs) h = ground (arith, position-none (suc i) a xs)

-- Frames that `PhysicalFrame::new` accepts, each held once.
pub record IsHeld (frames : List ℕ) : Type 0 where
  pub accepted : All (λ a. new_physical_frame a ≡ ok a) frames
  pub once : (x : ℕ) → total frames x ≤ 1

pub new_physical_frame-same : (a b : ℕ) → new_physical_frame a ≡ ok b → a ≡ b
unfolding new_physical_frame
new_physical_frame-same a b h = ground arith

pub Result-cases :
    {E A : Type 0} (r : Result E A) → ((a : A) × (r ≡ ok a)) ⊎ ((e : E) × (r ≡ err e))
Result-cases (ok a) = inl (a, refl)
Result-cases (err e) = inr (e, refl)

module _ {B E : Type 0} (ops : FrameBackend B E) (count : B → ℕ → ℕ) (base : ℕ → ℕ)
    (lawful : Lawful ops count) where
  -- How a step of the loop ends: one more frame is held, or the books are right after giving up.
  abbrev Ends : ℕ → Result (FrameOwnerBuildError B E) (IncompleteFrameOwner B) → Type 0
  Ends size (ok grown) =
      IsHeld grown.frames
      × Owns ops count base grown.frames grown.backend
      × (length grown.frames ≡ size)
  Ends size (err e) = Owns ops count base e.owner.frames e.owner.backend

  give_up-Ends :
      (size : ℕ) (cause : FrameOwnerCause E) (partial : IncompleteFrameOwner B)
      → Owns ops count base partial.frames partial.backend
      → Ends size (give_up ops cause partial)
  unfolding give_up
  give_up-Ends size cause partial owns =
      release_frames-Owns ops count base partial.frames partial.backend lawful owns

  zero_new-Ends :
      (slot frame : ℕ) (partial : IncompleteFrameOwner B)
      → IsHeld partial.frames
      → Owns ops count base partial.frames partial.backend
      → Ends (length partial.frames) (zero_new ops slot frame partial)
  unfolding zero_new
  zero_new-Ends slot frame partial held owns =
      elim (Reply-cases (ops.zero_frame frame partial.backend)) [
        | inl (u, b, done) ↦
            rw (done, zero_new)
              (
                held,
                λ x. omega (arith, lawful.zeroes partial.backend b frame u done x, owns x),
                refl,
              )
        | inr (e, b, refused) ↦
            rw (refused, zero_new)
              (give_up-Ends (length partial.frames) _ (record partial { backend = b })
                (λ x. omega (arith, lawful.zero_fails partial.backend b frame e refused x, owns x)))
      ]

  add_frame-Ends :
      (slot address : ℕ) (partial : IncompleteFrameOwner B)
      → IsHeld partial.frames
      → total partial.frames address ≡ 0
      → Owns ops count base (address ∷ partial.frames) partial.backend
      → Ends (suc (length partial.frames)) (add_frame ops slot address partial)
  unfolding add_frame
  add_frame-Ends slot address partial held new owns =
      elim (Option-cases (position 0 address (oldest_first partial.frames))) [
        | inr (j, twice) ↦ absurd (
            omega (
              arith,
              position-some 0 address j (oldest_first partial.frames) twice,
              total-oldest_first partial.frames address,
            ))
        | inl single ↦ elim (Result-cases (new_physical_frame address)) [
          | inr (e, bad) ↦
              rw (single, bad, add_frame) (give_up-Ends _ _ (push address partial) owns)
          | inl (frame, good) ↦
              let same : address ≡ frame = new_physical_frame-same address frame good in
              let one : (x : ℕ) → total (address ∷ partial.frames) x ≤ 1 =
                λ x. ground (arith, held.once x, new) in
              rw (single, good, add_frame)
                (zero_new-Ends slot frame (push address partial)
                  (record { accepted = (good ∙ ap ok (sym same), held.accepted); once = one }) owns)
        ]
      ]

  acquire_frame-Ends :
      (slot : ℕ) (partial : IncompleteFrameOwner B)
      → IsHeld partial.frames
      → Owns ops count base partial.frames partial.backend
      → Ends (suc (length partial.frames)) (acquire_frame ops slot partial)
  unfolding acquire_frame
  acquire_frame-Ends slot partial held owns =
      elim (Reply-cases (ops.allocate_frame partial.backend)) [
        | inl (address, b, got) ↦
            let (new, books) = lawful.allocates partial.backend b address got in
            rw (got, acquire_frame)
              (add_frame-Ends slot address (record partial { backend = b }) held
                (omega (arith, owns address, new)) (λ x. omega (arith, books x, owns x)))
        | inr (e, b, refused) ↦
            rw (refused, acquire_frame)
              (give_up-Ends _ _ (record partial { backend = b })
                (λ x. omega (arith, lawful.allocate_fails partial.backend b e refused x, owns x)))
      ]

  acquire-Ends :
      (rounds slot : ℕ) (partial : IncompleteFrameOwner B)
      → IsHeld partial.frames
      → Owns ops count base partial.frames partial.backend
      → Ends (length partial.frames + rounds) (acquire ops rounds slot partial)
  unfolding acquire
  acquire-Ends zero slot partial held owns = (held, owns, omega arith)
  acquire-Ends (suc rounds) slot partial held owns =
      step (acquire_frame ops slot partial) (acquire_frame-Ends slot partial held owns)
        (λ g h o. acquire-Ends rounds (suc slot) g h o)
    where
      step :
          (r : Result (FrameOwnerBuildError B E) (IncompleteFrameOwner B))
          → Ends (suc (length partial.frames)) r
          → ((g : IncompleteFrameOwner B)
              → IsHeld g.frames
              → Owns ops count base g.frames g.backend
              → Ends (length g.frames + rounds) (acquire ops rounds (suc slot) g))
          → Ends (length partial.frames + suc rounds) (r >>= acquire ops rounds (suc slot))
      step (err e) ends rest = ends
      step (ok grown) ends rest =
          let e : length grown.frames + rounds ≡ length partial.frames + suc rounds =
            omega (arith, ends.2) in
          subst (λ n. Ends n (acquire ops rounds (suc slot) grown)) e (rest grown (ends.0) (ends.1))

  -- An owner that `allocate` returns holds as many frames as the plan has tables, each accepted by
  -- `PhysicalFrame::new`, no two the same, and these alone are new among the outstanding
  -- allocations of a lawful backend.
  pub allocate-Owns :
      (capacity : ℕ) (plan : ConstructionPlan) (b : B) (owner : PageTableFrameOwner B)
      → ((x : ℕ) → count b x ≡ base x)
      → allocate ops capacity plan b ≡ ok owner
      → (length owner.frames ≡ length plan.tables)
        × IsHeld owner.frames
        × Owns ops count base owner.frames owner.backend
        × (owner.owned ≡ true)
        × (length plan.tables ≤ capacity)
  unfolding allocate
  allocate-Owns capacity plan b owner books h =
      let start : IncompleteFrameOwner B = record { backend = b; frames = [] } in
      let (_, fits, h1) = >>=-eq-ok (reject_if (ltb capacity (length plan.tables)) _) _ h in
      let (partial, got, made) = >>=-eq-ok (acquire ops (length plan.tables) 0 start) _ h1 in
      let (held, owns, size) = rw got at (
        acquire-Ends (length plan.tables) 0 start
          (record { accepted = tt; once = λ x. omega arith }) (λ x. omega (arith, books x))) in
      let frames : partial.frames ≡ owner.frames = ground arith in
      let backend : partial.backend ≡ owner.backend = ground arith in
      (
        omega (arith, size, ap length frames),
        rw frames at held,
        rw (frames, backend) at owns,
        ground arith,
        ground arith,
      )

  -- When `allocate` gives up, whatever the cause, exactly the frames that the error still holds are
  -- new among the outstanding allocations of a lawful backend: none leaks and none is freed twice.
  pub allocate-err-Owns :
      (capacity : ℕ) (plan : ConstructionPlan) (b : B) (e : FrameOwnerBuildError B E)
      → ((x : ℕ) → count b x ≡ base x)
      → allocate ops capacity plan b ≡ err e
      → Owns ops count base e.owner.frames e.owner.backend
  unfolding allocate
  allocate-err-Owns capacity plan b e books h =
      let start : IncompleteFrameOwner B = record { backend = b; frames = [] } in
      let ends =
        acquire-Ends (length plan.tables) 0 start
          (record { accepted = tt; once = λ x. omega arith }) (λ x. omega (arith, books x)) in
      elim (Bool-cases (ltb capacity (length plan.tables))) [
        | inl full ↦
            let made : record { cause = planned_frame_count_exceeds_capacity; owner = start } ≡ e =
              ground (arith, full, h) in
            rw (← made) (λ x. omega (arith, books x))
        | inr fits ↦ elim (Result-cases (acquire ops (length plan.tables) 0 start)) [
          | inl (partial, got) ↦ absurd (ground (arith, fits, got, h))
          | inr (f, gave_up) ↦
              let same : f ≡ e = ground (arith, fits, gave_up, h) in
              rw (← same) (rw gave_up at ends)
        ]
      ]
