-- ===== src/MemoryLayout/FrameOwner/Ledger.antt =====
-- What crates/memory-layout/src/frame_owner.rs relies on of a backend, and what its releases make
-- of the backend's outstanding allocations.
use unnamed_os_core.Common.{
  ℕ, ◌+◌, ◌≤◌, ◌≡◌, refl, ◌⊎◌, inl, inr, arith, ◌==◌, if◌then◌else◌, List, [], ◌∷◌,
}
use unnamed_os_core.MemoryLayout.FrameOwner.{
  Reply, returned, failed, FrameBackend, release_frames, drop_frames,
}

abbrev pub occurs : ℕ → ℕ → ℕ
occurs a x = if a == x then 1 else 0

-- How often an address stands in a list.
abbrev pub total : List ℕ → ℕ → ℕ
total [] x = 0
total (a ∷ rest) x = occurs a x + total rest x

-- A backend that keeps books: `count b a` allocations of the address `a` are outstanding. An
-- address is not allocated twice, a release takes one allocation back, and a call that fails, or
-- zeroes, changes none.
pub record Lawful {B E : Type 0} (ops : FrameBackend B E) (count : B → ℕ → ℕ) : Type 0 where
  pub allocates :
      (b b' : B) (a : ℕ)
      → ops.allocate_frame b ≡ returned a b'
      → (count b a ≡ 0) × ((x : ℕ) → count b' x ≡ count b x + occurs a x)
  pub allocate_fails :
      (b b' : B) (e : E) → ops.allocate_frame b ≡ failed e b' → (x : ℕ) → count b' x ≡ count b x
  pub zeroes :
      (b b' : B) (a : ℕ) (u : Unit {0})
      → ops.zero_frame a b ≡ returned u b'
      → (x : ℕ) → count b' x ≡ count b x
  pub zero_fails :
      (b b' : B) (a : ℕ) (e : E)
      → ops.zero_frame a b ≡ failed e b'
      → (x : ℕ) → count b' x ≡ count b x
  pub frees :
      (b b' : B) (a : ℕ) (u : Unit {0})
      → 1 ≤ count b a
      → ops.free_frame a b ≡ returned u b'
      → (x : ℕ) → count b' x + occurs a x ≡ count b x
  pub free_fails :
      (b b' : B) (a : ℕ) (e : E)
      → ops.free_frame a b ≡ failed e b'
      → (x : ℕ) → count b' x ≡ count b x

pub Reply-cases :
    {B E A : Type 0} (r : Reply B E A)
    → ((a : A) × (b : B) × (r ≡ returned a b)) ⊎ ((e : E) × (b : B) × (r ≡ failed e b))
Reply-cases (returned a b) = inl (a, b, refl)
Reply-cases (failed e b) = inr (e, b, refl)

module _ {B E : Type 0} (ops : FrameBackend B E) (count : B → ℕ → ℕ) (base : ℕ → ℕ) where
  -- Over the allocations of `base`, those of the frames, each once, are outstanding.
  abbrev pub Owns : List ℕ → B → Type 0
  Owns frames b = (x : ℕ) → count b x ≡ base x + total frames x

  -- A release keeps the books right: what it has freed is not held any more, and what it holds is
  -- not freed.
  pub release_frames-Owns :
      (frames : List ℕ) (b : B)
      → Lawful ops count
      → Owns frames b
      → let left = (release_frames ops frames b).left in Owns left.frames left.backend
  unfolding release_frames
  release_frames-Owns [] b lawful owns = owns
  release_frames-Owns (a ∷ rest) b lawful owns = elim (Reply-cases (ops.free_frame a b)) [
    | inl (u, b', freed) ↦
        let held : 1 ≤ count b a = ground (arith, owns a) in
        rw (freed, release_frames)
          (release_frames-Owns rest b' lawful
            (λ x. omega (arith, lawful.frees b b' a u held freed x, owns x)))
    | inr (e, b', refused) ↦
        rw (refused, release_frames)
          (λ x. omega (arith, lawful.free_fails b b' a e refused x, owns x))
  ]

  -- Dropping what an owner holds gives back every frame, when the backend refuses no release.
  pub drop_frames-Owns :
      (frames : List ℕ) (b : B)
      → Lawful ops count
      → ((a : ℕ) (b b' : B) (e : E) → ops.free_frame a b ≡ failed e b' → ⊥)
      → Owns frames b
      → Owns [] (drop_frames ops frames b)
  unfolding drop_frames
  drop_frames-Owns [] b lawful never owns = owns
  drop_frames-Owns (a ∷ rest) b lawful never owns = elim (Reply-cases (ops.free_frame a b)) [
    | inl (u, b', freed) ↦
        let held : 1 ≤ count b a = ground (arith, owns a) in
        rw (freed, drop_frames)
          (drop_frames-Owns rest b' lawful never
            (λ x. omega (arith, lawful.frees b b' a u held freed x, owns x)))
    | inr (e, b', refused) ↦ absurd (never a b b' e refused)
  ]
