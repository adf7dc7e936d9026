-- ===== src/MemoryLayout/FrameOwner/Owner.antt =====
-- What the owner of crates/memory-layout/src/frame_owner.rs gives back: by `try_release`, by `drop`
-- and by `transfer`.
use unnamed_os_core.Common.{
  ℕ, ◌≤◌, ◌≡◌, refl, inl, inr, arith, true, Result, ok, err, List, [], ◌∷◌, length,
}
use unnamed_os_core.MemoryLayout.PageTable.Construct.{ConstructionPlan}
use unnamed_os_core.MemoryLayout.FrameOwner.{
  is_err, failed, FrameBackend, FrameOwnerBuildError, FrameOwnerError, PageTableFrameOwner,
  release_frames, release_owner, drop_owner, drop_incomplete, transfer, allocate,
}
use unnamed_os_core.MemoryLayout.FrameOwner.Ledger.{
  Lawful, Reply-cases, Owns, release_frames-Owns, drop_frames-Owns,
}
use unnamed_os_core.MemoryLayout.FrameOwner.Acquire.{allocate-Owns, allocate-err-Owns}

module _ {B E : Type 0} (ops : FrameBackend B E) where
  -- The report of the loop of `try_release`: nothing is left, or as many frames as it says.
  abbrev pub Reports : Result (FrameOwnerError E) (Unit {0}) → List ℕ → Type 0
  Reports (ok u) left = left ≡ []
  Reports (err e) left = (length left ≡ e.remaining_frames) × (1 ≤ e.remaining_frames)

  release_frames-Reports :
      (frames : List ℕ) (b : B)
      → let r = release_frames ops frames b in Reports r.result r.left.frames
  unfolding release_frames
  release_frames-Reports [] b = refl
  release_frames-Reports (a ∷ rest) b = elim (Reply-cases (ops.free_frame a b)) [
    | inl (u, b', freed) ↦ rw (freed, release_frames) (release_frames-Reports rest b')
    | inr (e, b', refused) ↦ rw (refused, release_frames) (refl, omega arith)
  ]

module _ {B E : Type 0} (ops : FrameBackend B E) (count : B → ℕ → ℕ) (base : ℕ → ℕ)
    (lawful : Lawful ops count) where
  -- What `try_release` leaves of an owner: the books stay right; after a success nothing is held
  -- and nothing owned, after an error the owner still owns what the error counts.
  pub record Released (result : Result (FrameOwnerError E) (Unit {0}))
      (owner : PageTableFrameOwner B) : Type 0 where
    pub books : Owns ops count base owner.frames owner.backend
    pub report : Reports ops result owner.frames
    pub owned : owner.owned ≡ is_err result

  -- `try_release` of an owner whose books are right, over a lawful backend, keeps them right. After
  -- an error it may be called again: the owner still owns as many frames as the error counts. After
  -- a success it holds no frame and owns none.
  pub release_owner-Released :
      (owner : PageTableFrameOwner B)
      → owner.owned ≡ true
      → Owns ops count base owner.frames owner.backend
      → Released ((release_owner ops owner).0) ((release_owner ops owner).1)
  unfolding release_owner
  release_owner-Released owner owned owns =
      rw (owned, release_owner)
        (record {
          books = release_frames-Owns ops count base owner.frames owner.backend lawful owns;
          report = release_frames-Reports ops owner.frames owner.backend;
          owned = refl;
        })

module _ {B E : Type 0} (ops : FrameBackend B E) (count : B → ℕ → ℕ) (lawful : Lawful ops count)
    (capacity : ℕ) (plan : ConstructionPlan) (b : B) where
  -- An allocation that a drop follows leaves the outstanding allocations of a lawful backend as
  -- they were, when it refuses no release.
  pub allocate-drop_owner :
      (owner : PageTableFrameOwner B)
      → ((a : ℕ) (c c' : B) (e : E) → ops.free_frame a c ≡ failed e c' → ⊥)
      → allocate ops capacity plan b ≡ ok owner
      → (x : ℕ) → count (drop_owner ops owner) x ≡ count b x
  unfolding drop_owner
  allocate-drop_owner owner never h x =
      let (_, _, owns, owned, _) =
        allocate-Owns ops count (count b) lawful capacity plan b owner (λ x. refl) h in
      let back =
        drop_frames-Owns ops count (count b) owner.frames owner.backend lawful never owns in
      rw owned (omega (arith, back x))

  -- An allocation that fails, whatever the cause, and whose error is dropped, leaves the outstanding
  -- allocations of a lawful backend as they were, when it refuses no release.
  pub allocate-drop_incomplete :
      (e : FrameOwnerBuildError B E)
      → ((a : ℕ) (c c' : B) (e : E) → ops.free_frame a c ≡ failed e c' → ⊥)
      → allocate ops capacity plan b ≡ err e
      → (x : ℕ) → count (drop_incomplete ops e.owner) x ≡ count b x
  unfolding drop_incomplete
  allocate-drop_incomplete e never h x =
      let owns = allocate-err-Owns ops count (count b) lawful capacity plan b e (λ x. refl) h in
      let back =
        drop_frames-Owns ops count (count b) e.owner.frames e.owner.backend lawful never owns in
      omega (arith, back x)

  -- A transfer frees nothing: the frames that it passes on are all outstanding, each once, over
  -- what was outstanding before the allocation.
  pub allocate-transfer :
      (owner : PageTableFrameOwner B)
      → allocate ops capacity plan b ≡ ok owner
      → (((transfer ops owner).0).frames ≡ owner.frames)
        × Owns ops count (count b) ((transfer ops owner).0).frames ((transfer ops owner).1)
  unfolding transfer
  allocate-transfer owner h =
      let (_, _, owns, _, _) =
        allocate-Owns ops count (count b) lawful capacity plan b owner (λ x. refl) h in
      (refl, owns)
