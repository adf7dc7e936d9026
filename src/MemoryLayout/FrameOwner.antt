-- ===== src/MemoryLayout/FrameOwner.antt =====
-- Ownership of page-table frames: crates/memory-layout/src/frame_owner.rs. The frames that an owner
-- holds are a list with the newest first, which is the order that releases them; the backend is a
-- parameter, whose operations return its next state with their result.
pub mod Ledger
pub mod Acquire
pub mod Distinct
pub mod Owner
mod Tests
use unnamed_os_core.Common.{
  ℕ, zero, suc, Bool, true, false, ltb, ◌==◌, if◌then◌else◌, Result, ok, err, ◌>>=◌, ◌>>◌,
  reject_if, Option, none, some, List, [], ◌∷◌, ◌++◌, length, get_or,
}
use unnamed_os_core.MemoryLayout.PageTable.{PageTablePlanError, new_physical_frame}
use unnamed_os_core.MemoryLayout.PageTable.Construct.{ConstructionPlan}

-- What a call of the backend returns: a value or an error, and the backend after it.
pub data Reply (B E A : Type 0) : Type 0 where
  returned : A → B → Reply B E A
  failed : E → B → Reply B E A

-- The trait `FrameBackend`.
pub record FrameBackend (B E : Type 0) : Type 0 where
  pub allocate_frame : B → Reply B E ℕ
  pub zero_frame : ℕ → B → Reply B E (Unit {0})
  pub free_frame : ℕ → B → Reply B E (Unit {0})

pub data FrameOwnerCause (E : Type 0) : Type 0 where
  allocation zeroing : ℕ → E → FrameOwnerCause E
  invalid_frame : ℕ → PageTablePlanError → FrameOwnerCause E
  duplicate_frame : ℕ → ℕ → FrameOwnerCause E
  planned_frame_count_exceeds_capacity : FrameOwnerCause E

pub record FrameOwnerError (E : Type 0) : Type 0 where
  pub source : E
  pub remaining_frames : ℕ

-- Its backend is taken out of the `Option` only at the end of `allocate`, when it is gone itself.
pub record IncompleteFrameOwner (B : Type 0) : Type 0 where
  pub backend : B
  pub frames : List ℕ

pub record FrameOwnerBuildError (B E : Type 0) : Type 0 where
  pub cause : FrameOwnerCause E
  pub owner : IncompleteFrameOwner B

pub record PageTableFrameOwner (B : Type 0) : Type 0 where
  pub backend : B
  pub frames : List ℕ
  pub root : ℕ
  pub owned : Bool

pub record TransferredPageTableFrames : Type 0 where
  pub frames : List ℕ
  pub root : ℕ

-- The order of the slots.
unfoldable pub oldest_first : List ℕ → List ℕ
oldest_first [] = []
oldest_first (frame ∷ older) = oldest_first older ++ frame ∷ []

-- `iter().position(|candidate| *candidate == address)`, from an index on.
unfoldable pub position : ℕ → ℕ → List ℕ → Option ℕ
position index address [] = none
position index address (candidate ∷ rest) =
    let later = position (suc index) address rest in
    if candidate == address then some index else later

abbrev pub push : {B : Type 0} → ℕ → IncompleteFrameOwner B → IncompleteFrameOwner B
push address partial = record partial { frames = address ∷ partial.frames }

-- How the loop of `try_release` ends, with what is still held.
pub record Release (B E : Type 0) : Type 0 where
  pub result : Result (FrameOwnerError E) (Unit {0})
  pub left : IncompleteFrameOwner B

abbrev pub is_err : {A E : Type 0} → Result E A → Bool
is_err (ok _) = false
is_err (err _) = true

module _ {B E : Type 0} (ops : FrameBackend B E) where
  -- `try_release`: the newest frame first, up to the first error.
  unfoldable pub release_frames : List ℕ → B → Release B E
  release_frames [] b = record { result = ok tt; left = record { backend = b; frames = [] } }
  release_frames (frame ∷ older) b = elim (ops.free_frame frame b) [
    | returned _ b' ↦ release_frames older b'
    | failed e b' ↦ record {
      result = err (record { source = e; remaining_frames = suc (length older) });
      left = record { backend = b'; frames = frame ∷ older };
    }
  ]

  -- The loop of both `drop`s, which does not stop at an error.
  unfoldable pub drop_frames : List ℕ → B → B
  drop_frames [] b = b
  drop_frames (frame ∷ older) b = elim (ops.free_frame frame b) [
    | returned _ b' ↦ drop_frames older b'
    | failed e b' ↦ drop_frames older b'
  ]

  -- What each error in the loop of `allocate` does: release, and report the cause.
  unfoldable pub give_up :
      {A : Type 0}
      → FrameOwnerCause E
      → IncompleteFrameOwner B
      → Result (FrameOwnerBuildError B E) A
  unfolding release_frames
  give_up cause partial =
      err (record { cause = cause; owner = (release_frames partial.frames partial.backend).left })

  unfoldable pub zero_new :
      ℕ → ℕ → IncompleteFrameOwner B → Result (FrameOwnerBuildError B E) (IncompleteFrameOwner B)
  zero_new slot frame partial = elim (ops.zero_frame frame partial.backend) [
    | returned _ b ↦ ok (record partial { backend = b })
    | failed e b ↦ give_up (zeroing slot e) (record partial { backend = b })
  ]

  -- The loop's body behind the call of the allocator.
  unfoldable pub add_frame :
      ℕ → ℕ → IncompleteFrameOwner B → Result (FrameOwnerBuildError B E) (IncompleteFrameOwner B)
  add_frame slot address partial = elim (position 0 address (oldest_first partial.frames)) [
    | some earlier ↦ give_up (duplicate_frame slot earlier) partial
    | none ↦ elim (new_physical_frame address) [
      | err e ↦ give_up (invalid_frame slot e) (push address partial)
      | ok frame ↦ zero_new slot frame (push address partial)
    ]
  ]

  unfoldable pub acquire_frame :
      ℕ → IncompleteFrameOwner B → Result (FrameOwnerBuildError B E) (IncompleteFrameOwner B)
  acquire_frame slot partial = elim (ops.allocate_frame partial.backend) [
    | returned address b ↦ add_frame slot address (record partial { backend = b })
    | failed e b ↦ give_up (allocation slot e) (record partial { backend = b })
  ]

  -- `for index in slot..slot + rounds`
  unfoldable pub acquire :
      ℕ → ℕ → IncompleteFrameOwner B → Result (FrameOwnerBuildError B E) (IncompleteFrameOwner B)
  acquire zero slot partial = ok partial
  acquire (suc rounds) slot partial = do
    grown ← acquire_frame slot partial
    acquire rounds (suc slot) grown

  -- `PageTableFrameOwner::allocate`. Every frame has passed `PhysicalFrame::new` in the loop, so
  -- that its second call returns the address again.
  unfoldable pub allocate :
      ℕ → ConstructionPlan → B → Result (FrameOwnerBuildError B E) (PageTableFrameOwner B)
  allocate capacity plan b = do
    let start : IncompleteFrameOwner B = record { backend = b; frames = [] }
    reject_if (ltb capacity (length plan.tables))
        (record { cause = planned_frame_count_exceeds_capacity; owner = start })
    partial ← acquire (length plan.tables) 0 start
    ok (record {
      backend = partial.backend;
      frames = partial.frames;
      root = get_or (oldest_first partial.frames) 0 0;
      owned = true;
    })

  -- `PageTableFrameOwner::try_release`
  unfoldable pub release_owner :
      PageTableFrameOwner B → Result (FrameOwnerError E) (Unit {0}) × PageTableFrameOwner B
  release_owner owner =
      let release = release_frames owner.frames owner.backend in
      if owner.owned
      then (
        release.result,
        record {
          backend = release.left.backend;
          frames = release.left.frames;
          root = owner.root;
          owned = is_err release.result;
        },
      )
      else (ok tt, owner)

  -- `drop` of a `PageTableFrameOwner`, and of an `IncompleteFrameOwner`
  unfoldable pub drop_owner : PageTableFrameOwner B → B
  drop_owner owner = if owner.owned then drop_frames owner.frames owner.backend else owner.backend

  unfoldable pub drop_incomplete : IncompleteFrameOwner B → B
  drop_incomplete partial = drop_frames partial.frames partial.backend

  -- `transfer`: the frames, and the backend that the drop of the disowned owner leaves.
  unfoldable pub transfer : PageTableFrameOwner B → TransferredPageTableFrames × B
  unfolding drop_owner
  transfer owner = (
    record { frames = owner.frames; root = owner.root },
    drop_owner (record owner { owned = false }),
  )
