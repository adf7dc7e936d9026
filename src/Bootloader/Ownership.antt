-- ===== src/Bootloader/Ownership.antt =====
-- Preparing the pages of a load plan, and who owns them: `prepare_targets` and `TargetOwnership` of
-- crates/bootloader/src/load_plan.rs. The arrays `items` and `owned` are one list of slots, their live
-- prefix. The backend is the firmware's: a parameter, with a state that each call may change.
pub mod Held
pub mod Released
mod Tests
use unnamed_os_core.Common.{
  ℕ, suc, zero, ◌+◌, Bool, true, false, if◌then◌else◌, Result, ok, err, Option, some, none, List,
  [], ◌∷◌, map,
}
use unnamed_os_core.Bootloader.LoadPlan.{LoadItem, LoadPlan}

-- What a call of the backend leaves.
pub record Reply (B E : Type 0) : Type 0 where
  pub backend : B
  pub result : Result E (Unit {0})

-- `PageBackend` and `SegmentBackend`.
pub record SegmentBackend (B E : Type 0) : Type 0 where
  pub allocate_at : B → ℕ → ℕ → Reply B E
  pub free : B → ℕ → ℕ → Reply B E
  pub zero_item : B → LoadItem → Reply B E
  pub copy : B → LoadItem → List ℕ → Reply B E
  pub verify : B → LoadItem → List ℕ → Reply B E

pub data LoadStage : Type 0 where
  allocated_stage zeroed_stage copied_stage verified_stage : LoadStage

pub data LoadWorkKind : Type 0 where
  allocate_work zero_work copy_work verify_work : LoadWorkKind

-- An `OwnedAllocation` and whether it is owned.
pub record Slot : Type 0 where
  pub page_start : ℕ
  pub page_count : ℕ
  pub owned : Bool

pub record TargetOwnership (B : Type 0) : Type 0 where
  pub backend : B
  pub slots : List Slot

abbrev pub slot_of : LoadItem → Slot
slot_of item = record { page_start = item.page_start; page_count = item.page_count; owned = false }

unfoldable pub new_ownership : {B : Type 0} → LoadPlan → B → TargetOwnership B
new_ownership plan backend = record { backend = backend; slots = map slot_of plan.items }

-- `remaining_segments`
unfoldable pub remaining_segments : List Slot → ℕ
remaining_segments [] = 0
remaining_segments (slot ∷ rest) =
    let others = remaining_segments rest in if slot.owned then suc others else others

-- What a loop leaves: the owner, and the error that has ended it.
pub record Stopped (B F : Type 0) : Type 0 where
  pub backend : B
  pub slots : List Slot
  pub failed : Option F

pub record ReleaseError (E : Type 0) : Type 0 where
  pub segment_index : ℕ
  pub remaining : ℕ
  pub source : E

-- `VerifiedTargets` with an owner, or `LoadWorkFailure`: the owner is in either. `stages` are those
-- that the callback has been told of, the last one first.
pub record Prepared (B E : Type 0) : Type 0 where
  pub owner : TargetOwnership B
  pub stages : List LoadStage
  pub failed : Option (LoadWorkKind × E)

module _ {B E : Type 0} (ops : SegmentBackend B E) where
  -- The loop that allocates the items.
  unfoldable pub allocate_all : B → List Slot → Stopped B E
  allocate_all b [] = record { backend = b; slots = []; failed = none }
  allocate_all b (slot ∷ rest) =
      let reply = ops.allocate_at b slot.page_start slot.page_count in
      let more = allocate_all reply.backend rest in
      elim (reply.result) [
        | err e ↦ record { backend = reply.backend; slots = slot ∷ rest; failed = some e }
        | ok _ ↦ record more { slots = record slot { owned = true } ∷ more.slots }
      ]

  -- A loop over the items that stops at the first error.
  unfoldable pub for_items : (B → LoadItem → Reply B E) → B → List LoadItem → B × Option E
  for_items call b [] = (b, none)
  for_items call b (item ∷ rest) =
      let reply = call b item in
      let more = for_items call reply.backend rest in
      elim (reply.result) [ err e ↦ (reply.backend, some e) | ok _ ↦ more ]

  -- A phase behind the allocation: its loop, and the next phase if the loop has not failed.
  unfoldable pub phase :
      (B → LoadItem → Reply B E)
      → LoadWorkKind
      → LoadStage
      → List LoadItem
      → Prepared B E
      → Prepared B E
  phase call kind stage items before =
      let after = for_items call before.owner.backend items in
      let owner = record before.owner { backend = after.0 } in
      elim (before.failed) [
        | some failure ↦ before
        | none ↦ elim (after.1) [
          | some e ↦ record { owner = owner; stages = before.stages; failed = some (kind, e) }
          | none ↦ record { owner = owner; stages = stage ∷ before.stages; failed = none }
        ]
      ]

  unfoldable pub allocate_phase : TargetOwnership B → Prepared B E
  allocate_phase owner =
      let after = allocate_all owner.backend owner.slots in
      let next : TargetOwnership B = record { backend = after.backend; slots = after.slots } in
      elim (after.failed) [
        | some e ↦ record { owner = next; stages = []; failed = some (allocate_work, e) }
        | none ↦ record { owner = next; stages = allocated_stage ∷ []; failed = none }
      ]

  unfoldable pub prepare_targets : LoadPlan → List ℕ → B → Prepared B E
  prepare_targets plan source backend =
      phase (λ b item. ops.verify b item source) verify_work verified_stage plan.items
        (phase (λ b item. ops.copy b item source) copy_work copied_stage plan.items
          (phase ops.zero_item zero_work zeroed_stage plan.items
            (allocate_phase (new_ownership plan backend))))

  -- The loop of `try_release`, from the last slot to the first, with the index of the first slot.
  unfoldable pub release : ℕ → B → List Slot → Stopped B (ℕ × E)
  release index b [] = record { backend = b; slots = []; failed = none }
  release index b (slot ∷ rest) =
      let after = release (suc index) b rest in
      let reply = ops.free after.backend slot.page_start slot.page_count in
      elim (after.failed) [
        | some failure ↦ record after { slots = slot ∷ after.slots }
        | none ↦ elim (slot.owned) [
          | false ↦ record after { slots = slot ∷ after.slots }
          | true ↦ elim (reply.result) [
            | err e ↦ record {
              backend = reply.backend;
              slots = slot ∷ after.slots;
              failed = some (index, e);
            }
            | ok _ ↦ record {
              backend = reply.backend;
              slots = record slot { owned = false } ∷ after.slots;
              failed = none;
            }
          ]
        ]
      ]

  unfoldable pub try_release :
      TargetOwnership B → TargetOwnership B × Result (ReleaseError E) (Unit {0})
  try_release owner =
      let after = release 0 owner.backend owner.slots in
      let next : TargetOwnership B = record { backend = after.backend; slots = after.slots } in
      elim (after.failed) [
        | none ↦ (next, ok tt)
        | some failure ↦ (
          next,
          err (record {
            segment_index = failure.0;
            remaining = remaining_segments after.slots;
            source = failure.1;
          }),
        )
      ]

  -- The loop of `drop_release`: it passes over a call that fails.
  unfoldable pub drop_release : B → List Slot → B × List Slot
  drop_release b [] = (b, [])
  drop_release b (slot ∷ rest) =
      let after = drop_release b rest in
      let reply = ops.free after.0 slot.page_start slot.page_count in
      elim (slot.owned) [
        | false ↦ (after.0, slot ∷ after.1)
        | true ↦ elim (reply.result) [
          | err e ↦ (reply.backend, slot ∷ after.1)
          | ok _ ↦ (reply.backend, record slot { owned = false } ∷ after.1)
        ]
      ]
