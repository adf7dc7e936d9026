-- ===== src/MemoryLayout/PageTable/Construct.antt =====
-- `ConstructionPlan` of crates/memory-layout/src/page_table.rs. The arrays of tables, entries and
-- removals stand for their live prefixes, so that a count is a length; the const generics are the
-- record `Capacity`.
use unnamed_os_core.Common.{
  ℕ, zero, suc, ◌+◌, ◌/◌, Bool, not, ◌&&◌, ◌||◌, true, false, ltb, ◌==◌, if◌then◌else◌, Result, ok,
  err, ◌>>=◌, ◌>>◌, reject_if, map_err, ok_or, Fault, raised, panic, Option, none, some, List, [],
  ◌∷◌, ◌++◌, length, find?, drop, checked_add, checked_mul, u32_end,
}
use unnamed_os_core.MemoryLayout.Address.{
  LayoutError, low_mapping_in_final_plan, page_size, high_canonical_start, new_virtual_address,
}
use unnamed_os_core.MemoryLayout.Range
use unnamed_os_core.MemoryLayout.Range.{PhysicalRange}
use unnamed_os_core.MemoryLayout.Permissions.{MappingPermissions, CachePolicy}
use unnamed_os_core.MemoryLayout.Policy.{guard, transition_identity, same_kind}
use unnamed_os_core.MemoryLayout.Plan.{
  mapped, unbacked, PlanEntry, MappingPlan, entries as mapping_entries,
}
use unnamed_os_core.MemoryLayout.Plan.Validate.{validate_transition, validate_final}
use unnamed_os_core.MemoryLayout.PageTable.{
  PageTablePlanError, layout, invalid_entry_flags, unsupported_guard_location, duplicate_leaf,
  incompatible_remap, missing_parent, table_capacity_exhausted, entry_capacity_exhausted,
  removal_capacity_exhausted, frame_slot_overflow, arithmetic_overflow, TableLevel, pd, pdpt, pml4,
  child_level, new_physical_frame, intermediate, for_leaf, table_target, frame_target, frame_slot,
  PlannedTable, PlannedEntry, same_entry, TransitionRemoval, PlanMode, transitional, final,
  virtual_address_indices, physical_frame_target, EntryTargetKind, table_slot_target,
}

pub record Capacity : Type 0 where
  pub tables : ℕ
  pub entries : ℕ
  pub removals : ℕ

pub record ConstructionPlan : Type 0 where
  pub mode : PlanMode
  pub tables : List PlannedTable
  pub entries : List PlannedEntry
  pub removals : List TransitionRemoval

-- `FrameSlot::NONE`
abbrev pub no_slot : ℕ
no_slot = 0xffff_ffff

abbrev pub root_table : PlannedTable
root_table = record { level = pml4; slot = 0; parent_slot = no_slot; parent_index = 0 }

abbrev pub is_at : ℕ → ℕ → PlannedEntry → Bool
is_at slot index e = e.table_slot == slot && e.index == index

-- `find_entry`
abbrev pub find_entry : ConstructionPlan → ℕ → ℕ → Option PlannedEntry
find_entry plan slot index = find? (is_at slot index) plan.entries

abbrev is_pml4 : TableLevel → Bool
is_pml4 pml4 = true
is_pml4 _ = false

-- The level of a depth in the loop of `insert_page`.
abbrev pub level_at : ℕ → TableLevel
level_at zero = pml4
level_at (suc zero) = pdpt
level_at _ = pd

abbrev pub is_final : PlanMode → Bool
is_final final = true
is_final transitional = false

-- The test of `validate_structure` on the entry of a table's parent.
unfoldable pub validate_table :
    ConstructionPlan → PlannedTable → Result PageTablePlanError (Unit {0})
validate_table plan table = do
  reject_if (table.parent_slot == no_slot) missing_parent
  e ← ok_or (find_entry plan table.parent_slot table.parent_index) missing_parent
  target ← ok_or (frame_slot e.target) missing_parent
  reject_if (not (target == table.slot) || not (e.flags == intermediate)) missing_parent

unfoldable pub validate_tables :
    ConstructionPlan → List PlannedTable → Result PageTablePlanError (Unit {0})
validate_tables plan [] = ok tt
validate_tables plan (t ∷ ts) = do validate_table plan t; validate_tables plan ts

unfoldable pub finish : ConstructionPlan → Result PageTablePlanError ConstructionPlan
finish plan = do validate_tables plan (drop 1 plan.tables); ok plan

abbrev map_fault {ℓ} :
    {A : Type ℓ} → Result (Fault LayoutError) A → Result (Fault PageTablePlanError) A
map_fault (ok a) = ok a
map_fault (err panic) = err panic
map_fault (err (raised e)) = err (raised (layout e))

abbrev pub validate_mode : PlanMode → MappingPlan → Result (Fault PageTablePlanError) (Unit {0})
validate_mode transitional m = map_fault (validate_transition m)
validate_mode final m = map_err (λ e. raised (layout e)) (validate_final m)

-- The table and the entry that `ensure_child` adds.
abbrev pub child_table : TableLevel → ℕ → ℕ → ℕ → PlannedTable
child_table level slot parent index = record {
  level = level;
  slot = slot;
  parent_slot = parent;
  parent_index = index;
}

abbrev pub link : ℕ → ℕ → ℕ → PlannedEntry
link parent index slot = record {
  table_slot = parent;
  index = index;
  target = table_target slot;
  flags = intermediate;
}

module _ (capacity : Capacity) where
  unfoldable pub begin : PlanMode → Result PageTablePlanError ConstructionPlan
  begin mode = do
    reject_if (capacity.tables == 0) table_capacity_exhausted
    ok (record { mode = mode; tables = root_table ∷ []; entries = []; removals = [] })

  unfoldable pub push_entry :
      PlannedEntry → ConstructionPlan → Result PageTablePlanError ConstructionPlan
  push_entry e plan = do
    reject_if (length plan.entries == capacity.entries) entry_capacity_exhausted
    ok (record plan { entries = plan.entries ++ e ∷ [] })

  unfoldable pub push_removal :
      PlannedEntry → ConstructionPlan → Result PageTablePlanError ConstructionPlan
  push_removal e plan = do
    reject_if (length plan.removals == capacity.removals) removal_capacity_exhausted
    target ← ok_or (frame_slot e.target) missing_parent
    let removal : TransitionRemoval = record {
      table_slot = e.table_slot;
      index = e.index;
      expected_target = target;
      expected_flags = e.flags;
    }
    ok (record plan { removals = plan.removals ++ removal ∷ [] })

  -- The end of `ensure_child`, for an address `va`.
  unfoldable pub record_removal :
      TableLevel → ℕ → PlannedEntry → ConstructionPlan → Result PageTablePlanError ConstructionPlan
  record_removal level va e plan =
      if is_pml4 level && ltb va high_canonical_start then push_removal e plan else ok plan

  -- The part of `ensure_child` that adds a table.
  unfoldable pub add_child :
      ℕ → TableLevel → ℕ → ℕ → ConstructionPlan → Result PageTablePlanError (ℕ × ConstructionPlan)
  add_child parent level index va plan = do
    let slot = length plan.tables
    reject_if (slot == capacity.tables) table_capacity_exhausted
    reject_if (not (ltb slot u32_end)) frame_slot_overflow
    below ← ok_or (child_level level) missing_parent
    let grown : ConstructionPlan = record plan {
      tables = plan.tables ++ child_table below slot parent index ∷ [];
    }
    linked ← push_entry (link parent index slot) grown
    done ← record_removal level va (link parent index slot) linked
    ok (slot, done)

  unfoldable pub ensure_child :
      ℕ → TableLevel → ℕ → ℕ → ConstructionPlan → Result PageTablePlanError (ℕ × ConstructionPlan)
  ensure_child parent level index va plan = elim (find_entry plan parent index) [
    | some existing ↦ do
      slot ← ok_or (frame_slot existing.target) incompatible_remap
      ok (slot, plan)
    | none ↦ add_child parent level index va plan
  ]

  -- The loop of `insert_page` over the upper indices.
  unfoldable pub descend :
      ℕ → ℕ → List ℕ → ℕ → ConstructionPlan → Result PageTablePlanError (ℕ × ConstructionPlan)
  descend depth slot [] va plan = ok (slot, plan)
  descend depth slot (i ∷ is) va plan = do
    (child, plan') ← ensure_child slot (level_at depth) i va plan
    descend (suc depth) child is va plan'

  -- The end of `insert_page`: the leaf at its table.
  unfoldable pub insert_leaf :
      ℕ
      → ℕ
      → ℕ
      → MappingPermissions
      → CachePolicy
      → ConstructionPlan
      → Result PageTablePlanError ConstructionPlan
  insert_leaf slot index frame permissions cache plan = do
    flags ← for_leaf permissions cache
    let leaf : PlannedEntry = record {
      table_slot = slot;
      index = index;
      target = frame_target frame;
      flags = flags;
    }
    elim (find_entry plan slot index) [
      | some existing ↦
          if same_entry existing leaf then err duplicate_leaf else err incompatible_remap
      | none ↦ push_entry leaf plan
    ]

  unfoldable pub insert_page :
      ℕ
      → ℕ
      → MappingPermissions
      → CachePolicy
      → ConstructionPlan
      → Result PageTablePlanError ConstructionPlan
  insert_page va frame permissions cache plan = do
    let indices = virtual_address_indices va
    (slot, plan') ← descend 0 0 indices.upper va plan
    insert_leaf slot indices.leaf frame permissions cache plan'

  -- The body of the loop of `add_mapping`.
  unfoldable pub add_page :
      PlanEntry
      → PhysicalRange
      → MappingPermissions
      → CachePolicy
      → ℕ
      → ConstructionPlan
      → Result PageTablePlanError ConstructionPlan
  add_page mapping physical permissions cache page plan = do
    offset ← ok_or (checked_mul page page_size) arithmetic_overflow
    va ← ok_or (checked_add mapping.virtual_range.start offset) arithmetic_overflow
    pa ← ok_or (checked_add physical.start offset) arithmetic_overflow
    va' ← map_err layout (new_virtual_address va)
    frame ← new_physical_frame pa
    insert_page va' frame permissions cache plan

  -- `for page in page..page + rounds`
  unfoldable pub add_pages :
      PlanEntry
      → PhysicalRange
      → MappingPermissions
      → CachePolicy
      → ℕ
      → ℕ
      → ConstructionPlan
      → Result PageTablePlanError ConstructionPlan
  add_pages mapping physical permissions cache zero page plan = ok plan
  add_pages mapping physical permissions cache (suc rounds) page plan = do
    plan' ← add_page mapping physical permissions cache page plan
    add_pages mapping physical permissions cache rounds (page + 1) plan'

  unfoldable pub add_mapped :
      PlanEntry → PhysicalRange → ConstructionPlan → Result PageTablePlanError ConstructionPlan
  add_mapped mapping physical plan = do
    permissions ← ok_or mapping.permissions invalid_entry_flags
    cache ← ok_or mapping.cache invalid_entry_flags
    add_pages mapping physical permissions cache (Range.length mapping.virtual_range / page_size) 0
        plan

  unfoldable pub add_mapping :
      PlanEntry → ConstructionPlan → Result PageTablePlanError ConstructionPlan
  add_mapping mapping plan = do
    reject_if
        (is_final plan.mode
          && (ltb mapping.virtual_range.start high_canonical_start
              || same_kind mapping.kind transition_identity))
        (layout low_mapping_in_final_plan)
    elim (mapping.backing) [
      | mapped physical ↦ add_mapped mapping physical plan
      | unbacked ↦ if same_kind mapping.kind guard then ok plan else err unsupported_guard_location
    ]

  unfoldable pub add_mappings :
      List PlanEntry → ConstructionPlan → Result PageTablePlanError ConstructionPlan
  add_mappings [] plan = ok plan
  add_mappings (e ∷ es) plan = add_mapping e plan >>= add_mappings es

  unfoldable pub build : MappingPlan → PlanMode → Result (Fault PageTablePlanError) ConstructionPlan
  build m mode = do
    validate_mode mode m
    plan ← map_err raised (begin mode)
    grown ← map_err raised (add_mappings (mapping_entries m) plan)
    map_err raised (finish grown)

-- The walk of `leaf_entry` over the upper indices.
unfoldable pub walk : ConstructionPlan → ℕ → List ℕ → Option ℕ
walk plan slot [] = some slot
walk plan slot (i ∷ is) = elim (find_entry plan slot i) [
  | none ↦ none
  | some e ↦ elim (frame_slot e.target) [ none ↦ none | some child ↦ walk plan child is ]
]

abbrev pub as_leaf : EntryTargetKind → PlannedEntry → Option PlannedEntry
as_leaf physical_frame_target e = some e
as_leaf table_slot_target e = none

-- The search of `leaf_entry` in the last table.
unfoldable pub leaf_at : ConstructionPlan → ℕ → ℕ → Option PlannedEntry
leaf_at plan slot index = elim (find_entry plan slot index) [
  | none ↦ none
  | some e ↦ as_leaf e.target.kind e
]

unfoldable pub leaf_entry : ConstructionPlan → ℕ → Option PlannedEntry
leaf_entry plan address =
    let indices = virtual_address_indices address in
    elim (walk plan 0 indices.upper) [ none ↦ none | some slot ↦ leaf_at plan slot indices.leaf ]
