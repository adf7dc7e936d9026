-- ===== src/MemoryLayout/PageTable.antt =====
-- The scalar types of crates/memory-layout/src/page_table.rs: levels, indices, slots, frames, entry
-- flags and planned records. The newtypes `TableIndex` (u16), `FrameSlot` (u32), `PhysicalFrame`
-- and `EntryFlags` (u64) are the numbers that they wrap; `bit_and` and `bit_or` are `&` and `|`.
pub mod Construct
pub mod Flags
pub mod Indices
pub mod Extend
pub mod Tree
pub mod View
pub mod Push
pub mod Page
pub mod Leaf
pub mod Refine
pub mod Mappings
pub mod Build
mod Tests
use package.unnamed_os_core.Common.{
  ℕ, ◌+◌, ◌*◌, ◌/◌, ◌%◌, ◌^◌, Bool, not, ◌&&◌, ◌||◌, true, false, ltb, ◌==◌, if◌then◌else◌, bit_and,
  bit_or, Result, ok, err, ◌>>=◌, ◌>>◌, reject_if, map_err, Option, none, some, List, [], ◌∷◌,
  u32_end,
}
use package.unnamed_os_core.MemoryLayout.Address.{LayoutError, new_physical_address, page_size}
use package.unnamed_os_core.MemoryLayout.Permissions.{
  MappingPermissions, CachePolicy, write_back, uncached, writable, executable, user,
}

pub data PageTablePlanError : Type 0 where
  layout : LayoutError → PageTablePlanError
  invalid_table_index unaligned_physical_frame zero_physical_frame : PageTablePlanError
  invalid_entry_flags user_mapping_forbidden writable_executable_leaf : PageTablePlanError
  unsupported_guard_location duplicate_leaf incompatible_remap missing_parent : PageTablePlanError
  table_capacity_exhausted entry_capacity_exhausted : PageTablePlanError
  removal_capacity_exhausted frame_slot_overflow missing_frame_assignment : PageTablePlanError
  frame_assignment_count_mismatch output_too_small arithmetic_overflow : PageTablePlanError

pub data TableLevel : Type 0 where
  pt pd pdpt pml4 : TableLevel

abbrev pub child_level : TableLevel → Option TableLevel
child_level pml4 = some pdpt
child_level pdpt = some pd
child_level pd = some pt
child_level pt = none

-- `PhysicalFrame::new`
unfoldable pub new_physical_frame : ℕ → Result PageTablePlanError ℕ
new_physical_frame address = do
  reject_if (address == 0) zero_physical_frame
  _ ← map_err layout (new_physical_address address)
  reject_if (not (address % page_size == 0)) unaligned_physical_frame
  ok address

-- PRESENT, WRITABLE, USER, WRITE_THROUGH, CACHE_DISABLE, HUGE_PAGE, GLOBAL and NO_EXECUTE are the
-- bits 0, 1, 2, 3, 4, 7, 8 and 63; `unknown_flags` is the complement of KNOWN, which is all of
-- them but HUGE_PAGE.
abbrev pub no_execute : ℕ
no_execute = 0x8000_0000_0000_0000

abbrev unknown_flags : ℕ
unknown_flags = 0x7fff_ffff_ffff_fee0

abbrev pub intermediate : ℕ
intermediate = 3

-- `EntryFlags::from_bits`
unfoldable pub flags_from_bits : ℕ → Result PageTablePlanError ℕ
flags_from_bits bits = do
  reject_if (not (bit_and bits unknown_flags == 0) || bit_and bits 1 == 0) invalid_entry_flags
  reject_if (not (bit_and bits 4 == 0) || not (bit_and bits 128 == 0)) invalid_entry_flags
  ok bits

abbrev cache_bits : CachePolicy → ℕ → ℕ
cache_bits write_back bits = bits
cache_bits uncached bits = bit_or bits 24

-- `EntryFlags::for_leaf`; 257 is PRESENT | GLOBAL.
unfoldable pub for_leaf : MappingPermissions → CachePolicy → Result PageTablePlanError ℕ
unfolding flags_from_bits
for_leaf permissions cache = do
  reject_if (user permissions) user_mapping_forbidden
  reject_if (writable permissions && executable permissions) writable_executable_leaf
  let with_write = if writable permissions then bit_or 257 2 else 257
  let with_execute = if executable permissions then with_write else bit_or with_write no_execute
  flags_from_bits (cache_bits cache with_execute)

unfoldable pub flags_writable : ℕ → Bool
flags_writable flags = not (bit_and flags 2 == 0)

unfoldable pub flags_executable : ℕ → Bool
flags_executable flags = bit_and flags no_execute == 0

pub data EntryTargetKind : Type 0 where
  table_slot_target physical_frame_target : EntryTargetKind

abbrev pub target_code : EntryTargetKind → ℕ
target_code table_slot_target = 1
target_code physical_frame_target = 2

pub record EntryTarget : Type 0 where
  pub kind : EntryTargetKind
  pub value : ℕ

-- `EntryTarget::table` and `EntryTarget::physical`
abbrev pub table_target : ℕ → EntryTarget
table_target slot = record { kind = table_slot_target; value = slot }

abbrev pub frame_target : ℕ → EntryTarget
frame_target frame = record { kind = physical_frame_target; value = frame }

abbrev slot_of_kind : EntryTargetKind → ℕ → Option ℕ
slot_of_kind table_slot_target value = some (value % u32_end)
slot_of_kind physical_frame_target value = none

-- `EntryTarget::frame_slot`, with the cast `as u32`.
abbrev pub frame_slot : EntryTarget → Option ℕ
frame_slot target = slot_of_kind target.kind target.value

pub record PlannedTable : Type 0 where
  pub level : TableLevel
  pub slot : ℕ
  pub parent_slot : ℕ
  pub parent_index : ℕ

pub record PlannedEntry : Type 0 where
  pub table_slot : ℕ
  pub index : ℕ
  pub target : EntryTarget
  pub flags : ℕ

-- The derived `==` of entries.
abbrev pub same_entry : PlannedEntry → PlannedEntry → Bool
same_entry a b =
    a.table_slot == b.table_slot
    && a.index == b.index
    && target_code a.target.kind == target_code b.target.kind
    && a.target.value == b.target.value
    && a.flags == b.flags

pub record TransitionRemoval : Type 0 where
  pub table_slot : ℕ
  pub index : ℕ
  pub expected_target : ℕ
  pub expected_flags : ℕ

pub data PlanMode : Type 0 where
  transitional final : PlanMode

-- The four indices of an address, the upper three (`indices[..3]`) and the last (`indices[3]`).
pub record TableIndices : Type 0 where
  pub upper : List ℕ
  pub leaf : ℕ

-- The casts `as u16` lose nothing of nine bits.
unfoldable pub virtual_address_indices : ℕ → TableIndices
virtual_address_indices address = record {
  upper =
      bit_and (address / 2 ^ 39) 511
      ∷ bit_and (address / 2 ^ 30) 511
      ∷ bit_and (address / 2 ^ 21) 511
      ∷ [];
  leaf = bit_and (address / 2 ^ 12) 511;
}
