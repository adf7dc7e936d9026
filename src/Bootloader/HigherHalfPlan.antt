-- ===== src/Bootloader/HigherHalfPlan.antt =====
-- `HigherHalfLoadPlan` of crates/bootloader/src/higher_half_plan.rs: the load plan of a higher-half
-- kernel and the mappings of its segments.
pub mod Segments
pub mod Laws
use unnamed_os_core.Common.{
  ℕ, Bool, not, ◌&&◌, ◌==◌, Result, ok, err, ◌>>=◌, ◌>>◌, reject_if, ok_or, map_err, Fault, raised,
  panic, List, [], ◌∷◌, any, map, checked_add, Option, some, none, false, if◌then◌else◌,
}
use unnamed_os_core.MemoryLayout.Address.{LayoutError, new_virtual_address}
use unnamed_os_core.MemoryLayout.Range.{new_physical_range, new_virtual_range, contains}
use unnamed_os_core.MemoryLayout.Permissions.{
  MappingPermissions, write_back, kernel_rx, kernel_r, kernel_rw, executable,
}
use unnamed_os_core.MemoryLayout.Policy.{MappingKind, kernel_text, kernel_rodata, kernel_data}
use unnamed_os_core.MemoryLayout.Plan.{
  PlanEntry, MappingPlan, entries, new, insert_mapping, translate,
}
use unnamed_os_core.KernelImage.{LoadSegment, higher_half_virtual_offset}
use unnamed_os_core.KernelImage.Parse.{load_segments}
use unnamed_os_core.KernelImage.HigherHalf.{ValidatedHigherHalfImage}
use unnamed_os_core.Bootloader.LoadPlan.{
  PlanError, SourceAllocation, LoadPlan, load_page_size, max_load_items, round_up, build, to_spec,
}

pub data HigherHalfPlanError : Type 0 where
  load : PlanError → HigherHalfPlanError
  layout : LayoutError → HigherHalfPlanError
  invalid_permissions translation_overflow entry_translation_mismatch : HigherHalfPlanError
  entry_without_executable_mapping : HigherHalfPlanError

pub record HigherHalfLoadPlan : Type 0 where
  pub load : LoadPlan
  pub mappings : MappingPlan
  pub virtual_entry : ℕ
  pub physical_entry : ℕ
  pub translation_offset : ℕ
  pub virtual_start : ℕ
  pub virtual_end : ℕ

unfoldable pub mapping_policy : ℕ → Result HigherHalfPlanError (MappingPermissions × MappingKind)
mapping_policy flags =
    if flags == 5
    then ok (kernel_rx, kernel_text)
    else if flags == 4
    then ok (kernel_r, kernel_rodata)
    else if flags == 6
    then ok (kernel_rw, kernel_data)
    else err invalid_permissions

-- A layout error of `insert_mapping` becomes one of the plan; a panic stays one.
abbrev pub layout_fault : Fault LayoutError → Fault HigherHalfPlanError
layout_fault (raised e) = raised (layout e)
layout_fault panic = panic

-- The body of the loop over the segments.
unfoldable pub map_segment :
    LoadSegment → MappingPlan → Result (Fault HigherHalfPlanError) MappingPlan
map_segment s mappings = do
  physical_sum ← ok_or (checked_add s.physical_address s.memory_size) (raised translation_overflow)
  physical_end ← map_err (λ e. raised (load e)) (round_up physical_sum load_page_size)
  virtual_sum ← ok_or (checked_add s.virtual_address s.memory_size) (raised translation_overflow)
  virtual_end ← map_err (λ e. raised (load e)) (round_up virtual_sum load_page_size)
  physical ← map_err (λ e. raised (layout e)) (new_physical_range s.physical_address physical_end)
  virtual_range ← map_err (λ e. raised (layout e)) (new_virtual_range s.virtual_address virtual_end)
  policy ← map_err raised (mapping_policy s.flags)
  map_err layout_fault (insert_mapping virtual_range physical policy.0 write_back policy.1 mappings)

unfoldable pub map_segments :
    List LoadSegment → MappingPlan → Result (Fault HigherHalfPlanError) MappingPlan
map_segments [] mappings = ok mappings
map_segments (s ∷ rest) mappings = do next ← map_segment s mappings; map_segments rest next

abbrev pub may_execute : Option MappingPermissions → Bool
may_execute none = false
may_execute (some permissions) = executable permissions

unfoldable pub from_validated :
    ValidatedHigherHalfImage
    → SourceAllocation
    → Result (Fault HigherHalfPlanError) HigherHalfLoadPlan
from_validated image source = do
  let segments = load_segments image.image
  let virtual_entry = image.image.raw.header.entry
  plan ← map_err (λ e. raised (load e)) (build image.physical_entry (map to_spec segments) source)
  mappings ← map_segments segments (new max_load_items)
  address ← map_err (λ e. raised (layout e)) (new_virtual_address virtual_entry)
  translated ← map_err (λ e. raised (layout e)) (translate mappings address)
  reject_if (not (translated == image.physical_entry)) (raised entry_translation_mismatch)
  reject_if
      (not (
        any (λ e. contains e.virtual_range virtual_entry && may_execute e.permissions)
          (entries mappings)))
      (raised entry_without_executable_mapping)
  ok (record {
    load = plan;
    mappings = mappings;
    virtual_entry = virtual_entry;
    physical_entry = image.physical_entry;
    translation_offset = higher_half_virtual_offset;
    virtual_start = image.image.virtual_load_start;
    virtual_end = image.image.virtual_load_end;
  })
