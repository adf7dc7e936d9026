-- ===== src/MemoryLayout/Plan/TableTests.antt =====
-- The tables that crates/memory-layout/src/page_table.rs plans for a small final plan.
use unnamed_os_core.Common.{◌≡◌, refl, arith, Result, ok, err, Fault, []}
use unnamed_os_core.MemoryLayout.Address.{is_canonical, new_physical_address, new_virtual_address}
use unnamed_os_core.MemoryLayout.Permissions.{from_bits, user, writable, executable}
use unnamed_os_core.MemoryLayout.Policy.{validate_mapping_policy}
use unnamed_os_core.MemoryLayout.Plan.{new, insert_mapping, insert_guard}
use unnamed_os_core.MemoryLayout.Plan.Validate.{
  validate_final, reject_low, require_guards, require_guard,
}
use unnamed_os_core.MemoryLayout.Plan.Tests.{three, three-IsValid}
use unnamed_os_core.MemoryLayout.PageTable.{
  PageTablePlanError, final, for_leaf, new_physical_frame, virtual_address_indices,
}
use unnamed_os_core.MemoryLayout.PageTable.Construct.{
  Capacity, ConstructionPlan, add_child, add_mapped, add_mapping, add_mappings, add_page, add_pages,
  begin, build, descend, ensure_child, finish, insert_leaf, insert_page, push_entry, record_removal,
  validate_table, validate_tables,
}
use unnamed_os_core.MemoryLayout.PageTable.Leaf.{IsAddress}
use unnamed_os_core.MemoryLayout.PageTable.Build.{Realises, build-Realises}

abbrev room : Capacity
room = record { tables = 8; entries = 32; removals = 4 }

abbrev unwrap : Result (Fault PageTablePlanError) ConstructionPlan → ConstructionPlan
unwrap (ok plan) = plan
unwrap (err e) = record { mode = final; tables = []; entries = []; removals = [] }

abbrev tables : ConstructionPlan
tables = unwrap (build room three final)

tables_made : build room three final ≡ ok tables
unfolding insert_mapping insert_guard validate_mapping_policy from_bits user new writable executable
    validate_final reject_low require_guards require_guard build begin add_mappings add_mapping
    add_mapped add_pages add_page insert_page insert_leaf descend ensure_child add_child push_entry
    record_removal finish validate_tables validate_table for_leaf new_physical_frame
    new_physical_address new_virtual_address is_canonical virtual_address_indices
tables_made = refl

text-IsAddress : IsAddress 0xffff_ffff_8020_0123
unfolding is_canonical
text-IsAddress = record { fits = omega arith; canonical = refl }

build-Realises_example : Realises three tables 0xffff_ffff_8020_0123
build-Realises_example =
    build-Realises room three final tables 0xffff_ffff_8020_0123 three-IsValid tables_made
      text-IsAddress
