-- ===== src/MemoryLayout/PageTable/Tests.antt =====
-- One page in an empty construction plan of crates/memory-layout/src/page_table.rs.
use unnamed_os_core.Common.{
  ℕ, ◌≡◌, ◌↔◌, ◌/◌, false, ◌&&◌, refl, arith, Result, ok, err, [], ◌∷◌, bit_and,
}
use unnamed_os_core.MemoryLayout.Address.{is_canonical, page_size}
use unnamed_os_core.MemoryLayout.Permissions.{
  kernel_rx, write_back, uncached, writable, executable, user,
}
use unnamed_os_core.MemoryLayout.PageTable.{
  PageTablePlanError, incompatible_remap, duplicate_leaf, for_leaf, flags_writable,
  flags_executable, virtual_address_indices, final,
}
use unnamed_os_core.MemoryLayout.PageTable.Construct.{
  Capacity, ConstructionPlan, root_table, insert_page, descend, ensure_child, add_child, push_entry,
  record_removal, insert_leaf, begin,
}
use unnamed_os_core.MemoryLayout.PageTable.Flags.{for_leaf_lem}
use unnamed_os_core.MemoryLayout.PageTable.Indices.{virtual_address_indices_iff}
use unnamed_os_core.MemoryLayout.PageTable.Extend.{IsTree}
use unnamed_os_core.MemoryLayout.PageTable.Leaf.{
  IsAddress, Inserted, insert_page-Inserted, begin-IsTree,
}

abbrev room : Capacity
room = record { tables = 8; entries = 16; removals = 4 }

abbrev empty : ConstructionPlan
empty = record { mode = final; tables = root_table ∷ []; entries = []; removals = [] }

empty-IsTree : IsTree empty
unfolding begin
empty-IsTree = begin-IsTree room final empty refl

abbrev unwrap : Result PageTablePlanError ConstructionPlan → ConstructionPlan
unwrap (ok p) = p
unwrap (err e) = empty

abbrev text_page : ℕ
text_page = 0xffff_ffff_8020_0000

abbrev with_text : ConstructionPlan
with_text = unwrap (insert_page room text_page 0x20_0000 kernel_rx write_back empty)

text_made : insert_page room text_page 0x20_0000 kernel_rx write_back empty ≡ ok with_text
unfolding insert_page descend ensure_child add_child push_entry record_removal insert_leaf
    virtual_address_indices for_leaf writable executable user
text_made = refl

text_page-IsAddress : IsAddress text_page
unfolding is_canonical
text_page-IsAddress = record { fits = omega arith; canonical = refl }

insert_page-Inserted_example :
    (flags : ℕ) × (for_leaf kernel_rx write_back ≡ ok flags)
    × Inserted empty with_text text_page 0x20_0000 flags
insert_page-Inserted_example =
    insert_page-Inserted room text_page 0x20_0000 kernel_rx write_back empty with_text
      text_page-IsAddress empty-IsTree text_made

-- The same page again is a duplicate, another frame for it an error.
duplicate_rejected :
    insert_page room text_page 0x20_0000 kernel_rx write_back with_text ≡ err duplicate_leaf
unfolding insert_page descend ensure_child add_child push_entry record_removal insert_leaf
    virtual_address_indices for_leaf writable executable user
duplicate_rejected = refl

remap_rejected :
    insert_page room text_page 0x30_0000 kernel_rx write_back with_text ≡ err incompatible_remap
unfolding insert_page descend ensure_child add_child push_entry record_removal insert_leaf
    virtual_address_indices for_leaf writable executable user
remap_rejected = refl

for_leaf_lem_example :
    (flags_writable 0x101 ≡ writable kernel_rx)
    × (flags_executable 0x101 ≡ executable kernel_rx)
    × ((flags_writable 0x101 && flags_executable 0x101) ≡ false)
    × (bit_and 0x101 1 ≡ 1)
    × (bit_and 0x101 4 ≡ 0)
    × ((bit_and 0x101 16 ≡ 16) ↔ (write_back ≡ uncached))
unfolding for_leaf writable executable user
for_leaf_lem_example = for_leaf_lem kernel_rx write_back 0x101 refl

virtual_address_indices_iff_example :
    (virtual_address_indices text_page ≡ virtual_address_indices 0xffff_ffff_8020_0fff)
    ↔ (text_page / page_size ≡ 0xffff_ffff_8020_0fff / page_size)
unfolding is_canonical
virtual_address_indices_iff_example =
    virtual_address_indices_iff text_page 0xffff_ffff_8020_0fff (omega arith) (omega arith) refl
      refl
