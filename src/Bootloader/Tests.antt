-- ===== src/Bootloader/Tests.antt =====
-- Runs of crates/bootloader on the higher-half kernel of the tests of kernel-image.
use unnamed_os_core.Common.{◌≡◌, refl, Result, ok, err, List, [], ◌∷◌}
use unnamed_os_core.KernelImage.Tests.{bytes}
use unnamed_os_core.KernelImage.Bytes.{read, parse_program_header, program_header}
use unnamed_os_core.KernelImage.HigherHalf.{ValidatedHigherHalfImage}
use unnamed_os_core.MemoryLayout.Address.{
  canonical_half, is_canonical, new_physical_address, new_virtual_address,
}
use unnamed_os_core.MemoryLayout.Permissions.{executable}
use unnamed_os_core.MemoryLayout.Range.{new_physical_range, new_virtual_range}
use unnamed_os_core.MemoryLayout.Plan.{new, translate, translate_in, insert_mapping}
use unnamed_os_core.MemoryLayout.Policy.{validate_mapping_policy}
use unnamed_os_core.MemoryLayout.Permissions.{from_bits, user, writable}
use unnamed_os_core.KernelImage.Parse.{load_segments, segments_from}
use unnamed_os_core.Bootloader.LoadPlan.{
  SourceAllocation, SegmentSpec, LoadPlan, page_end, make_item, round_down, round_up, check_items,
  add_segment, add_segments, build, is_executable,
}
use unnamed_os_core.Bootloader.LoadPlan.Layout.{IsLoadPlan, build-IsLoadPlan}
use unnamed_os_core.Bootloader.HigherHalfPlan.{
  HigherHalfLoadPlan, mapping_policy, map_segment, map_segments, from_validated,
}
use unnamed_os_core.Bootloader.HigherHalfPlan.Laws.{
  IsHigherHalfPlan, from_validated-IsHigherHalfPlan,
}

abbrev file : SourceAllocation
file = record { page_start = 0x800_0000; page_count = 1; file_length = 232 }

abbrev specs : List SegmentSpec
specs =
    record { file_offset = 0; file_size = 232; memory_size = 232; target = 0x20_0000; flags = 5 }
    ∷ record { file_offset = 0; file_size = 0; memory_size = 5000; target = 0x20_1000; flags = 6 }
    ∷ []

abbrev value_or {ℓ κ} : {E : Type ℓ} {A : Type κ} → Result E A → A → A
value_or (ok a) d = a
value_or (err e) d = d

abbrev no_plan : LoadPlan
no_plan = record { items = []; total_page_bytes = 0; entry = 0 }

abbrev plan : LoadPlan
plan = value_or (build 0x20_0010 specs file) no_plan

plan_built : build 0x20_0010 specs file ≡ ok plan
unfolding build page_end add_segments add_segment make_item round_down round_up check_items
    is_executable
plan_built = refl

build-IsLoadPlan_example : IsLoadPlan 0x20_0010 specs file plan
build-IsLoadPlan_example = build-IsLoadPlan 0x20_0010 specs file plan plan_built

abbrev high : ValidatedHigherHalfImage
high = record {
  image = record {
    raw = record {
      bytes = bytes;
      header = record {
        class = 2;
        endianness = 1;
        ident_version = 1;
        os_abi = 0;
        object_type = 2;
        machine = 62;
        elf_version = 1;
        entry = 0xffff_ffff_8020_0000;
        program_header_offset = 64;
        section_header_offset = 0;
        header_size = 64;
        program_header_size = 56;
        program_header_count = 3;
        section_header_size = 0;
        section_header_count = 0;
      };
    };
    load_count = 3;
    load_start = 0x20_0000;
    load_end = 0x20_2040;
    virtual_load_start = 0xffff_ffff_8020_0000;
    virtual_load_end = 0xffff_ffff_8020_2040;
  };
  physical_entry = 0x20_0000;
}

abbrev high_plan : HigherHalfLoadPlan
high_plan = value_or (from_validated high file) (record {
  load = no_plan;
  mappings = record { array = []; len = 0 };
  virtual_entry = 0;
  physical_entry = 0;
  translation_offset = 0;
  virtual_start = 0;
  virtual_end = 0;
})

high_planned : from_validated high file ≡ ok high_plan
unfolding from_validated build page_end add_segments add_segment make_item round_down round_up
    check_items is_executable load_segments segments_from program_header parse_program_header read
    map_segments map_segment mapping_policy canonical_half is_canonical new_physical_address
    new_virtual_address executable new_physical_range new_virtual_range new translate translate_in
    insert_mapping validate_mapping_policy from_bits user writable
high_planned = refl

from_validated-IsHigherHalfPlan_example : IsHigherHalfPlan high file high_plan
from_validated-IsHigherHalfPlan_example =
    from_validated-IsHigherHalfPlan high file high_plan high_planned
