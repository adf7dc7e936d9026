-- ===== src/KernelImage.antt =====
-- The types of crates/kernel-image/src/lib.rs: the errors, the raw headers of an ELF file, and the
-- segments that are to be loaded.
pub mod Bytes
pub mod Validate
pub mod Parse
pub mod Kinds
pub mod Scanned
pub mod Sound
pub mod Image
pub mod Bootstrap
pub mod HigherHalf
pub mod Tests
use unnamed_os_core.Common.{
  ℕ, ◌+◌, ◌-◌, ◌/◌, Bool, not, ◌&&◌, ◌||◌, ltb, leb, ◌==◌, bit_and, Result, ok, ◌>>=◌, ◌>>◌,
  reject_if, ok_or, checked_add, is_power_of_two, List,
}

pub data ValidationError : Type 0 where
  header_too_small bad_magic unsupported_class unsupported_endianness : ValidationError
  unsupported_ident_version unsupported_os_abi unsupported_object_type : ValidationError
  unsupported_machine unsupported_elf_version invalid_header_size : ValidationError
  invalid_program_header_size too_many_program_headers : ValidationError
  program_header_table_overflow program_header_table_outside_file : ValidationError
  invalid_section_header_size section_header_table_overflow : ValidationError
  section_header_table_outside_file runtime_relocations interpreter_segment : ValidationError
  dynamic_segment tls_segment no_load_segments zero_length_load_segment : ValidationError
  file_size_exceeds_memory_size segment_file_range_overflow segment_outside_file : ValidationError
  segment_memory_range_overflow invalid_alignment invalid_offset_address_congruence :
      ValidationError
  writable_executable_segment non_canonical_address physical_virtual_address_mismatch :
      ValidationError
  overlapping_load_segments overlapping_virtual_load_segments : ValidationError
  entry_outside_executable_segment invalid_page_size invalid_symbol_table : ValidationError
  undefined_runtime_symbol : ValidationError

pub record RawHeader : Type 0 where
  pub class : ℕ
  pub endianness : ℕ
  pub ident_version : ℕ
  pub os_abi : ℕ
  pub object_type : ℕ
  pub machine : ℕ
  pub elf_version : ℕ
  pub entry : ℕ
  pub program_header_offset : ℕ
  pub section_header_offset : ℕ
  pub header_size : ℕ
  pub program_header_size : ℕ
  pub program_header_count : ℕ
  pub section_header_size : ℕ
  pub section_header_count : ℕ

pub record RawProgramHeader : Type 0 where
  pub segment_type : ℕ
  pub flags : ℕ
  pub file_offset : ℕ
  pub virtual_address : ℕ
  pub physical_address : ℕ
  pub file_size : ℕ
  pub memory_size : ℕ
  pub alignment : ℕ

-- The file with its header.
pub record RawImage : Type 0 where
  pub bytes : List ℕ
  pub header : RawHeader

pub record LoadSegment : Type 0 where
  pub file_offset : ℕ
  pub file_size : ℕ
  pub memory_size : ℕ
  pub physical_address : ℕ
  pub virtual_address : ℕ
  pub alignment : ℕ
  pub flags : ℕ

-- PT_LOAD; PF_EXECUTE, PF_WRITE and PF_READ are the bits 0, 1 and 2 of the flags.
abbrev pub pt_load : ℕ
pt_load = 1

abbrev pub bootstrap_link_address : ℕ
bootstrap_link_address = 0x20_0000

abbrev pub bootstrap_page_size : ℕ
bootstrap_page_size = 4096

abbrev pub bootstrap_physical_end : ℕ
bootstrap_physical_end = 0x420_0000

abbrev pub higher_half_virtual_offset : ℕ
higher_half_virtual_offset = 0xffff_ffff_8000_0000

abbrev pub higher_half_link_address : ℕ
higher_half_link_address = 0xffff_ffff_8020_0000

abbrev pub kernel_image_virtual_start : ℕ
kernel_image_virtual_start = 0xffff_ffff_8000_0000

abbrev pub kernel_image_virtual_end : ℕ
kernel_image_virtual_end = 0xffff_ffff_c000_0000

unfoldable pub is_readable : LoadSegment → Bool
is_readable s = not (bit_and s.flags 4 == 0)

unfoldable pub is_writable : LoadSegment → Bool
is_writable s = not (bit_and s.flags 2 == 0)

unfoldable pub is_executable : LoadSegment → Bool
is_executable s = not (bit_and s.flags 1 == 0)

abbrev pub ranges_overlap : ℕ → ℕ → ℕ → ℕ → Bool
ranges_overlap a_start a_end b_start b_end = ltb a_start b_end && ltb b_start a_end

unfoldable pub is_canonical : ℕ → Bool
is_canonical address = leb address 0x7fff_ffff_ffff || leb 0xffff_8000_0000_0000 address

-- `end - 1` is not below 0: the segments of an image are not empty.
unfoldable pub page_count : LoadSegment → ℕ → Result ValidationError ℕ
page_count s page_size = do
  reject_if (page_size == 0 || not (is_power_of_two page_size)) invalid_page_size
  end ← ok_or (checked_add s.physical_address s.memory_size) segment_memory_range_overflow
  ok ((end - 1) / page_size - s.physical_address / page_size + 1)
