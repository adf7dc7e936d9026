-- ===== src/KernelImage/Validate.antt =====
-- The checks of crates/kernel-image/src/lib.rs on the header, the two tables and one segment.
use unnamed_os_core.Common.{
  ℕ, zero, suc, ◌+◌, ◌-◌, ◌/◌, ◌%◌, Bool, not, ◌&&◌, ◌||◌, ltb, ◌==◌, if◌then◌else◌, bit_and,
  Result, ok, ◌>>=◌, ◌>>◌, reject_if, ok_or, List, length, get_or, checked_add, checked_mul,
  is_power_of_two, u64_end,
}
use unnamed_os_core.KernelImage.{
  ValidationError, header_too_small, bad_magic, unsupported_class, unsupported_endianness,
  unsupported_ident_version, unsupported_os_abi, unsupported_object_type, unsupported_machine,
  unsupported_elf_version, invalid_header_size, invalid_program_header_size,
  too_many_program_headers, program_header_table_overflow, program_header_table_outside_file,
  invalid_section_header_size, section_header_table_overflow, section_header_table_outside_file,
  runtime_relocations, zero_length_load_segment, file_size_exceeds_memory_size,
  segment_file_range_overflow, segment_outside_file, segment_memory_range_overflow,
  invalid_alignment, invalid_offset_address_congruence, writable_executable_segment,
  non_canonical_address, invalid_symbol_table, undefined_runtime_symbol, RawHeader,
  RawProgramHeader, RawImage, is_canonical,
}
use unnamed_os_core.KernelImage.Bytes.{read_u16, read_u32, read_u64}

-- `bytes[..4] == [0x7f, b'E', b'L', b'F']`
abbrev is_magic : List ℕ → Bool
is_magic bytes =
    get_or bytes 0 0 == 0x7f
    && get_or bytes 1 0 == 0x45
    && get_or bytes 2 0 == 0x4c
    && get_or bytes 3 0 == 0x46

unfoldable pub validate_magic : List ℕ → Result ValidationError (Unit {0})
validate_magic bytes = do
  reject_if (ltb (length bytes) 4) header_too_small
  reject_if (not (is_magic bytes)) bad_magic

-- `RawImage::parse`; the four indexed bytes are inside, since there are 64.
unfoldable pub parse_raw : List ℕ → Result ValidationError RawImage
parse_raw bytes = do
  reject_if (ltb (length bytes) 64) header_too_small
  object_type ← ok_or (read_u16 bytes 16) header_too_small
  machine ← ok_or (read_u16 bytes 18) header_too_small
  elf_version ← ok_or (read_u32 bytes 20) header_too_small
  entry ← ok_or (read_u64 bytes 24) header_too_small
  program_header_offset ← ok_or (read_u64 bytes 32) header_too_small
  section_header_offset ← ok_or (read_u64 bytes 40) header_too_small
  header_size ← ok_or (read_u16 bytes 52) header_too_small
  program_header_size ← ok_or (read_u16 bytes 54) header_too_small
  program_header_count ← ok_or (read_u16 bytes 56) header_too_small
  section_header_size ← ok_or (read_u16 bytes 58) header_too_small
  section_header_count ← ok_or (read_u16 bytes 60) header_too_small
  ok (record {
    bytes = bytes;
    header = record {
      class = get_or bytes 4 0;
      endianness = get_or bytes 5 0;
      ident_version = get_or bytes 6 0;
      os_abi = get_or bytes 7 0;
      object_type = object_type;
      machine = machine;
      elf_version = elf_version;
      entry = entry;
      program_header_offset = program_header_offset;
      section_header_offset = section_header_offset;
      header_size = header_size;
      program_header_size = program_header_size;
      program_header_count = program_header_count;
      section_header_size = section_header_size;
      section_header_count = section_header_count;
    };
  })

unfoldable pub validate_header : RawHeader → Result ValidationError (Unit {0})
validate_header h = do
  reject_if (not (h.class == 2)) unsupported_class
  reject_if (not (h.endianness == 1)) unsupported_endianness
  reject_if (not (h.ident_version == 1)) unsupported_ident_version
  reject_if (not (h.os_abi == 0)) unsupported_os_abi
  reject_if (not (h.object_type == 2)) unsupported_object_type
  reject_if (not (h.machine == 62)) unsupported_machine
  reject_if (not (h.elf_version == 1)) unsupported_elf_version
  reject_if (not (h.header_size == 64)) invalid_header_size
  reject_if (not (h.program_header_size == 56)) invalid_program_header_size
  reject_if (ltb 128 h.program_header_count) too_many_program_headers

unfoldable pub validate_program_table : RawImage → Result ValidationError (Unit {0})
validate_program_table raw = do
  table_size ←
      ok_or (checked_mul raw.header.program_header_size raw.header.program_header_count)
        program_header_table_overflow
  table_end ←
      ok_or (checked_add raw.header.program_header_offset table_size) program_header_table_overflow
  reject_if (ltb (length raw.bytes) table_end) program_header_table_outside_file

-- `a + b` of a `u64`, whose sum wraps.
abbrev wrapping : ℕ → ℕ → ℕ
wrapping a b = (a + b) % u64_end

-- `for index in index..index + rounds` of `validate_symbol_table`
unfoldable pub check_symbols : ℕ → ℕ → List ℕ → ℕ → ℕ → Result ValidationError (Unit {0})
check_symbols zero index bytes file_offset entry_size = ok tt
check_symbols (suc rounds) index bytes file_offset entry_size = do
  relative ← ok_or (checked_mul index entry_size) section_header_table_overflow
  symbol ← ok_or (checked_add file_offset relative) section_header_table_overflow
  section_index ← ok_or (read_u16 bytes (wrapping symbol 6)) section_header_table_outside_file
  reject_if (section_index == 0) undefined_runtime_symbol
  check_symbols rounds (index + 1) bytes file_offset entry_size

unfoldable pub validate_symbol_table : List ℕ → ℕ → ℕ → Result ValidationError (Unit {0})
validate_symbol_table bytes section_offset section_size = do
  file_offset ←
      ok_or (read_u64 bytes (wrapping section_offset 24)) section_header_table_outside_file
  entry_size ← ok_or (read_u64 bytes (wrapping section_offset 56)) section_header_table_outside_file
  reject_if (not (entry_size == 24) || not (section_size % entry_size == 0)) invalid_symbol_table
  end ← ok_or (checked_add file_offset section_size) section_header_table_overflow
  reject_if (ltb (length bytes) end) section_header_table_outside_file
  check_symbols (section_size / entry_size - 1) 1 bytes file_offset entry_size

-- The body of the loop of `validate_section_table`, for a header at an offset.
unfoldable pub check_section : List ℕ → ℕ → Result ValidationError (Unit {0})
check_section bytes offset = do
  section_type ← ok_or (read_u32 bytes (wrapping offset 4)) section_header_table_outside_file
  section_size ← ok_or (read_u64 bytes (wrapping offset 32)) section_header_table_outside_file
  reject_if ((section_type == 9 || section_type == 4) && not (section_size == 0))
      runtime_relocations
  if section_type == 2 || section_type == 11
      then validate_symbol_table bytes offset section_size
      else ok tt

unfoldable pub check_sections : ℕ → ℕ → RawImage → Result ValidationError (Unit {0})
check_sections zero index raw = ok tt
check_sections (suc rounds) index raw = do
  relative ← ok_or (checked_mul index raw.header.section_header_size) section_header_table_overflow
  offset ←
      ok_or (checked_add raw.header.section_header_offset relative) section_header_table_overflow
  check_section raw.bytes offset
  check_sections rounds (index + 1) raw

-- `validate_section_table` for a file that has sections.
unfoldable pub check_section_table : RawImage → Result ValidationError (Unit {0})
check_section_table raw = do
  reject_if (not (raw.header.section_header_size == 64)) invalid_section_header_size
  table_size ←
      ok_or (checked_mul raw.header.section_header_size raw.header.section_header_count)
        section_header_table_overflow
  table_end ←
      ok_or (checked_add raw.header.section_header_offset table_size) section_header_table_overflow
  reject_if (ltb (length raw.bytes) table_end) section_header_table_outside_file
  check_sections raw.header.section_header_count 0 raw

unfoldable pub validate_section_table : RawImage → Result ValidationError (Unit {0})
validate_section_table raw =
    if raw.header.section_header_count == 0 then ok tt else check_section_table raw

-- The ends of the physical and of the virtual range.
unfoldable pub validate_load_segment : List ℕ → RawProgramHeader → Result ValidationError (ℕ × ℕ)
validate_load_segment bytes p = do
  reject_if (p.memory_size == 0) zero_length_load_segment
  reject_if (ltb p.memory_size p.file_size) file_size_exceeds_memory_size
  file_end ← ok_or (checked_add p.file_offset p.file_size) segment_file_range_overflow
  reject_if (ltb (length bytes) file_end) segment_outside_file
  memory_end ← ok_or (checked_add p.physical_address p.memory_size) segment_memory_range_overflow
  virtual_end ← ok_or (checked_add p.virtual_address p.memory_size) segment_memory_range_overflow
  reject_if (not (is_canonical p.virtual_address) || not (is_canonical (virtual_end - 1)))
      non_canonical_address
  reject_if (ltb 1 p.alignment && not (is_power_of_two p.alignment)) invalid_alignment
  reject_if
      (ltb 1 p.alignment && not (p.file_offset % p.alignment == p.virtual_address % p.alignment))
      invalid_offset_address_congruence
  reject_if (bit_and p.flags 3 == 3) writable_executable_segment
  ok (memory_end, virtual_end)
