-- ===== src/KernelImage/Parse.antt =====
-- `ValidatedImage::parse` of crates/kernel-image/src/lib.rs, and the iterator over the segments of
-- an image.
use unnamed_os_core.Common.{
  ℕ, zero, suc, ◌+◌, ◌-◌, Bool, not, ◌&&◌, ◌||◌, false, ltb, leb, ◌==◌, if◌then◌else◌, bit_and, min,
  max, Result, ok, err, ◌>>=◌, ◌>>◌, reject_if, ok_or, none, some, List, [], ◌∷◌, checked_add,
  u64_end,
}
use unnamed_os_core.KernelImage.{
  ValidationError, program_header_table_outside_file, interpreter_segment, dynamic_segment,
  tls_segment, no_load_segments, segment_memory_range_overflow, overlapping_load_segments,
  overlapping_virtual_load_segments, entry_outside_executable_segment, RawProgramHeader, RawImage,
  LoadSegment, pt_load, ranges_overlap, is_canonical,
}
use unnamed_os_core.KernelImage.Bytes.{program_header}
use unnamed_os_core.KernelImage.Validate.{
  validate_magic, parse_raw, validate_header, validate_program_table, validate_section_table,
  validate_load_segment,
}

-- The variables of the loop over the program headers.
pub record Scan : Type 0 where
  pub load_count : ℕ
  pub load_start : ℕ
  pub load_end : ℕ
  pub virtual_load_start : ℕ
  pub virtual_load_end : ℕ
  pub entry_is_executable : Bool

abbrev pub empty_scan : Scan
empty_scan = record {
  load_count = 0;
  load_start = u64_end - 1;
  load_end = 0;
  virtual_load_start = u64_end - 1;
  virtual_load_end = 0;
  entry_is_executable = false;
}

pub record ValidatedImage : Type 0 where
  pub raw : RawImage
  pub load_count : ℕ
  pub load_start : ℕ
  pub load_end : ℕ
  pub virtual_load_start : ℕ
  pub virtual_load_end : ℕ

-- A segment with the ends of its two ranges, against an earlier header.
unfoldable pub check_against :
    RawProgramHeader → ℕ → ℕ → RawProgramHeader → Result ValidationError (Unit {0})
check_against program physical_end virtual_end previous = do
  previous_physical_end ←
      ok_or (checked_add previous.physical_address previous.memory_size)
        segment_memory_range_overflow
  reject_if
      (ranges_overlap previous.physical_address previous_physical_end program.physical_address
        physical_end)
      overlapping_load_segments
  previous_virtual_end ←
      ok_or (checked_add previous.virtual_address previous.memory_size)
        segment_memory_range_overflow
  reject_if
      (ranges_overlap previous.virtual_address previous_virtual_end program.virtual_address
        virtual_end)
      overlapping_virtual_load_segments

-- `for previous_index in previous_index..previous_index + rounds`
unfoldable pub check_previous :
    RawImage → RawProgramHeader → ℕ → ℕ → ℕ → ℕ → Result ValidationError (Unit {0})
check_previous raw program physical_end virtual_end zero previous_index = ok tt
check_previous raw program physical_end virtual_end (suc rounds) previous_index = do
  previous ← ok_or (program_header raw previous_index) program_header_table_outside_file
  if previous.segment_type == pt_load
      then check_against program physical_end virtual_end previous
      else ok tt
  check_previous raw program physical_end virtual_end rounds (previous_index + 1)

-- The case of `PT_LOAD`.
unfoldable pub scan_load : RawImage → ℕ → RawProgramHeader → Scan → Result ValidationError Scan
scan_load raw index program scan = do
  (physical_end, virtual_end) ← validate_load_segment raw.bytes program
  check_previous raw program physical_end virtual_end index 0
  ok (record {
    load_count = scan.load_count + 1;
    load_start = min scan.load_start program.physical_address;
    load_end = max scan.load_end physical_end;
    virtual_load_start = min scan.virtual_load_start program.virtual_address;
    virtual_load_end = max scan.virtual_load_end virtual_end;
    entry_is_executable =
        not (bit_and program.flags 1 == 0)
          && leb program.virtual_address raw.header.entry
          && ltb raw.header.entry virtual_end
        || scan.entry_is_executable;
  })

-- The `match` on the type of a segment: PT_INTERP, PT_DYNAMIC, PT_TLS and PT_LOAD.
unfoldable pub scan_header : RawImage → ℕ → RawProgramHeader → Scan → Result ValidationError Scan
scan_header raw index program scan =
    if program.segment_type == 3
    then err interpreter_segment
    else if program.segment_type == 2
    then err dynamic_segment
    else if program.segment_type == 7
    then err tls_segment
    else if program.segment_type == pt_load
    then scan_load raw index program scan
    else ok scan

-- `for index in index..index + rounds`
unfoldable pub scan_headers : RawImage → ℕ → ℕ → Scan → Result ValidationError Scan
scan_headers raw zero index scan = ok scan
scan_headers raw (suc rounds) index scan = do
  program ← ok_or (program_header raw index) program_header_table_outside_file
  next ← scan_header raw index program scan
  scan_headers raw rounds (index + 1) next

-- What `parse` does behind the checks of the header and the tables.
unfoldable pub collect : RawImage → Result ValidationError ValidatedImage
collect raw = do
  scan ← scan_headers raw raw.header.program_header_count 0 empty_scan
  reject_if (scan.load_count == 0) no_load_segments
  reject_if (not (is_canonical raw.header.entry) || not scan.entry_is_executable)
      entry_outside_executable_segment
  ok (record {
    raw = raw;
    load_count = scan.load_count;
    load_start = scan.load_start;
    load_end = scan.load_end;
    virtual_load_start = scan.virtual_load_start;
    virtual_load_end = scan.virtual_load_end;
  })

-- `ValidatedImage::parse`
unfoldable pub parse : List ℕ → Result ValidationError ValidatedImage
parse bytes = do
  validate_magic bytes
  raw ← parse_raw bytes
  validate_header raw.header
  validate_program_table raw
  validate_section_table raw
  collect raw

abbrev pub to_segment : RawProgramHeader → LoadSegment
to_segment p = record {
  file_offset = p.file_offset;
  file_size = p.file_size;
  memory_size = p.memory_size;
  physical_address = p.physical_address;
  virtual_address = p.virtual_address;
  alignment = p.alignment;
  flags = p.flags;
}

-- What the iterator `LoadSegments` yields from an index on, until its first `None`.
unfoldable pub segments_from : RawImage → ℕ → ℕ → List LoadSegment
segments_from raw zero index = []
segments_from raw (suc rounds) index =
    let rest = segments_from raw rounds (index + 1) in
    elim (program_header raw index) [
      | none ↦ []
      | some p ↦ if p.segment_type == pt_load then to_segment p ∷ rest else rest
    ]

-- `ValidatedImage::load_segments`
unfoldable pub load_segments : ValidatedImage → List LoadSegment
unfolding segments_from
load_segments image = segments_from image.raw image.raw.header.program_header_count 0
