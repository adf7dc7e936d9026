-- ===== src/KernelImage/Bytes.antt =====
-- The reads of crates/kernel-image/src/lib.rs: little-endian numbers at an offset of a slice of
-- bytes. A `usize` has the 64 bits of a `u64`, so that every `usize::try_from` succeeds.
use unnamed_os_core.Common.{
  ℕ, ◌+◌, ◌*◌, leb, if◌then◌else◌, Option, none, some, List, [], ◌∷◌, get_range, checked_add,
  checked_mul,
}
use unnamed_os_core.Common.Options.{◌>>=◌}
use unnamed_os_core.KernelImage.{RawImage, RawProgramHeader}

-- `from_le_bytes`
abbrev pub from_le_bytes : List ℕ → ℕ
from_le_bytes [] = 0
from_le_bytes (b ∷ bs) = b + 256 * from_le_bytes bs

-- `read_u16`, `read_u32` and `read_u64` are the reads of two, four and eight bytes.
unfoldable pub read : ℕ → List ℕ → ℕ → Option ℕ
unfolding get_range
read width bytes offset = do
  end ← checked_add offset width
  value ← get_range bytes offset end
  some (from_le_bytes value)

abbrev pub read_u16 : List ℕ → ℕ → Option ℕ
read_u16 = read 2

abbrev pub read_u32 : List ℕ → ℕ → Option ℕ
read_u32 = read 4

abbrev pub read_u64 : List ℕ → ℕ → Option ℕ
read_u64 = read 8

unfoldable pub parse_program_header : List ℕ → ℕ → Option RawProgramHeader
parse_program_header bytes offset = do
  segment_type ← read_u32 bytes offset
  flags ← read_u32 bytes (← checked_add offset 4)
  file_offset ← read_u64 bytes (← checked_add offset 8)
  virtual_address ← read_u64 bytes (← checked_add offset 16)
  physical_address ← read_u64 bytes (← checked_add offset 24)
  file_size ← read_u64 bytes (← checked_add offset 32)
  memory_size ← read_u64 bytes (← checked_add offset 40)
  alignment ← read_u64 bytes (← checked_add offset 48)
  some (record {
    segment_type = segment_type;
    flags = flags;
    file_offset = file_offset;
    virtual_address = virtual_address;
    physical_address = physical_address;
    file_size = file_size;
    memory_size = memory_size;
    alignment = alignment;
  })

-- `RawImage::program_header`
unfoldable pub program_header : RawImage → ℕ → Option RawProgramHeader
unfolding parse_program_header
program_header raw index = if leb raw.header.program_header_count index then none else found
  where
    found : Option RawProgramHeader
    found = do
      relative ← checked_mul index raw.header.program_header_size
      offset ← checked_add raw.header.program_header_offset relative
      parse_program_header raw.bytes offset
