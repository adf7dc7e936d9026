-- ===== src/BootProtocol/Extensions/Area.antt =====
-- The extension area of the boot protocol, `validate_extension_area` of
-- crates/boot-protocol/src/extensions.rs.
use unnamed_os_core.Common.{
  ℕ, zero, suc, ◌+◌, ◌-◌, ◌%◌, Bool, true, false, not, ◌||◌, ltb, leb, ◌==◌, if◌then◌else◌, bit_and,
  Result, ok, err, ◌>>=◌, ◌>>◌, reject_if, ok_or, map_err, checked_add, Option, some, none, List,
  length, get_range, Fault, raised, expect, u32_end,
}
use unnamed_os_core.KernelImage.Bytes.{from_le_bytes}
use unnamed_os_core.BootProtocol.{abi_major, boot_info_size}
use unnamed_os_core.BootProtocol.Extensions.{
  boot_envelope_abi_major, extension_header_size, extension_version_1, extension_flag_required,
  extension_kind_page_table_ownership, page_table_ownership_size, ExtensionHeader,
  PageTableOwnership, ExtensionError, ValidatedPageTableOwnership, validate_ownership,
  ExtensionSummary, unsupported_envelope_version, extensions_forbidden_for_v1, total_size_mismatch,
  extension_area_misaligned, truncated_extension_header, invalid_extension_header_size,
  invalid_extension_size, unsupported_extension_flags, unknown_required_extension,
  unsupported_page_table_extension_version, duplicate_page_table_ownership,
  extension_count_overflow, truncated_page_table_ownership,
}

-- `read_u16`, `read_u32` and `read_u64` index two, four and eight bytes; `bytes[2]` is the read of one.
unfoldable pub read_le : ℕ → List ℕ → ℕ → Result (Fault ExtensionError) ℕ
read_le width bytes offset = do
  value ← expect (get_range bytes offset (offset + width))
  ok (from_le_bytes value)

unfoldable pub parse_extension_header : List ℕ → Result (Fault ExtensionError) ExtensionHeader
parse_extension_header bytes = do
  kind ← read_le 4 bytes 0
  version ← read_le 2 bytes 4
  header_size ← read_le 2 bytes 6
  total_size ← read_le 4 bytes 8
  flags ← read_le 4 bytes 12
  ok (record {
    kind = kind;
    version = version;
    header_size = header_size;
    total_size = total_size;
    flags = flags;
  })

unfoldable pub parse_page_table_ownership :
    List ℕ → Result (Fault ExtensionError) PageTableOwnership
parse_page_table_ownership bytes = do
  hierarchy_version ← read_le 2 bytes 0
  paging_level_count ← read_le 1 bytes 2
  state ← read_le 1 bytes 3
  page_size ← read_le 4 bytes 4
  root_physical_frame ← read_le 8 bytes 8
  owned_frame_list_physical_address ← read_le 8 bytes 16
  owned_frame_count ← read_le 4 bytes 24
  descriptor_stride ← read_le 4 bytes 28
  physical_address_cap ← read_le 8 bytes 32
  reserved0 ← read_le 8 bytes 40
  reserved1 ← read_le 8 bytes 48
  reserved2 ← read_le 8 bytes 56
  ok (record {
    hierarchy_version = hierarchy_version;
    paging_level_count = paging_level_count;
    state = state;
    page_size = page_size;
    root_physical_frame = root_physical_frame;
    owned_frame_list_physical_address = owned_frame_list_physical_address;
    owned_frame_count = owned_frame_count;
    descriptor_stride = descriptor_stride;
    physical_address_cap = physical_address_cap;
    reserved0 = reserved0;
    reserved1 = reserved1;
    reserved2 = reserved2;
  })

abbrev pub is_required : ExtensionHeader → Bool
is_required header = not (bit_and header.flags extension_flag_required == 0)

-- What a record of a page-table ownership adds to what is found.
unfoldable pub add_ownership :
    List ℕ
    → ExtensionHeader
    → ℕ
    → ℕ
    → Option ValidatedPageTableOwnership
    → Result (Fault ExtensionError) (Option ValidatedPageTableOwnership)
add_ownership bytes header header_end record_end (some found) =
    if not (header.version == extension_version_1)
    then (if is_required header
        then err (raised unsupported_page_table_extension_version)
        else ok (some found))
    else if not (header.total_size == page_table_ownership_size)
    then err (raised truncated_page_table_ownership)
    else err (raised duplicate_page_table_ownership)
add_ownership bytes header header_end record_end none =
    if not (header.version == extension_version_1)
    then (if is_required header
        then err (raised unsupported_page_table_extension_version)
        else ok none)
    else if not (header.total_size == page_table_ownership_size)
    then err (raised truncated_page_table_ownership)
    else parsed
  where
    parsed : Result (Fault ExtensionError) (Option ValidatedPageTableOwnership)
    parsed = do
      part ← expect (get_range bytes header_end record_end)
      ownership ← parse_page_table_ownership part
      valid ← map_err raised (validate_ownership ownership)
      ok (some valid)

-- The state of the loop over the records.
pub record Area : Type 0 where
  pub offset : ℕ
  pub count : ℕ
  pub ownership : Option ValidatedPageTableOwnership

-- `u32::checked_add`
abbrev pub checked_add_u32 : ℕ → ℕ → Option ℕ
checked_add_u32 a b = if ltb (a + b) u32_end then some (a + b) else none

-- The body of the loop.
unfoldable pub next_extension : List ℕ → Area → Result (Fault ExtensionError) Area
next_extension bytes area = do
  header_end ← ok_or (checked_add area.offset extension_header_size) (raised invalid_extension_size)
  reject_if (ltb (length bytes) header_end) (raised truncated_extension_header)
  part ← expect (get_range bytes area.offset header_end)
  header ← parse_extension_header part
  reject_if (not (header.header_size == extension_header_size))
      (raised invalid_extension_header_size)
  reject_if (ltb header.total_size header.header_size || not (header.total_size % 8 == 0))
      (raised invalid_extension_size)
  reject_if (not (bit_and header.flags (u32_end - 1 - extension_flag_required) == 0))
      (raised unsupported_extension_flags)
  record_end ← ok_or (checked_add area.offset header.total_size) (raised invalid_extension_size)
  reject_if (ltb (length bytes) record_end) (raised invalid_extension_size)
  ownership ←
      (if header.kind == extension_kind_page_table_ownership
        then add_ownership bytes header header_end record_end area.ownership
        else (if is_required header
            then err (raised unknown_required_extension)
            else ok area.ownership))
  count ← ok_or (checked_add_u32 area.count 1) (raised extension_count_overflow)
  ok (record { offset = record_end; count = count; ownership = ownership })

-- The loop, with the rounds that are allowed; none when they do not suffice.
unfoldable pub all_extensions : ℕ → List ℕ → Area → Option (Result (Fault ExtensionError) Area)
all_extensions zero bytes area = none
all_extensions (suc rounds) bytes area = elim (ltb area.offset (length bytes)) [
  | false ↦ some (ok area)
  | true ↦ elim (next_extension bytes area) [
    | err e ↦ some (err e)
    | ok next ↦ all_extensions rounds bytes next
  ]
]

-- What stands before the loop: the summary for a version without extensions, or none.
unfoldable pub check_area : ℕ → ℕ → List ℕ → Result (Fault ExtensionError) (Option ExtensionSummary)
check_area major declared_total_size bytes = do
  reject_if (leb u32_end (length bytes)) (raised total_size_mismatch)
  expected_total ←
      ok_or (checked_add_u32 boot_info_size (length bytes)) (raised total_size_mismatch)
  reject_if (not (declared_total_size == expected_total)) (raised total_size_mismatch)
  if major == abi_major
      then (if not (declared_total_size == boot_info_size) || not (length bytes == 0)
          then err (raised extensions_forbidden_for_v1)
          else ok (some (record { page_table_ownership = none; extension_count = 0 })))
      else (if not (major == boot_envelope_abi_major)
          then err (raised unsupported_envelope_version)
          else if not (length bytes % 8 == 0)
          then err (raised extension_area_misaligned)
          else ok none)

unfoldable pub summary : Area → ExtensionSummary
summary area = record { page_table_ownership = area.ownership; extension_count = area.count }

-- The minor version is not read.
unfoldable pub validate_extension_area :
    ℕ → ℕ → ℕ → ℕ → List ℕ → Option (Result (Fault ExtensionError) ExtensionSummary)
validate_extension_area rounds major minor declared_total_size bytes =
    elim (check_area major declared_total_size bytes) [
      | err e ↦ some (err e)
      | ok (some early) ↦ some (ok early)
      | ok none ↦
          elim (all_extensions rounds bytes (record { offset = 0; count = 0; ownership = none })) [
            | none ↦ none
            | some found ↦ some (found >>= λ area. ok (summary area))
          ]
    ]
