-- ===== src/BootProtocol/Extensions.antt =====
-- The extension area of the boot protocol, crates/boot-protocol/src/extensions.rs. A read behind the
-- end of a slice is a panic. `usize` has 64 bits.
pub mod Area
pub mod FrameList
pub mod Reads
pub mod Ends
pub mod Frames
use unnamed_os_core.Common.{
  ℕ, zero, suc, ◌+◌, ◌-◌, ◌*◌, ◌%◌, Bool, true, false, not, ◌&&◌, ◌||◌, ltb, leb, ◌==◌,
  if◌then◌else◌, bit_and, Result, ok, err, ◌>>=◌, ◌>>◌, reject_if, ok_or, map_err, checked_add,
  checked_mul, Option, some, none, List, [], ◌∷◌, ◌++◌, length, get_range, any, Fault, raised,
  panic, expect, u32_end,
}
use unnamed_os_core.KernelImage.Bytes.{from_le_bytes}
use unnamed_os_core.BootProtocol.{
  abi_major, boot_info_size, memory_kind_page_table, memory_page_size, MemoryDescriptor,
}
use unnamed_os_core.BootProtocol.Validate.{validate_descriptor}

abbrev pub boot_envelope_abi_major : ℕ
boot_envelope_abi_major = 2

abbrev pub extension_header_size : ℕ
extension_header_size = 16

abbrev pub extension_version_1 : ℕ
extension_version_1 = 1

abbrev pub extension_flag_required : ℕ
extension_flag_required = 1

abbrev pub extension_kind_page_table_ownership : ℕ
extension_kind_page_table_ownership = 1

abbrev pub page_table_ownership_size : ℕ
page_table_ownership_size = 80

abbrev pub owned_page_table_frame_size : ℕ
owned_page_table_frame_size = 16

-- `align_of::<OwnedPageTableFrame>()`
abbrev pub owned_page_table_frame_alignment : ℕ
owned_page_table_frame_alignment = 8

abbrev pub page_table_hierarchy_version : ℕ
page_table_hierarchy_version = 1

abbrev pub page_table_state_transitional : ℕ
page_table_state_transitional = 1

abbrev pub page_table_state_final : ℕ
page_table_state_final = 2

abbrev pub page_table_physical_cap : ℕ
page_table_physical_cap = 0x0000_4000_0000_0000

pub record ExtensionHeader : Type 0 where
  pub kind : ℕ
  pub version : ℕ
  pub header_size : ℕ
  pub total_size : ℕ
  pub flags : ℕ

pub record PageTableOwnership : Type 0 where
  pub hierarchy_version : ℕ
  pub paging_level_count : ℕ
  pub state : ℕ
  pub page_size : ℕ
  pub root_physical_frame : ℕ
  pub owned_frame_list_physical_address : ℕ
  pub owned_frame_count : ℕ
  pub descriptor_stride : ℕ
  pub physical_address_cap : ℕ
  pub reserved0 : ℕ
  pub reserved1 : ℕ
  pub reserved2 : ℕ

pub data ExtensionError : Type 0 where
  unsupported_envelope_version extensions_forbidden_for_v1 total_size_mismatch : ExtensionError
  extension_area_misaligned truncated_extension_header invalid_extension_header_size :
      ExtensionError
  invalid_extension_size unsupported_extension_flags unknown_required_extension : ExtensionError
  unsupported_page_table_extension_version duplicate_page_table_ownership : ExtensionError
  unsupported_hierarchy_version unsupported_paging_level_count invalid_page_table_state :
      ExtensionError
  unsupported_page_size invalid_physical_address_cap invalid_root_frame : ExtensionError
  invalid_owned_frame_list_address empty_owned_frame_list invalid_owned_frame_stride :
      ExtensionError
  owned_frame_list_size_overflow owned_frame_list_range_overflow : ExtensionError
  extension_count_overflow truncated_page_table_ownership reserved_not_zero : ExtensionError
  owned_frame_count_mismatch owned_frame_reserved_not_zero unaligned_owned_frame : ExtensionError
  owned_frame_outside_physical_cap duplicate_owned_frame root_frame_missing_or_duplicated :
      ExtensionError
  owned_frame_not_reserved : ExtensionError

unfoldable pub validate_frame_address : ℕ → ℕ → Result ExtensionError (Unit {0})
validate_frame_address address cap = do
  reject_if (address == 0 || not (address % memory_page_size == 0))
      (if address % memory_page_size == 0 then invalid_root_frame else unaligned_owned_frame)
  end ← ok_or (checked_add address memory_page_size) owned_frame_outside_physical_cap
  reject_if (ltb cap end) owned_frame_outside_physical_cap

pub record ValidatedPageTableOwnership : Type 0 where
  pub raw : PageTableOwnership
  pub list_byte_length : ℕ

-- `PageTableOwnership::validate`
unfoldable pub validate_ownership :
    PageTableOwnership → Result ExtensionError ValidatedPageTableOwnership
validate_ownership o = do
  reject_if (not (o.hierarchy_version == page_table_hierarchy_version))
      unsupported_hierarchy_version
  reject_if (not (o.paging_level_count == 4)) unsupported_paging_level_count
  reject_if
      (not (o.state == page_table_state_transitional) && not (o.state == page_table_state_final))
      invalid_page_table_state
  reject_if (not (o.page_size == memory_page_size)) unsupported_page_size
  reject_if (not (o.physical_address_cap == page_table_physical_cap)) invalid_physical_address_cap
  validate_frame_address o.root_physical_frame o.physical_address_cap
  reject_if
      (o.owned_frame_list_physical_address == 0
        || not (o.owned_frame_list_physical_address % owned_page_table_frame_alignment == 0))
      invalid_owned_frame_list_address
  reject_if (o.owned_frame_count == 0) empty_owned_frame_list
  reject_if
      (ltb o.descriptor_stride owned_page_table_frame_size || not (o.descriptor_stride % 8 == 0))
      invalid_owned_frame_stride
  list_byte_length ←
      ok_or (checked_mul o.owned_frame_count o.descriptor_stride) owned_frame_list_size_overflow
  list_end ←
      ok_or (checked_add o.owned_frame_list_physical_address list_byte_length)
        owned_frame_list_range_overflow
  reject_if (ltb o.physical_address_cap list_end) invalid_owned_frame_list_address
  reject_if (not (o.reserved0 == 0) || not (o.reserved1 == 0) || not (o.reserved2 == 0))
      reserved_not_zero
  ok (record { raw = o; list_byte_length = list_byte_length })

pub record OwnedPageTableFrame : Type 0 where
  pub physical_frame : ℕ
  pub reserved0 : ℕ

pub record ExtensionSummary : Type 0 where
  pub page_table_ownership : Option ValidatedPageTableOwnership
  pub extension_count : ℕ
