-- ===== src/BootProtocol.antt =====
-- The boot protocol between loader and kernel, crates/boot-protocol/src/lib.rs: the raw structures of
-- the wire format with their constants. The fields have the widths of the source's types; where a
-- theorem needs that, it says so.
pub mod Validate
pub mod Accepts
pub mod Extensions
mod Tests
use unnamed_os_core.Common.{ℕ}

-- ASCII `UNOSBOOT` as a little-endian `u64`.
abbrev pub abi_magic : ℕ
abi_magic = 0x544F_4F42_534F_4E55

abbrev pub abi_major : ℕ
abi_major = 1

abbrev pub abi_minor : ℕ
abi_minor = 0

abbrev pub boot_info_header_size : ℕ
boot_info_header_size = 32

abbrev pub boot_info_size : ℕ
boot_info_size = 128

abbrev pub memory_descriptor_size : ℕ
memory_descriptor_size = 32

abbrev pub memory_descriptor_alignment : ℕ
memory_descriptor_alignment = 8

abbrev pub memory_page_size : ℕ
memory_page_size = 4096

abbrev pub pixel_format_rgbx8888 : ℕ
pixel_format_rgbx8888 = 1

abbrev pub pixel_format_bgrx8888 : ℕ
pixel_format_bgrx8888 = 2

abbrev pub bytes_per_pixel : ℕ
bytes_per_pixel = 4

abbrev pub memory_kind_page_table : ℕ
memory_kind_page_table = 13

pub record BootInfoHeader : Type 0 where
  pub magic : ℕ
  pub major : ℕ
  pub minor : ℕ
  pub header_size : ℕ
  pub reserved0 : ℕ
  pub total_size : ℕ
  pub reserved1 : ℕ
  pub flags : ℕ

pub record MemoryMapInfo : Type 0 where
  pub physical_address : ℕ
  pub descriptor_count : ℕ
  pub descriptor_stride : ℕ
  pub descriptor_version : ℕ
  pub reserved0 : ℕ
  pub byte_length : ℕ
  pub reserved1 : ℕ

pub record MemoryDescriptor : Type 0 where
  pub kind : ℕ
  pub reserved0 : ℕ
  pub physical_start : ℕ
  pub page_count : ℕ
  pub attributes : ℕ

pub record FramebufferInfo : Type 0 where
  pub physical_address : ℕ
  pub byte_length : ℕ
  pub width : ℕ
  pub height : ℕ
  pub pixels_per_scanline : ℕ
  pub pixel_format : ℕ
  pub reserved0 : ℕ

pub record BootInfo : Type 0 where
  pub header : BootInfoHeader
  pub memory_map : MemoryMapInfo
  pub framebuffer : FramebufferInfo
  pub reserved0 : ℕ
  pub reserved1 : ℕ

-- `BootInfo::new`
unfoldable pub new : MemoryMapInfo → FramebufferInfo → BootInfo
new memory_map framebuffer = record {
  header = record {
    magic = abi_magic;
    major = abi_major;
    minor = abi_minor;
    header_size = boot_info_header_size;
    reserved0 = 0;
    total_size = boot_info_size;
    reserved1 = 0;
    flags = 0;
  };
  memory_map = memory_map;
  framebuffer = framebuffer;
  reserved0 = 0;
  reserved1 = 0;
}

pub data ReservedField : Type 0 where
  header0 header1 memory_map0 memory_map1 memory_descriptor0 framebuffer0 : ReservedField
  boot_info0 boot_info1 : ReservedField

pub data ValidationError : Type 0 where
  bad_magic unsupported_major_version invalid_header_size invalid_total_size : ValidationError
  unsupported_flags : ValidationError
  reserved_not_zero : ReservedField → ValidationError
  invalid_memory_map_address invalid_descriptor_count invalid_descriptor_stride : ValidationError
  memory_map_size_overflow memory_map_length_mismatch memory_map_range_overflow : ValidationError
  invalid_memory_descriptor_range memory_descriptor_size_overflow : ValidationError
  memory_descriptor_range_overflow invalid_framebuffer_address : ValidationError
  invalid_framebuffer_length invalid_framebuffer_dimensions : ValidationError
  invalid_framebuffer_stride unknown_pixel_format framebuffer_size_overflow : ValidationError
  framebuffer_too_small framebuffer_range_overflow : ValidationError
