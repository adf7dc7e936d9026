-- ===== src/BootProtocol/Validate.antt =====
-- The validation of the boot information, crates/boot-protocol/src/lib.rs.
use unnamed_os_core.Common.{
  ℕ, ◌%◌, not, ◌||◌, ltb, leb, ◌==◌, if◌then◌else◌, Result, ok, ◌>>=◌, ◌>>◌, reject_if, ok_or,
  checked_add, checked_mul, Option, none, some,
}
use unnamed_os_core.BootProtocol.{
  abi_magic, abi_major, abi_minor, boot_info_header_size, boot_info_size, memory_descriptor_size,
  memory_descriptor_alignment, memory_page_size, pixel_format_rgbx8888, pixel_format_bgrx8888,
  bytes_per_pixel, BootInfoHeader, MemoryMapInfo, MemoryDescriptor, FramebufferInfo, BootInfo,
  ValidationError, header0, header1, memory_map0, memory_map1, memory_descriptor0, framebuffer0,
  boot_info0, boot_info1, bad_magic, unsupported_major_version, invalid_header_size,
  invalid_total_size, unsupported_flags, reserved_not_zero, invalid_memory_map_address,
  invalid_descriptor_count, invalid_descriptor_stride, memory_map_size_overflow,
  memory_map_length_mismatch, memory_map_range_overflow, invalid_memory_descriptor_range,
  memory_descriptor_size_overflow, memory_descriptor_range_overflow, invalid_framebuffer_address,
  invalid_framebuffer_length, invalid_framebuffer_dimensions, invalid_framebuffer_stride,
  unknown_pixel_format, framebuffer_size_overflow, framebuffer_too_small,
  framebuffer_range_overflow,
}

unfoldable pub validate_header : BootInfoHeader → Result ValidationError (Unit {0})
validate_header header = do
  reject_if (not (header.magic == abi_magic)) bad_magic
  reject_if (not (header.major == abi_major)) unsupported_major_version
  reject_if (not (header.header_size == boot_info_header_size)) invalid_header_size
  let valid_total_size =
      if header.minor == abi_minor
      then header.total_size == boot_info_size
      else leb boot_info_size header.total_size
  reject_if (not valid_total_size) invalid_total_size
  reject_if (not (header.reserved0 == 0)) (reserved_not_zero header0)
  reject_if (not (header.reserved1 == 0)) (reserved_not_zero header1)
  reject_if (not (header.flags == 0)) unsupported_flags

unfoldable pub validate_memory_map : MemoryMapInfo → Result ValidationError ℕ
validate_memory_map memory_map = do
  reject_if (memory_map.physical_address == 0) invalid_memory_map_address
  reject_if (memory_map.descriptor_count == 0) invalid_descriptor_count
  reject_if
      (ltb memory_map.descriptor_stride memory_descriptor_size
        || not (memory_map.descriptor_stride % memory_descriptor_alignment == 0))
      invalid_descriptor_stride
  reject_if (not (memory_map.reserved0 == 0)) (reserved_not_zero memory_map0)
  reject_if (not (memory_map.reserved1 == 0)) (reserved_not_zero memory_map1)
  byte_length ←
      ok_or (checked_mul memory_map.descriptor_count memory_map.descriptor_stride)
        memory_map_size_overflow
  reject_if (not (byte_length == memory_map.byte_length)) memory_map_length_mismatch
  _ ← ok_or (checked_add memory_map.physical_address byte_length) memory_map_range_overflow
  ok byte_length

-- `and_then` of the two products.
unfoldable pub framebuffer_bytes : ℕ → ℕ → Option ℕ
framebuffer_bytes stride height = elim (checked_mul stride height) [
  | none ↦ none
  | some pixels ↦ checked_mul pixels bytes_per_pixel
]

unfoldable pub validate_framebuffer : FramebufferInfo → Result ValidationError ℕ
validate_framebuffer framebuffer = do
  reject_if (framebuffer.physical_address == 0) invalid_framebuffer_address
  reject_if (framebuffer.byte_length == 0) invalid_framebuffer_length
  reject_if (framebuffer.width == 0 || framebuffer.height == 0) invalid_framebuffer_dimensions
  reject_if (ltb framebuffer.pixels_per_scanline framebuffer.width) invalid_framebuffer_stride
  reject_if
      (not (
        framebuffer.pixel_format == pixel_format_rgbx8888
        || framebuffer.pixel_format == pixel_format_bgrx8888))
      unknown_pixel_format
  reject_if (not (framebuffer.reserved0 == 0)) (reserved_not_zero framebuffer0)
  required_bytes ←
      ok_or (framebuffer_bytes framebuffer.pixels_per_scanline framebuffer.height)
        framebuffer_size_overflow
  reject_if (ltb framebuffer.byte_length required_bytes) framebuffer_too_small
  _ ←
      ok_or (checked_add framebuffer.physical_address framebuffer.byte_length)
        framebuffer_range_overflow
  ok required_bytes

pub record ValidatedBootInfo : Type 0 where
  pub raw : BootInfo
  pub memory_map_byte_length : ℕ
  pub framebuffer_required_bytes : ℕ

-- `BootInfo::validate`
unfoldable pub validate : BootInfo → Result ValidationError ValidatedBootInfo
validate info = do
  validate_header info.header
  memory_map_byte_length ← validate_memory_map info.memory_map
  framebuffer_required_bytes ← validate_framebuffer info.framebuffer
  reject_if (not (info.reserved0 == 0)) (reserved_not_zero boot_info0)
  reject_if (not (info.reserved1 == 0)) (reserved_not_zero boot_info1)
  ok (record {
    raw = info;
    memory_map_byte_length = memory_map_byte_length;
    framebuffer_required_bytes = framebuffer_required_bytes;
  })

pub record ValidatedMemoryDescriptor : Type 0 where
  pub raw : MemoryDescriptor
  pub byte_length : ℕ

-- `MemoryDescriptor::validate`
unfoldable pub validate_descriptor :
    MemoryDescriptor → Result ValidationError ValidatedMemoryDescriptor
validate_descriptor descriptor = do
  reject_if (not (descriptor.reserved0 == 0)) (reserved_not_zero memory_descriptor0)
  reject_if (descriptor.page_count == 0 || not (descriptor.physical_start % memory_page_size == 0))
      invalid_memory_descriptor_range
  byte_length ←
      ok_or (checked_mul descriptor.page_count memory_page_size) memory_descriptor_size_overflow
  _ ← ok_or (checked_add descriptor.physical_start byte_length) memory_descriptor_range_overflow
  ok (record { raw = descriptor; byte_length = byte_length })
