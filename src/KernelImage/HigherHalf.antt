-- ===== src/KernelImage/HigherHalf.antt =====
-- `validate_higher_half_image` of crates/kernel-image/src/lib.rs.
pub mod Laws
use unnamed_os_core.Common.{
  ℕ, ◌%◌, Bool, not, ◌&&◌, ◌||◌, true, false, ltb, leb, ◌==◌, if◌then◌else◌, Result, ok, err, ◌>>=◌,
  ◌>>◌, reject_if, ok_or, map_err, Option, none, some, List, [], ◌∷◌, any, checked_add, checked_sub,
}
use unnamed_os_core.KernelImage.{
  ValidationError, LoadSegment, bootstrap_link_address, bootstrap_page_size, bootstrap_physical_end,
  higher_half_virtual_offset, higher_half_link_address, kernel_image_virtual_start,
  kernel_image_virtual_end, is_executable,
}
use unnamed_os_core.KernelImage.Parse.{ValidatedImage, parse, load_segments}
use unnamed_os_core.KernelImage.Kinds.{Kinds, no_kinds}

pub data HigherHalfValidationError : Type 0 where
  elf : ValidationError → HigherHalfValidationError
  unexpected_entry unexpected_physical_start unexpected_virtual_start : HigherHalfValidationError
  misaligned_load_segment physical_outside_bootstrap_window : HigherHalfValidationError
  virtual_outside_kernel_region inconsistent_translation_offset : HigherHalfValidationError
  invalid_segment_permissions missing_execute_segment : HigherHalfValidationError
  missing_read_only_segment missing_writable_segment missing_bss : HigherHalfValidationError
  entry_translation_overflow entry_without_physical_backing : HigherHalfValidationError
  span_overflow : HigherHalfValidationError

-- The `if … else if …` on the flags: RX, R and RW.
unfoldable pub add_kind : LoadSegment → Kinds → Result HigherHalfValidationError Kinds
add_kind s kinds =
    if s.flags == 5
    then ok (record kinds { has_execute = true })
    else if s.flags == 4
    then ok (record kinds { has_read_only = true })
    else if s.flags == 6
    then ok (record kinds { has_writable = true })
    else err invalid_segment_permissions

-- `option != Some(value)`
abbrev differs : Option ℕ → ℕ → Bool
differs none b = true
differs (some a) b = not (a == b)

-- The body of the loop.
unfoldable pub check_segment : LoadSegment → Kinds → Result HigherHalfValidationError Kinds
check_segment s kinds = do
  reject_if
      (not (s.alignment == bootstrap_page_size)
        || not (s.physical_address % bootstrap_page_size == 0)
        || not (s.virtual_address % bootstrap_page_size == 0)
        || not (s.file_offset % bootstrap_page_size == 0))
      misaligned_load_segment
  physical_end ← ok_or (checked_add s.physical_address s.memory_size) span_overflow
  virtual_end ← ok_or (checked_add s.virtual_address s.memory_size) span_overflow
  reject_if
      (ltb s.physical_address bootstrap_link_address || ltb bootstrap_physical_end physical_end)
      physical_outside_bootstrap_window
  reject_if
      (ltb s.virtual_address kernel_image_virtual_start || ltb kernel_image_virtual_end virtual_end)
      virtual_outside_kernel_region
  reject_if (differs (checked_sub s.virtual_address s.physical_address) higher_half_virtual_offset)
      inconsistent_translation_offset
  next ← add_kind s kinds
  ok (record next { has_bss = next.has_bss || ltb s.file_size s.memory_size })

unfoldable pub check_segments : List LoadSegment → Kinds → Result HigherHalfValidationError Kinds
check_segments [] kinds = ok kinds
check_segments (s ∷ rest) kinds = do next ← check_segment s kinds; check_segments rest next

pub record ValidatedHigherHalfImage : Type 0 where
  pub image : ValidatedImage
  pub physical_entry : ℕ

abbrev pub is_below : ℕ → Option ℕ → Bool
is_below a none = false
is_below a (some end) = ltb a end

abbrev pub backs : ℕ → LoadSegment → Bool
backs physical_entry s =
    is_executable s
    && leb s.physical_address physical_entry
    && is_below physical_entry (checked_add s.physical_address s.memory_size)

unfoldable pub validate_higher_half_image :
    List ℕ → Result HigherHalfValidationError ValidatedHigherHalfImage
validate_higher_half_image bytes = do
  image ← map_err elf (parse bytes)
  reject_if (not (image.raw.header.entry == higher_half_link_address)) unexpected_entry
  reject_if (not (image.load_start == bootstrap_link_address)) unexpected_physical_start
  reject_if (not (image.virtual_load_start == higher_half_link_address)) unexpected_virtual_start
  kinds ← check_segments (load_segments image) no_kinds
  reject_if (not kinds.has_execute) missing_execute_segment
  reject_if (not kinds.has_read_only) missing_read_only_segment
  reject_if (not kinds.has_writable) missing_writable_segment
  reject_if (not kinds.has_bss) missing_bss
  physical_entry ←
      ok_or (checked_sub image.raw.header.entry higher_half_virtual_offset)
        entry_translation_overflow
  reject_if (not (any (backs physical_entry) (load_segments image))) entry_without_physical_backing
  ok (record { image = image; physical_entry = physical_entry })

-- `total_physical_load_size`, the fold over the segments.
unfoldable pub total_size : List LoadSegment → ℕ → Result HigherHalfValidationError ℕ
total_size [] total = ok total
total_size (s ∷ rest) total = do
  next ← ok_or (checked_add total s.memory_size) span_overflow
  total_size rest next
