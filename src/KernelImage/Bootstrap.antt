-- ===== src/KernelImage/Bootstrap.antt =====
-- `validate_bootstrap_image` of crates/kernel-image/src/lib.rs.
use unnamed_os_core.Common.{
  ℕ, ◌%◌, not, ◌&&◌, ◌||◌, ltb, ◌==◌, Result, ok, ◌>>=◌, ◌>>◌, reject_if, map_err, List, [], ◌∷◌,
}
use unnamed_os_core.KernelImage.{
  ValidationError, physical_virtual_address_mismatch, LoadSegment, bootstrap_link_address,
  bootstrap_page_size, is_readable, is_writable, is_executable,
}
use unnamed_os_core.KernelImage.Parse.{ValidatedImage, parse, load_segments}
use unnamed_os_core.KernelImage.Kinds.{Kinds, no_kinds}

pub data BootstrapValidationError : Type 0 where
  elf : ValidationError → BootstrapValidationError
  unexpected_entry unexpected_load_start misaligned_load_segment : BootstrapValidationError
  missing_execute_segment missing_read_only_segment : BootstrapValidationError
  missing_writable_segment missing_bss : BootstrapValidationError

-- The body of the loop.
unfoldable pub check_bootstrap : LoadSegment → Kinds → Result BootstrapValidationError Kinds
check_bootstrap s kinds = do
  reject_if (not (s.physical_address == s.virtual_address)) (elf physical_virtual_address_mismatch)
  reject_if
      (not (s.alignment == bootstrap_page_size)
        || not (s.physical_address % bootstrap_page_size == 0)
        || not (s.file_offset % bootstrap_page_size == 0))
      misaligned_load_segment
  ok (record {
    has_execute = kinds.has_execute || is_executable s;
    has_read_only =
        kinds.has_read_only || is_readable s && not (is_writable s) && not (is_executable s);
    has_writable = kinds.has_writable || is_writable s && not (is_executable s);
    has_bss = kinds.has_bss || ltb s.file_size s.memory_size;
  })

unfoldable pub check_bootstraps : List LoadSegment → Kinds → Result BootstrapValidationError Kinds
check_bootstraps [] kinds = ok kinds
check_bootstraps (s ∷ rest) kinds = do next ← check_bootstrap s kinds; check_bootstraps rest next

unfoldable pub validate_bootstrap_image : List ℕ → Result BootstrapValidationError ValidatedImage
validate_bootstrap_image bytes = do
  image ← map_err elf (parse bytes)
  reject_if (not (image.raw.header.entry == bootstrap_link_address)) unexpected_entry
  reject_if (not (image.load_start == bootstrap_link_address)) unexpected_load_start
  kinds ← check_bootstraps (load_segments image) no_kinds
  reject_if (not kinds.has_execute) missing_execute_segment
  reject_if (not kinds.has_read_only) missing_read_only_segment
  reject_if (not kinds.has_writable) missing_writable_segment
  reject_if (not kinds.has_bss) missing_bss
  ok image
