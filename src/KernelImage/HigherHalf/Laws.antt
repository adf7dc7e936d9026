-- ===== src/KernelImage/HigherHalf/Laws.antt =====
-- What `validate_higher_half_image` of crates/kernel-image/src/lib.rs promises of an image.
use unnamed_os_core.Common.{
  ℕ, ◌+◌, ◌%◌, ◌≤◌, ◌<◌, ◌≡◌, some, get_elem?, any-get_elem?, reject_if-not, ◌⊎◌, inl, arith, subst,
  true, not, ltb, ◌==◌, ok, >>=-eq-ok, reject_if, ok_or, map_err, map_err-eq-ok, List, [], ◌∷◌, any,
  All, checked_sub,
}
use unnamed_os_core.KernelImage.{
  LoadSegment, bootstrap_link_address, bootstrap_page_size, bootstrap_physical_end,
  higher_half_virtual_offset, higher_half_link_address, kernel_image_virtual_start,
  kernel_image_virtual_end, is_executable,
}
use unnamed_os_core.Common.Bits.{bit_and-one}
use unnamed_os_core.KernelImage.Parse.{parse, load_segments}
use unnamed_os_core.KernelImage.Kinds.{Kinds, no_kinds}
use unnamed_os_core.KernelImage.Image.{IsImage, parse-IsImage}
use unnamed_os_core.KernelImage.HigherHalf.{
  elf, unexpected_entry, unexpected_physical_start, unexpected_virtual_start,
  missing_execute_segment, missing_read_only_segment, missing_writable_segment, missing_bss,
  entry_translation_overflow, entry_without_physical_backing, add_kind, check_segment,
  check_segments, ValidatedHigherHalfImage, backs, validate_higher_half_image,
}

-- A page-aligned segment in the bootstrap window, at the fixed offset in the kernel's region, with
-- the flags RX, R or RW.
pub record IsHigh (s : LoadSegment) : Type 0 where
  pub alignment : s.alignment ≡ bootstrap_page_size
  pub virtual_aligned : s.virtual_address % bootstrap_page_size ≡ 0
  pub physical_aligned : s.physical_address % bootstrap_page_size ≡ 0
  pub file_aligned : s.file_offset % bootstrap_page_size ≡ 0
  pub window_start : bootstrap_link_address ≤ s.physical_address
  pub window_end : s.physical_address + s.memory_size ≤ bootstrap_physical_end
  pub region_start : kernel_image_virtual_start ≤ s.virtual_address
  pub region_end : s.virtual_address + s.memory_size ≤ kernel_image_virtual_end
  pub offset : s.virtual_address ≡ s.physical_address + higher_half_virtual_offset
  pub permissions : (s.flags ≡ 5) ⊎ (s.flags ≡ 4) ⊎ (s.flags ≡ 6)

check_segment-IsHigh :
    (s : LoadSegment) (kinds next : Kinds) → check_segment s kinds ≡ ok next → IsHigh s
unfolding check_segment add_kind
check_segment-IsHigh s kinds next h = record {
  alignment = ground arith;
  virtual_aligned = ground arith;
  physical_aligned = ground arith;
  file_aligned = ground arith;
  window_start = ground arith;
  window_end = ground arith;
  region_start = ground arith;
  region_end = ground arith;
  offset = ground arith;
  permissions = ground arith;
}

-- Every kind that is noted is that of a segment.
pub record Noted (segments : List LoadSegment) (before after : Kinds) : Type 0 where
  pub execute :
      after.has_execute ≡ true
      → (before.has_execute ≡ true) ⊎ (any (λ s. s.flags == 5) segments ≡ true)
  pub read_only :
      after.has_read_only ≡ true
      → (before.has_read_only ≡ true) ⊎ (any (λ s. s.flags == 4) segments ≡ true)
  pub writable :
      after.has_writable ≡ true
      → (before.has_writable ≡ true) ⊎ (any (λ s. s.flags == 6) segments ≡ true)
  pub bss :
      after.has_bss ≡ true
      → (before.has_bss ≡ true) ⊎ (any (λ s. ltb s.file_size s.memory_size) segments ≡ true)

check_segment-Noted :
    (s : LoadSegment) (kinds next : Kinds)
    → check_segment s kinds ≡ ok next
    → Noted (s ∷ []) kinds next
unfolding check_segment add_kind
check_segment-Noted s kinds next h = record {
  execute = λ e. ground arith;
  read_only = λ e. ground arith;
  writable = λ e. ground arith;
  bss = λ e. ground arith;
}

check_segments-IsHigh :
    (segments : List LoadSegment) (before after : Kinds)
    → check_segments segments before ≡ ok after
    → All IsHigh segments × Noted segments before after
unfolding check_segments
check_segments-IsHigh [] before after h =
    let same : before ≡ after = ground arith in
    rw same (
      tt,
      record {
        execute = λ e. inl e;
        read_only = λ e. inl e;
        writable = λ e. inl e;
        bss = λ e. inl e;
      },
    )
check_segments-IsHigh (s ∷ rest) before after h =
    let (next, here, there) = >>=-eq-ok (check_segment s before) _ h in
    let first = check_segment-Noted s before next here in
    let (all, later) = check_segments-IsHigh rest next after there in
    (
      (check_segment-IsHigh s before next here, all),
      record {
        execute = λ e. ground (arith, later.execute e, first.execute);
        read_only = λ e. ground (arith, later.read_only e, first.read_only);
        writable = λ e. ground (arith, later.writable e, first.writable);
        bss = λ e. ground (arith, later.bss e, first.bss);
      },
    )

-- An executable segment holds a physical address.
pub record Backs (physical_entry : ℕ) (s : LoadSegment) : Type 0 where
  pub executable : s.flags % 2 ≡ 1
  pub above : s.physical_address ≤ physical_entry
  pub below : physical_entry < s.physical_address + s.memory_size

backs-Backs :
    (physical_entry : ℕ) (s : LoadSegment) → backs physical_entry s ≡ true → Backs physical_entry s
unfolding is_executable
backs-Backs physical_entry s h =
    let low = bit_and-one s.flags in
    record { executable = ground (arith, low); above = ground arith; below = ground arith }

-- An image whose segments are high, with one of each kind, and whose entry is executable code at
-- its virtual and at its physical address.
pub record IsHigherHalf (bytes : List ℕ) (high : ValidatedHigherHalfImage) : Type 0 where
  pub parsed : parse bytes ≡ ok high.image
  pub image : IsImage high.image
  pub of_bytes : high.image.raw.bytes ≡ bytes
  pub each : All IsHigh (load_segments high.image)
  pub execute : any (λ s. s.flags == 5) (load_segments high.image) ≡ true
  pub read_only : any (λ s. s.flags == 4) (load_segments high.image) ≡ true
  pub writable : any (λ s. s.flags == 6) (load_segments high.image) ≡ true
  pub bss : any (λ s. ltb s.file_size s.memory_size) (load_segments high.image) ≡ true
  pub virtual_entry : high.image.raw.header.entry ≡ higher_half_link_address
  pub physical_entry :
      high.physical_entry + higher_half_virtual_offset ≡ high.image.raw.header.entry
  pub backed :
      (k : ℕ) × (s : LoadSegment) × (get_elem? (load_segments high.image) k ≡ some s)
      × Backs high.physical_entry s

-- An image that `validate_higher_half_image` accepts is one that `parse` accepts. Its segments are
-- page-aligned, in the bootstrap window, at the fixed offset in the kernel's virtual region, and of
-- the permissions RX, R or RW, with one of each and one with zeroed memory. Its entry is the link
-- address, and its physical place, lower by the offset, is in a segment with the execute flag.
pub validate_higher_half_image-IsHigherHalf :
    (bytes : List ℕ) (high : ValidatedHigherHalfImage)
    → validate_higher_half_image bytes ≡ ok high
    → IsHigherHalf bytes high
unfolding validate_higher_half_image
validate_higher_half_image-IsHigherHalf bytes high h =
    let (image, parsed, h1) = >>=-eq-ok (map_err elf (parse bytes)) _ h in
    let (_, entry, h2) =
      >>=-eq-ok
        (reject_if (not (image.raw.header.entry == higher_half_link_address)) unexpected_entry) _
        h1 in
    let (_, _, h3) =
      >>=-eq-ok
        (reject_if (not (image.load_start == bootstrap_link_address)) unexpected_physical_start) _
        h2 in
    let (_, _, h4) =
      >>=-eq-ok
        (reject_if (not (image.virtual_load_start == higher_half_link_address))
          unexpected_virtual_start)
        _ h3 in
    let (kinds, checked, h5) = >>=-eq-ok (check_segments (load_segments image) no_kinds) _ h4 in
    let (_, execute, h6) =
      >>=-eq-ok (reject_if (not kinds.has_execute) missing_execute_segment) _ h5 in
    let (_, read_only, h7) =
      >>=-eq-ok (reject_if (not kinds.has_read_only) missing_read_only_segment) _ h6 in
    let (_, writable, h8) =
      >>=-eq-ok (reject_if (not kinds.has_writable) missing_writable_segment) _ h7 in
    let (_, bss, h9) = >>=-eq-ok (reject_if (not kinds.has_bss) missing_bss) _ h8 in
    let (physical, below, h10) =
      >>=-eq-ok
        (ok_or (checked_sub image.raw.header.entry higher_half_virtual_offset)
          entry_translation_overflow)
        _ h9 in
    let (_, backed, made) =
      >>=-eq-ok
        (reject_if (not (any (backs physical) (load_segments image)))
          entry_without_physical_backing)
        _ h10 in
    let (good, of_bytes) = parse-IsImage bytes image (map_err-eq-ok elf (parse bytes) parsed) in
    let (all, noted) = check_segments-IsHigh (load_segments image) no_kinds kinds checked in
    let made_of : record { image = image; physical_entry = physical } ≡ high = ground arith in
    subst (IsHigherHalf bytes) made_of (record {
      parsed = map_err-eq-ok elf (parse bytes) parsed;
      image = good;
      of_bytes = of_bytes;
      each = all;
      execute = ground (arith, noted.execute);
      read_only = ground (arith, noted.read_only);
      writable = ground (arith, noted.writable);
      bss = ground (arith, noted.bss);
      virtual_entry = ground (arith, entry);
      physical_entry = ground (arith, entry, below);
      backed =
          let (k, s, found, holds) =
            any-get_elem? (backs physical) (load_segments image)
              (reject_if-not entry_without_physical_backing _ backed) in
          (k, s, found, backs-Backs physical s holds);
    })
