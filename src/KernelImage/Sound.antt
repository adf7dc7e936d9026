-- ===== src/KernelImage/Sound.antt =====
-- The images that `ValidatedImage::parse` (crates/kernel-image/src/lib.rs) returns.
use unnamed_os_core.Common.{
  ℕ, zero, suc, ◌+◌, ◌<◌, ◌≡◌, subst, ◌⊎◌, inl, inr, arith, false, ltb, ◌==◌, ok, >>=-eq-ok, ok_or,
  ok_or-eq-ok, some, Bool-cases,
}
use unnamed_os_core.Common.Bits.{bit_and-one}
use unnamed_os_core.KernelImage.{
  program_header_table_outside_file, RawProgramHeader, RawImage, pt_load, is_executable,
}
use unnamed_os_core.KernelImage.Bytes.{program_header}
use unnamed_os_core.KernelImage.Validate.{validate_load_segment}
use unnamed_os_core.KernelImage.Parse.{
  Scan, empty_scan, check_previous, scan_load, scan_header, scan_headers, to_segment,
}
use unnamed_os_core.KernelImage.Scanned.{
  IsSegment, Apart, Within, Loads, Scanned, validate_load_segment-IsSegment, check_against-Apart,
  check_previous-check_against,
}

before_or_at : (i n : ℕ) → i < n + 1 → (i < n) ⊎ (i ≡ n)
before_or_at i n h = elim (Bool-cases (ltb i n)) [
  | inl before ↦ inl (ground arith)
  | inr at ↦ inr (ground arith)
]

pub empty_scan-Scanned : (raw : RawImage) → Scanned raw 0 empty_scan
empty_scan-Scanned raw = record {
  present = λ i h. absurd (omega arith);
  each = λ i p h loads. absurd (omega arith);
  apart = λ i j p q lt h. absurd (omega arith);
  entry = λ h. absurd (ground arith);
}

-- A header that loads nothing.
skip-Scanned :
    (raw : RawImage) (n : ℕ) (p : RawProgramHeader) (scan : Scan)
    → program_header raw n ≡ some p
    → (p.segment_type == pt_load) ≡ false
    → Scanned raw n scan
    → Scanned raw (n + 1) scan
skip-Scanned raw n p scan found other seen = record {
  present = λ i h. elim (before_or_at i n h) [
    | inl before ↦ seen.present i before
    | inr at ↦ (p, rw at found)
  ];
  each = λ i q h loads. elim (before_or_at i n h) [
    | inl before ↦ seen.each i q before loads
    | inr at ↦ absurd (no_load i q at loads)
  ];
  apart = λ i j q r lt h li lj. elim (before_or_at j n h) [
    | inl before ↦ seen.apart i j q r lt before li lj
    | inr at ↦ absurd (no_load j r at lj)
  ];
  entry = λ e. let (i, q, lt, loads, enters) = seen.entry e in (i, q, omega arith, loads, enters);
}
  where
    no_load : (i : ℕ) (q : RawProgramHeader) → i ≡ n → Loads raw i q → ⊥
    no_load i q at loads =
        let there = rw at at loads.header in
        let same : p ≡ q = ground (arith, found, there) in ground (arith, loads.load, other, same)

load-Scanned :
    (raw : RawImage) (n : ℕ) (p : RawProgramHeader) (scan next : Scan)
    → Loads raw n p
    → scan_load raw n p scan ≡ ok next
    → Scanned raw n scan
    → Scanned raw (n + 1) next
unfolding scan_load is_executable
load-Scanned raw n p scan next loaded h seen =
    let ((pe, ve), valid, h1) = >>=-eq-ok (validate_load_segment raw.bytes p) _ h in
    let (_, checked, h2) = >>=-eq-ok (check_previous raw p pe ve n 0) _ h1 in
    let (segment, pe_is, ve_is) = validate_load_segment-IsSegment raw.bytes p pe ve valid in
    record {
      present = λ i lt. elim (before_or_at i n lt) [
        | inl before ↦ seen.present i before
        | inr at ↦ (p, rw at loaded.header)
      ];
      each = λ i q lt loads. elim (before_or_at i n lt) [
        | inl before ↦
            let (good, within) = seen.each i q before loads in
            (
              good,
              record {
                physical_start = ground (arith, within.physical_start);
                physical_end = ground (arith, within.physical_end);
                virtual_start = ground (arith, within.virtual_start);
                virtual_end = ground (arith, within.virtual_end);
              },
            )
        | inr at ↦
            subst (λ r. IsSegment raw.bytes (to_segment r) × Within next (to_segment r))
              (one i q at loads)
              (
                segment,
                record {
                  physical_start = ground (arith, pe_is);
                  physical_end = ground (arith, pe_is);
                  virtual_start = ground (arith, ve_is);
                  virtual_end = ground (arith, ve_is);
                },
              )
      ];
      apart = λ i j q r lt top li lj. elim (before_or_at j n top) [
        | inl before ↦ seen.apart i j q r lt before li lj
        | inr at ↦
            let found =
              check_previous-check_against raw p q pe ve n 0 i checked (omega arith) (omega arith)
                li in
            subst (λ t. Apart (to_segment q) (to_segment t)) (one j r at lj)
              (check_against-Apart p q pe ve pe_is ve_is found)
      ];
      entry = λ e. elim (Bool-cases (scan.entry_is_executable)) [
        | inl earlier ↦
            let (i, q, lt, loads, enters) = seen.entry earlier in (i, q, omega arith, loads, enters)
        | inr new ↦ (
          n,
          p,
          omega arith,
          loaded,
          record {
            executable = let low = bit_and-one p.flags in ground (arith, new, e, low);
            above = ground (arith, new, e);
            below = ground (arith, new, e, ve_is);
          },
        )
      ];
    }
  where
    one : (i : ℕ) (q : RawProgramHeader) → i ≡ n → Loads raw i q → p ≡ q
    one i q at loads =
        let there = rw at at loads.header in let here = loaded.header in ground (arith, here, there)

scan_header-Scanned :
    (raw : RawImage) (n : ℕ) (p : RawProgramHeader) (scan next : Scan)
    → program_header raw n ≡ some p
    → scan_header raw n p scan ≡ ok next
    → Scanned raw n scan
    → Scanned raw (n + 1) next
unfolding scan_header
scan_header-Scanned raw n p scan next found h seen = elim (Bool-cases (p.segment_type == pt_load)) [
  | inl load ↦
      load-Scanned raw n p scan next (record { header = found; load = ground arith })
        (ground (arith, load, h)) seen
  | inr other ↦
      let same : scan ≡ next = ground (arith, other, h) in
      rw (← same) (skip-Scanned raw n p scan found other seen)
]

pub scan_headers-Scanned :
    (raw : RawImage) (rounds n : ℕ) (scan last : Scan)
    → scan_headers raw rounds n scan ≡ ok last
    → Scanned raw n scan
    → Scanned raw (n + rounds) last
unfolding scan_headers
scan_headers-Scanned raw zero n scan last h seen =
    let same : scan ≡ last = ground arith in let e : n + 0 ≡ n = omega arith in rw (← same, e) seen
scan_headers-Scanned raw (suc rounds) n scan last h seen =
    let (p, found, h1) =
      >>=-eq-ok (ok_or (program_header raw n) program_header_table_outside_file) _ h in
    let (next, step, rest) = >>=-eq-ok (scan_header raw n p scan) _ h1 in
    let e : n + suc rounds ≡ n + 1 + rounds = omega arith in
    rw e (
      scan_headers-Scanned raw rounds (n + 1) next last rest (
        scan_header-Scanned raw n p scan next
          (ok_or-eq-ok (program_header raw n) program_header_table_outside_file found) step seen))
