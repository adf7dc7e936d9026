-- ===== src/KernelImage/Image.antt =====
-- What `ValidatedImage::parse` (crates/kernel-image/src/lib.rs) promises of the segments that the
-- image then yields.
use native.Mathlib.Nat.{zero-add}
use unnamed_os_core.Common.{
  ℕ, zero, suc, ◌+◌, ◌≤◌, ◌<◌, ◌≡◌, ap, ◌∙◌, subst, inl, inr, arith, true, false, not, ◌||◌, ◌==◌,
  ok, >>=-eq-ok, reject_if, some, none, List, [], ◌∷◌, get_elem?, All, Pairwise, Bool-cases,
  Option-cases,
}
use unnamed_os_core.KernelImage.{
  no_load_segments, entry_outside_executable_segment, RawProgramHeader, RawImage, LoadSegment,
  pt_load, is_canonical,
}
use unnamed_os_core.KernelImage.Bytes.{program_header}
use unnamed_os_core.KernelImage.Validate.{
  validate_magic, parse_raw, validate_header, validate_program_table, validate_section_table,
}
use unnamed_os_core.KernelImage.Parse.{
  ValidatedImage, empty_scan, scan_headers, collect, parse, to_segment, segments_from,
  load_segments,
}
use unnamed_os_core.KernelImage.Scanned.{IsSegment, Apart, Enters, Loads, Scanned}
use unnamed_os_core.KernelImage.Sound.{empty_scan-Scanned, scan_headers-Scanned}

-- The iterator at an index that it passes over, or yields.
segments_from-skip :
    (raw : RawImage) (rounds index : ℕ) (p : RawProgramHeader)
    → program_header raw index ≡ some p
    → (p.segment_type == pt_load) ≡ false
    → segments_from raw (suc rounds) index ≡ segments_from raw rounds (index + 1)
unfolding segments_from
segments_from-skip raw rounds index p found other = rw (found, segments_from, other)

segments_from-load :
    (raw : RawImage) (rounds index : ℕ) (p : RawProgramHeader)
    → program_header raw index ≡ some p
    → (p.segment_type == pt_load) ≡ true
    → segments_from raw (suc rounds) index ≡ to_segment p ∷ segments_from raw rounds (index + 1)
unfolding segments_from
segments_from-load raw rounds index p found load = rw (found, segments_from, load)

segments_from-none :
    (raw : RawImage) (rounds index : ℕ)
    → program_header raw index ≡ none
    → segments_from raw (suc rounds) index ≡ []
unfolding segments_from
segments_from-none raw rounds index missing = rw (missing, segments_from)

module _ {κ} (raw : RawImage) (P : LoadSegment → Type κ) where
  segments_from-All :
      (rounds index : ℕ)
      → ((i : ℕ) (p : RawProgramHeader)
          → index ≤ i
          → i < index + rounds
          → Loads raw i p
          → P (to_segment p))
      → All P (segments_from raw rounds index)
  unfolding segments_from
  segments_from-All zero index holds = tt
  segments_from-All (suc rounds) index holds =
      let rest =
        segments_from-All rounds (index + 1)
          (λ i p low high. holds i p (omega arith) (omega arith)) in
      elim (Option-cases (program_header raw index)) [
        | inl missing ↦ rw (segments_from-none raw rounds index missing) tt
        | inr (p, found) ↦ elim (Bool-cases (p.segment_type == pt_load)) [
          | inr other ↦ rw (segments_from-skip raw rounds index p found other) rest
          | inl load ↦ rw (segments_from-load raw rounds index p found load) (
            holds index p (omega arith) (omega arith)
                (record { header = found; load = ground arith }),
            rest,
          )
        ]
      ]

segments_from-Pairwise :
    (raw : RawImage) (rounds index : ℕ)
    → ((i j : ℕ) (p q : RawProgramHeader)
        → i < j
        → j < index + rounds
        → Loads raw i p
        → Loads raw j q
        → Apart (to_segment p) (to_segment q))
    → Pairwise Apart (segments_from raw rounds index)
unfolding segments_from
segments_from-Pairwise raw zero index apart = tt
segments_from-Pairwise raw (suc rounds) index apart =
    let rest =
      segments_from-Pairwise raw rounds (index + 1)
        (λ i j p q lt top. apart i j p q lt (omega arith)) in
    elim (Option-cases (program_header raw index)) [
      | inl missing ↦ rw (segments_from-none raw rounds index missing) tt
      | inr (p, found) ↦ elim (Bool-cases (p.segment_type == pt_load)) [
        | inr other ↦ rw (segments_from-skip raw rounds index p found other) rest
        | inl load ↦ rw (segments_from-load raw rounds index p found load) (
          segments_from-All raw (Apart (to_segment p)) rounds (index + 1) (λ j q low high.
              apart index j p q (omega arith) (omega arith)
                (record { header = found; load = ground arith })),
          rest,
        )
      ]
    ]

segments_from-get_elem? :
    (raw : RawImage) (rounds index i : ℕ) (p : RawProgramHeader)
    → ((j : ℕ) → j < index + rounds → (q : RawProgramHeader) × (program_header raw j ≡ some q))
    → index ≤ i
    → i < index + rounds
    → Loads raw i p
    → (k : ℕ) × (get_elem? (segments_from raw rounds index) k ≡ some (to_segment p))
segments_from-get_elem? raw zero index i p present low high loads = absurd (omega arith)
segments_from-get_elem? raw (suc rounds) index i p present low high loads =
    let (q, found) = present index (omega arith) in
    elim (Bool-cases (index == i)) [
      | inl same ↦
          let at : index ≡ i = ground arith in
          let there = rw at at found in
          let one : q ≡ p = ground (arith, there, loads.header) in
          (
            0,
            ap (λ xs. get_elem? xs 0)
                  (segments_from-load raw rounds index q found (ground (arith, loads.load, one)))
                ∙ ap (λ r. some (to_segment r)) one,
          )
      | inr other ↦
          let (k, live) =
            segments_from-get_elem? raw rounds (index + 1) i p (λ j h. present j (omega arith))
              (ground arith) (omega arith) loads in
          elim (Bool-cases (q.segment_type == pt_load)) [
            | inr skip ↦ (
              k,
              ap (λ xs. get_elem? xs k) (segments_from-skip raw rounds index q found skip) ∙ live,
            )
            | inl load ↦ (
              suc k,
              ap (λ xs. get_elem? xs (suc k)) (segments_from-load raw rounds index q found load)
                  ∙ live,
            )
          ]
    ]

parse_raw-bytes : (bytes : List ℕ) (raw : RawImage) → parse_raw bytes ≡ ok raw → raw.bytes ≡ bytes
unfolding parse_raw
parse_raw-bytes bytes raw h = ground arith

-- An image whose segments lie in the file and in the two spans, share no address, and are not both
-- writable and executable, and whose entry lies in an executable one of them.
pub record IsImage (image : ValidatedImage) : Type 0 where
  pub each : All (IsSegment image.raw.bytes) (load_segments image)
  pub apart : Pairwise Apart (load_segments image)
  pub spans :
      All
        (λ s.
          (image.load_start ≤ s.physical_address)
          × (s.physical_address + s.memory_size ≤ image.load_end)
          × (image.virtual_load_start ≤ s.virtual_address)
          × (s.virtual_address + s.memory_size ≤ image.virtual_load_end))
        (load_segments image)
  pub entered :
      (k : ℕ) × (s : LoadSegment) × (get_elem? (load_segments image) k ≡ some s)
      × Enters image.raw.header.entry s

collect-IsImage :
    (raw : RawImage) (image : ValidatedImage)
    → collect raw ≡ ok image
    → IsImage image × (image.raw ≡ raw)
unfolding collect load_segments
collect-IsImage raw image h =
    let count = raw.header.program_header_count in
    let (scan, scanned, h1) = >>=-eq-ok (scan_headers raw count 0 empty_scan) _ h in
    let (_, some_loaded, h2) = >>=-eq-ok (reject_if (scan.load_count == 0) no_load_segments) _ h1 in
    let (_, enters, made) =
      >>=-eq-ok
        (reject_if (not (is_canonical raw.header.entry) || not scan.entry_is_executable)
          entry_outside_executable_segment)
        _ h2 in
    let seen =
      subst (λ n. Scanned raw n scan) (zero-add count)
        (scan_headers-Scanned raw count 0 empty_scan scan scanned (empty_scan-Scanned raw)) in
    let made_of : record {
      raw = raw;
      load_count = scan.load_count;
      load_start = scan.load_start;
      load_end = scan.load_end;
      virtual_load_start = scan.virtual_load_start;
      virtual_load_end = scan.virtual_load_end;
    }
        ≡ image =
      ground arith in
    let (i, p, lt, loads, at) = seen.entry (ground arith) in
    let (k, live) =
      segments_from-get_elem? raw count 0 i p (λ j h. seen.present j (omega arith)) (omega arith)
        (omega arith) loads in
    (
      subst IsImage made_of (record {
        each =
            segments_from-All raw (IsSegment raw.bytes) count 0
              (λ j q low high loaded. (seen.each j q (omega arith) loaded).0);
        apart =
            segments_from-Pairwise raw count 0
              (λ j l q r lt top. seen.apart j l q r lt (omega arith));
        spans = segments_from-All raw _ count 0 (λ j q low high loaded.
            let within = (seen.each j q (omega arith) loaded).1 in
            (within.physical_start, within.physical_end, within.virtual_start, within.virtual_end));
        entered = (k, to_segment p, live, at);
      }),
      ground arith,
    )

-- An image that `ValidatedImage::parse` returns is of the bytes that it was given. Its segments lie
-- in the file, in 64 bits and in the two spans; of any two the one ends, in physical and in virtual
-- addresses, at or before the start of the other; none has both the write and the execute flag, and
-- the entry lies in one that has the execute flag.
pub parse-IsImage :
    (bytes : List ℕ) (image : ValidatedImage)
    → parse bytes ≡ ok image
    → IsImage image × (image.raw.bytes ≡ bytes)
unfolding parse parse_raw
parse-IsImage bytes image h =
    let (_, _, h1) = >>=-eq-ok (validate_magic bytes) _ h in
    let (raw, read, h2) = >>=-eq-ok (parse_raw bytes) _ h1 in
    let (_, _, h3) = >>=-eq-ok (validate_header raw.header) _ h2 in
    let (_, _, h4) = >>=-eq-ok (validate_program_table raw) _ h3 in
    let (_, _, h5) = >>=-eq-ok (validate_section_table raw) _ h4 in
    let (good, same) = collect-IsImage raw image h5 in
    (good, ap (λ r. r.bytes) same ∙ parse_raw-bytes bytes raw read)
