-- ===== src/KernelImage/Scanned.antt =====
-- What the loop of `ValidatedImage::parse` (crates/kernel-image/src/lib.rs) knows of the program
-- headers that it has seen.
use unnamed_os_core.Common.{
  ℕ, zero, suc, ◌+◌, ◌/◌, ◌%◌, ◌≤◌, ◌<◌, ◌≡◌, ◌⊎◌, inl, inr, arith, true, false, ◌==◌,
  if◌then◌else◌, bit_and, ok, >>=-eq-ok, ok_or, ok_or-eq-ok, some, List, length, u64_end,
  Bool-cases,
}
use unnamed_os_core.Common.Bits.{bit_and_step, bit_and-one, bit_and-ones}
use unnamed_os_core.KernelImage.{
  program_header_table_outside_file, RawProgramHeader, RawImage, LoadSegment, pt_load, is_canonical,
}
use unnamed_os_core.KernelImage.Bytes.{program_header}
use unnamed_os_core.KernelImage.Validate.{validate_load_segment}
use unnamed_os_core.KernelImage.Parse.{Scan, check_against, check_previous, to_segment}

-- A segment that lies in the file and fits the address space, and that is not both writable and
-- executable.
pub record IsSegment (bytes : List ℕ) (s : LoadSegment) : Type 0 where
  pub nonempty : 0 < s.memory_size
  pub file_fits : s.file_size ≤ s.memory_size
  pub in_file : s.file_offset + s.file_size ≤ length bytes
  pub physical_fits : s.physical_address + s.memory_size < u64_end
  pub virtual_fits : s.virtual_address + s.memory_size < u64_end
  pub start_canonical :
      (s.virtual_address ≤ 0x7fff_ffff_ffff) ⊎ (0xffff_8000_0000_0000 ≤ s.virtual_address)
  pub exclusive : (s.flags / 2 % 2 ≡ 0) ⊎ (s.flags % 2 ≡ 0)

-- Two segments that share no physical and no virtual address.
pub record Apart (s t : LoadSegment) : Type 0 where
  pub physical :
      (s.physical_address + s.memory_size ≤ t.physical_address)
      ⊎ (t.physical_address + t.memory_size ≤ s.physical_address)
  pub virtual :
      (s.virtual_address + s.memory_size ≤ t.virtual_address)
      ⊎ (t.virtual_address + t.memory_size ≤ s.virtual_address)

-- The entry lies in a segment that has the execute flag.
pub record Enters (entry : ℕ) (s : LoadSegment) : Type 0 where
  pub executable : s.flags % 2 ≡ 1
  pub above : s.virtual_address ≤ entry
  pub below : entry < s.virtual_address + s.memory_size

-- The spans of a scan hold a segment.
pub record Within (scan : Scan) (s : LoadSegment) : Type 0 where
  pub physical_start : scan.load_start ≤ s.physical_address
  pub physical_end : s.physical_address + s.memory_size ≤ scan.load_end
  pub virtual_start : scan.virtual_load_start ≤ s.virtual_address
  pub virtual_end : s.virtual_address + s.memory_size ≤ scan.virtual_load_end

-- The header at an index is that of a segment to load.
pub record Loads (raw : RawImage) (i : ℕ) (p : RawProgramHeader) : Type 0 where
  pub header : program_header raw i ≡ some p
  pub load : p.segment_type ≡ pt_load

pub record Scanned (raw : RawImage) (n : ℕ) (scan : Scan) : Type 0 where
  pub present : (i : ℕ) → i < n → (p : RawProgramHeader) × (program_header raw i ≡ some p)
  pub each :
      (i : ℕ) (p : RawProgramHeader)
      → i < n
      → Loads raw i p
      → IsSegment raw.bytes (to_segment p) × Within scan (to_segment p)
  pub apart :
      (i j : ℕ) (p q : RawProgramHeader)
      → i < j
      → j < n
      → Loads raw i p
      → Loads raw j q
      → Apart (to_segment p) (to_segment q)
  pub entry :
      scan.entry_is_executable ≡ true
      → (i : ℕ) × (p : RawProgramHeader) × (i < n)
        × Loads raw i p
        × Enters raw.header.entry (to_segment p)

-- The two bits of the flags.
write_execute : (f : ℕ) → (bit_and f 3 == 3) ≡ false → (f / 2 % 2 ≡ 0) ⊎ (f % 2 ≡ 0)
write_execute f h =
    let three = bit_and-ones 2 f in
    let two = bit_and_step f 2 in let half = bit_and-one (f / 2) in ground arith

pub validate_load_segment-IsSegment :
    (bytes : List ℕ) (p : RawProgramHeader) (physical_end virtual_end : ℕ)
    → validate_load_segment bytes p ≡ ok (physical_end, virtual_end)
    → IsSegment bytes (to_segment p)
      × (physical_end ≡ p.physical_address + p.memory_size)
      × (virtual_end ≡ p.virtual_address + p.memory_size)
unfolding validate_load_segment is_canonical
validate_load_segment-IsSegment bytes p physical_end virtual_end h = (
  record {
    nonempty = ground arith;
    file_fits = ground arith;
    in_file = ground arith;
    physical_fits = ground arith;
    virtual_fits = ground arith;
    start_canonical = ground arith;
    exclusive = write_execute p.flags (ground arith);
  },
  ground arith,
  ground arith,
)

pub check_against-Apart :
    (p q : RawProgramHeader) (physical_end virtual_end : ℕ)
    → physical_end ≡ p.physical_address + p.memory_size
    → virtual_end ≡ p.virtual_address + p.memory_size
    → check_against p physical_end virtual_end q ≡ ok tt
    → Apart (to_segment q) (to_segment p)
unfolding check_against
check_against-Apart p q physical_end virtual_end pe ve h = record {
  physical = ground arith;
  virtual = ground arith;
}

pub check_previous-check_against :
    (raw : RawImage) (p q : RawProgramHeader) (physical_end virtual_end rounds first j : ℕ)
    → check_previous raw p physical_end virtual_end rounds first ≡ ok tt
    → first ≤ j
    → j < first + rounds
    → Loads raw j q
    → check_against p physical_end virtual_end q ≡ ok tt
unfolding check_previous
check_previous-check_against raw p q pe ve zero first j h low high loads = absurd (omega arith)
check_previous-check_against raw p q pe ve (suc rounds) first j h low high loads =
    let (r, found, h1) =
      >>=-eq-ok (ok_or (program_header raw first) program_header_table_outside_file) _ h in
    let (_, here, rest) =
      >>=-eq-ok (if r.segment_type == pt_load then check_against p pe ve r else ok tt) _ h1 in
    elim (Bool-cases (first == j)) [
      | inl same ↦
          let at : first ≡ j = ground arith in
          let there : program_header raw j ≡ some r =
            rw at at (ok_or-eq-ok (program_header raw first) _ found) in
          let one : r ≡ q = ground (arith, there, loads.header) in
          ground (arith, rw one at here, loads.load)
      | inr other ↦
          check_previous-check_against raw p q pe ve rounds (first + 1) j rest (ground arith)
            (omega arith) loads
    ]
