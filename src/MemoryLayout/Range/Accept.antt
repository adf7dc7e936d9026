-- ===== src/MemoryLayout/Range/Accept.antt =====
-- Which ranges the constructors of crates/memory-layout/src/lib.rs accept.
use unnamed_os_core.Common.{ℕ, ◌+◌, ◌-◌, ◌%◌, ◌≤◌, ◌<◌, ◌≡◌, ◌↔◌, true, arith, ok, u64_end}
use unnamed_os_core.MemoryLayout.Address.{
  page_size, supported_physical_end, low_canonical_end, is_canonical,
}
use unnamed_os_core.MemoryLayout.Range.{
  Range, new_physical_range, new_virtual_range, physical_range_from, virtual_range_from,
}

-- A page-aligned, non-empty range of supported physical addresses.
pub record IsPhysical (r : Range) : Type 0 where
  pub ordered : r.start < r.end
  pub supported : r.end ≤ supported_physical_end
  pub start_aligned : r.start % page_size ≡ 0
  pub end_aligned : r.end % page_size ≡ 0

abbrev pub Canonical : ℕ → Type 0
Canonical a = is_canonical a ≡ true

-- A page-aligned, non-empty range whose addresses are all canonical.
pub record IsVirtual (r : Range) : Type 0 where
  pub ordered : r.start < r.end
  pub canonical : (a : ℕ) → r.start ≤ a → a < r.end → Canonical a
  pub start_aligned : r.start % page_size ≡ 0
  pub end_aligned : r.end % page_size ≡ 0

-- `PhysicalRange::new` accepts exactly the non-empty, page-aligned ranges below the supported
-- physical end, and returns the bounds that it was given.
pub new_physical_range_accepts :
    (start end : ℕ) (r : Range)
    → (new_physical_range start end ≡ ok r)
      ↔ ((r ≡ record { start = start; end = end }) × IsPhysical r)
unfolding new_physical_range
new_physical_range_accepts start end r = (
  λ h. ground arith,
  λ h. ground (arith, h.1.ordered, h.1.supported, h.1.start_aligned, h.1.end_aligned),
)

-- `VirtualRange::new` tests the two ends only; it accepts exactly the non-empty, page-aligned
-- ranges all of whose addresses are canonical, and returns the bounds that it was given.
pub new_virtual_range_accepts :
    (start end : ℕ) (r : Range)
    → (new_virtual_range start end ≡ ok r)
      ↔ ((r ≡ record { start = start; end = end }) × IsVirtual r)
unfolding new_virtual_range
new_virtual_range_accepts start end r = (
  λ h. (
    ground arith,
    record {
      ordered = ground arith;
      canonical = λ a l u. ground arith;
      start_aligned = ground arith;
      end_aligned = ground arith;
    },
  ),
  λ h. ground (
    arith,
    h.1.ordered,
    h.1.start_aligned,
    h.1.end_aligned,
    h.1.canonical start,
    h.1.canonical (end - 1),
    h.1.canonical low_canonical_end,
  ),
)

-- `PhysicalRange::from_start_and_length` accepts exactly if the range from the start to the start
-- plus the size is non-empty, page-aligned and below the supported physical end.
pub physical_range_from_accepts :
    (start size : ℕ) (r : Range)
    → (physical_range_from start size ≡ ok r)
      ↔ ((r ≡ record { start = start; end = start + size }) × IsPhysical r)
unfolding physical_range_from
physical_range_from_accepts start size r =
    let new = new_physical_range_accepts start (start + size) r in
    (λ h. new.0 (ground arith), λ h. ground (arith, h.1.ordered, h.1.supported, new.1 h))

-- `VirtualRange::from_start_and_length` accepts exactly if the start plus the size fits 64 bits and
-- the range from the one to the other is non-empty, page-aligned and canonical.
pub virtual_range_from_accepts :
    (start size : ℕ) (r : Range)
    → (virtual_range_from start size ≡ ok r) ↔ (
        (r ≡ record { start = start; end = start + size }) × (start + size < u64_end) × IsVirtual r)
unfolding virtual_range_from
virtual_range_from_accepts start size r =
    let new = new_virtual_range_accepts start (start + size) r in
    (
      λ h.
          let fits : start + size < u64_end = ground arith in
          let made : new_virtual_range start (start + size) ≡ ok r = ground arith in
          let (same, valid) = new.0 made in (same, fits, valid),
      λ h. ground (arith, h.2.ordered, new.1 (h.0, h.2)),
    )
