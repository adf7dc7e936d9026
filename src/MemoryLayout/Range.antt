-- ===== src/MemoryLayout/Range.antt =====
-- `PhysicalRange` and `VirtualRange` of crates/memory-layout/src/lib.rs. The two structs have the
-- same fields and the same accessors, so one record and one set of accessors stands for both; each
-- has its own constructors.
pub mod Accept
pub mod Overlap
use package.unnamed_os_core.Common.{ℕ, ◌-◌, Bool, ◌&&◌, ◌||◌, not, ltb, leb, ◌==◌}
use package.unnamed_os_core.Common.{Result, ok, ◌>>=◌, ◌>>◌, reject_if, ok_or, checked_add}
use package.unnamed_os_core.MemoryLayout.Address.{
  LayoutError, unsupported_physical_address, non_canonical_virtual_address, crosses_canonical_hole,
  empty_range, range_overflow, supported_physical_end, is_canonical, canonical_half, validate_order,
  validate_page_boundaries,
}

pub record Range : Type 0 where
  pub start : ℕ
  pub end : ℕ

abbrev pub PhysicalRange : Type 0
PhysicalRange = Range

abbrev pub VirtualRange : Type 0
VirtualRange = Range

-- `end - start`: the constructors reject `end <= start`, so nothing is cut off.
abbrev pub length : Range → ℕ
length r = r.end - r.start

abbrev pub contains : Range → ℕ → Bool
contains r address = leb r.start address && ltb address r.end

abbrev pub contains_range : Range → Range → Bool
contains_range r other = leb r.start other.start && leb other.end r.end

abbrev pub overlaps : Range → Range → Bool
overlaps r other = ltb r.start other.end && ltb other.start r.end

unfoldable pub new_physical_range : ℕ → ℕ → Result LayoutError PhysicalRange
unfolding validate_order validate_page_boundaries
new_physical_range start end = do
  validate_order start end
  reject_if (leb supported_physical_end start || ltb supported_physical_end end)
      unsupported_physical_address
  validate_page_boundaries start end
  ok (record { start = start; end = end })

unfoldable pub new_virtual_range : ℕ → ℕ → Result LayoutError VirtualRange
unfolding validate_order validate_page_boundaries is_canonical canonical_half
new_virtual_range start end = do
  validate_order start end
  reject_if (not (is_canonical start) || not (is_canonical (end - 1))) non_canonical_virtual_address
  reject_if (not (canonical_half start == canonical_half (end - 1))) crosses_canonical_hole
  validate_page_boundaries start end
  ok (record { start = start; end = end })

-- `PhysicalRange::from_start_and_length`
unfoldable pub physical_range_from : ℕ → ℕ → Result LayoutError PhysicalRange
physical_range_from start size = do
  reject_if (size == 0) empty_range
  new_physical_range start (← ok_or (checked_add start size) range_overflow)

-- `VirtualRange::from_start_and_length`
unfoldable pub virtual_range_from : ℕ → ℕ → Result LayoutError VirtualRange
virtual_range_from start size = do
  reject_if (size == 0) empty_range
  new_virtual_range start (← ok_or (checked_add start size) range_overflow)
