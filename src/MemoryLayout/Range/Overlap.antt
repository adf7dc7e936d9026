-- ===== src/MemoryLayout/Range/Overlap.antt =====
-- What `contains`, `contains_range` and `overlaps` of crates/memory-layout/src/lib.rs say of the
-- addresses of two ranges.
use unnamed_os_core.Common.{ℕ, ◌-◌, ◌<◌, ◌≡◌, ◌↔◌, true, false, arith, max}
use unnamed_os_core.MemoryLayout.Range.{Range, contains, contains_range, overlaps}

-- Two non-empty ranges overlap exactly if some address lies in both.
pub overlaps_iff_common :
    (r s : Range)
    → r.start < r.end
    → s.start < s.end
    → (overlaps r s ≡ true) ↔ ((a : ℕ) × (contains r a ≡ true) × (contains s a ≡ true))
overlaps_iff_common r s hr hs =
    (λ h. (max r.start s.start, ground arith, ground arith), λ (a, p, q). ground arith)

pub overlaps_comm : (r s : Range) → overlaps r s ≡ overlaps s r
overlaps_comm r s = ground arith

-- A range holds a non-empty range exactly if it holds each of its addresses.
pub contains_range_iff :
    (r s : Range)
    → s.start < s.end
    → (contains_range r s ≡ true) ↔ ((a : ℕ) → contains s a ≡ true → contains r a ≡ true)
contains_range_iff r s hs =
    (λ h a p. ground arith, λ all. ground (arith, all s.start, all (s.end - 1)))

-- Ranges that do not overlap hold no address in common.
pub contains-disjoint :
    (r s : Range) (a : ℕ) → overlaps r s ≡ false → contains r a ≡ true → contains s a ≡ false
contains-disjoint r s a h p = ground arith
