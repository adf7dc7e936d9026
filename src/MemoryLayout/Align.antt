-- ===== src/MemoryLayout/Align.antt =====
-- `align_down` and `align_up` of crates/memory-layout/src/lib.rs.
use unnamed_os_core.Common.{
  ℕ, ◌+◌, ◌-◌, ◌^◌, ◌%◌, ◌≤◌, ◌<◌, ◌≡◌, not, ◌||◌, true, false, arith, ◌==◌, bit_and, Result, ok,
  err, ◌>>=◌, ◌>>◌, reject_if, ok_or, checked_add, u64_end, is_power_of_two, is_power_of_two_lem,
}
use unnamed_os_core.Common.Bits.{bit_and-clear, pow_pos}
use unnamed_os_core.Common.{◌/◌, ◌*◌, ltb, ltb→lt, Bool-cases, ◌⊎◌, inl, inr, ◌∙◌}
use native.Mathlib.Nat.{mod-lt, div-add-mod, mul-add-mod_self_left, mod-eq_of_lt}
use unnamed_os_core.MemoryLayout.Address.{LayoutError, invalid_alignment, alignment_overflow}

-- `!mask` on 64 bits.
abbrev pub bit_not : ℕ → ℕ
bit_not a = u64_end - 1 - a

unfoldable pub align_down : ℕ → ℕ → Result LayoutError ℕ
align_down value alignment = do
  reject_if (alignment == 0 || not (is_power_of_two alignment)) invalid_alignment
  ok (bit_and value (bit_not (alignment - 1)))

unfoldable pub align_up : ℕ → ℕ → Result LayoutError ℕ
align_up value alignment = do
  reject_if (alignment == 0 || not (is_power_of_two alignment)) invalid_alignment
  rounded ← ok_or (checked_add value (alignment - 1)) alignment_overflow
  ok (bit_and rounded (bit_not (alignment - 1)))

-- The mask keeps what is left of a value when its remainder is taken off.
clear_low :
    (k value : ℕ)
    → k ≤ 64
    → value < u64_end
    → bit_and value (u64_end - 2 ^ k) + value % 2 ^ k ≡ value
clear_low k value hk hv = bit_and-clear k 64 value hk hv

-- What the mask of `alignment - 1` makes of a value: the greatest multiple that is not above it.
pub record RoundsDown (value alignment r : ℕ) : Type 0 where
  pub aligned : r % alignment ≡ 0
  pub below : r ≤ value
  pub nearest : value < r + alignment

pub masked-RoundsDown :
    (value alignment : ℕ)
    → is_power_of_two alignment ≡ true
    → value < u64_end
    → RoundsDown value alignment (bit_and value (bit_not (alignment - 1)))
masked-RoundsDown value alignment p hv =
    let (k, hk, e) = is_power_of_two_lem alignment p in
    let pos : 0 < alignment = rw e (pow_pos k) in
    let mask : bit_not (alignment - 1) ≡ u64_end - alignment = omega arith in
    let kept : bit_and value (bit_not (alignment - 1)) + value % alignment ≡ value =
      rw (mask, e) (clear_low k value (omega arith) hv) in
    let lt = mod-lt value pos in
    let split = div-add-mod value alignment in
    let whole : bit_and value (bit_not (alignment - 1)) ≡ alignment * (value / alignment) + 0 =
      omega arith in
    record {
      aligned = rw whole (mul-add-mod_self_left alignment (value / alignment) 0 ∙ mod-eq_of_lt pos);
      below = omega arith;
      nearest = omega arith;
    }

-- For a 64-bit value `align_down` succeeds exactly when the alignment is a power of two, with the
-- greatest multiple not above the value.
pub align_down_lem :
    (value alignment : ℕ)
    → value < u64_end
    → (is_power_of_two alignment ≡ true)
        × ((r : ℕ) × (align_down value alignment ≡ ok r) × RoundsDown value alignment r)
      ⊎ (is_power_of_two alignment ≡ false) × (align_down value alignment ≡ err invalid_alignment)
unfolding align_down
align_down_lem value alignment hv = elim (Bool-cases (is_power_of_two alignment)) [
  | inl p ↦
      let (k, hk, e) = is_power_of_two_lem alignment p in
      let pos : 0 < alignment = rw e (pow_pos k) in
      inl (
        p,
        (
          bit_and value (bit_not (alignment - 1)),
          ground arith,
          masked-RoundsDown value alignment p hv,
        ),
      )
  | inr p ↦ inr (p, ground arith)
]

-- What `align_up` makes of a value: the least multiple that is not below it.
pub record RoundsUp (value alignment r : ℕ) : Type 0 where
  pub aligned : r % alignment ≡ 0
  pub above : value ≤ r
  pub nearest : r < value + alignment

-- For a power of two `align_up` returns the least multiple that is not below the value, or reports
-- an overflow, and then the value plus the alignment less one does not fit 64 bits.
pub align_up_lem :
    (value alignment : ℕ)
    → is_power_of_two alignment ≡ true
    → ((r : ℕ) × (align_up value alignment ≡ ok r) × RoundsUp value alignment r)
      ⊎ (u64_end ≤ value + (alignment - 1)) × (align_up value alignment ≡ err alignment_overflow)
unfolding align_up
align_up_lem value alignment p =
    let (k, hk, e) = is_power_of_two_lem alignment p in
    let pos : 0 < alignment = rw e (pow_pos k) in
    elim (Bool-cases (ltb (value + (alignment - 1)) u64_end)) [
      | inl fits ↦
          let down = masked-RoundsDown (value + (alignment - 1)) alignment p (ltb→lt _ _ fits) in
          inl (
            bit_and (value + (alignment - 1)) (bit_not (alignment - 1)),
            ground arith,
            record {
              aligned = down.aligned;
              above = omega (arith, down.nearest);
              nearest = omega (arith, down.below);
            },
          )
      | inr over ↦ inr (ground arith, ground arith)
    ]
