-- ===== src/MemoryLayout/Cpu/Masks.antt =====
-- What the masks of crates/memory-layout/src/cpu.rs keep of a register.
use unnamed_os_core.Common.{
  ℕ, zero, suc, ◌+◌, ◌-◌, ◌*◌, ◌/◌, ◌%◌, ◌^◌, ◌≤◌, ◌<◌, ◌≡◌, refl, sym, ap, ◌∙◌, subst, inl, inr,
  arith, Bool, true, false, ltb, leb, ◌==◌, ==_iff, ◌&&◌, ◌||◌, bit_and, bit_or, Bool-cases,
  if◌then◌else◌, ◌↔◌, u64_end,
}
use native.Mathlib.Nat.{pow-suc, div-div-eq-div-mul, mod-lt}
use unnamed_os_core.Common.Bits.{bit_and_step, bit_and-one, pow_pos}
use unnamed_os_core.MemoryLayout.Align.{bit_not}
use unnamed_os_core.MemoryLayout.Cpu.{lacks, address_mask}

-- The test of one bit.
abbrev pub bit : ℕ → ℕ → ℕ
bit k value = value / 2 ^ k % 2

-- A mask of one bit keeps that bit.
bit_and-power : (k value : ℕ) → bit_and value (2 ^ k) ≡ 2 ^ k * (value / 2 ^ k % 2)
bit_and-power zero value = let one = bit_and-one value in omega (arith, one)
bit_and-power (suc k) value =
    let p = pow-suc 2 k in
    let half : 2 ^ suc k / 2 ≡ 2 ^ k = omega (arith, p) in
    let even : 2 ^ suc k % 2 ≡ 0 = omega (arith, p) in
    let step = bit_and_step value (2 ^ suc k) in
    let ih = bit_and-power k (value / 2) in
    let quotient : value / 2 / 2 ^ k ≡ value / 2 ^ suc k =
      div-div-eq-div-mul value 2 (2 ^ k) ∙ ap (λ d. value / d) (omega (arith, p)) in
    let low = rw (even, half) at step in
    let kept = rw quotient at ih in
    twice (2 ^ k) (2 ^ suc k) (value / 2 ^ suc k % 2) (omega (arith, p)) (omega (arith, low, kept))
  where
    twice : (p q b : ℕ) {x : ℕ} → q ≡ p * 2 → x ≡ p * b * 2 → x ≡ q * b
    twice p q b h e = grind (arith, h, e)

pub lacks_iff : (k value : ℕ) → (lacks value (2 ^ k) ≡ true) ↔ (bit k value ≡ 0)
lacks_iff k value =
    let kept = bit_and-power k value in
    let positive = pow_pos k in
    (
      λ h.
          zero_bit (2 ^ k) (bit k value) positive
            (sym kept ∙ (==_iff (bit_and value (2 ^ k)) 0).0 h),
      λ h. (==_iff (bit_and value (2 ^ k)) 0).1 (kept ∙ ap (λ b. 2 ^ k * b) h ∙ omega arith),
    )
  where
    zero_bit : (p b : ℕ) → 0 < p → p * b ≡ 0 → b ≡ 0
    zero_bit p zero h e = refl
    zero_bit p (suc b) h e = absurd (grind (arith, h, e))

pub lacks-not_iff : (k value : ℕ) → (lacks value (2 ^ k) ≡ false) ↔ (bit k value ≡ 1)
lacks-not_iff k value =
    let (to, from) = lacks_iff k value in
    let small : bit k value < 2 = mod-lt (value / 2 ^ k) (omega arith) in
    elim (Bool-cases (lacks value (2 ^ k))) [
      | inl missing ↦ (
        λ h. absurd (clash (lacks value (2 ^ k)) missing h),
        λ h. let none = to missing in absurd (omega (arith, none, h)),
      )
      | inr there ↦ (
        λ h. elim (Bool-cases (bit k value == 0)) [
          | inl none ↦ absurd (clash (lacks value (2 ^ k)) (from ((==_iff _ 0).0 none)) there)
          | inr one ↦ is_one (bit k value) one small
        ],
        λ h. there,
      )
    ]
  where
    clash : (b : Bool) → b ≡ true → b ≡ false → ⊥
    clash b h e = cc

    is_one : (b : ℕ) → (b == 0) ≡ false → b < 2 → b ≡ 1
    is_one b h small = ground arith

-- A test that holds of all numbers below a bound.
all_below : ℕ → (ℕ → Bool) → Bool
all_below zero test = true
all_below (suc n) test = let rest = all_below n test in if test n then rest else false

all_below-lt : (n : ℕ) (test : ℕ → Bool) (k : ℕ) → all_below n test ≡ true → k < n → test k ≡ true
unfolding all_below
all_below-lt zero test k h lt = absurd (omega arith)
all_below-lt (suc n) test k h lt = elim (Bool-cases (test n)) [
  | inr fails ↦ absurd (ground (arith, fails, h))
  | inl holds ↦ elim (Bool-cases (k == n)) [
    | inl same ↦ subst (λ i. test i ≡ true) (sym ((==_iff k n).0 same)) holds
    | inr other ↦ all_below-lt n test k (ground (arith, holds, h)) (ground arith)
  ]
]

-- The masks at the widths of physical addresses that are valid.
abbrev masks_at : ℕ → Bool
masks_at b =
    ltb b 36
    || (address_mask b == 2 ^ b - 4096)
      && (bit_not (bit_or (address_mask b) 4095) == u64_end - 2 ^ b)
      && (bit_not (bit_or (address_mask b) 24) == u64_end - 2 ^ b + 4071)
      && (2 ^ b == 2 ^ (b - 12) * 4096)
      && leb (2 ^ b) (2 ^ 52)

pub record Masks (b : ℕ) : Type 0 where
  pub address : address_mask b ≡ 2 ^ b - 4096
  pub reserved_pcid : bit_not (bit_or (address_mask b) 4095) ≡ u64_end - 2 ^ b
  pub reserved : bit_not (bit_or (address_mask b) 24) ≡ u64_end - 2 ^ b + 4071
  pub pages : 2 ^ b ≡ 2 ^ (b - 12) * 4096
  pub small : 2 ^ b ≤ 2 ^ 52

pub masks : (b : ℕ) → 36 ≤ b → b ≤ 52 → Masks b
unfolding all_below
masks b low high =
    let all = all_below-lt 53 masks_at b refl (omega (arith, high)) in
    record {
      address = ground (arith, all);
      reserved_pcid = ground (arith, all);
      reserved = ground (arith, all);
      pages = ground (arith, all);
      small = ground (arith, all);
    }
