-- ===== src/MemoryLayout/Cpu/Cr3.antt =====
-- What the test of CR3 in crates/memory-layout/src/cpu.rs says of the parts of the register.
use unnamed_os_core.Common.{
  ℕ, zero, suc, ◌+◌, ◌-◌, ◌*◌, ◌/◌, ◌%◌, ◌^◌, ◌≤◌, ◌<◌, ◌≡◌, ◌↔◌, ap, ◌∙◌, arith, bit_and, bit_or,
  min, u64_end,
}
use native.Mathlib.Nat.{pow-suc, div-div-eq-div-mul, mod-lt, mod-eq_of_lt}
use unnamed_os_core.Common.Bits.{
  bit_and_step, bit_and-zero, bit_and-ones, bit_and-clear, mod-double, pow_pos,
}
use unnamed_os_core.MemoryLayout.Align.{bit_not}
use unnamed_os_core.MemoryLayout.Cpu.{address_mask}
use unnamed_os_core.MemoryLayout.Cpu.Masks.{Masks}

-- The mask of a value, in two parts: the low `k` bits, and the others.
bit_and-split :
    (k x m : ℕ)
    → bit_and x m ≡ bit_and (x / 2 ^ k) (m / 2 ^ k) * 2 ^ k + bit_and (x % 2 ^ k) (m % 2 ^ k)
bit_and-split zero x m =
    let x_whole : x / 2 ^ 0 ≡ x = omega arith in
    let m_whole : m / 2 ^ 0 ≡ m = omega arith in
    let x_rest : x % 2 ^ 0 ≡ 0 = omega arith in
    let m_rest : m % 2 ^ 0 ≡ 0 = omega arith in
    rw (x_whole, m_whole, x_rest, m_rest, bit_and-zero 0) (omega arith)
bit_and-split (suc k) x m =
    let p = pow-suc 2 k in
    let q = pow_pos k in
    let doubled : 2 ^ suc k ≡ 2 ^ k * 2 = omega (arith, p) in
    let quotient : (v : ℕ) → v / 2 / 2 ^ k ≡ v / 2 ^ suc k =
      λ v. div-div-eq-div-mul v 2 (2 ^ k) ∙ ap (λ d. v / d) (omega (arith, p)) in
    let rest : (v : ℕ) → v % 2 ^ suc k ≡ v / 2 % 2 ^ k * 2 + v % 2 =
      λ v. ap (λ d. v % d) doubled ∙ mod-double v (2 ^ k) q in
    let half : (v : ℕ) → v % 2 ^ suc k / 2 ≡ v / 2 % 2 ^ k = λ v. omega (arith, rest v) in
    let odd : (v : ℕ) → v % 2 ^ suc k % 2 ≡ v % 2 = λ v. omega (arith, rest v) in
    let whole = bit_and_step x m in
    let low = bit_and_step (x % 2 ^ suc k) (m % 2 ^ suc k) in
    let ih = bit_and-split k (x / 2) (m / 2) in
    let high = rw (quotient x, quotient m) at ih in
    let below = rw (half x, half m, odd x, odd m) at low in
    together (2 ^ k) (2 ^ suc k) (bit_and (x / 2 ^ suc k) (m / 2 ^ suc k))
      (bit_and (x / 2 % 2 ^ k) (m / 2 % 2 ^ k)) (min (x % 2) (m % 2)) doubled
      (omega (arith, whole, high)) (omega (arith, below))
  where
    together :
        (p q a b c : ℕ) {w r : ℕ}
        → q ≡ p * 2
        → w ≡ (a * p + b) * 2 + c
        → r ≡ b * 2 + c
        → w ≡ a * q + r
    together p q a b c h e f = grind (arith, h, e, f)

-- The bits of a register above a width.
bit_and-above : (b m x : ℕ) → b ≤ m → x < 2 ^ m → (bit_and x (2 ^ m - 2 ^ b) ≡ 0) ↔ (x < 2 ^ b)
bit_and-above b m x fits small =
    let parts = bit_and-clear b m x fits small in
    let below = mod-lt x (pow_pos b) in
    (
      λ none. omega (arith, parts, none, below),
      λ lt. let same = mod-eq_of_lt lt in omega (arith, parts, same),
    )

-- The bits of a byte pair outside of 3 and 4.
bit_and-not_flags : (y : ℕ) → y < 4096 → (bit_and y 4071 ≡ 0) ↔ ((y % 8 ≡ 0) × (y < 32))
bit_and-not_flags y small =
    let parts = bit_and-split 5 y 4071 in
    let high = bit_and-ones 7 (y / 32) in
    let low = bit_and-ones 3 (y % 32) in
    (
      λ none. (omega (arith, parts, high, low, none), omega (arith, parts, high, low, none)),
      λ is. omega (arith, parts, high, low, is.0, is.1),
    )

module _ (b cr3 : ℕ) (is : Masks b) (low : 36 ≤ b) (high : b ≤ 52) (fits : cr3 < u64_end) where
  -- With PCIDs, CR3 has no other bits exactly if it is below the end of the physical addresses.
  pub known_pcid_iff : (bit_and cr3 (bit_not (bit_or (address_mask b) 4095)) ≡ 0) ↔ (cr3 < 2 ^ b)
  known_pcid_iff = rw (is.reserved_pcid) (bit_and-above b 64 cr3 (omega (arith, high)) fits)

  -- Without them, its low 12 bits are moreover those of PWT and PCD.
  pub known_iff :
      (bit_and cr3 (bit_not (bit_or (address_mask b) 24)) ≡ 0)
      ↔ ((cr3 < 2 ^ b) × (cr3 % 4096 % 8 ≡ 0) × (cr3 % 4096 < 32))
  known_iff =
      let mask : ℕ = u64_end - 2 ^ b + 4071 in
      let pages = is.pages in
      let small = is.small in
      let upper : mask / 4096 ≡ 2 ^ 52 - 2 ^ (b - 12) = omega (arith, pages, small) in
      let lower : mask % 4096 ≡ 4071 = omega (arith, pages, small) in
      let split = rw (upper, lower) at (bit_and-split 12 cr3 mask) in
      let (above, from_above) =
        bit_and-above (b - 12) 52 (cr3 / 4096) (omega (arith, high)) (omega (arith, fits)) in
      let (flags, from_flags) = bit_and-not_flags (cr3 % 4096) (omega arith) in
      rw (is.reserved) (
        λ none.
            let lt = above (omega (arith, split, none)) in
            let (aligned, few) = flags (omega (arith, split, none)) in
            (omega (arith, lt, pages), aligned, few),
        λ known.
            let lt = known.0 in
            let none_above = from_above (omega (arith, lt, pages)) in
            let none_low = from_flags (known.1, known.2) in
            omega (arith, split, none_above, none_low),
      )

  -- The root and the low bits are the parts of CR3.
  pub root_lem : cr3 < 2 ^ b → bit_and cr3 (address_mask b) + cr3 % 4096 ≡ cr3
  root_lem small = rw (is.address) (bit_and-clear 12 b cr3 (omega (arith, low)) small)

-- The low bits that are kept with PCIDs, and without.
pub bit_and-pcid : (cr3 : ℕ) → bit_and cr3 4095 ≡ cr3 % 4096
bit_and-pcid cr3 = bit_and-ones 12 cr3

pub bit_and-pwt_pcd : (cr3 : ℕ) → cr3 % 4096 % 8 ≡ 0 → cr3 % 4096 < 32 → bit_and cr3 24 ≡ cr3 % 4096
bit_and-pwt_pcd cr3 aligned few =
    let split = bit_and-split 5 cr3 24 in
    let none = bit_and-zero (cr3 / 32) in
    let inner = bit_and-split 3 (cr3 % 32) 24 in
    let two = bit_and-ones 2 (cr3 % 32 / 8) in
    let rest = bit_and-zero (cr3 % 32 % 8) in
    omega (arith, split, none, inner, two, rest, aligned, few)
