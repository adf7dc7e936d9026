-- ===== src/Common/Tests.antt =====
-- Boolean tests on the native numbers, the conditional, and checked 64-bit arithmetic.
use Prim.Native.Nat.{ℕ, suc, zero, ◌+◌, ◌-◌, ◌*◌, ◌^◌, ◌<◌, compare, Ordering}
use mathlib.Core.Path.{◌≡◌, refl}
use mathlib.Core.Logic.{◌↔◌, ◌⊎◌, inl, inr}
use mathlib.Core.Bool.{Bool, true, false}
use mathlib.Core.Option.{Option, none, some}
use native.Mathlib.Omega.{arith}

abbrev pub ltb : ℕ → ℕ → Bool
ltb a b = elim (compare a b) [ Ordering.lt ↦ true | _ ↦ false ]

abbrev pub leb : ℕ → ℕ → Bool
leb a b = elim (compare a b) [ Ordering.gt ↦ false | _ ↦ true ]

infix 50 ◌==◌
abbrev pub ◌==◌ : ℕ → ℕ → Bool
a == b = elim (compare a b) [ Ordering.eq ↦ true | _ ↦ false ]

infix 1 if◌then◌else◌
abbrev pub if◌then◌else◌ {ℓ} : {A : Type ℓ} → Bool → A → A → A
if true then x else y = x
if false then x else y = y

pub ltb→lt : (a b : ℕ) → ltb a b ≡ true → a < b
ltb→lt a b h = ground arith

pub ==_iff : (a b : ℕ) → ((a == b) ≡ true) ↔ (a ≡ b)
==_iff a b = ground arith

pub Bool-cases : (b : Bool) → (b ≡ true) ⊎ (b ≡ false)
Bool-cases true = inl refl
Bool-cases false = inr refl

pub Option-cases {ℓ} : {A : Type ℓ} (o : Option A) → (o ≡ none) ⊎ ((a : A) × (o ≡ some a))
Option-cases none = inl refl
Option-cases (some a) = inr (a, refl)

-- One more than the largest u64, u32 and u8.
abbrev pub u64_end : ℕ
u64_end = 0x1_0000_0000_0000_0000

abbrev pub u32_end : ℕ
u32_end = 0x1_0000_0000

abbrev pub u8_end : ℕ
u8_end = 256

-- `u64::checked_add`, `checked_mul` and `checked_sub`. (`usize` has 64 bits on x86-64.)
abbrev pub checked_add : ℕ → ℕ → Option ℕ
checked_add a b = if ltb (a + b) u64_end then some (a + b) else none

abbrev pub checked_mul : ℕ → ℕ → Option ℕ
checked_mul a b = if ltb (a * b) u64_end then some (a * b) else none

abbrev pub checked_sub : ℕ → ℕ → Option ℕ
checked_sub a b = if ltb a b then none else some (a - b)

-- `u64::is_power_of_two`: one of the first `n` powers is the value.
pub is_power_below : ℕ → ℕ → Bool
is_power_below zero a = false
is_power_below (suc n) a = if a == 2 ^ n then true else is_power_below n a

unfoldable pub is_power_of_two : ℕ → Bool
unfolding is_power_below
is_power_of_two a = is_power_below 64 a

is_power_below_lem : (n a : ℕ) → is_power_below n a ≡ true → (k : ℕ) × (k < n) × (a ≡ 2 ^ k)
unfolding is_power_below
is_power_below_lem zero a h = absurd (ground arith)
is_power_below_lem (suc n) a h = elim (Bool-cases (a == 2 ^ n)) [
  | inl e ↦ (n, omega arith, (==_iff a (2 ^ n)).0 e)
  | inr e ↦ let (k, lt, p) = is_power_below_lem n a (ground arith) in (k, omega arith, p)
]

-- A power of two among the u64 values is `2 ^ k` for some `k` below 64.
pub is_power_of_two_lem : (a : ℕ) → is_power_of_two a ≡ true → (k : ℕ) × (k < 64) × (a ≡ 2 ^ k)
unfolding is_power_of_two
is_power_of_two_lem a h = is_power_below_lem 64 a h

pub power-is_power_below : (n k : ℕ) → k < n → is_power_below n (2 ^ k) ≡ true
unfolding is_power_below
power-is_power_below zero k h = absurd (omega arith)
power-is_power_below (suc n) k h = elim (Bool-cases (2 ^ k == 2 ^ n)) [
  | inl e ↦ ground arith
  | inr e ↦ elim (Bool-cases (k == n)) [
    | inl q ↦ ground arith
    | inr q ↦ ground (arith, power-is_power_below n k)
  ]
]
