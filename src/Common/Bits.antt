-- ===== src/Common/Bits.antt =====
-- The laws of `bit_and` and `bit_or` at masks and at values of disjoint bits.
use Prim.Native.Nat.{ℕ, zero, suc, ◌+◌, ◌-◌, ◌*◌, ◌/◌, ◌%◌, ◌^◌, ◌≤◌, ◌<◌, min, bit_and, digits}
use Prim.Native.Nat.{bit_and-bitwise}
use mathlib.Core.Path.{◌≡◌, refl, sym, ap, ◌∙◌}
use native.Mathlib.Omega.{arith}
use native.Mathlib.Nat.{pow-suc, mod-lt, div-add-mod, mul-add-mod_self_left, mod-eq_of_lt}

-- `bit_and` as the recursion on `rounds` digits that it stands for.
abbrev conjoin : ℕ → ℕ → ℕ → ℕ
conjoin rounds x mask = digits (λ _. 0) min rounds x mask

-- Rounds beyond the value of the first operand change nothing.
conjoin-more :
    (x spare rounds mask : ℕ) → x ≤ rounds → conjoin (rounds + spare) x mask ≡ conjoin rounds x mask
conjoin-more x spare zero mask h =
    let e : x ≡ 0 = omega arith in
    let r : 0 + spare ≡ spare = omega arith in rw (e, r) (conjoin-empty spare mask)
  where
    conjoin-empty : (n m : ℕ) → conjoin n 0 m ≡ 0
    conjoin-empty zero m = refl
    conjoin-empty (suc n) m = refl
conjoin-more zero spare (suc rounds) mask h =
    let e : suc rounds + spare ≡ suc (rounds + spare) = omega arith in rw e refl
conjoin-more (suc x) spare (suc rounds) mask h =
    let e : suc rounds + spare ≡ suc (rounds + spare) = omega arith in
    let below = conjoin-more (suc x / 2) spare rounds (mask / 2) (omega arith) in
    rw e (omega (arith, below))

bit_and-conjoin : (rounds x mask : ℕ) → x ≤ rounds → bit_and x mask ≡ conjoin rounds x mask
bit_and-conjoin rounds x mask h =
    let all : rounds ≡ x + (rounds - x) = omega arith in
    let native : bit_and x mask ≡ conjoin x x mask = bit_and-bitwise x mask in
    let more = conjoin-more x (rounds - x) x mask (omega arith) in
    native ∙ sym more ∙ ap (λ r. conjoin r x mask) (sym all)

conjoin-first :
    (rounds x mask : ℕ)
    → conjoin (suc rounds) x mask ≡ conjoin rounds (x / 2) (mask / 2) * 2 + min (x % 2) (mask % 2)
conjoin-first rounds (suc x) mask = refl
conjoin-first zero zero mask = omega arith
conjoin-first (suc rounds) zero mask = omega arith

-- The law for the lowest digit.
pub bit_and_step :
    (x mask : ℕ) → bit_and x mask ≡ bit_and (x / 2) (mask / 2) * 2 + min (x % 2) (mask % 2)
bit_and_step x mask =
    let whole = bit_and-conjoin (suc x) x mask (omega arith) in
    let halves = bit_and-conjoin x (x / 2) (mask / 2) (omega arith) in
    whole ∙ conjoin-first x x mask ∙ omega (arith, halves)

pub bit_and-zero : (x : ℕ) → bit_and x 0 ≡ 0
bit_and-zero x = bit_and-conjoin x x 0 (omega arith) ∙ conjoin-none x x
  where
    conjoin-none : (rounds y : ℕ) → conjoin rounds y 0 ≡ 0
    conjoin-none zero y = refl
    conjoin-none (suc rounds) zero = refl
    conjoin-none (suc rounds) (suc y) = omega (arith, conjoin-none rounds (suc y / 2))

pub pow_pos : (n : ℕ) → 0 < 2 ^ n
pow_pos zero = omega arith
pow_pos (suc n) = omega (arith, pow-suc 2 n, pow_pos n)

-- A value below `2 ^ n` keeps all its bits under a mask of `n` ones.
bit_and-ones_keep : (n a : ℕ) → a < 2 ^ n → bit_and a (2 ^ n - 1) ≡ a
bit_and-ones_keep zero a h = bit_and-zero a ∙ omega arith
bit_and-ones_keep (suc n) a h =
    let p = pow-suc 2 n in
    let q = pow_pos n in
    let half : (2 ^ suc n - 1) / 2 ≡ 2 ^ n - 1 = omega arith in
    let step = bit_and_step a (2 ^ suc n - 1) in
    let ih = bit_and-ones_keep n (a / 2) (omega arith) in omega (arith, rw half at step)

-- Dividing twice: the low bits of a value are the low bits of its half, and its lowest bit.
pub mod-double : (a p : ℕ) → 0 < p → a % (p * 2) ≡ (a / 2) % p * 2 + a % 2
mod-double a p h =
    let r = a / 2 % p * 2 + a % 2 in
    let lt : a / 2 % p < p = mod-lt (a / 2) h in
    let split = div-add-mod (a / 2) p in
    let whole : a ≡ (p * 2) * (a / 2 / p) + r = omega arith in
    ap (λ t. t % (p * 2)) whole
    ∙ mul-add-mod_self_left (p * 2) (a / 2 / p) r
    ∙ mod-eq_of_lt (omega arith)

-- A mask of `k` ones keeps the remainder by `2 ^ k`.
pub bit_and-ones : (k a : ℕ) → bit_and a (2 ^ k - 1) ≡ a % 2 ^ k
bit_and-ones zero a = bit_and-zero a ∙ omega arith
bit_and-ones (suc k) a =
    let p = pow-suc 2 k in
    let q = pow_pos k in
    let half : (2 ^ suc k - 1) / 2 ≡ 2 ^ k - 1 = omega arith in
    let step = bit_and_step a (2 ^ suc k - 1) in
    let ih = bit_and-ones k (a / 2) in
    omega (arith, rw half at step, mod-double a (2 ^ k) q, ap (λ t. a % t) p)

-- The mask `2 ^ m - 2 ^ k`, whose `k` low bits are clear, takes the remainder off.
pub bit_and-clear : (k m a : ℕ) → k ≤ m → a < 2 ^ m → bit_and a (2 ^ m - 2 ^ k) + a % 2 ^ k ≡ a
bit_and-clear zero m a h lt = omega (arith, bit_and-ones_keep m a lt)
bit_and-clear (suc k) zero a h lt = absurd (omega arith)
bit_and-clear (suc k) (suc m) a h lt =
    let p = pow-suc 2 k in
    let r = pow-suc 2 m in
    let half : (2 ^ suc m - 2 ^ suc k) / 2 ≡ 2 ^ m - 2 ^ k = omega arith in
    let even : (2 ^ suc m - 2 ^ suc k) % 2 ≡ 0 = omega arith in
    let step = bit_and_step a (2 ^ suc m - 2 ^ suc k) in
    let ih = bit_and-clear k m (a / 2) (omega arith) (omega arith) in
    omega (arith, rw half at step, mod-double a (2 ^ k) (pow_pos k), ap (λ t. a % t) p)

pub bit_and-one : (a : ℕ) → bit_and a 1 ≡ a % 2
bit_and-one a = bit_and-ones 1 a

-- A mask bounds what it keeps.
pub bit_and-le : (n x mask : ℕ) → mask < 2 ^ n → bit_and x mask ≤ mask
bit_and-le zero x mask h =
    let none : mask ≡ 0 = omega (arith, h) in
    let nothing = ap (bit_and x) none ∙ bit_and-zero x in omega (arith, nothing)
bit_and-le (suc n) x mask h =
    let p = pow-suc 2 n in
    let step = bit_and_step x mask in
    let ih = bit_and-le n (x / 2) (mask / 2) (omega (arith, p, h)) in omega (arith, step, ih)
