-- ===== src/Common/Checked.antt =====
-- What a step of a `do` block that succeeds has found: the sums, products and differences that are
-- checked, and the tests.
use Prim.Native.Nat.{ℕ, ◌+◌, ◌*◌, ◌<◌}
use mathlib.Core.Path.{◌≡◌, refl}
use mathlib.Core.Bool.{Bool, true, false, not}
use native.Mathlib.Omega.{arith}
use unnamed_os_core.Common.Tests.{checked_add, checked_sub, checked_mul, u64_end}
use unnamed_os_core.Common.Outcome.{Result, ok, ok_or, reject_if}

pub ok-injective {ℓ κ} :
    {E : Type ℓ} {A : Type κ} {a b : A} → ◌≡◌ {A = Result E A} (ok a) (ok b) → a ≡ b
ok-injective h = cc

module _ {ℓ} {E : Type ℓ} (e : E) where
  pub reject_if-ok : (b : Bool) → reject_if b e ≡ ok tt → b ≡ false
  reject_if-ok true h = cc
  reject_if-ok false h = refl

  pub reject_if-not : (b : Bool) → reject_if (not b) e ≡ ok tt → b ≡ true
  reject_if-not true h = refl
  reject_if-not false h = cc

  pub ok_or-checked_add :
      (a b c : ℕ) → ok_or (checked_add a b) e ≡ ok c → (c ≡ a + b) × (a + b < u64_end)
  ok_or-checked_add a b c h = ground arith

  pub ok_or-checked_mul :
      (a b c : ℕ) → ok_or (checked_mul a b) e ≡ ok c → (c ≡ a * b) × (a * b < u64_end)
  ok_or-checked_mul a b c h = ground arith

  pub ok_or-checked_sub : (a b c : ℕ) → ok_or (checked_sub a b) e ≡ ok c → b + c ≡ a
  ok_or-checked_sub a b c h = ground arith
