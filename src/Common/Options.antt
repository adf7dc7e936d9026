-- ===== src/Common/Options.antt =====
-- `Option` with the bind that `?` is in a function that returns one.
use mathlib.Core.Path.{◌≡◌, refl}
use mathlib.Core.Option.{Option, none, some}

infixl 5 ◌>>=◌
abbrev pub ◌>>=◌ {ℓ κ} : {A : Type ℓ} {B : Type κ} → Option A → (A → Option B) → Option B
none >>= next = none
some value >>= next = next value

pub >>=-eq-some {ℓ κ} :
    {A : Type ℓ} {B : Type κ} (step : Option A) (next : A → Option B) {b : B}
    → (step >>= next) ≡ some b
    → (value : A) × (step ≡ some value) × (next value ≡ some b)
>>=-eq-some none next both = cc
>>=-eq-some (some value) next both = (value, refl, both)
