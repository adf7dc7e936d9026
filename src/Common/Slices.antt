-- ===== src/Common/Slices.antt =====
-- Parts of slices: what `take`, `drop` and `get_range` make of each other.
use unnamed_os_core.Common.Tests.{leb, ◌==◌, ==_iff}
use unnamed_os_core.Common.Lists.{length, take, drop, replicate, get_range}
use Prim.Native.Nat.{ℕ, zero, suc, ◌+◌, ◌-◌, ◌≤◌}
use mathlib.Core.Path.{◌≡◌, refl, sym, ap, ◌∙◌}
use mathlib.Core.Bool.{Bool, true, false, ◌&&◌}
use mathlib.Core.Option.{some}
use mathlib.Core.List.{List, [], ◌∷◌, ◌++◌}
use native.Mathlib.Omega.{arith}
use native.Mathlib.Numerals.{unary_clauses}

-- `left == right` on slices of bytes.
abbrev pub same_bytes : List ℕ → List ℕ → Bool
same_bytes [] [] = true
same_bytes [] (y ∷ ys) = false
same_bytes (x ∷ xs) [] = false
same_bytes (x ∷ xs) (y ∷ ys) = (x == y) && same_bytes xs ys

-- `iter().all(|byte| *byte == 0)`
abbrev pub all_zero : List ℕ → Bool
all_zero [] = true
all_zero (x ∷ xs) = (x == 0) && all_zero xs

leb-true : (a b : ℕ) → a ≤ b → leb a b ≡ true
leb-true a b h = ground arith

pub same_bytes_lem : (xs ys : List ℕ) → same_bytes xs ys ≡ true → xs ≡ ys
same_bytes_lem [] [] h = refl
same_bytes_lem [] (y ∷ ys) h = cc
same_bytes_lem (x ∷ xs) [] h = cc
same_bytes_lem (x ∷ xs) (y ∷ ys) h =
    let heads : x ≡ y = ground arith in let tails = same_bytes_lem xs ys (ground arith) in cc

pub same_bytes_refl : (xs : List ℕ) → same_bytes xs xs ≡ true
same_bytes_refl [] = refl
same_bytes_refl (x ∷ xs) = rw ((==_iff x x).1 refl, same_bytes_refl xs)

pub all_zero_lem : (xs : List ℕ) → all_zero xs ≡ true → xs ≡ replicate (length xs) 0
all_zero_lem [] h = refl
all_zero_lem (x ∷ xs) h =
    let head : x ≡ 0 = ground arith in let tail = all_zero_lem xs (ground arith) in cc

pub all_zero-replicate : (n : ℕ) → all_zero (replicate n 0) ≡ true
all_zero-replicate zero = refl
all_zero-replicate (suc n) = all_zero-replicate n

pub replicate-append {ℓ} :
    {A : Type ℓ} (m n k : ℕ) (a : A) → m + n ≡ k → replicate m a ++ replicate n a ≡ replicate k a
replicate-append zero n k a h = let e : n ≡ k = omega arith in ap (λ i. replicate i a) e
replicate-append (suc m) n zero a h = absurd (omega arith)
replicate-append (suc m) n (suc k) a h = ap (λ l. a ∷ l) (replicate-append m n k a (omega arith))

module _ {ℓ} {A : Type ℓ} where
  pub take-drop : (n : ℕ) (xs : List A) → take n xs ++ drop n xs ≡ xs
  take-drop zero xs = refl
  take-drop (suc n) [] = refl
  take-drop (suc n) (x ∷ xs) = ap (λ l. x ∷ l) (take-drop n xs)

  pub length-drop : (n : ℕ) (xs : List A) → n ≤ length xs → length (drop n xs) + n ≡ length xs
  length-drop zero xs h = omega arith
  length-drop (suc n) [] h = absurd (omega arith)
  length-drop (suc n) (x ∷ xs) h = let rest = length-drop n xs (omega arith) in omega (arith, rest)

  take-[] : (n : ℕ) → take {A = A} n [] ≡ []
  take-[] zero = refl
  take-[] (suc n) = refl

  pub take-all : (xs : List A) → take (length xs) xs ≡ xs
  take-all [] = refl
  take-all (x ∷ xs) = ap (λ l. x ∷ l) (take-all xs)

  pub drop-all : (xs : List A) → drop (length xs) xs ≡ []
  drop-all [] = refl
  drop-all (x ∷ xs) = drop-all xs

  pub take-append : (xs ys : List A) → take (length xs) (xs ++ ys) ≡ xs
  take-append [] ys = refl
  take-append (x ∷ xs) ys = ap (λ l. x ∷ l) (take-append xs ys)

  pub drop-append : (xs ys : List A) → drop (length xs) (xs ++ ys) ≡ ys
  drop-append [] ys = refl
  drop-append (x ∷ xs) ys = drop-append xs ys

  pub drop-append_more :
      (n k : ℕ) (xs ys : List A) → k ≡ length xs + n → drop k (xs ++ ys) ≡ drop n ys
  drop-append_more n k [] ys h = let e : k ≡ n = omega arith in ap (λ i. drop i ys) e
  drop-append_more n zero (x ∷ xs) ys h = absurd (omega arith)
  drop-append_more n (suc k) (x ∷ xs) ys h = drop-append_more n k xs ys (omega arith)

  -- The rest of a slice from `a`, split at `b`.
  pub drop-split :
      (a b : ℕ) (xs : List A) → a ≤ b → drop a xs ≡ take (b - a) (drop a xs) ++ drop b xs
  drop-split zero b xs h = simp unary_clauses (sym (take-drop b xs))
  drop-split (suc a) zero xs h = absurd (omega arith)
  drop-split (suc a) (suc b) [] h = ap (λ l. l ++ []) (sym (take-[] (suc b - suc a)))
  drop-split (suc a) (suc b) (x ∷ xs) h =
      let e : b - a ≡ suc b - suc a = omega arith in
      drop-split a b xs (omega arith) ∙ ap (λ k. take k (drop a xs) ++ drop b xs) e

  pub take-replicate : (n m : ℕ) (a : A) → n ≤ m → take n (replicate m a) ≡ replicate n a
  take-replicate zero m a h = refl
  take-replicate (suc n) zero a h = absurd (omega arith)
  take-replicate (suc n) (suc m) a h = ap (λ l. a ∷ l) (take-replicate n m a (omega arith))

  pub drop-replicate : (n m : ℕ) (a : A) → drop n (replicate m a) ≡ replicate (m - n) a
  drop-replicate zero m a = let e : m ≡ m - 0 = omega arith in ap (λ k. replicate k a) e
  drop-replicate (suc n) zero a = let e : 0 ≡ 0 - suc n = omega arith in ap (λ k. replicate k a) e
  drop-replicate (suc n) (suc m) a =
      let e : m - n ≡ suc m - suc n = omega arith in
      drop-replicate n m a ∙ ap (λ k. replicate k a) e

  -- What a part that exists is.
  pub get_range-some :
      (xs : List A) (start end : ℕ) {part : List A}
      → get_range xs start end ≡ some part
      → (start ≤ end) × (end ≤ length xs) × (part ≡ take (end - start) (drop start xs))
  unfolding get_range
  get_range-some xs start end h = (ground arith, ground arith, ground arith)

  pub get_range-inside :
      (xs : List A) (start end : ℕ)
      → start ≤ end
      → end ≤ length xs
      → get_range xs start end ≡ some (take (end - start) (drop start xs))
  unfolding get_range
  get_range-inside xs start end ordered inside =
      rw (leb-true start end ordered, leb-true end (length xs) inside)
