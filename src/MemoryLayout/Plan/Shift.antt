-- ===== src/MemoryLayout/Plan/Shift.antt =====
-- The in-place insertion of `MappingPlan::insert` (crates/memory-layout/src/lib.rs) is insertion
-- into a list sorted by start.
use unnamed_os_core.Common.{
  ℕ, zero, suc, ◌+◌, ◌-◌, ◌≤◌, ◌<◌, ◌≡◌, refl, ap, ◌∙◌, arith, ltb, if◌then◌else◌, List, [], ◌∷◌,
  length, get_or, set, take, Bool-cases, inl, inr, length-set,
}
use unnamed_os_core.MemoryLayout.Plan.{
  PlanEntry, MappingPlan, empty_entry, entries, find_position, shift_up, place,
}

-- Insertion before the first entry that does not start below the new one.
unfoldable pub insert_sorted : PlanEntry → List PlanEntry → List PlanEntry
insert_sorted e [] = e ∷ []
insert_sorted e (x ∷ xs) =
    if ltb x.virtual_range.start e.virtual_range.start then x ∷ insert_sorted e xs else e ∷ x ∷ xs

-- The last write of the loop, taken apart from those before it.
shift_up_last :
    (k i : ℕ) (xs : List PlanEntry)
    → shift_up (suc k) i xs
      ≡ set (shift_up k i xs) (i - k) (get_or (shift_up k i xs) (i - k - 1) empty_entry)
unfolding shift_up
shift_up_last zero i xs = let e : i - 0 ≡ i = omega arith in rw e
shift_up_last (suc k) i xs =
    let e : i - 1 - k ≡ i - suc k = omega arith in
    rw e at (shift_up_last k (i - 1) (set xs i (get_or xs (i - 1) empty_entry)))

-- Rounds that stay clear of the first slot leave it alone.
shift_up_tail :
    (k i : ℕ) (x : PlanEntry) (xs : List PlanEntry)
    → k ≤ i
    → shift_up k (suc i) (x ∷ xs) ≡ x ∷ shift_up k i xs
unfolding shift_up
shift_up_tail zero i x xs h = refl
shift_up_tail (suc k) zero x xs h = absurd (omega arith)
shift_up_tail (suc k) (suc i) x xs h =
    let e : suc (suc i) - 1 ≡ suc i = omega arith in
    let f : suc i - 1 ≡ i = omega arith in
    rw (e, f) (shift_up_tail k i x (set xs (suc i) (get_or xs i empty_entry)) (omega arith))

-- Shifting all `n` live entries frees the first slot.
place_front :
    (n : ℕ) (e : PlanEntry) (xs : List PlanEntry)
    → n < length xs
    → take (suc n) (set (shift_up n n xs) 0 e) ≡ e ∷ take n xs
unfolding shift_up
place_front n e [] h = absurd (omega arith)
place_front zero e (x ∷ xs) h = refl
place_front (suc n) e (x ∷ xs) h =
    let one : suc n - n ≡ 1 = omega arith in
    let zeroth : 1 - 1 ≡ 0 = omega arith in
    let last =
      rw (one, zeroth, shift_up_tail n n x xs (omega arith)) at
        (shift_up_last n (suc n) (x ∷ xs)) in
    ap (λ ys. take (suc (suc n)) (set ys 0 e)) last
    ∙ ap (λ ys. e ∷ ys) (place_front n x xs (omega arith))

find_position_tail :
    (rounds start position : ℕ) (x : PlanEntry) (xs : List PlanEntry)
    → find_position rounds start (suc position) (x ∷ xs)
      ≡ suc (find_position rounds start position xs)
unfolding find_position
find_position_tail zero start position x xs = refl
find_position_tail (suc rounds) start position x xs =
    let e : suc position + 1 ≡ suc (position + 1) = omega arith in
    rw e (ground (arith, find_position_tail rounds start (position + 1) x xs))

find_position-le :
    (rounds start position : ℕ) (xs : List PlanEntry)
    → find_position rounds start position xs ≤ position + rounds
unfolding find_position
find_position-le zero start position xs = omega arith
find_position-le (suc rounds) start position xs =
    ground (arith, find_position-le rounds start (position + 1) xs)

place_array :
    (n : ℕ) (e : PlanEntry) (xs : List PlanEntry)
    → n < length xs
    → let position = find_position n e.virtual_range.start 0 xs in
      take (suc n) (set (shift_up (n - position) n xs) position e) ≡ insert_sorted e (take n xs)
unfolding find_position insert_sorted shift_up
place_array n e [] h = absurd (omega arith)
place_array zero e (x ∷ xs) h = place_front zero e (x ∷ xs) h
place_array (suc n) e (x ∷ xs) h =
    let start = e.virtual_range.start in
    let p = find_position n start 0 xs in
    let next : find_position n start 1 (x ∷ xs) ≡ suc p = find_position_tail n start 0 x xs in
    let le = find_position-le n start 0 xs in
    elim (Bool-cases (ltb x.virtual_range.start start)) [
      | inl before ↦
          let less : suc n - suc p ≡ n - p = omega arith in
          rw (before, next, less, shift_up_tail (n - p) n x xs (omega arith))
            (ap (λ ys. x ∷ ys) (place_array n e xs (omega arith)))
      | inr behind ↦
          let whole : suc n - 0 ≡ suc n = omega arith in
          rw (behind, whole) (place_front (suc n) e (x ∷ xs) h)
    ]

-- When the array has room, the two loops of `insert` on it are insertion into a sorted list: the
-- live entries in front of the first that does not start below the new one, the new one, and the
-- rest.
pub entries-place :
    (e : PlanEntry) (m : MappingPlan)
    → m.len < length m.array
    → entries (place e m) ≡ insert_sorted e (entries m)
unfolding place
entries-place e m h =
    let next : m.len + 1 ≡ suc m.len = omega arith in rw next (place_array m.len e m.array h)

length-shift_up : (k i : ℕ) (xs : List PlanEntry) → length (shift_up k i xs) ≡ length xs
unfolding shift_up
length-shift_up zero i xs = refl
length-shift_up (suc k) i xs =
    length-shift_up k (i - 1) (set xs i (get_or xs (i - 1) empty_entry))
    ∙ length-set xs i (get_or xs (i - 1) empty_entry)

-- The array keeps its capacity.
pub length-place : (e : PlanEntry) (m : MappingPlan) → length (place e m).array ≡ length m.array
unfolding place
length-place e m =
    let position = find_position m.len e.virtual_range.start 0 m.array in
    length-set (shift_up (m.len - position) m.len m.array) position e
    ∙ length-shift_up (m.len - position) m.len m.array

pub len-place : (e : PlanEntry) (m : MappingPlan) → (place e m).len ≡ m.len + 1
unfolding place
len-place e m = refl
