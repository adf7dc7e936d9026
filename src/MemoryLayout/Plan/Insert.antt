-- ===== src/MemoryLayout/Plan/Insert.antt =====
-- `new`, `insert_mapping` and `insert_guard` of crates/memory-layout/src/lib.rs keep the invariant.
use unnamed_os_core.Common.{
  ℕ, ◌≤◌, ◌<◌, ◌≡◌, refl, false, arith, ltb, ◌==◌, ok, raised, List, [], ◌∷◌, length, All, Pairwise,
  All-map, Bool-cases, inl, inr, >>=-eq-ok, reject_if, map_err, map_err-eq-ok, not,
}
use unnamed_os_core.MemoryLayout.Range
use unnamed_os_core.MemoryLayout.Range.{PhysicalRange, VirtualRange, overlaps, contains_range}
use unnamed_os_core.MemoryLayout.Range.Accept.{IsPhysical, IsVirtual}
use unnamed_os_core.MemoryLayout.Permissions.{MappingPermissions, CachePolicy}
use unnamed_os_core.MemoryLayout.Region.{kernel_local, region_range}
use unnamed_os_core.MemoryLayout.Policy.{MappingKind, validate_mapping_policy}
use unnamed_os_core.MemoryLayout.Policy.Laws.{validate_mapping_policy_accepts}
use unnamed_os_core.MemoryLayout.Plan.{
  PlanEntry, MappingPlan, entries, new, check_conflicts, place, insert, insert_mapping,
  insert_guard,
}
use unnamed_os_core.MemoryLayout.Plan.Shift.{insert_sorted, entries-place, length-place, len-place}
use unnamed_os_core.MemoryLayout.Plan.Valid.{
  IsEntry, Before, Compatible-sym, AliasSafe, Clear, check_conflicts-Clear, IsValid,
}

All-insert_sorted {κ} :
    (P : PlanEntry → Type κ) (e : PlanEntry) (xs : List PlanEntry)
    → P e
    → All P xs
    → All P (insert_sorted e xs)
unfolding insert_sorted
All-insert_sorted P e [] p h = (p, tt)
All-insert_sorted P e (x ∷ xs) p h =
    elim (Bool-cases (ltb x.virtual_range.start e.virtual_range.start)) [
      | inl before ↦ rw before (h.0, All-insert_sorted P e xs p h.1)
      | inr behind ↦ rw behind (p, h)
    ]

abbrev NonEmpty : PlanEntry → Type 0
NonEmpty e = e.virtual_range.start < e.virtual_range.end

-- The order of starts is the order of ranges, for ranges that do not overlap.
ordered-insert_sorted :
    (e : PlanEntry) (xs : List PlanEntry)
    → NonEmpty e
    → All NonEmpty xs
    → All (λ x. overlaps x.virtual_range e.virtual_range ≡ false) xs
    → Pairwise Before xs
    → Pairwise Before (insert_sorted e xs)
unfolding insert_sorted
ordered-insert_sorted e [] ne nes apart h = (tt, tt)
ordered-insert_sorted e (x ∷ xs) ne nes apart h =
    elim (Bool-cases (ltb x.virtual_range.start e.virtual_range.start)) [
      | inl before ↦
          let first : Before x e = ground (arith, apart.0, nes.0) in
          rw before (
            All-insert_sorted (Before x) e xs first h.0,
            ordered-insert_sorted e xs ne nes.1 apart.1 h.1,
          )
      | inr behind ↦
          let first : Before e x = ground (arith, apart.0, nes.0) in
          let nonempty : NonEmpty x = nes.0 in
          rw behind ((first, All-map (λ y b. omega arith) xs h.0), h)
    ]

aliases-insert_sorted :
    (e : PlanEntry) (xs : List PlanEntry)
    → All (λ x. AliasSafe x e) xs
    → Pairwise AliasSafe xs
    → Pairwise AliasSafe (insert_sorted e xs)
unfolding insert_sorted
aliases-insert_sorted e [] safe h = (tt, tt)
aliases-insert_sorted e (x ∷ xs) safe h =
    elim (Bool-cases (ltb x.virtual_range.start e.virtual_range.start)) [
      | inl before ↦
          rw before
            (All-insert_sorted (AliasSafe x) e xs safe.0 h.0, aliases-insert_sorted e xs safe.1 h.1)
      | inr behind ↦
          let turn = λ (y : PlanEntry) (s : AliasSafe y e).
            Compatible-sym y.backing y.permissions e.backing e.permissions s in
          rw behind ((turn x safe.0, All-map turn xs safe.1), h)
    ]

-- A call of `insert` that succeeds has found no conflict and room, and places the entry.
pub insert-eq-ok :
    (e : PlanEntry) (m m' : MappingPlan)
    → insert e m ≡ ok m'
    → All (Clear e) (entries m) × ((m.len == length m.array) ≡ false) × (m' ≡ place e m)
unfolding insert
insert-eq-ok e m m' h =
    let (_, clear, h') = >>=-eq-ok (check_conflicts e (entries m)) _ h in
    (check_conflicts-Clear e (entries m) (ground arith), ground arith, ground arith)

insert-IsValid :
    (e : PlanEntry) (m m' : MappingPlan) → IsEntry e → IsValid m → insert e m ≡ ok m' → IsValid m'
insert-IsValid e m m' entry v h =
    let (clear, room, same) = insert-eq-ok e m m' h in
    let free : m.len < length m.array = ground (arith, v.fits) in
    let sorted = entries-place e m free in
    let apart = All-map (λ x c. c.0) (entries m) clear in
    let nonempty = All-map {P = IsEntry} (λ x i. i.0.ordered) (entries m) v.each in
    let capacity = length-place e m in
    let count = len-place e m in
    let fits : (place e m).len ≤ length (place e m).array = omega arith in
    rw same (record {
      fits = fits;
      each = rw sorted (All-insert_sorted IsEntry e (entries m) entry v.each);
      ordered =
          rw sorted (ordered-insert_sorted e (entries m) entry.0.ordered nonempty apart v.ordered);
      aliases =
          rw sorted (
            aliases-insert_sorted e (entries m) (All-map (λ x c. c.1) (entries m) clear) v.aliases);
    })

-- A new plan is empty and valid.
pub new-IsValid : (capacity : ℕ) → IsValid (new capacity)
unfolding new
new-IsValid capacity = record { fits = omega arith; each = tt; ordered = tt; aliases = tt }

-- `insert_mapping` over valid ranges keeps the invariant of a valid plan: the new entry is allowed by the policy for its kind, and
-- the live entries stay sorted, apart, and free of writable and executable aliases.
pub insert_mapping-IsValid :
    (v p : Range.Range) (permissions : MappingPermissions) (cache : CachePolicy)
    (kind : MappingKind) (m m' : MappingPlan)
    → IsVirtual v
    → IsPhysical p
    → IsValid m
    → insert_mapping v p permissions cache kind m ≡ ok m'
    → IsValid m'
unfolding insert_mapping
insert_mapping-IsValid v p permissions cache kind m m' hv hp valid h =
    let (_, sizes, h') = >>=-eq-ok (reject_if (not (Range.length v == Range.length p)) _) _ h in
    let (_, policy, h'') =
      >>=-eq-ok (map_err raised (validate_mapping_policy v p permissions cache kind)) _ h' in
    let allowed =
      (validate_mapping_policy_accepts v p permissions cache kind hp).0
        (map_err-eq-ok raised (validate_mapping_policy v p permissions cache kind) policy) in
    insert-IsValid _ m m' (hv, (permissions, cache, refl, refl, hp, ground arith, allowed)) valid
      h''

-- `insert_guard` keeps the invariant: over a valid range, what it makes of a valid plan is valid.
pub insert_guard-IsValid :
    (v : VirtualRange) (m m' : MappingPlan)
    → IsVirtual v
    → IsValid m
    → insert_guard v m ≡ ok m'
    → IsValid m'
unfolding insert_guard
insert_guard-IsValid v m m' hv valid h =
    let (_, inside, h') =
      >>=-eq-ok (reject_if (not (contains_range (region_range kernel_local) v)) _) _ h in
    insert-IsValid _ m m' (hv, (refl, refl, refl, ground arith)) valid h'
