-- ===== src/MemoryLayout/Plan/Keeps.antt =====
-- What `insert_mapping` (crates/memory-layout/src/lib.rs) adds to the translations of a plan, and
-- that it keeps those there are.
use unnamed_os_core.Common.{
  ℕ, zero, suc, ◌+◌, ◌-◌, ◌<◌, ◌≡◌, refl, sym, subst, inl, inr, arith, true, not, ◌==◌, ltb, ok,
  >>=-eq-ok, reject_if, some, List, [], ◌∷◌, get_elem?, length, map_err, raised, Bool-cases,
}
use unnamed_os_core.MemoryLayout.Range
use unnamed_os_core.MemoryLayout.Range.{PhysicalRange, VirtualRange, contains}
use unnamed_os_core.MemoryLayout.Permissions.{MappingPermissions, CachePolicy}
use unnamed_os_core.MemoryLayout.Policy.{MappingKind, validate_mapping_policy}
use unnamed_os_core.MemoryLayout.Plan.{PlanEntry, MappingPlan, entries, mapped, insert_mapping}
use unnamed_os_core.MemoryLayout.Plan.Shift.{insert_sorted, entries-place}
use unnamed_os_core.MemoryLayout.Plan.Valid.{IsValid}
use unnamed_os_core.MemoryLayout.Plan.Insert.{insert-eq-ok}
use unnamed_os_core.MemoryLayout.Plan.Translate.{MapsBy}

insert_sorted-new :
    (e : PlanEntry) (xs : List PlanEntry) → (j : ℕ) × (get_elem? (insert_sorted e xs) j ≡ some e)
unfolding insert_sorted
insert_sorted-new e [] = (0, refl)
insert_sorted-new e (x ∷ xs) = elim (Bool-cases (ltb x.virtual_range.start e.virtual_range.start)) [
  | inl before ↦ let (j, there) = insert_sorted-new e xs in (suc j, rw before there)
  | inr behind ↦ (0, rw behind refl)
]

insert_sorted-old :
    (e : PlanEntry) (xs : List PlanEntry) (i : ℕ) {x : PlanEntry}
    → get_elem? xs i ≡ some x
    → (j : ℕ) × (get_elem? (insert_sorted e xs) j ≡ some x)
unfolding insert_sorted
insert_sorted-old e [] i h = cc
insert_sorted-old e (y ∷ ys) zero h =
    elim (Bool-cases (ltb y.virtual_range.start e.virtual_range.start)) [
      | inl before ↦ (0, rw before h)
      | inr behind ↦ (1, rw behind h)
    ]
insert_sorted-old e (y ∷ ys) (suc i) h =
    elim (Bool-cases (ltb y.virtual_range.start e.virtual_range.start)) [
      | inl before ↦ let (j, there) = insert_sorted-old e ys i h in (suc j, rw before there)
      | inr behind ↦ (suc (suc i), rw behind h)
    ]

-- The entry that `insert_mapping` makes.
abbrev entry_of :
    VirtualRange → PhysicalRange → MappingPermissions → CachePolicy → MappingKind → PlanEntry
entry_of v p permissions cache kind = record {
  virtual_range = v;
  backing = mapped p;
  permissions = some permissions;
  cache = some cache;
  kind = kind;
}

module _ (v : VirtualRange) (p : PhysicalRange) (permissions : MappingPermissions)
    (cache : CachePolicy) (kind : MappingKind) (m m' : MappingPlan) where
  insert_mapping-sorted :
      IsValid m
      → insert_mapping v p permissions cache kind m ≡ ok m'
      → entries m' ≡ insert_sorted (entry_of v p permissions cache kind) (entries m)
  unfolding insert_mapping
  insert_mapping-sorted valid h =
      let (_, _, h1) = >>=-eq-ok (reject_if (not (Range.length v == Range.length p)) _) _ h in
      let (_, _, h2) =
        >>=-eq-ok (map_err raised (validate_mapping_policy v p permissions cache kind)) _ h1 in
      let e = entry_of v p permissions cache kind in
      let (_, room, same) = insert-eq-ok e m m' h2 in
      let free : m.len < length m.array = ground (arith, valid.fits, room) in
      rw same (entries-place e m free)

  -- A call of `insert_mapping` on a valid plan that succeeds maps each address of the virtual range
  -- to the one at the same offset of the physical range, with the permissions of the call.
  pub insert_mapping-MapsBy :
      (a q : ℕ)
      → IsValid m
      → insert_mapping v p permissions cache kind m ≡ ok m'
      → contains v a ≡ true
      → q ≡ p.start + (a - v.start)
      → MapsBy m' a q permissions
  insert_mapping-MapsBy a q valid h held target =
      let sorted = insert_mapping-sorted valid h in
      let e = entry_of v p permissions cache kind in
      let (j, there) = insert_sorted-new e (entries m) in
      record {
        index = j;
        entry = e;
        physical = p;
        live = subst (λ xs. get_elem? xs j ≡ some e) (sym sorted) there;
        backed = refl;
        permitted = refl;
        held = held;
        target = target;
      }

  -- A call of `insert_mapping` on a valid plan that succeeds keeps every mapping of an address that
  -- the plan has.
  pub MapsBy-insert_mapping :
      (a q : ℕ) (s : MappingPermissions)
      → IsValid m
      → insert_mapping v p permissions cache kind m ≡ ok m'
      → MapsBy m a q s
      → MapsBy m' a q s
  MapsBy-insert_mapping a q s valid h by =
      let sorted = insert_mapping-sorted valid h in
      let e = entry_of v p permissions cache kind in
      let (j, there) = insert_sorted-old e (entries m) by.index by.live in
      record {
        index = j;
        entry = by.entry;
        physical = by.physical;
        live = subst (λ xs. get_elem? xs j ≡ some by.entry) (sym sorted) there;
        backed = by.backed;
        permitted = by.permitted;
        held = by.held;
        target = by.target;
      }
