-- ===== src/MemoryLayout/Plan/Alias.antt =====
-- What the alias checks of `MappingPlan::insert` (crates/memory-layout/src/lib.rs) are for.
use unnamed_os_core.Common.{
  ℕ, ◌<◌, ◌≡◌, ◌⊎◌, inl, inr, true, false, ◌&&◌, arith, some, All-get_elem?, Pairwise-get_elem?,
  Option, some,
}
use unnamed_os_core.MemoryLayout.Range
use unnamed_os_core.MemoryLayout.Range.{PhysicalRange, overlaps, contains}
use unnamed_os_core.MemoryLayout.Permissions.{MappingPermissions, CachePolicy, writable, executable}
use unnamed_os_core.MemoryLayout.Policy.{MappingKind, kernel_text, guard}
use unnamed_os_core.MemoryLayout.Policy.Laws.{Allowed}
use unnamed_os_core.MemoryLayout.Plan.{mapped, MappingPlan, entries}
use unnamed_os_core.MemoryLayout.Plan.Valid.{IsEntry, AliasSafe, Compatible, IsValid}
use unnamed_os_core.MemoryLayout.Plan.Translate.{MapsBy}

index_cases : (i j : ℕ) → (i < j) ⊎ (j < i) ⊎ (i ≡ j)
index_cases i j = grind arith

abbrev Exclusive : MappingPermissions → MappingPermissions → Type 0
Exclusive s t =
    (writable s ≡ writable t)
    × ((writable s && executable t) ≡ false)
    × ((writable t && executable s) ≡ false)

-- The policy lets no kind of mapping be writable and executable.
Allowed-Exclusive :
    (v p : Range.Range) (s : MappingPermissions) (c : CachePolicy) (kind : MappingKind)
    → Allowed v p s c kind
    → Exclusive s s
unfolding writable executable
Allowed-Exclusive v p s c kernel_text h = ground arith
Allowed-Exclusive v p s c guard h = elim h [ ]
Allowed-Exclusive v p s c _ h = ground arith

-- The target of a mapped address lies in the physical range of its entry.
pub MapsBy-contains :
    (m : MappingPlan) (a q : ℕ) (s : MappingPermissions)
    → IsValid m
    → (by : MapsBy m a q s) → contains by.physical q ≡ true
MapsBy-contains m a q s valid by =
    let entry = All-get_elem? IsEntry (entries m) by.index valid.each by.live in
    let (_, _, _, _, physical, same_length, _) = rw by.backed at (entry.1) in
    let held = by.held in let target = by.target in ground (arith, physical.ordered)

MapsBy-Exclusive_self :
    (m : MappingPlan) (a q : ℕ) (s : MappingPermissions)
    → IsValid m
    → MapsBy m a q s
    → Exclusive s s
MapsBy-Exclusive_self m a q s valid by =
    let entry = All-get_elem? IsEntry (entries m) by.index valid.each by.live in
    let (r, c, same, _, _, _, allowed) = rw by.backed at (entry.1) in
    let found : r ≡ s = ground (arith, by.permitted) in
    rw found at (Allowed-Exclusive by.entry.virtual_range by.physical r c by.entry.kind allowed)

-- Two entries of a valid plan that share a physical address.
Compatible-Exclusive :
    (l r : PhysicalRange) {lp rp : Option MappingPermissions} (q : ℕ) (s t : MappingPermissions)
    → Compatible (mapped l) lp (mapped r) rp
    → lp ≡ some s
    → rp ≡ some t
    → contains l q ≡ true
    → contains r q ≡ true
    → Exclusive s t
Compatible-Exclusive l r q s t safe ls rt hl hr =
    let common : overlaps l r ≡ true = ground arith in ground (arith, safe s t ls rt common)

MapsBy-Exclusive_lt :
    (m : MappingPlan) (a b q : ℕ) (s t : MappingPermissions)
    → IsValid m
    → (x : MapsBy m a q s) → (y : MapsBy m b q t) → x.index < y.index
    → Exclusive s t
MapsBy-Exclusive_lt m a b q s t valid x y lt =
    let safe =
      Pairwise-get_elem? AliasSafe (entries m) x.index y.index valid.aliases lt x.live y.live in
    Compatible-Exclusive x.physical y.physical q s t (rw (x.backed, y.backed) at safe) x.permitted
      y.permitted (MapsBy-contains m a q s valid x) (MapsBy-contains m b q t valid y)

-- On a valid plan no physical address is reached both writable and executable, by whatever virtual
-- addresses; and all the mappings of one physical address agree on whether it may be written.
pub write_xor_execute :
    (m : MappingPlan) (a b q : ℕ) (s t : MappingPermissions)
    → IsValid m
    → MapsBy m a q s
    → MapsBy m b q t
    → (writable s ≡ writable t) × ((writable s && executable t) ≡ false)
write_xor_execute m a b q s t valid x y = elim (index_cases x.index y.index) [
  | inl lt ↦ ground (arith, MapsBy-Exclusive_lt m a b q s t valid x y lt)
  | inr (inl gt) ↦ ground (arith, MapsBy-Exclusive_lt m b a q t s valid y x gt)
  | inr (inr same) ↦
      let one : s ≡ t = ground (arith, same, x.live, y.live, x.permitted, y.permitted) in
      rw (← one) (ground (arith, MapsBy-Exclusive_self m a q s valid x))
]
