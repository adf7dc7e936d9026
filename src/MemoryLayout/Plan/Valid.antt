-- ===== src/MemoryLayout/Plan/Valid.antt =====
-- The invariant of `MappingPlan` (crates/memory-layout/src/lib.rs): what holds of every plan that
-- `insert_mapping` and `insert_guard` build.
use unnamed_os_core.Common.{
  ◌≤◌, ◌≡◌, true, false, arith, ok, Option, none, some, List, [], ◌∷◌, length, All, Pairwise,
  >>=-eq-ok, reject_if,
}
use mathlib.Core.Bool.{xor}
use unnamed_os_core.MemoryLayout.Range
use unnamed_os_core.MemoryLayout.Range.{PhysicalRange, VirtualRange, overlaps, contains_range}
use unnamed_os_core.MemoryLayout.Range.Accept.{IsPhysical, IsVirtual}
use unnamed_os_core.MemoryLayout.Permissions.{MappingPermissions, CachePolicy, writable, executable}
use unnamed_os_core.MemoryLayout.Region.{kernel_local, region_range}
use unnamed_os_core.MemoryLayout.Policy.{MappingKind, guard}
use unnamed_os_core.MemoryLayout.Policy.Laws.{Allowed}
use unnamed_os_core.MemoryLayout.Plan.{
  EntryBacking, mapped, unbacked, PlanEntry, MappingPlan, entries, check_alias, check_backing,
  check_conflicts,
}

-- A mapped entry has a policy that allows it and equally long ranges; any other is a guard.
abbrev pub Content :
    VirtualRange
    → EntryBacking
    → Option MappingPermissions
    → Option CachePolicy
    → MappingKind
    → Type 0
Content v (mapped p) permissions cache kind =
    (q : MappingPermissions) × (c : CachePolicy) × (permissions ≡ some q)
    × (cache ≡ some c)
    × IsPhysical p
    × (Range.length v ≡ Range.length p)
    × Allowed v p q c kind
Content v unbacked permissions cache kind =
    (permissions ≡ none)
    × (cache ≡ none)
    × (kind ≡ guard)
    × (contains_range (region_range kernel_local) v ≡ true)

abbrev pub IsEntry : PlanEntry → Type 0
IsEntry e =
    IsVirtual e.virtual_range × Content e.virtual_range e.backing e.permissions e.cache e.kind

abbrev pub Before : PlanEntry → PlanEntry → Type 0
Before a b = a.virtual_range.end ≤ b.virtual_range.start

-- Where two mappings share physical memory, both are writable or neither is, and none may execute
-- what the other may write.
abbrev pub Compatible :
    EntryBacking → Option MappingPermissions → EntryBacking → Option MappingPermissions → Type 0
Compatible (mapped l) lp (mapped r) rp =
    (a b : MappingPermissions)
    → lp ≡ some a
    → rp ≡ some b
    → overlaps l r ≡ true
    → (writable a ≡ writable b)
      × (writable a ≡ true → executable b ≡ false)
      × (writable b ≡ true → executable a ≡ false)
Compatible unbacked lp r rp = Unit
Compatible (mapped l) lp unbacked rp = Unit

abbrev pub AliasSafe : PlanEntry → PlanEntry → Type 0
AliasSafe a b = Compatible a.backing a.permissions b.backing b.permissions

pub record IsValid (m : MappingPlan) : Type 0 where
  pub fits : m.len ≤ length m.array
  pub each : All IsEntry (entries m)
  pub ordered : Pairwise Before (entries m)
  pub aliases : Pairwise AliasSafe (entries m)

pub Compatible-sym :
    (l : EntryBacking) (lp : Option MappingPermissions) (r : EntryBacking)
    (rp : Option MappingPermissions)
    → Compatible l lp r rp
    → Compatible r rp l lp
Compatible-sym (mapped l) lp (mapped r) rp h = λ a b p q o. ground (arith, h b a q p)
Compatible-sym unbacked lp unbacked rp h = tt
Compatible-sym unbacked lp (mapped r) rp h = tt
Compatible-sym (mapped l) lp unbacked rp h = tt

check_alias_lem :
    (a b : MappingPermissions)
    → check_alias (some a) (some b) ≡ ok tt
    → (writable a ≡ writable b)
      × (writable a ≡ true → executable b ≡ false)
      × (writable b ≡ true → executable a ≡ false)
unfolding check_alias xor
check_alias_lem a b h = ground arith

check_backing-Compatible :
    (l : EntryBacking) (lp : Option MappingPermissions) (r : EntryBacking)
    (rp : Option MappingPermissions)
    → check_backing l lp r rp ≡ ok tt
    → Compatible l lp r rp
unfolding check_backing
check_backing-Compatible (mapped l) lp (mapped r) rp h =
    λ a b p q o. check_alias_lem a b (rw (o, p, q) at h)
check_backing-Compatible unbacked lp unbacked rp h = tt
check_backing-Compatible unbacked lp (mapped r) rp h = tt
check_backing-Compatible (mapped l) lp unbacked rp h = tt

-- What the loop of `insert` has found of a live entry when it lets the new one pass.
abbrev pub Clear : PlanEntry → PlanEntry → Type 0
Clear e x = (overlaps x.virtual_range e.virtual_range ≡ false) × AliasSafe x e

pub check_conflicts-Clear :
    (e : PlanEntry) (xs : List PlanEntry) → check_conflicts e xs ≡ ok tt → All (Clear e) xs
unfolding check_conflicts
check_conflicts-Clear e [] h = tt
check_conflicts-Clear e (x ∷ xs) h =
    let (_, apart, h') = >>=-eq-ok (reject_if (overlaps x.virtual_range e.virtual_range) _) _ h in
    let (_, safe, rest) =
      >>=-eq-ok (check_backing x.backing x.permissions e.backing e.permissions) _ h' in
    (
      (
        ground arith,
        check_backing-Compatible x.backing x.permissions e.backing e.permissions (ground arith),
      ),
      check_conflicts-Clear e xs rest,
    )
