-- ===== src/MemoryLayout/PageTable/Build.antt =====
-- A built construction plan (crates/memory-layout/src/page_table.rs) maps what the plan of mappings
-- (crates/memory-layout/src/lib.rs) translates.
use unnamed_os_core.Common.{
  ℕ, ◌+◌, ◌-◌, ◌%◌, ◌≡◌, refl, sym, ◌∙◌, subst, true, arith, ok, err, raised, drop, >>=-eq-ok,
  map_err, map_err-eq-ok, none, some, [], ◌∷◌, get_elem?, All-get_elem?,
}
use unnamed_os_core.MemoryLayout.Address.{page_size, unmapped}
use unnamed_os_core.MemoryLayout.Range.{PhysicalRange, contains}
use unnamed_os_core.MemoryLayout.Permissions.{MappingPermissions, CachePolicy}
use unnamed_os_core.MemoryLayout.Plan.{
  PlanEntry, mapped, MappingPlan, translate, entries as mapping_entries,
}
use unnamed_os_core.MemoryLayout.Plan.Translate.{MapsBy, translate-MapsBy, MapsBy-translate}
use unnamed_os_core.MemoryLayout.Plan.Valid.{IsEntry, IsValid}
use unnamed_os_core.MemoryLayout.PageTable.{PlanMode, virtual_address_indices, for_leaf}
use unnamed_os_core.MemoryLayout.PageTable.Construct.{
  Capacity, ConstructionPlan, root_table, begin, build, finish, validate_mode, validate_tables,
  leaf_entry, walk, add_mappings,
}
use unnamed_os_core.MemoryLayout.PageTable.Leaf.{IsAddress, resolve, begin-IsTree}
use unnamed_os_core.MemoryLayout.PageTable.Mappings.{AddedAll, add_mappings-AddedAll}

-- The tables realise the mappings at an address: where these translate it, the walk ends at the
-- frame of the page that it is translated to, with flags of the mapping's permissions, and where
-- they do not, it finds no leaf.
pub record Realises (m : MappingPlan) (plan : ConstructionPlan) (a : ℕ) : Type 0 where
  pub where_mapped :
      (q : ℕ)
      → translate m a ≡ ok q
      → (frame flags : ℕ) × (s : MappingPermissions) × (c : CachePolicy) × MapsBy m a q s
        × (for_leaf s c ≡ ok flags)
        × (resolve plan a ≡ some (frame, flags))
        × (frame + a % page_size ≡ q)
  pub where_unmapped : translate m a ≡ err unmapped → resolve plan a ≡ none

resolve-begin :
    (capacity : Capacity) (mode : PlanMode) (p : ConstructionPlan) (a : ℕ)
    → begin capacity mode ≡ ok p
    → resolve p a ≡ none
unfolding begin resolve leaf_entry walk virtual_address_indices
resolve-begin capacity mode p a h =
    let made : p ≡ record { mode = mode; tables = root_table ∷ []; entries = []; removals = [] } =
      ground arith in
    rw made refl

-- The entry of a valid plan that maps an address makes it translate.
entry-translate :
    (m : MappingPlan) (a i : ℕ) (e : PlanEntry) (physical : PhysicalRange)
    → IsValid m
    → get_elem? (mapping_entries m) i ≡ some e
    → e.backing ≡ mapped physical
    → contains e.virtual_range a ≡ true
    → translate m a ≡ ok (physical.start + (a - e.virtual_range.start))
entry-translate m a i e physical valid live backed held =
    let entry = All-get_elem? IsEntry (mapping_entries m) i valid.each live in
    let (s, _, same, _, _, _, _) = rw backed at (entry.1) in
    MapsBy-translate m a (physical.start + (a - e.virtual_range.start)) s valid (record {
      index = i;
      entry = e;
      physical = physical;
      live = live;
      backed = backed;
      permitted = same;
      held = held;
      target = refl;
    })

AddedAll-Realises :
    (capacity : Capacity) (m : MappingPlan) (p q : ConstructionPlan) (a : ℕ)
    → IsValid m
    → AddedAll capacity (mapping_entries m) p q
    → resolve p a ≡ none
    → IsAddress a
    → Realises m q a
AddedAll-Realises capacity m p q a valid all empty ha = record {
  where_mapped = λ r found.
      let (s, by) = translate-MapsBy m a r valid found in
      let to = all.own a by.index by.entry by.physical ha by.live by.backed by.held in
      let same : to.permissions ≡ s = ground (arith, to.permitted, by.permitted) in
      (
        to.frame,
        to.flags,
        s,
        to.cache,
        by,
        subst (λ t. for_leaf t to.cache ≡ ok to.flags) same to.allowed,
        to.found,
        to.target ∙ sym by.target,
      );
  where_unmapped = λ missing.
      all.others a ha (λ i e physical live backed held.
        let there = entry-translate m a i e physical valid live backed held in
        ground (arith, there, missing))
      ∙ empty;
}

-- A construction plan that `build` makes of a valid plan of mappings realises it at every canonical
-- address: the walk through the planned tables finds a leaf exactly where `translate` finds an
-- address, at the frame of its page and with flags of its permissions.
pub build-Realises :
    (capacity : Capacity) (m : MappingPlan) (mode : PlanMode) (plan : ConstructionPlan) (a : ℕ)
    → IsValid m
    → build capacity m mode ≡ ok plan
    → IsAddress a
    → Realises m plan a
unfolding build finish
build-Realises capacity m mode plan a valid h ha =
    let (_, _, h1) = >>=-eq-ok (validate_mode mode m) _ h in
    let (p, begun, h2) = >>=-eq-ok (map_err raised (begin capacity mode)) _ h1 in
    let (grown, added, h3) =
      >>=-eq-ok (map_err raised (add_mappings capacity (mapping_entries m) p)) _ h2 in
    let (_, checked, last) =
      >>=-eq-ok (validate_tables grown (drop 1 grown.tables)) _
        (map_err-eq-ok raised (finish grown) h3) in
    let same : grown ≡ plan = ground arith in
    let start = map_err-eq-ok raised (begin capacity mode) begun in
    let all =
      add_mappings-AddedAll capacity (mapping_entries m) p grown valid.each valid.ordered
        (begin-IsTree capacity mode p start)
        (map_err-eq-ok raised (add_mappings capacity (mapping_entries m) p) added) in
    subst (λ t. Realises m t a) same
      (AddedAll-Realises capacity m p grown a valid all (resolve-begin capacity mode p a start) ha)
