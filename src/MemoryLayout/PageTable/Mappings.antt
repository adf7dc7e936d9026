-- ===== src/MemoryLayout/PageTable/Mappings.antt =====
-- What `add_mapping` and the loop over the mappings (crates/memory-layout/src/page_table.rs) make
-- of the leaves.
use unnamed_os_core.Common.{
  ℕ, zero, suc, ◌+◌, ◌-◌, ◌*◌, ◌/◌, ◌%◌, ◌≡◌, refl, ◌∙◌, inl, inr, true, false, arith, ok,
  >>=-eq-ok, ok_or, ok_or-eq-ok, some, List, [], ◌∷◌, get_elem?, All, All-get_elem?, Pairwise,
  Bool-cases, reject_if, ◌&&◌, ◌||◌, ltb,
}
use unnamed_os_core.MemoryLayout.Address.{
  page_size, high_canonical_start, low_mapping_in_final_plan,
}
use unnamed_os_core.MemoryLayout.Range
use unnamed_os_core.MemoryLayout.Range.{PhysicalRange, contains}
use unnamed_os_core.MemoryLayout.Permissions.{MappingPermissions, CachePolicy}
use unnamed_os_core.MemoryLayout.Policy.{same_kind, transition_identity}
use unnamed_os_core.MemoryLayout.Plan.{PlanEntry, mapped, unbacked}
use unnamed_os_core.MemoryLayout.Plan.Translate.{EntryBacking-cases}
use unnamed_os_core.MemoryLayout.Plan.Valid.{IsEntry, Before}
use unnamed_os_core.MemoryLayout.PageTable.{layout, for_leaf, invalid_entry_flags}
use unnamed_os_core.MemoryLayout.PageTable.Construct.{
  is_final, Capacity, ConstructionPlan, add_mapped, add_mapping, add_mappings,
}
use unnamed_os_core.MemoryLayout.PageTable.Extend.{IsTree}
use unnamed_os_core.MemoryLayout.PageTable.Leaf.{IsAddress, resolve}
use unnamed_os_core.MemoryLayout.PageTable.Refine.{add_pages-Mapped}

-- The leaf that the walk for an address finds leads to where the mapping takes the address, with
-- the flags of the mapping's permissions.
pub record LeadsTo (q : ConstructionPlan) (e : PlanEntry) (physical : PhysicalRange) (a : ℕ)
    : Type 0 where
  pub frame : ℕ
  pub flags : ℕ
  pub permissions : MappingPermissions
  pub cache : CachePolicy
  pub permitted : e.permissions ≡ some permissions
  pub allowed : for_leaf permissions cache ≡ ok flags
  pub found : resolve q a ≡ some (frame, flags)
  pub target : frame + a % page_size ≡ physical.start + (a - e.virtual_range.start)

-- What `add_mapping` has done.
pub record Added (e : PlanEntry) (p q : ConstructionPlan) : Type 0 where
  pub tree : IsTree q
  pub own :
      (a : ℕ) (physical : PhysicalRange)
      → IsAddress a
      → e.backing ≡ mapped physical
      → contains e.virtual_range a ≡ true
      → LeadsTo q e physical a
  pub others :
      (a : ℕ) → IsAddress a → contains e.virtual_range a ≡ false → resolve q a ≡ resolve p a
  pub bare : (a : ℕ) → IsAddress a → e.backing ≡ unbacked → resolve q a ≡ resolve p a

module _ (capacity : Capacity) where
  add_mapped-Added :
      (e : PlanEntry) (physical : PhysicalRange) (p q : ConstructionPlan)
      → IsEntry e
      → e.backing ≡ mapped physical
      → IsTree p
      → add_mapped capacity e physical p ≡ ok q
      → Added e p q
  unfolding add_mapped
  add_mapped-Added e physical p q entry backed tree h =
      let (s, h1, r1) = >>=-eq-ok (ok_or e.permissions invalid_entry_flags) _ h in
      let (c, h2, r2) = >>=-eq-ok (ok_or e.cache invalid_entry_flags) _ r1 in
      let rounds = Range.length e.virtual_range / page_size in
      let start_aligned = entry.0.start_aligned in
      let end_aligned = entry.0.end_aligned in
      let ordered = entry.0.ordered in
      let all = add_pages-Mapped capacity e physical s c rounds 0 p q start_aligned tree r2 in
      record {
        tree = all.tree;
        own = λ a other ha b held.
            let same : physical ≡ other = ground (arith, b, backed) in
            let k = a / page_size - e.virtual_range.start / page_size in
            let (flags, allowed, found) =
              all.inside a k ha (omega arith) (ground arith) (ground arith) in
            record {
              frame = physical.start + k * page_size;
              flags = flags;
              permissions = s;
              cache = c;
              permitted = ok_or-eq-ok e.permissions invalid_entry_flags h1;
              allowed = allowed;
              found = found;
              target = rw (← same) (ground arith);
            };
        others = λ a ha out. all.outside a ha (λ k low high at. absurd (ground arith));
        bare = λ a ha none_backs. absurd (ground (arith, none_backs, backed));
      }

  add_mapping-Added :
      (e : PlanEntry) (p q : ConstructionPlan)
      → IsEntry e
      → IsTree p
      → add_mapping capacity e p ≡ ok q
      → Added e p q
  unfolding add_mapping
  add_mapping-Added e p q entry tree h =
      let (_, _, rest) =
        >>=-eq-ok
          (reject_if
            (is_final p.mode
              && (ltb e.virtual_range.start high_canonical_start
                  || same_kind e.kind transition_identity))
            (layout low_mapping_in_final_plan))
          _ h in
      elim (EntryBacking-cases e.backing) [
        | inl (physical, backed) ↦
            add_mapped-Added e physical p q entry backed tree (ground (arith, backed, rest))
        | inr bare ↦
            let same : p ≡ q = ground (arith, bare, rest) in
            rw (← same) (record {
              tree = tree;
              own = λ a physical ha backed held. absurd (ground (arith, backed, bare));
              others = λ a ha out. refl;
              bare = λ a ha b. refl;
            })
      ]

  -- What the loop of `build` over the entries has done.
  pub record AddedAll (es : List PlanEntry) (p q : ConstructionPlan) : Type 0 where
    pub tree : IsTree q
    pub own :
        (a i : ℕ) (e : PlanEntry) (physical : PhysicalRange)
        → IsAddress a
        → get_elem? es i ≡ some e
        → e.backing ≡ mapped physical
        → contains e.virtual_range a ≡ true
        → LeadsTo q e physical a
    pub others :
        (a : ℕ)
        → IsAddress a
        → ((i : ℕ) (e : PlanEntry) (physical : PhysicalRange)
            → get_elem? es i ≡ some e
            → e.backing ≡ mapped physical
            → contains e.virtual_range a ≡ true
            → ⊥)
        → resolve q a ≡ resolve p a

  LeadsTo-later :
      (p q : ConstructionPlan) (e : PlanEntry) (physical : PhysicalRange) (a : ℕ)
      → resolve q a ≡ resolve p a
      → LeadsTo p e physical a
      → LeadsTo q e physical a
  LeadsTo-later p q e physical a same l = record {
    frame = l.frame;
    flags = l.flags;
    permissions = l.permissions;
    cache = l.cache;
    permitted = l.permitted;
    allowed = l.allowed;
    found = same ∙ l.found;
    target = l.target;
  }

  pub add_mappings-AddedAll :
      (es : List PlanEntry) (p q : ConstructionPlan)
      → All IsEntry es
      → Pairwise Before es
      → IsTree p
      → add_mappings capacity es p ≡ ok q
      → AddedAll es p q
  unfolding add_mappings
  add_mappings-AddedAll [] p q each ordered tree h =
      let same : p ≡ q = ground arith in
      rw (← same) (record {
        tree = tree;
        own = λ a i e physical ha live. absurd (ground arith);
        others = λ a ha other. refl;
      })
  add_mappings-AddedAll (e ∷ es) p q each ordered tree h =
      let (p', step, rest) = >>=-eq-ok (add_mapping capacity e p) _ h in
      let one = add_mapping-Added e p p' (each.0) tree step in
      let more = add_mappings-AddedAll es p' q (each.1) (ordered.1) one.tree rest in
      record {
        tree = more.tree;
        own = own p' one more;
        others = λ a ha other.
            more.others a ha (λ i x physical live. other (suc i) x physical live)
            ∙ elim (EntryBacking-cases e.backing) [
              | inr bare ↦ one.bare a ha bare
              | inl (physical, backed) ↦ elim (Bool-cases (contains e.virtual_range a)) [
                | inl held ↦ absurd (other 0 e physical refl backed held)
                | inr out ↦ one.others a ha out
              ]
            ];
      }
    where
      own :
          (p' : ConstructionPlan)
          → Added e p p'
          → AddedAll es p' q
          → (a i : ℕ) (x : PlanEntry) (physical : PhysicalRange) → IsAddress a
          → get_elem? (e ∷ es) i ≡ some x
          → x.backing ≡ mapped physical
          → contains x.virtual_range a ≡ true
          → LeadsTo q x physical a
      own p' one more a zero x physical ha live backed held =
          let same : e ≡ x = ground arith in
          let apart =
            λ (i : ℕ) (y : PlanEntry) (r : PhysicalRange) (l : get_elem? es i ≡ some y)
                (b : y.backing ≡ mapped r) (c : contains y.virtual_range a ≡ true).
              let before : Before x y = All-get_elem? (Before x) es i (rw same at (ordered.0)) l in
              absurd (ground arith) in
          LeadsTo-later p' q x physical a (more.others a ha apart)
            ((rw same at one).own a physical ha backed held)
      own p' one more a (suc i) x physical ha live backed held =
          more.own a i x physical ha live backed held
