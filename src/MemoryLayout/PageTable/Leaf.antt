-- ===== src/MemoryLayout/PageTable/Leaf.antt =====
-- What `insert_page` (crates/memory-layout/src/page_table.rs) changes of the leaves that
-- `leaf_entry` finds.
use unnamed_os_core.Common.{
  ℕ, ◌/◌, ◌<◌, ◌≡◌, ◌≢◌, refl, sym, ap, ◌∙◌, true, arith, ok, >>=-eq-ok, Option, none, some, [],
  ◌∷◌, ◌++◌, u64_end,
}
use unnamed_os_core.MemoryLayout.Address.{is_canonical, page_size}
use unnamed_os_core.MemoryLayout.Permissions.{MappingPermissions, CachePolicy}
use unnamed_os_core.MemoryLayout.PageTable.{
  PlanMode, for_leaf, PlannedEntry, virtual_address_indices,
}
use unnamed_os_core.MemoryLayout.PageTable.Construct.{
  Capacity, ConstructionPlan, begin, root_table, descend, insert_page, leaf_entry,
}
use unnamed_os_core.MemoryLayout.PageTable.Indices.{virtual_address_indices_iff, length-upper}
use unnamed_os_core.MemoryLayout.PageTable.Extend.{IsTree}
use unnamed_os_core.MemoryLayout.PageTable.Tree.{push_frame-IsTree}
use unnamed_os_core.MemoryLayout.PageTable.View.{view, leaf_entry-view, walk_unique}
use unnamed_os_core.MemoryLayout.PageTable.Push.{leaf-view_hit, leaf-view_miss}
use unnamed_os_core.MemoryLayout.PageTable.Page.{descend-Descends, leaf_of_page, insert_leaf_lem}

-- The frame and the flags of the leaf that the walk for an address finds.
abbrev pub of_leaf : Option PlannedEntry → Option (ℕ × ℕ)
of_leaf none = none
of_leaf (some e) = some (e.target.value, e.flags)

unfoldable pub resolve : ConstructionPlan → ℕ → Option (ℕ × ℕ)
resolve p a = of_leaf (leaf_entry p a)

-- A 64-bit address that is canonical.
pub record IsAddress (a : ℕ) : Type 0 where
  pub fits : a < u64_end
  pub canonical : is_canonical a ≡ true

same_page_indices :
    (a b : ℕ)
    → IsAddress a
    → IsAddress b
    → (virtual_address_indices a).upper ≡ (virtual_address_indices b).upper
    → (virtual_address_indices a).leaf ≡ (virtual_address_indices b).leaf
    → a / page_size ≡ b / page_size
same_page_indices a b ha hb upper leaf =
    (virtual_address_indices_iff a b ha.fits hb.fits ha.canonical hb.canonical).0 (ground arith)

-- A page that has been inserted: the leaf of its own addresses, and no other leaf, is new.
pub record Inserted (p q : ConstructionPlan) (va frame flags : ℕ) : Type 0 where
  pub tree : IsTree q
  pub same_mode : q.mode ≡ p.mode
  pub own :
      (a : ℕ) → IsAddress a → a / page_size ≡ va / page_size → resolve q a ≡ some (frame, flags)
  pub others : (a : ℕ) → IsAddress a → a / page_size ≢ va / page_size → resolve q a ≡ resolve p a

module _ (capacity : Capacity) (va frame : ℕ) (permissions : MappingPermissions)
    (cache : CachePolicy) (p q : ConstructionPlan) where
  -- Of a canonical 64-bit address and a planned tree, `insert_page` that succeeds maps the page of its address to the frame, with the flags of the
  -- permissions, and leaves the leaf of every other page as it was.
  pub insert_page-Inserted :
      IsAddress va
      → IsTree p
      → insert_page capacity va frame permissions cache p ≡ ok q
      → (flags : ℕ) × (for_leaf permissions cache ≡ ok flags) × Inserted p q va frame flags
  unfolding insert_page resolve
  insert_page-Inserted address tree h =
      let indices = virtual_address_indices va in
      let ((slot, p'), descended, rest) = >>=-eq-ok (descend capacity 0 0 indices.upper va p) _ h in
      let down =
        descend-Descends capacity 0 0 indices.upper va slot p p' tree tree.rooted descended in
      let (flags, allowed, fresh, made) =
        insert_leaf_lem capacity slot indices.leaf frame permissions cache p' q rest in
      let leaf = leaf_of_page slot indices.leaf frame flags in
      let pushed : q.entries ≡ p'.entries ++ leaf ∷ [] = ap (λ r. r.entries) made in
      let tables : q.tables ≡ p'.tables = ap (λ r. r.tables) made in
      let mode : q.mode ≡ p'.mode = ap (λ r. r.mode) made in
      (
        flags,
        allowed,
        record {
          tree = push_frame-IsTree p' q leaf down.keeps.tree pushed tables fresh down.inside refl;
          same_mode = mode ∙ down.keeps.same_mode;
          own = λ a ha same.
              let e =
                (virtual_address_indices_iff a va ha.fits address.fits ha.canonical
                    address.canonical).1
                  same in
              ap of_leaf (
                leaf_entry-view q a
                ∙ ap (λ x. view q 0 x.upper x.leaf) e
                ∙ leaf-view_hit p' q leaf pushed fresh 0 indices.upper down.reached);
          others = λ a ha other. ap of_leaf (
              leaf_entry-view q a
              ∙ leaf-view_miss p' q leaf pushed fresh refl 0 (virtual_address_indices a).upper
                  (virtual_address_indices a).leaf
                  (λ reached same.
                    let (_, way) =
                      walk_unique p' 0 0 slot (virtual_address_indices a).upper indices.upper
                        down.keeps.tree (length-upper a ∙ sym (length-upper va)) reached
                        down.reached in
                    other (same_page_indices a va ha address way (sym same)))
              ∙ down.keeps.same_view 0 (virtual_address_indices a).upper
                  (virtual_address_indices a).leaf
              ∙ sym (leaf_entry-view p a));
        },
      )

-- The plan that `begin` makes is its root table alone.
pub begin-IsTree :
    (capacity : Capacity) (mode : PlanMode) (p : ConstructionPlan)
    → begin capacity mode ≡ ok p
    → IsTree p
unfolding begin
begin-IsTree capacity mode p h =
    let made : p ≡ record { mode = mode; tables = root_table ∷ []; entries = []; removals = [] } =
      ground arith in
    rw made (record {
      rooted = omega arith;
      planned = λ s i e found. absurd (ground arith);
      parent = λ s i c e found to. absurd (ground arith);
    })
