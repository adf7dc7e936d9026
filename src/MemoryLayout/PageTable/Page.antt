-- ===== src/MemoryLayout/PageTable/Page.antt =====
-- `insert_page` of crates/memory-layout/src/page_table.rs maps one page, and changes no other.
use unnamed_os_core.Common.{
  ℕ, suc, ◌<◌, ◌≡◌, refl, ◌∙◌, inl, inr, arith, Result, ok, >>=-eq-ok, ok_or, none, some, List, [],
  ◌∷◌, ◌++◌, length, get_elem?-lt, Option-cases,
}
use unnamed_os_core.MemoryLayout.Permissions.{MappingPermissions, CachePolicy}
use unnamed_os_core.MemoryLayout.PageTable.{
  PageTablePlanError, TableLevel, frame_slot, frame_target, incompatible_remap, for_leaf,
  PlannedEntry,
}
use unnamed_os_core.MemoryLayout.PageTable.Construct.{
  Capacity, ConstructionPlan, find_entry, add_child, ensure_child, descend, level_at, insert_leaf,
  walk, link,
}
use unnamed_os_core.MemoryLayout.PageTable.Extend.{
  IsTree, Adds, add_child-Adds, find-push, push_entry_lem,
}
use unnamed_os_core.MemoryLayout.PageTable.Tree.{Adds-IsTree, Adds-length}
use unnamed_os_core.MemoryLayout.PageTable.View.{view, Step, Step-walk}
use unnamed_os_core.MemoryLayout.PageTable.Push.{Adds-view}

-- What the steps towards a leaf leave as it was: the entries there are, and what is seen of leaves.
pub record Keeps (p q : ConstructionPlan) : Type 0 where
  pub tree : IsTree q
  pub search : (s i : ℕ) (e : PlannedEntry) → find_entry p s i ≡ some e → find_entry q s i ≡ some e
  pub same_view : (r : ℕ) (is : List ℕ) (i : ℕ) → view q r is i ≡ view p r is i
  pub same_mode : q.mode ≡ p.mode

-- `ensure_child` leads from a planned table to a planned table.
pub record Leads (p q : ConstructionPlan) (slot index child : ℕ) : Type 0 where
  pub keeps : Keeps p q
  pub step : Step q slot index child
  pub inside : child < length q.tables

Adds-Leads :
    (p q : ConstructionPlan) (slot index child : ℕ)
    → IsTree p
    → find_entry p slot index ≡ none
    → slot < length p.tables
    → Adds p q slot index child
    → Leads p q slot index child
Adds-Leads p q slot index child tree fresh planned adds = record {
  keeps = record {
    tree = Adds-IsTree p q slot index child tree fresh planned adds;
    search = λ s i e found.
        ground (arith, find-push p q (link slot index child) s i adds.entries fresh, found, fresh);
    same_view = Adds-view p q slot index child tree fresh planned adds;
    same_mode = adds.same_mode;
  };
  step = record {
    entry = link slot index child;
    found = ground (arith, find-push p q (link slot index child) slot index adds.entries fresh);
    leads = ground (arith, adds.small);
  };
  inside = omega (arith, adds.is_new, Adds-length p q slot index child adds);
}

-- The leaf that `insert_page` pushes.
abbrev pub leaf_of_page : ℕ → ℕ → ℕ → ℕ → PlannedEntry
leaf_of_page slot index frame flags = record {
  table_slot = slot;
  index = index;
  target = frame_target frame;
  flags = flags;
}

abbrev made_of : ℕ → ConstructionPlan → Result PageTablePlanError (ℕ × ConstructionPlan)
made_of slot p = ok (slot, p)

-- The loop over the upper indices ends in a planned table, which the walk reaches.
pub record Descends (p q : ConstructionPlan) (slot : ℕ) (is : List ℕ) (end : ℕ) : Type 0 where
  pub keeps : Keeps p q
  pub reached : walk q slot is ≡ some end
  pub inside : end < length q.tables

Step-search :
    (p q : ConstructionPlan) (slot index child : ℕ)
    → Keeps p q
    → Step p slot index child
    → Step q slot index child
Step-search p q slot index child keeps s = record {
  entry = s.entry;
  found = keeps.search slot index s.entry s.found;
  leads = s.leads;
}

Keeps-trans : (p q r : ConstructionPlan) → Keeps p q → Keeps q r → Keeps p r
Keeps-trans p q r a b = record {
  tree = b.tree;
  search = λ s i e f. b.search s i e (a.search s i e f);
  same_view = λ t is i. b.same_view t is i ∙ a.same_view t is i;
  same_mode = b.same_mode ∙ a.same_mode;
}

module _ (capacity : Capacity) where
  pub ensure_child-Leads :
      (slot : ℕ) (level : TableLevel) (index va child : ℕ) (p q : ConstructionPlan)
      → IsTree p
      → slot < length p.tables
      → ensure_child capacity slot level index va p ≡ ok (child, q)
      → Leads p q slot index child
  unfolding ensure_child
  ensure_child-Leads slot level index va child p q tree planned h =
      elim (Option-cases (find_entry p slot index)) [
        | inl fresh ↦
            let added : add_child capacity slot level index va p ≡ ok (child, q) =
              ground (arith, fresh, h) in
            Adds-Leads p q slot index child tree fresh planned
              (add_child-Adds capacity slot level index va child p q added)
        | inr (e, found) ↦
            let (c, leads, made) =
              >>=-eq-ok (ok_or (frame_slot e.target) incompatible_remap) (λ s. made_of s p)
                {b = (child, q)} (ground (arith, found, h)) in
            let target : frame_slot e.target ≡ some child = ground (arith, leads, made) in
            let same : p ≡ q = ground (arith, made) in
            let (t, table, _, _) = tree.parent slot index child e found target in
            rw (← same) (record {
              keeps = record {
                tree = tree;
                search = λ s i x f. f;
                same_view = λ r is i. refl;
                same_mode = refl;
              };
              step = record { entry = e; found = found; leads = target };
              inside = get_elem?-lt p.tables child table;
            })
      ]

  pub descend-Descends :
      (depth slot : ℕ) (is : List ℕ) (va end : ℕ) (p q : ConstructionPlan)
      → IsTree p
      → slot < length p.tables
      → descend capacity depth slot is va p ≡ ok (end, q)
      → Descends p q slot is end
  unfolding descend walk
  descend-Descends depth slot [] va end p q tree planned h =
      let same : p ≡ q = ground arith in
      let here : slot ≡ end = ground arith in
      rw (← same, ← here)
        (record {
          keeps = record {
            tree = tree;
            search = λ s i x f. f;
            same_view = λ r is i. refl;
            same_mode = refl;
          };
          reached = refl;
          inside = planned;
        })
  descend-Descends depth slot (i ∷ is) va end p q tree planned h =
      let ((child, p'), ensured, rest) =
        >>=-eq-ok (ensure_child capacity slot (level_at depth) i va p) _ h in
      let leads = ensure_child-Leads slot (level_at depth) i va child p p' tree planned ensured in
      let below =
        descend-Descends (suc depth) child is va end p' q leads.keeps.tree leads.inside rest in
      record {
        keeps = Keeps-trans p p' q leads.keeps below.keeps;
        reached =
            Step-walk q slot i is child (Step-search p' q slot i child below.keeps leads.step)
            ∙ below.reached;
        inside = below.inside;
      }

  -- What `insert_leaf` has done: a leaf at a place that was empty.
  pub insert_leaf_lem :
      (slot index frame : ℕ) (permissions : MappingPermissions) (cache : CachePolicy)
      (p q : ConstructionPlan)
      → insert_leaf capacity slot index frame permissions cache p ≡ ok q
      → (flags : ℕ) × (for_leaf permissions cache ≡ ok flags)
        × (find_entry p slot index ≡ none)
        × (q ≡ record p { entries = p.entries ++ leaf_of_page slot index frame flags ∷ [] })
  unfolding insert_leaf
  insert_leaf_lem slot index frame permissions cache p q h =
      let (flags, allowed, rest) = >>=-eq-ok (for_leaf permissions cache) _ h in
      elim (Option-cases (find_entry p slot index)) [
        | inl fresh ↦ (
          flags,
          allowed,
          fresh,
          push_entry_lem capacity (leaf_of_page slot index frame flags) p q
              (ground (arith, fresh, rest)),
        )
        | inr (e, found) ↦ absurd (ground (arith, found, rest))
      ]
