-- ===== src/MemoryLayout/PageTable/Push.antt =====
-- What a push does to the views of `ConstructionPlan` (crates/memory-layout/src/page_table.rs).
use unnamed_os_core.Common.{
  ℕ, ◌<◌, ◌≡◌, ◌≢◌, sym, ◌∙◌, inl, inr, ◌&&◌, arith, ◌==◌, none, some, List, [], ◌∷◌, ◌++◌, length,
  Bool-cases, Option-cases,
}
use unnamed_os_core.MemoryLayout.PageTable.{frame_slot, PlannedEntry}
use unnamed_os_core.MemoryLayout.PageTable.Construct.{
  ConstructionPlan, find_entry, link, walk, leaf_at,
}
use unnamed_os_core.MemoryLayout.PageTable.Extend.{IsTree, find-push, Adds}
use unnamed_os_core.MemoryLayout.PageTable.View.{
  view, leaf_of, Step, Stops, Step-cases, Step-view, Step-walk, Stops-view, Stops-walk,
}

leaf_at-cong :
    (p q : ConstructionPlan) (slot index : ℕ)
    → find_entry q slot index ≡ find_entry p slot index
    → leaf_at q slot index ≡ leaf_at p slot index
unfolding leaf_at
leaf_at-cong p q slot index same = rw (same, leaf_at)

leaf_at-none :
    (p : ConstructionPlan) (slot index : ℕ)
    → find_entry p slot index ≡ none
    → leaf_at p slot index ≡ none
unfolding leaf_at
leaf_at-none p slot index absent = rw (absent, leaf_at)

leaf_at-some :
    (p : ConstructionPlan) (slot index : ℕ) (e : PlannedEntry)
    → find_entry p slot index ≡ some e
    → leaf_at p slot index ≡ leaf_of e
unfolding leaf_at
leaf_at-some p slot index e found = rw (found, leaf_at)

Step-cong :
    (p q : ConstructionPlan) (slot index child : ℕ)
    → find_entry q slot index ≡ find_entry p slot index
    → Step p slot index child
    → Step q slot index child
Step-cong p q slot index child same s = record {
  entry = s.entry;
  found = same ∙ s.found;
  leads = s.leads;
}

Stops-cong :
    (p q : ConstructionPlan) (slot index : ℕ)
    → find_entry q slot index ≡ find_entry p slot index
    → Stops p slot index
    → Stops q slot index
Stops-cong p q slot index same (inl absent) = inl (same ∙ absent)
Stops-cong p q slot index same (inr (e, found, leaf)) = inr (e, same ∙ found, leaf)

-- The views of two plans agree over a table where their searches agree and the views below do.
view-cong :
    (p q : ConstructionPlan) (slot k : ℕ) (ks : List ℕ) (i : ℕ)
    → find_entry q slot k ≡ find_entry p slot k
    → ((child : ℕ) → Step p slot k child → view q child ks i ≡ view p child ks i)
    → view q slot (k ∷ ks) i ≡ view p slot (k ∷ ks) i
view-cong p q slot k ks i same below = elim (Step-cases p slot k) [
  | inl (child, s) ↦
      Step-view q slot k ks child i (Step-cong p q slot k child same s)
      ∙ below child s
      ∙ sym (Step-view p slot k ks child i s)
  | inr stops ↦
      Stops-view q slot k ks i (Stops-cong p q slot k same stops)
      ∙ sym (Stops-view p slot k ks i stops)
]

-- Nothing is seen from a table without entries.
view-empty :
    (p : ConstructionPlan) (slot : ℕ)
    → ((j : ℕ) → find_entry p slot j ≡ none)
    → (is : List ℕ) (i : ℕ) → view p slot is i ≡ none
unfolding view
view-empty p slot empty [] i = leaf_at-none p slot i (empty i)
view-empty p slot empty (k ∷ ks) i = Stops-view p slot k ks i (inl (empty k))

-- The table that `add_child` has added has no entries.
Adds-empty :
    (p q : ConstructionPlan) (slot index child : ℕ)
    → IsTree p
    → find_entry p slot index ≡ none
    → slot < length p.tables
    → Adds p q slot index child
    → (j : ℕ) → find_entry q child j ≡ none
Adds-empty p q slot index child tree fresh planned adds j =
    let law = find-push p q (link slot index child) child j adds.entries fresh in
    elim (Option-cases (find_entry p child j)) [
      | inl absent ↦ ground (arith, law, absent, adds.is_new)
      | inr (e, found) ↦ absurd (omega (arith, tree.planned child j e found, adds.is_new))
    ]

-- A new, empty table changes no view.
pub Adds-view :
    (p q : ConstructionPlan) (slot index child : ℕ)
    → IsTree p
    → find_entry p slot index ≡ none
    → slot < length p.tables
    → Adds p q slot index child
    → (r : ℕ) (is : List ℕ) (i : ℕ) → view q r is i ≡ view p r is i
unfolding view
Adds-view p q slot index child tree fresh planned adds r [] i =
    let law = find-push p q (link slot index child) r i adds.entries fresh in
    elim (Bool-cases (slot == r && index == i)) [
      | inl here ↦
          let absent : find_entry p r i ≡ none = ground (arith, here, fresh) in
          leaf_at-some q r i (link slot index child) (ground (arith, law, here))
          ∙ sym (leaf_at-none p r i absent)
      | inr other ↦ leaf_at-cong p q r i (ground (arith, law, other))
    ]
Adds-view p q slot index child tree fresh planned adds r (k ∷ ks) i =
    let law = find-push p q (link slot index child) r k adds.entries fresh in
    elim (Bool-cases (slot == r && index == k)) [
      | inl here ↦
          let absent : find_entry p r k ≡ none = ground (arith, here, fresh) in
          let step : Step q r k child = record {
            entry = link slot index child;
            found = ground (arith, law, here);
            leads = ground (arith, adds.small);
          } in
          let empty = Adds-empty p q slot index child tree fresh planned adds in
          Step-view q r k ks child i step
          ∙ view-empty q child empty ks i
          ∙ sym (Stops-view p r k ks i (inl absent))
      | inr other ↦
          view-cong p q r k ks i (ground (arith, law, other))
            (λ c s. Adds-view p q slot index child tree fresh planned adds c ks i)
    ]

-- A new leaf is seen from where the walk reaches its table, with its index.
pub leaf-view_hit :
    (p q : ConstructionPlan) (leaf : PlannedEntry)
    → q.entries ≡ p.entries ++ leaf ∷ []
    → find_entry p leaf.table_slot leaf.index ≡ none
    → (r : ℕ) (is : List ℕ) → walk p r is ≡ some leaf.table_slot
    → view q r is leaf.index ≡ leaf_of leaf
unfolding view walk
leaf-view_hit p q leaf pushed fresh r [] reached =
    let law = find-push p q leaf r leaf.index pushed fresh in
    let here : r ≡ leaf.table_slot = ground arith in
    leaf_at-some q r leaf.index leaf (ground (arith, law, here))
leaf-view_hit p q leaf pushed fresh r (k ∷ ks) reached = elim (Step-cases p r k) [
  | inr stops ↦ cc (Stops-walk p r k ks stops)
  | inl (child, s) ↦
      let law = find-push p q leaf r k pushed fresh in
      let other : find_entry q r k ≡ find_entry p r k = ground (arith, law, s.found, fresh) in
      Step-view q r k ks child leaf.index (Step-cong p q r k child other s)
      ∙ leaf-view_hit p q leaf pushed fresh child ks (sym (Step-walk p r k ks child s) ∙ reached)
]

-- It is seen from nowhere else.
pub leaf-view_miss :
    (p q : ConstructionPlan) (leaf : PlannedEntry)
    → q.entries ≡ p.entries ++ leaf ∷ []
    → find_entry p leaf.table_slot leaf.index ≡ none
    → frame_slot leaf.target ≡ none
    → (r : ℕ) (is : List ℕ) (i : ℕ) → (walk p r is ≡ some leaf.table_slot → leaf.index ≢ i)
    → view q r is i ≡ view p r is i
unfolding view walk
leaf-view_miss p q leaf pushed fresh ends r [] i away =
    let law = find-push p q leaf r i pushed fresh in
    elim (Bool-cases (leaf.table_slot == r && leaf.index == i)) [
      | inl here ↦ absurd (away (ground (arith, here)) (ground (arith, here)))
      | inr other ↦ leaf_at-cong p q r i (ground (arith, law, other))
    ]
leaf-view_miss p q leaf pushed fresh ends r (k ∷ ks) i away =
    let law = find-push p q leaf r k pushed fresh in
    elim (Bool-cases (leaf.table_slot == r && leaf.index == k)) [
      | inl here ↦
          let absent : find_entry p r k ≡ none = ground (arith, here, fresh) in
          let found : find_entry q r k ≡ some leaf = ground (arith, law, here) in
          Stops-view q r k ks i (inr (leaf, found, ends)) ∙ sym (Stops-view p r k ks i (inl absent))
      | inr other ↦ view-cong p q r k ks i (ground (arith, law, other)) (λ c s.
          leaf-view_miss p q leaf pushed fresh ends c ks i
            (λ reached. away (Step-walk p r k ks c s ∙ reached)))
    ]
