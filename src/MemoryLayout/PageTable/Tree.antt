-- ===== src/MemoryLayout/PageTable/Tree.antt =====
-- The operations of `ConstructionPlan` (crates/memory-layout/src/page_table.rs) keep its tables a
-- tree, in which a walk from the root reaches a table by one path only.
use unnamed_os_core.Common.{
  ℕ, ◌+◌, ◌<◌, ◌≡◌, ap, ◌∙◌, inl, inr, Bool, false, ◌&&◌, arith, ◌==◌, none, some, [], ◌∷◌, ◌++◌,
  length, length-append, get_elem?, get_elem?-append, get_elem?-append_last, Bool-cases,
}
use unnamed_os_core.MemoryLayout.PageTable.{frame_slot, PlannedEntry}
use unnamed_os_core.MemoryLayout.PageTable.Construct.{
  ConstructionPlan, find_entry, child_table, link,
}
use unnamed_os_core.MemoryLayout.PageTable.Extend.{IsTree, find-push, Adds}

abbrev is_place : PlannedEntry → ℕ → ℕ → Bool
is_place e slot index = e.table_slot == slot && e.index == index

-- Pushing an entry in a planned table, at an empty place, that leads to a frame.
pub push_frame-IsTree :
    (p q : ConstructionPlan) (e : PlannedEntry)
    → IsTree p
    → q.entries ≡ p.entries ++ e ∷ []
    → q.tables ≡ p.tables
    → find_entry p e.table_slot e.index ≡ none
    → e.table_slot < length p.tables
    → frame_slot e.target ≡ none
    → IsTree q
push_frame-IsTree p q e tree pushed same fresh planned leaf = record {
  rooted = rw same tree.rooted;
  planned = λ slot index x found. elim (Bool-cases (is_place e slot index)) [
    | inl here ↦ rw same (ground (arith, here))
    | inr other ↦ rw same (
        tree.planned slot index x
          (ground (arith, other, found, find-push p q e slot index pushed fresh)))
  ];
  parent = λ slot index child x found leads. elim (Bool-cases (is_place e slot index)) [
    | inl here ↦
        absurd (ground (arith, here, found, leads, leaf, find-push p q e slot index pushed fresh))
    | inr other ↦ rw same (
        tree.parent slot index child x
          (ground (arith, other, found, find-push p q e slot index pushed fresh)) leads)
  ];
}

pub Adds-length :
    (p q : ConstructionPlan) (slot index child : ℕ)
    → Adds p q slot index child
    → length q.tables ≡ length p.tables + 1
Adds-length p q slot index child adds =
    ap length adds.tables ∙ length-append p.tables (child_table adds.level child slot index ∷ [])

-- `add_child` under a planned table.
pub Adds-IsTree :
    (p q : ConstructionPlan) (slot index child : ℕ)
    → IsTree p
    → find_entry p slot index ≡ none
    → slot < length p.tables
    → Adds p q slot index child
    → IsTree q
Adds-IsTree p q slot index child tree fresh planned adds = record {
  rooted = omega (arith, more);
  planned = λ s i x found. elim (Bool-cases (is_place (link slot index child) s i)) [
    | inl here ↦ ground (arith, here, more)
    | inr other ↦ omega (arith, tree.planned s i x (old s i x other found), more)
  ];
  parent = λ s i c x found leads. elim (Bool-cases (is_place (link slot index child) s i)) [
    | inl here ↦
        let law = find-push p q (link slot index child) s i entries fresh in
        let at_end : c ≡ length p.tables = ground (arith, here, law, found, leads, is_new, small) in
        let last = get_elem?-append_last p.tables (child_table adds.level child slot index) in
        (
          child_table adds.level child slot index,
          ap (λ ts. get_elem? ts c) tables
              ∙ ap (get_elem? (p.tables ++ child_table adds.level child slot index ∷ [])) at_end
              ∙ last,
          ground (arith, here),
          ground (arith, here),
        )
    | inr other ↦
        let (t, planned_before, by_slot, by_index) =
          tree.parent s i c x (old s i x other found) leads in
        (t, rw tables (get_elem?-append p.tables _ c planned_before), by_slot, by_index)
  ];
}
  where
    open adds use {tables, entries, is_new, small}

    more : length q.tables ≡ length p.tables + 1
    more = Adds-length p q slot index child adds

    old :
        (s i : ℕ) (x : PlannedEntry)
        → is_place (link slot index child) s i ≡ false
        → find_entry q s i ≡ some x
        → find_entry p s i ≡ some x
    old s i x other found =
        ground (arith, other, found, find-push p q (link slot index child) s i entries fresh)

-- A table is reached from one place.
pub parent_unique :
    (p : ConstructionPlan) (s i t j child : ℕ) (e f : PlannedEntry)
    → IsTree p
    → find_entry p s i ≡ some e
    → find_entry p t j ≡ some f
    → frame_slot e.target ≡ some child
    → frame_slot f.target ≡ some child
    → (s ≡ t) × (i ≡ j)
parent_unique p s i t j child e f tree fe ff le lf =
    let (x, gx, sx, ix) = tree.parent s i child e fe le in
    let (y, gy, sy, iy) = tree.parent t j child f ff lf in
    let same : x ≡ y = ground arith in (ground arith, ground arith)
