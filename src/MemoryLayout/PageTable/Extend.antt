-- ===== src/MemoryLayout/PageTable/Extend.antt =====
-- The invariant of `ConstructionPlan` (crates/memory-layout/src/page_table.rs) and how its search
-- changes when an entry is pushed.
use unnamed_os_core.Common.{
  ℕ, ◌<◌, ◌≡◌, sym, inl, inr, ◌&&◌, not, arith, ◌==◌, ltb, if◌then◌else◌, ok, >>=-eq-ok, reject_if,
  ok_or, none, some, [], ◌∷◌, ◌++◌, length, find?-append, find?-append_some, find?, get_elem?,
  Bool-cases, Option-cases, u32_end,
}
use unnamed_os_core.MemoryLayout.PageTable.{
  TableLevel, child_level, frame_slot, PlannedTable, PlannedEntry,
}
use unnamed_os_core.MemoryLayout.PageTable.Construct.{
  Capacity, ConstructionPlan, is_at, find_entry, push_entry, push_removal, record_removal,
  add_child, child_table, link,
}

-- Every entry stands in a planned table, and every table that an entry leads to was planned with
-- that entry's place as its parent.
pub record IsTree (plan : ConstructionPlan) : Type 0 where
  pub rooted : 0 < length plan.tables
  pub planned :
      (slot index : ℕ) (e : PlannedEntry)
      → find_entry plan slot index ≡ some e
      → slot < length plan.tables
  pub parent :
      (slot index child : ℕ) (e : PlannedEntry)
      → find_entry plan slot index ≡ some e
      → frame_slot e.target ≡ some child
      → (t : PlannedTable) × (get_elem? plan.tables child ≡ some t)
        × (t.parent_slot ≡ slot)
        × (t.parent_index ≡ index)

find-push_entries :
    (plan : ConstructionPlan) (e : PlannedEntry) (slot index : ℕ)
    → find_entry plan e.table_slot e.index ≡ none
    → find? (is_at slot index) (plan.entries ++ e ∷ [])
      ≡ (if e.table_slot == slot && e.index == index then some e else find_entry plan slot index)
find-push_entries plan e slot index fresh = elim (Bool-cases (is_at slot index e)) [
  | inl same ↦
      let s : e.table_slot ≡ slot = ground arith in
      let i : e.index ≡ index = ground arith in
      let absent : find_entry plan slot index ≡ none = rw (s, i) at fresh in
      rw (find?-append (is_at slot index) plan.entries e absent, same)
  | inr other ↦ elim (Option-cases (find_entry plan slot index)) [
    | inl absent ↦ rw (find?-append (is_at slot index) plan.entries e absent, other, absent)
    | inr (x, found) ↦
        rw (find?-append_some (is_at slot index) plan.entries (e ∷ []) x found, other, found)
  ]
]

-- A search after an entry was pushed where there was none.
pub find-push :
    (plan grown : ConstructionPlan) (e : PlannedEntry) (slot index : ℕ)
    → grown.entries ≡ plan.entries ++ e ∷ []
    → find_entry plan e.table_slot e.index ≡ none
    → find_entry grown slot index
      ≡ (if e.table_slot == slot && e.index == index then some e else find_entry plan slot index)
find-push plan grown e slot index pushed fresh =
    rw pushed (find-push_entries plan e slot index fresh)

-- What `add_child` has done: a new table under `slot`, and the entry that leads to it.
pub record Adds (p q : ConstructionPlan) (slot index child : ℕ) : Type 0 where
  pub level : TableLevel
  pub is_new : child ≡ length p.tables
  pub small : child < u32_end
  pub tables : q.tables ≡ p.tables ++ child_table level child slot index ∷ []
  pub entries : q.entries ≡ p.entries ++ link slot index child ∷ []
  pub same_mode : q.mode ≡ p.mode

module _ (capacity : Capacity) where
  pub push_entry_lem :
      (e : PlannedEntry) (p q : ConstructionPlan)
      → push_entry capacity e p ≡ ok q
      → q ≡ record p { entries = p.entries ++ e ∷ [] }
  unfolding push_entry
  push_entry_lem e p q h = ground arith

  record_removal_lem :
      (level : TableLevel) (va : ℕ) (e : PlannedEntry) (p q : ConstructionPlan)
      → record_removal capacity level va e p ≡ ok q
      → (q.tables ≡ p.tables) × (q.entries ≡ p.entries) × (q.mode ≡ p.mode)
  unfolding record_removal push_removal
  record_removal_lem level va e p q h = ground arith

  pub add_child-Adds :
      (parent : ℕ) (level : TableLevel) (index va child : ℕ) (p q : ConstructionPlan)
      → add_child capacity parent level index va p ≡ ok (child, q)
      → Adds p q parent index child
  unfolding add_child
  add_child-Adds parent level index va child p q h =
      let slot = length p.tables in
      let (_, free, h1) = >>=-eq-ok (reject_if (slot == capacity.tables) _) _ h in
      let (_, small, h2) = >>=-eq-ok (reject_if (not (ltb slot u32_end)) _) _ h1 in
      let (below, lower, h3) = >>=-eq-ok (ok_or (child_level level) _) _ h2 in
      let (linked, link_made, h4) =
        >>=-eq-ok (push_entry capacity (link parent index slot) _) _ h3 in
      let (done, removed, h5) =
        >>=-eq-ok (record_removal capacity level va (link parent index slot) linked) _ h4 in
      let keeps = record_removal_lem level va (link parent index slot) linked done removed in
      let made = push_entry_lem (link parent index slot) _ linked link_made in
      let same : slot ≡ child = ground arith in
      let last : done ≡ q = ground arith in
      record {
        level = below;
        is_new = sym same;
        small = ground arith;
        tables = ground arith;
        entries = ground arith;
        same_mode = ground arith;
      }
