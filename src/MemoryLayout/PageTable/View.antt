-- ===== src/MemoryLayout/PageTable/View.antt =====
-- The leaves that a walk of `leaf_entry` (crates/memory-layout/src/page_table.rs) finds, before and
-- after an entry is pushed.
use unnamed_os_core.Common.{
  ℕ, ◌≡◌, refl, sym, ◌∙◌, ◌⊎◌, inl, inr, arith, Option, none, some, List, [], ◌∷◌, length,
  Option-cases,
}
use unnamed_os_core.MemoryLayout.PageTable.{frame_slot, PlannedEntry, virtual_address_indices}
use unnamed_os_core.MemoryLayout.PageTable.Construct.{
  ConstructionPlan, find_entry, walk, leaf_at, leaf_entry, as_leaf,
}
use unnamed_os_core.MemoryLayout.PageTable.Extend.{IsTree}
use unnamed_os_core.MemoryLayout.PageTable.Tree.{parent_unique}

-- The end of `leaf_entry`, from any table.
unfoldable pub view : ConstructionPlan → ℕ → List ℕ → ℕ → Option PlannedEntry
view p slot [] index = leaf_at p slot index
view p slot (i ∷ is) index = elim (find_entry p slot i) [
  | none ↦ none
  | some e ↦ elim (frame_slot e.target) [ none ↦ none | some child ↦ view p child is index ]
]

abbrev pub leaf_of : PlannedEntry → Option PlannedEntry
leaf_of e = as_leaf e.target.kind e

-- A step of the walk: the entry at the index leads to a table.
pub record Step (p : ConstructionPlan) (slot index child : ℕ) : Type 0 where
  pub entry : PlannedEntry
  pub found : find_entry p slot index ≡ some entry
  pub leads : frame_slot entry.target ≡ some child

-- There is none: no entry, or a leaf.
abbrev pub Stops : ConstructionPlan → ℕ → ℕ → Type 0
Stops p slot index =
    (find_entry p slot index ≡ none)
    ⊎ ((e : PlannedEntry) × (find_entry p slot index ≡ some e) × (frame_slot e.target ≡ none))

pub Step-cases :
    (p : ConstructionPlan) (slot index : ℕ)
    → ((child : ℕ) × Step p slot index child) ⊎ Stops p slot index
Step-cases p slot index = elim (Option-cases (find_entry p slot index)) [
  | inl absent ↦ inr (inl absent)
  | inr (e, found) ↦ elim (Option-cases (frame_slot e.target)) [
    | inl leaf ↦ inr (inr (e, found, leaf))
    | inr (child, leads) ↦ inl (child, record { entry = e; found = found; leads = leads })
  ]
]

module _ (p : ConstructionPlan) (slot i : ℕ) (is : List ℕ) where
  pub Step-walk : (child : ℕ) → Step p slot i child → walk p slot (i ∷ is) ≡ walk p child is
  unfolding walk
  Step-walk child s = rw (s.found, walk, s.leads)

  pub Step-view :
      (child index : ℕ) → Step p slot i child → view p slot (i ∷ is) index ≡ view p child is index
  unfolding view
  Step-view child index s = rw (s.found, view, s.leads)

  pub Stops-walk : Stops p slot i → walk p slot (i ∷ is) ≡ none
  unfolding walk
  Stops-walk (inl absent) = rw (absent, walk)
  Stops-walk (inr (e, found, leaf)) = rw (found, walk, leaf)

  pub Stops-view : (index : ℕ) → Stops p slot i → view p slot (i ∷ is) index ≡ none
  unfolding view
  Stops-view index (inl absent) = rw (absent, view)
  Stops-view index (inr (e, found, leaf)) = rw (found, view, leaf)

view-walk :
    (p : ConstructionPlan) (slot : ℕ) (is : List ℕ) (index : ℕ)
    → elim (walk p slot is) [ none ↦ none | some s ↦ leaf_at p s index ] ≡ view p slot is index
unfolding walk view
view-walk p slot [] index = refl
view-walk p slot (i ∷ is) index = elim (Step-cases p slot i) [
  | inl (child, s) ↦
      rw (Step-walk p slot i is child s, Step-view p slot i is child index s)
        (view-walk p child is index)
  | inr stops ↦ rw (Stops-walk p slot i is stops, Stops-view p slot i is index stops)
]

-- `leaf_entry` is the view from the root.
pub leaf_entry-view :
    (p : ConstructionPlan) (a : ℕ)
    → leaf_entry p a ≡ view p 0 (virtual_address_indices a).upper (virtual_address_indices a).leaf
unfolding leaf_entry
leaf_entry-view p a =
    view-walk p 0 (virtual_address_indices a).upper (virtual_address_indices a).leaf

-- Two walks of the same length that end in one table took the same way.
pub walk_unique :
    (p : ConstructionPlan) (a b end : ℕ) (is js : List ℕ)
    → IsTree p
    → length is ≡ length js
    → walk p a is ≡ some end
    → walk p b js ≡ some end
    → (a ≡ b) × (is ≡ js)
unfolding walk
walk_unique p a b end [] [] tree same wi wj = (ground arith, refl)
walk_unique p a b end [] (j ∷ js) tree same wi wj = absurd (omega arith)
walk_unique p a b end (i ∷ is) [] tree same wi wj = absurd (omega arith)
walk_unique p a b end (i ∷ is) (j ∷ js) tree same wi wj = elim (Step-cases p a i) [
  | inr stops ↦ cc (Stops-walk p a i is stops)
  | inl (c, s) ↦ elim (Step-cases p b j) [
    | inr stops ↦ cc (Stops-walk p b j js stops)
    | inl (d, t) ↦
        let (cd, rest) =
          walk_unique p c d end is js tree (omega arith) (sym (Step-walk p a i is c s) ∙ wi)
            (sym (Step-walk p b j js d t) ∙ wj) in
        let (ab, ij) =
          parent_unique p a i b j d s.entry t.entry tree s.found t.found
            (ground (arith, cd, s.leads)) t.leads in
        (ab, ground (arith, ij, rest))
  ]
]
