-- ===== src/MemoryLayout/Plan/Translate.antt =====
-- `MappingPlan::translate` (crates/memory-layout/src/lib.rs) on a valid plan.
use unnamed_os_core.Common.{
  ℕ, zero, suc, ◌+◌, ◌-◌, ◌≡◌, ◌↔◌, ◌⊎◌, refl, ap, ◌∙◌, true, arith, ok, err, Option, none, some,
  List, [], ◌∷◌, get_elem?, find?, Pairwise, All-get_elem?, Bool-cases, Option-cases, inl, inr,
  ◌>>=◌, Result,
}
use unnamed_os_core.MemoryLayout.Address.{LayoutError, unmapped, new_physical_address}
use unnamed_os_core.MemoryLayout.Range.{PhysicalRange, contains}
use unnamed_os_core.MemoryLayout.Permissions.{MappingPermissions}
use unnamed_os_core.MemoryLayout.Policy.{guard}
use unnamed_os_core.MemoryLayout.Plan.{
  EntryBacking, mapped, unbacked, PlanEntry, MappingPlan, entries, translate, translate_in,
}
use unnamed_os_core.MemoryLayout.Plan.Valid.{IsEntry, Before, IsValid}

-- The search of `translate`.
abbrev pub find_entry : ℕ → List PlanEntry → Option PlanEntry
find_entry address = find? (λ e. contains e.virtual_range address)

-- The entry at an index, if it is mapped, takes an address of its virtual range to the one at the
-- same offset of its physical range.
pub record MapsBy (m : MappingPlan) (a q : ℕ) (permissions : MappingPermissions) : Type 0 where
  pub index : ℕ
  pub entry : PlanEntry
  pub physical : PhysicalRange
  pub live : get_elem? (entries m) index ≡ some entry
  pub backed : entry.backing ≡ mapped physical
  pub permitted : entry.permissions ≡ some permissions
  pub held : contains entry.virtual_range a ≡ true
  pub target : q ≡ physical.start + (a - entry.virtual_range.start)

find_entry_first :
    (xs : List PlanEntry) (i a : ℕ) {e : PlanEntry}
    → Pairwise Before xs
    → get_elem? xs i ≡ some e
    → contains e.virtual_range a ≡ true
    → find_entry a xs ≡ some e
find_entry_first [] i a h g c = cc
find_entry_first (x ∷ xs) zero a {e = e} h g c = ground arith
find_entry_first (x ∷ xs) (suc i) a {e = e} h g c =
    let before : Before x e = All-get_elem? (Before x) xs i h.0 g in
    ground (arith, find_entry_first xs i a h.1 g c)

find_entry_sound :
    (xs : List PlanEntry) (a : ℕ) {e : PlanEntry}
    → find_entry a xs ≡ some e
    → (i : ℕ) × (get_elem? xs i ≡ some e) × (contains e.virtual_range a ≡ true)
find_entry_sound [] a h = cc
find_entry_sound (x ∷ xs) a {e = e} h = elim (Bool-cases (contains x.virtual_range a)) [
  | inl c ↦ let same : x ≡ e = ground (arith, c) in (0, ap some same, rw (← same) c)
  | inr c ↦
      let rest : find_entry a xs ≡ some e = ground (arith, c) in
      let (i, g, held) = find_entry_sound xs a rest in (suc i, g, held)
]

-- A mapped entry of a valid plan gives each address of its range a supported physical address.
translate_in-mapped :
    (e : PlanEntry) (p : PhysicalRange) (a : ℕ)
    → IsEntry e
    → e.backing ≡ mapped p
    → contains e.virtual_range a ≡ true
    → translate_in e a ≡ ok (p.start + (a - e.virtual_range.start))
unfolding translate_in new_physical_address
translate_in-mapped e p a entry backed held =
    let (q, c, _, _, physical, same_length, _) = rw backed at (entry.1) in
    let virtual = entry.0.ordered in ground (arith, physical.ordered, physical.supported)

translate_in-unbacked :
    (e : PlanEntry) (a : ℕ) → e.backing ≡ unbacked → translate_in e a ≡ err unmapped
unfolding translate_in
translate_in-unbacked e a backed = ground arith

pub EntryBacking-cases :
    (b : EntryBacking) → ((p : PhysicalRange) × (b ≡ mapped p)) ⊎ (b ≡ unbacked)
EntryBacking-cases (mapped p) = inl (p, refl)
EntryBacking-cases unbacked = inr refl

-- What `translate` does with the result of its search.
translate_cases :
    (m : MappingPlan) (a : ℕ)
    → (find_entry a (entries m) ≡ none) × (translate m a ≡ err unmapped)
      ⊎ ((e : PlanEntry) × (i : ℕ) × (get_elem? (entries m) i ≡ some e)
          × (contains e.virtual_range a ≡ true)
          × (translate m a ≡ translate_in e a))
unfolding translate
translate_cases m a = elim (Option-cases (find_entry a (entries m))) [
  | inl absent ↦ inl (absent, rw (absent, ◌>>=◌))
  | inr (e, found) ↦
      let (i, live, held) = find_entry_sound (entries m) a found in
      inr (e, i, live, held, rw (found, ◌>>=◌))
]

pub MapsBy-translate :
    (m : MappingPlan) (a q : ℕ) (s : MappingPermissions)
    → IsValid m
    → MapsBy m a q s
    → translate m a ≡ ok q
unfolding translate
MapsBy-translate m a q s valid by =
    let entry = All-get_elem? IsEntry (entries m) by.index valid.each by.live in
    let found = find_entry_first (entries m) by.index a valid.ordered by.live by.held in
    let done = translate_in-mapped by.entry by.physical a entry by.backed by.held in
    rw (found, ◌>>=◌, done, by.target)

pub translate-MapsBy :
    (m : MappingPlan) (a q : ℕ)
    → IsValid m
    → translate m a ≡ ok q
    → (permissions : MappingPermissions) × MapsBy m a q permissions
translate-MapsBy m a q valid h = elim (translate_cases m a) [
  | inl (_, failed) ↦ cc
  | inr (e, i, live, held, by) ↦
      let entry = All-get_elem? IsEntry (entries m) i valid.each live in
      elim (EntryBacking-cases e.backing) [
        | inl (p, backed) ↦
            let (s, c, permitted, _, _, _, _) = rw backed at (entry.1) in
            (
              s,
              record {
                index = i;
                entry = e;
                physical = p;
                live = live;
                backed = backed;
                permitted = permitted;
                held = held;
                target = ground (arith, translate_in-mapped e p a entry backed held);
              },
            )
        | inr bare ↦ absurd (ground (arith, translate_in-unbacked e a bare))
      ]
]

-- On a valid plan `translate` returns an address exactly if a live, mapped entry holds the virtual
-- address; it is the address at the same offset of the entry's physical range.
pub translate_iff :
    (m : MappingPlan) (a q : ℕ)
    → IsValid m
    → (translate m a ≡ ok q) ↔ ((permissions : MappingPermissions) × MapsBy m a q permissions)
translate_iff m a q valid =
    (translate-MapsBy m a q valid, λ (s, by). MapsBy-translate m a q s valid by)

-- The only error of `translate` on a valid plan is that the address is unmapped.
pub translate_error :
    (m : MappingPlan) (a : ℕ) (e : LayoutError) → IsValid m → translate m a ≡ err e → e ≡ unmapped
translate_error m a e valid h = elim (translate_cases m a) [
  | inl (_, failed) ↦ cc
  | inr (x, i, live, held, by) ↦
      let entry = All-get_elem? IsEntry (entries m) i valid.each live in
      elim (EntryBacking-cases x.backing) [
        | inl (p, backed) ↦ absurd (ground (arith, translate_in-mapped x p a entry backed held))
        | inr bare ↦ cc (translate_in-unbacked x a bare)
      ]
]

-- An address that no entry maps is unmapped.
pub unmapped_if :
    (m : MappingPlan) (a : ℕ)
    → IsValid m
    → ((q : ℕ) (s : MappingPermissions) → MapsBy m a q s → ⊥)
    → translate m a ≡ err unmapped
unmapped_if m a valid none_maps = result (translate m a) refl
  where
    result : (r : Result LayoutError ℕ) → translate m a ≡ r → translate m a ≡ err unmapped
    result (ok q) h = let (s, by) = translate-MapsBy m a q valid h in absurd (none_maps q s by)
    result (err e) h = h ∙ ap err (translate_error m a e valid h)

-- An address that a guard holds is unmapped.
pub guard-unmapped :
    (m : MappingPlan) (a i : ℕ) (e : PlanEntry)
    → IsValid m
    → get_elem? (entries m) i ≡ some e
    → e.kind ≡ guard
    → contains e.virtual_range a ≡ true
    → translate m a ≡ err unmapped
unfolding translate
guard-unmapped m a i e valid live kind held =
    let entry = All-get_elem? IsEntry (entries m) i valid.each live in
    let found = find_entry_first (entries m) i a valid.ordered live held in
    elim (EntryBacking-cases e.backing) [
      | inl (p, backed) ↦
          let (_, _, _, _, _, _, allowed) = rw (backed, kind) at (entry.1) in absurd allowed
      | inr bare ↦ rw (found, ◌>>=◌, translate_in-unbacked e a bare)
    ]
