-- ===== src/Bootloader/HigherHalfPlan/Segments.antt =====
-- What the loop over the segments in `HigherHalfLoadPlan::from_validated`
-- (crates/bootloader/src/higher_half_plan.rs) maps.
use unnamed_os_core.Common.{
  ℕ, ◌+◌, ◌≤◌, ◌<◌, ◌≡◌, ◌⊎◌, inl, inr, Bool-cases, refl, ap, subst, arith, true, ◌==◌, ok,
  >>=-eq-ok, ok-injective, ok_or-checked_add, ok_or, map_err, map_err-eq-ok, raised, List, [], ◌∷◌,
  All, checked_add,
}
use unnamed_os_core.MemoryLayout.Range.{Range, new_physical_range, new_virtual_range, contains}
use unnamed_os_core.MemoryLayout.Range.Accept.{
  new_physical_range_accepts, new_virtual_range_accepts,
}
use unnamed_os_core.MemoryLayout.Permissions.{
  MappingPermissions, write_back, kernel_rx, kernel_r, kernel_rw,
}
use unnamed_os_core.MemoryLayout.Policy.{MappingKind, kernel_text, kernel_rodata, kernel_data}
use unnamed_os_core.MemoryLayout.Plan.{MappingPlan, insert_mapping}
use unnamed_os_core.MemoryLayout.Plan.Built.{Built, with_mapping, Built-IsValid}
use unnamed_os_core.MemoryLayout.Plan.Keeps.{insert_mapping-MapsBy, MapsBy-insert_mapping}
use unnamed_os_core.MemoryLayout.Plan.Translate.{MapsBy}
use unnamed_os_core.KernelImage.{LoadSegment}
use unnamed_os_core.Bootloader.LoadPlan.{load_page_size, max_load_items, round_up}
use unnamed_os_core.Bootloader.LoadPlan.Items.{round_up-RoundsUp}
use unnamed_os_core.Bootloader.HigherHalfPlan.{
  load, layout, translation_overflow, layout_fault, mapping_policy, map_segment, map_segments,
}

-- The flags of a segment with the permissions and the kind of its mapping: RX is text, R read-only
-- data, and RW data.
abbrev pub IsPolicy : ℕ → MappingPermissions × MappingKind → Type 0
IsPolicy flags policy =
    (flags ≡ 5) × (policy ≡ (kernel_rx, kernel_text))
    ⊎ (flags ≡ 4) × (policy ≡ (kernel_r, kernel_rodata))
    ⊎ (flags ≡ 6) × (policy ≡ (kernel_rw, kernel_data))

mapping_policy-IsPolicy :
    (flags : ℕ) (policy : MappingPermissions × MappingKind)
    → mapping_policy flags ≡ ok policy
    → IsPolicy flags policy
unfolding mapping_policy
mapping_policy-IsPolicy flags policy h = elim (Bool-cases (flags == 5)) [
  | inl text ↦ inl (ground arith, ground (arith, text, h))
  | inr e ↦ elim (Bool-cases (flags == 4)) [
    | inl rodata ↦ inr (inl (ground arith, ground (arith, e, rodata, h)))
    | inr f ↦ elim (Bool-cases (flags == 6)) [
      | inl rw_data ↦ inr (inr (ground arith, ground (arith, e, f, rw_data, h)))
      | inr g ↦ absurd (ground (arith, e, f, g, h))
    ]
  ]
]

-- Every byte that the segment has in memory is mapped to the one at the same offset of its physical
-- place, with the permissions that the table has for the segment's flags.
pub record MapsSegment (m : MappingPlan) (s : LoadSegment) : Type 0 where
  pub policy : MappingPermissions × MappingKind
  pub of_flags : IsPolicy s.flags policy
  pub maps :
      (k : ℕ)
      → k < s.memory_size
      → MapsBy m (s.virtual_address + k) (s.physical_address + k) policy.0

-- All mappings of the first plan are in the second.
abbrev pub Keeps : MappingPlan → MappingPlan → Type 0
Keeps m m' = (a q : ℕ) (p : MappingPermissions) → MapsBy m a q p → MapsBy m' a q p

MapsSegment-Keeps :
    (m m' : MappingPlan) (s : LoadSegment) → Keeps m m' → MapsSegment m s → MapsSegment m' s
MapsSegment-Keeps m m' s keeps maps = record {
  policy = maps.policy;
  of_flags = maps.of_flags;
  maps = λ k small. keeps _ _ _ (maps.maps k small);
}

held_by :
    (v : Range) (start size k : ℕ)
    → v.start ≡ start
    → start + size ≤ v.end
    → k < size
    → contains v (start + k) ≡ true
held_by v start size k starts above small = ground arith

placed :
    (s : LoadSegment) (m m' : MappingPlan) (v p : Range) (policy : MappingPermissions × MappingKind)
    (physical_end virtual_end : ℕ)
    → mapping_policy s.flags ≡ ok policy
    → new_virtual_range s.virtual_address virtual_end ≡ ok v
    → new_physical_range s.physical_address physical_end ≡ ok p
    → s.virtual_address + s.memory_size ≤ virtual_end
    → insert_mapping v p policy.0 write_back policy.1 m ≡ ok m'
    → Built max_load_items m
    → Built max_load_items m' × MapsSegment m' s × Keeps m m'
placed s m m' v p policy physical_end virtual_end of_flags virtual physical above made built =
    let (v_is, is_v) = (new_virtual_range_accepts s.virtual_address virtual_end v).0 virtual in
    let (p_is, is_p) = (new_physical_range_accepts s.physical_address physical_end p).0 physical in
    let v_start : v.start ≡ s.virtual_address = ap (λ r. r.start) v_is in
    let v_end : v.end ≡ virtual_end = ap (λ r. r.end) v_is in
    let p_start : p.start ≡ s.physical_address = ap (λ r. r.start) p_is in
    let valid = Built-IsValid max_load_items m built in
    let reaches : s.virtual_address + s.memory_size ≤ v.end = omega (arith, above, v_end) in
    (
      with_mapping v p policy.0 write_back policy.1 m m'
          ((new_virtual_range_accepts v.start v.end v).1 (refl, is_v))
          ((new_physical_range_accepts p.start p.end p).1 (refl, is_p)) made built,
      record {
        policy = policy;
        of_flags = mapping_policy-IsPolicy s.flags policy of_flags;
        maps = λ k small.
            insert_mapping-MapsBy v p policy.0 write_back policy.1 m m' (s.virtual_address + k)
              (s.physical_address + k) valid made
              (held_by v s.virtual_address s.memory_size k v_start reaches small)
              (omega (arith, v_start, p_start));
      },
      λ a q t by. MapsBy-insert_mapping v p policy.0 write_back policy.1 m m' a q t valid made by,
    )

map_segment_lem :
    (s : LoadSegment) (m m' : MappingPlan)
    → map_segment s m ≡ ok m'
    → Built max_load_items m
    → Built max_load_items m' × MapsSegment m' s × Keeps m m'
unfolding map_segment
map_segment_lem s m m' h built =
    let (physical_sum, e1, h1) =
      >>=-eq-ok (ok_or (checked_add s.physical_address s.memory_size) (raised translation_overflow))
        _ h in
    let (physical_end, e2, h2) =
      >>=-eq-ok (map_err (λ e. raised (load e)) (round_up physical_sum load_page_size)) _ h1 in
    let (virtual_sum, e3, h3) =
      >>=-eq-ok (ok_or (checked_add s.virtual_address s.memory_size) (raised translation_overflow))
        _ h2 in
    let (virtual_end, e4, h4) =
      >>=-eq-ok (map_err (λ e. raised (load e)) (round_up virtual_sum load_page_size)) _ h3 in
    let (p, e5, h5) =
      >>=-eq-ok
        (map_err (λ e. raised (layout e)) (new_physical_range s.physical_address physical_end)) _
        h4 in
    let (v, e6, h6) =
      >>=-eq-ok (map_err (λ e. raised (layout e)) (new_virtual_range s.virtual_address virtual_end))
        _ h5 in
    let (policy, e7, inserted) = >>=-eq-ok (map_err raised (mapping_policy s.flags)) _ h6 in
    let made =
      map_err-eq-ok layout_fault (insert_mapping v p policy.0 write_back policy.1 m) inserted in
    let vs = map_err-eq-ok (λ e. raised (layout e)) _ e6 in
    let ps = map_err-eq-ok (λ e. raised (layout e)) _ e5 in
    let above = (round_up-RoundsUp virtual_sum virtual_end (map_err-eq-ok _ _ e4)).above in
    let sum = (ok_or-checked_add (raised translation_overflow) _ _ virtual_sum e3).0 in
    placed s m m' v p policy physical_end virtual_end (map_err-eq-ok raised _ e7) vs ps
      (subst (λ e. e ≤ virtual_end) sum above) made built

pub map_segments_lem :
    (segments : List LoadSegment) (m m' : MappingPlan)
    → map_segments segments m ≡ ok m'
    → Built max_load_items m
    → Built max_load_items m' × All (MapsSegment m') segments × Keeps m m'
unfolding map_segments
map_segments_lem [] m m' h built =
    let same : m ≡ m' = ok-injective h in
    (subst (Built max_load_items) same built, tt, subst (Keeps m) same (λ a q p by. by))
map_segments_lem (s ∷ rest) m m' h built =
    let (next, first, others) = >>=-eq-ok (map_segment s m) _ h in
    let (built1, maps, keeps) = map_segment_lem s m next first built in
    let (built2, each, keeps2) = map_segments_lem rest next m' others built1 in
    (
      built2,
      (MapsSegment-Keeps next m' s keeps2 maps, each),
      λ a q p by. keeps2 a q p (keeps a q p by),
    )
