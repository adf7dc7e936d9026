-- ===== src/MemoryLayout/Cpu/Accepts.antt =====
-- Which page tables `classify_for_hierarchy` of crates/memory-layout/src/cpu.rs accepts.
use unnamed_os_core.Common.{
  ℕ, ◌+◌, ◌^◌, ◌≤◌, ◌<◌, ◌≡◌, refl, ap, subst, arith, Bool, false, not, ◌||◌, ltb, ◌==◌, ok,
  >>=-eq-ok, ok-injective, reject_if, reject_if-ok, ok_or, ok_or-checked_add, checked_add, List, [],
  ◌∷◌, All,
}
use native.Mathlib.Nat.{pow-le-pow_right}
use unnamed_os_core.MemoryLayout.Address.{page_size, supported_physical_end}
use unnamed_os_core.MemoryLayout.Cpu.{
  ValidatedCpuSnapshot, ActivationReadiness, check_owned_frames, classify_for_hierarchy, not_first,
  owned_frame_unsupported, invalid_proposed_root, invalid_required_physical_range,
  architecture_physical_cap_exceeded, mapped_physical_range_unsupported, proposed_root_unsupported,
}
use unnamed_os_core.Common.{◌↔◌}
use unnamed_os_core.MemoryLayout.Cpu.{CpuCapabilityError}
use unnamed_os_core.MemoryLayout.Cpu.Snapshot.{bind-ok}

module _ (cpu_end : ℕ) (small : cpu_end ≤ 2 ^ 52) where
  sum-ok :
      (e : CpuCapabilityError) (a : ℕ)
      → a + page_size ≤ cpu_end
      → ok_or (checked_add a page_size) e ≡ ok (a + page_size)
  sum-ok e a fits = ground arith

  within : (e : CpuCapabilityError) (a : ℕ) → a ≤ cpu_end → reject_if (ltb cpu_end a) e ≡ ok tt
  within e a fits = ground arith

  check_owned_frames_iff :
      (frames : List ℕ)
      → (check_owned_frames frames cpu_end ≡ ok tt)
        ↔ All (λ frame. frame + page_size ≤ cpu_end) frames
  unfolding check_owned_frames
  check_owned_frames_iff [] = (λ h. tt, λ h. refl)
  check_owned_frames_iff (frame ∷ rest) =
      let (others, from_others) = check_owned_frames_iff rest in
      (
        λ h.
            let (end, sum, h1) =
              >>=-eq-ok (ok_or (checked_add frame page_size) owned_frame_unsupported) _ h in
            let (_, inside, h2) =
              >>=-eq-ok (reject_if (ltb cpu_end end) owned_frame_unsupported) _ h1 in
            (
              fits frame end (ok_or-checked_add owned_frame_unsupported frame page_size end sum).0
                  (reject_if-ok owned_frame_unsupported _ inside),
              others h2,
            ),
        λ all. bind-ok _ (sum-ok owned_frame_unsupported frame all.0) (
            bind-ok _ (within owned_frame_unsupported (frame + page_size) all.0)
              (from_others all.1)),
      )
    where
      fits : (frame end : ℕ) → end ≡ frame + 4096 → ltb cpu_end end ≡ false → frame + 4096 ≤ cpu_end
      fits frame end is inside = ground arith

-- What `classify_for_hierarchy` asks of a hierarchy: its root is the first of its frames and is not 0;
-- its frames are below the end of the CPU's physical addresses, and so is what it maps, which the
-- layout supports.
pub record IsHierarchy (v : ValidatedCpuSnapshot) (frames : List ℕ) (root highest : ℕ)
    : Type 0 where
  pub others : List ℕ
  pub first : frames ≡ root ∷ others
  pub above : 0 < root
  pub fits : All (λ frame. frame + 4096 ≤ 2 ^ v.physical_address_bits) frames
  pub mapped :
      (0 < highest) × (highest ≤ supported_physical_end) × (highest ≤ 2 ^ v.physical_address_bits)

-- What it returns.
abbrev pub readiness_of : ValidatedCpuSnapshot → ℕ → ActivationReadiness
readiness_of v root = record {
  current_cr3 = v.current_cr3;
  proposed_root = root;
  nxe = v.nxe;
  write_protect = v.write_protect;
  pge = v.pge;
  pcid = v.current_cr3.pcid_state;
  physical_address_bits = v.physical_address_bits;
  effective_linear_address_bits = 48;
  transition_permitted = 1;
  stability = v.stability;
}

not_first-some :
    (frames : List ℕ) (root : ℕ)
    → not_first frames root ≡ false
    → (others : List ℕ) × (frames ≡ root ∷ others)
not_first-some [] root h = cc
not_first-some (f ∷ others) root h =
    let same : f ≡ root = ground arith in (others, ap (λ x. x ∷ others) same)

-- At a snapshot of at most 52 bits: a hierarchy is accepted exactly if its root is the first of its
-- frames and above 0, every frame lies below the end of the physical addresses that the CPU has, and
-- the highest physical end that it maps is above 0, and below that end and the layout's. The readiness
-- is of this root, and carries the snapshot's CR3, controls, width and token.
pub classify_for_hierarchy_iff :
    (v : ValidatedCpuSnapshot) (frames : List ℕ) (root highest : ℕ) (r : ActivationReadiness)
    → v.physical_address_bits ≤ 52
    → (classify_for_hierarchy v frames root highest ≡ ok r)
      ↔ (IsHierarchy v frames root highest × (readiness_of v root ≡ r))
unfolding classify_for_hierarchy
classify_for_hierarchy_iff v frames root highest r few =
    let cpu_end : ℕ = 2 ^ v.physical_address_bits in
    let small : cpu_end ≤ 2 ^ 52 = pow-le-pow_right {n = 2} (omega arith) few in
    let (owned, from_owned) = check_owned_frames_iff cpu_end small frames in
    (
      λ h.
          let (_, e1, h1) =
            >>=-eq-ok (reject_if (not_first frames root || root == 0) invalid_proposed_root) _ h in
          let (_, e2, h2) =
            >>=-eq-ok (reject_if (highest == 0) invalid_required_physical_range) _ h1 in
          let (_, e3, h3) =
            >>=-eq-ok
              (reject_if (ltb supported_physical_end highest) architecture_physical_cap_exceeded) _
              h2 in
          let (_, e4, h4) =
            >>=-eq-ok (reject_if (ltb cpu_end highest) mapped_physical_range_unsupported) _ h3 in
          let (end, e5, h5) =
            >>=-eq-ok (ok_or (checked_add root page_size) proposed_root_unsupported) _ h4 in
          let (_, e6, h6) =
            >>=-eq-ok (reject_if (ltb cpu_end end) proposed_root_unsupported) _ h5 in
          let (_, e7, done) = >>=-eq-ok (check_owned_frames frames cpu_end) _ h6 in
          let (is_first, above) =
            split (not_first frames root) root (reject_if-ok invalid_proposed_root _ e1) in
          let (others, first) = not_first-some frames root is_first in
          (
            record {
              others = others;
              first = first;
              above = above;
              fits = owned e7;
              mapped = (
                positive highest (reject_if-ok invalid_required_physical_range _ e2),
                not_lt supported_physical_end highest
                    (reject_if-ok architecture_physical_cap_exceeded _ e3),
                not_lt cpu_end highest (reject_if-ok mapped_physical_range_unsupported _ e4),
              );
            },
            ok-injective done,
          ),
      λ known.
          let (is, same) = known in
          let (positive_end, supported, mapped) = is.mapped in
          let root_fits = (subst (All (λ frame. frame + 4096 ≤ cpu_end)) is.first is.fits).0 in
          bind-ok _ (proposed frames root is.others is.first is.above) (
            bind-ok _ (needed highest positive_end) (
              bind-ok _
                (inside architecture_physical_cap_exceeded supported_physical_end highest supported)
                (bind-ok _ (within cpu_end small mapped_physical_range_unsupported highest mapped) (
                  bind-ok _ (sum-ok cpu_end small proposed_root_unsupported root root_fits) (
                    bind-ok _
                      (within cpu_end small proposed_root_unsupported (root + page_size) root_fits)
                      (bind-ok _ (from_owned is.fits) (ap ok same))))))),
    )
  where
    not_lt : (a b : ℕ) → ltb a b ≡ false → b ≤ a
    not_lt a b h = ground arith

    positive : (n : ℕ) → (n == 0) ≡ false → 0 < n
    positive n h = ground arith

    split : (b : Bool) (n : ℕ) → (b || n == 0) ≡ false → (b ≡ false) × (0 < n)
    split b n h = (ground arith, ground arith)

    needed : (n : ℕ) → 0 < n → reject_if (n == 0) invalid_required_physical_range ≡ ok tt
    needed n h = ground arith

    inside : (e : CpuCapabilityError) (a b : ℕ) → b ≤ a → reject_if (ltb a b) e ≡ ok tt
    inside e a b h = ground arith

    proposed :
        (frames : List ℕ) (root : ℕ) (others : List ℕ)
        → frames ≡ root ∷ others
        → 0 < root
        → reject_if (not_first frames root || root == 0) invalid_proposed_root ≡ ok tt
    proposed frames root others first above = rw first (at_head root above)
      where
        at_head : (n : ℕ) → 0 < n → reject_if (not (n == n) || n == 0) invalid_proposed_root ≡ ok tt
        at_head n h = ground arith
