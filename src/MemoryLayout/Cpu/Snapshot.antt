-- ===== src/MemoryLayout/Cpu/Snapshot.antt =====
-- Which CPU snapshots `RawCpuSnapshot::validate` of crates/memory-layout/src/cpu.rs accepts.
use unnamed_os_core.Common.{
  ℕ, ◌-◌, ◌%◌, ◌^◌, ◌≤◌, ◌<◌, ◌≡◌, refl, ap, ◌∙◌, ◌⊎◌, arith, Bool, true, false, not, ◌||◌, ◌==◌,
  ==_iff, if◌then◌else◌, bit_and, bit_or, ok, >>=-eq-ok, ok-injective, reject_if, reject_if-ok,
  reject_if-not,
}
use unnamed_os_core.MemoryLayout.Address.{page_size}
use unnamed_os_core.MemoryLayout.Align.{bit_not}
use unnamed_os_core.MemoryLayout.Cpu.{
  cr4_pcide, cr3_pwt_pcd, RawCpuSnapshot, ValidatedCpuSnapshot, check_features, check_widths,
  physical_bits_of, linear_bits_of, la57_of, lacks, address_mask, validate_snapshot,
  unsupported_cr3_encoding, invalid_current_cr3_root,
}
use unnamed_os_core.Common.{◌↔◌, inl, inr, Result, ◌>>=◌, u64_end, sym}
use unnamed_os_core.MemoryLayout.Cpu.{
  hardening_enabled, must_enable_before_activation, pge_enabled, pge_disabled, pcid_disabled,
  enabled_must_remain_unused, CpuCapabilityError, cr0_wp, cr4_pge, efer_nxe,
}
use unnamed_os_core.MemoryLayout.Cpu.Masks.{bit, lacks-not_iff, masks}
use unnamed_os_core.MemoryLayout.Cpu.Cr3.{
  known_pcid_iff, known_iff, root_lem, bit_and-pcid, bit_and-pwt_pcd,
}
use unnamed_os_core.MemoryLayout.Cpu.Conditions.{
  HasFeatures, HasWidths, HasRoot, summary, lacks-bit, check_features_iff, la57-has_la57,
  check_widths_iff,
}

-- The low bits of CR3 that may be set, by whether PCIDs are off.
abbrev allowed : Bool → ℕ
allowed off = if not off then page_size - 1 else cr3_pwt_pcd

abbrev Low : ℕ → Bool → Type 0
Low cr3 off = (off ≡ false) ⊎ (cr3 % 4096 % 8 ≡ 0) × (cr3 % 4096 < 32)

-- The two tests of CR3, at a width and whether PCIDs are off.
module _ (bits cr3 : ℕ) (low : 36 ≤ bits) (high : bits ≤ 52) (fits : cr3 < u64_end) where
  encoded_iff :
      (off : Bool)
      → (bit_and cr3 (bit_not (bit_or (address_mask bits) (allowed off))) ≡ 0)
        ↔ ((cr3 < 2 ^ bits) × Low cr3 off)
  encoded_iff false =
      let (to, from) = known_pcid_iff bits cr3 (masks bits low high) low high fits in
      (λ h. (to h, inl refl), λ h. from (h.0))
  encoded_iff true =
      let (to, from) = known_iff bits cr3 (masks bits low high) low high fits in
      (
        λ h. let (a, b, c) = to h in (a, inr (b, c)),
        λ h. elim (h.1) [ inl e ↦ absurd (clash e) | inr (b, c) ↦ from (h.0, b, c) ],
      )
    where
      clash : ◌≡◌ {A = Bool} true false → ⊥
      clash h = cc

  root_is : cr3 < 2 ^ bits → bit_and cr3 (address_mask bits) ≡ cr3 - cr3 % 4096
  root_is small =
      let parts = root_lem bits cr3 (masks bits low high) low high fits small in
      omega (arith, parts)

flags_are : (cr3 : ℕ) (off : Bool) → Low cr3 off → bit_and cr3 (allowed off) ≡ cr3 % 4096
flags_are cr3 false h = bit_and-pcid cr3
flags_are cr3 true h = elim h [
  | inl e ↦ absurd (clash e)
  | inr (aligned, few) ↦ bit_and-pwt_pcd cr3 aligned few
]
  where
    clash : ◌≡◌ {A = Bool} true false → ⊥
    clash h = cc

-- The summary, by the bits that are missing, the root and the low bits.
abbrev made : RawCpuSnapshot → Bool → Bool → Bool → Bool → Bool → ℕ → ℕ → ValidatedCpuSnapshot
made s la57 off no_nxe no_wp no_pge root flags = record {
  physical_address_bits = physical_bits_of s;
  reported_linear_address_bits = linear_bits_of s;
  la57_supported = la57;
  current_cr3 = record {
    root_address = root;
    context_or_flags = flags;
    pcid_state = if not off then enabled_must_remain_unused else pcid_disabled;
  };
  nxe = if no_nxe then must_enable_before_activation else hardening_enabled;
  write_protect = if no_wp then must_enable_before_activation else hardening_enabled;
  pge = if no_pge then pge_disabled else pge_enabled;
  stability = s.cr3;
}

abbrev off_of : RawCpuSnapshot → Bool
off_of s = lacks s.cr4 cr4_pcide

made-summary :
    (s : RawCpuSnapshot)
    → bit_and s.cr3 (address_mask (physical_bits_of s)) ≡ s.cr3 - s.cr3 % 4096
    → bit_and s.cr3 (allowed (off_of s)) ≡ s.cr3 % 4096
    → made s
        (la57_of s)
        (off_of s)
        (lacks s.efer efer_nxe)
        (lacks s.cr0 cr0_wp)
        (lacks s.cr4 cr4_pge)
        (bit_and s.cr3 (address_mask (physical_bits_of s)))
        (bit_and s.cr3 (allowed (off_of s)))
      ≡ summary s
made-summary s root flags =
    rw
      (
        root,
        flags,
        la57-has_la57 s,
        lacks-bit 17 s.cr4,
        lacks-bit 11 s.efer,
        lacks-bit 16 s.cr0,
        lacks-bit 7 s.cr4,
      )
      (ap
        (λ p. record (summary s) {
          current_cr3 = record {
            root_address = s.cr3 - s.cr3 % 4096;
            context_or_flags = s.cr3 % 4096;
            pcid_state = p;
          };
        })
        (swapped (bit 17 s.cr4 == 0)))
  where
    swapped :
        (b : Bool)
        → (if not b then enabled_must_remain_unused else pcid_disabled)
          ≡ (if b then pcid_disabled else enabled_must_remain_unused)
    swapped true = refl
    swapped false = refl

pub bind-ok {ℓ} :
    {E A C : Type ℓ} {m : Result E A} (f : A → Result E C) {a : A} {r : Result E C}
    → m ≡ ok a
    → f a ≡ r
    → (m >>= f) ≡ r
bind-ok f got rest = rw got rest

-- For a CR3 of 64 bits: the validation of a snapshot succeeds exactly if the CPU has the leaves, long
-- mode, NX, MSRs and PAE, runs in four-level long mode with paging and PAE, has physical addresses of 36
-- to 52 bits and linear ones of 48 bits, or of 57 with LA57, and CR3 is below the end of the physical
-- addresses, with a root above 0 and, where PCIDs are off, no low bits but PWT and PCD. It returns the
-- widths, CR3 split at its 12 low bits, the states of the controls by their bits, and CR3 as token.
pub validate_snapshot_iff :
    (s : RawCpuSnapshot) (v : ValidatedCpuSnapshot)
    → s.cr3 < u64_end
    → (validate_snapshot s ≡ ok v) ↔ (HasFeatures s × HasWidths s × HasRoot s × (summary s ≡ v))
unfolding validate_snapshot
validate_snapshot_iff s v fits =
    let bits : ℕ = physical_bits_of s in
    let root : ℕ = bit_and s.cr3 (address_mask bits) in
    let (pcid_to, pcid_from) = lacks-not_iff 17 s.cr4 in
    (
      λ h.
          let (_, features, h1) = >>=-eq-ok (check_features s) _ h in
          let (_, widths, h2) = >>=-eq-ok (check_widths s) _ h1 in
          let (_, encoded, h3) =
            >>=-eq-ok
              (reject_if
                (not
                  (bit_and s.cr3 (bit_not (bit_or (address_mask bits) (allowed (off_of s)))) == 0))
                unsupported_cr3_encoding)
              _ h2 in
          let (_, rooted, done) =
            >>=-eq-ok
              (reject_if (root == 0 || not (root % page_size == 0)) invalid_current_cr3_root) _
              h3 in
          let wide = (check_widths_iff s).0 widths in
          let (small, low) =
            (encoded_iff bits s.cr3 wide.least wide.most fits (off_of s)).0
              ((==_iff _ _).0 (reject_if-not unsupported_cr3_encoding _ encoded)) in
          let is = root_is bits s.cr3 wide.least wide.most fits small in
          let above = positive root _ (reject_if-ok invalid_current_cr3_root _ rooted) in
          (
            (check_features_iff s).0 features,
            wide,
            record {
              above = omega (arith, is, above);
              below = small;
              low = elim low [ inl on ↦ inl (pcid_to on) | inr few ↦ inr few ];
            },
            sym (made-summary s is (flags_are s.cr3 (off_of s) low)) ∙ ok-injective done,
          ),
      λ known.
          let (features, wide, rooted, same) = known in
          let low : Low s.cr3 (off_of s) = elim (rooted.low) [
            | inl on ↦ inl (pcid_from on)
            | inr few ↦ inr few
          ] in
          let small = rooted.below in
          let is = root_is bits s.cr3 wide.least wide.most fits small in
          let encoded =
            (encoded_iff bits s.cr3 wide.least wide.most fits (off_of s)).1 (small, low) in
          let above = rooted.above in
          bind-ok _ ((check_features_iff s).1 features) (
            bind-ok _ ((check_widths_iff s).1 wide) (
              bind-ok _ (passes unsupported_cr3_encoding _ encoded) (
                bind-ok _
                  (aligned invalid_current_cr3_root root (omega (arith, is, above))
                    (omega (arith, is)))
                  (ap ok (made-summary s is (flags_are s.cr3 (off_of s) low) ∙ same))))),
    )
  where
    positive : (n : ℕ) (b : Bool) → (n == 0 || b) ≡ false → 0 < n
    positive n b h = ground arith

    passes : (e : CpuCapabilityError) (n : ℕ) → n ≡ 0 → reject_if (not (n == 0)) e ≡ ok tt
    passes e n h = ground arith

    aligned :
        (e : CpuCapabilityError) (n : ℕ)
        → 0 < n
        → n % 4096 ≡ 0
        → reject_if (n == 0 || not (n % 4096 == 0)) e ≡ ok tt
    aligned e n h a = ground arith
