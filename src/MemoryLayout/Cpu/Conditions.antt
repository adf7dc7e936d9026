-- ===== src/MemoryLayout/Cpu/Conditions.antt =====
-- What the checks of features and of widths in crates/memory-layout/src/cpu.rs ask of a snapshot.
use unnamed_os_core.Common.{
  ℕ, ◌-◌, ◌%◌, ◌^◌, ◌≤◌, ◌<◌, ◌≡◌, ap, ◌∙◌, ◌⊎◌, arith, Bool, true, false, not, ◌==◌, ==_iff,
  if◌then◌else◌, ok,
}
use unnamed_os_core.MemoryLayout.Cpu.{
  RawCpuSnapshot, ValidatedCpuSnapshot, check_features, check_widths, la57_of, lacks,
}
use unnamed_os_core.Common.{◌↔◌, inl, inr, Bool-cases, leb, ◌&&◌, ◌/◌, sym}
use unnamed_os_core.MemoryLayout.Cpu.{
  hardening_enabled, must_enable_before_activation, pge_enabled, pge_disabled, pcid_disabled,
  enabled_must_remain_unused,
}
use unnamed_os_core.MemoryLayout.Cpu.Masks.{bit, lacks_iff, lacks-not_iff}

-- The leaves, the features and the mode that an activation relies on.
pub record HasFeatures (s : RawCpuSnapshot) : Type 0 where
  pub basic_leaf : 1 ≤ s.maximum_basic_leaf
  pub extended_leaf : 0x8000_0008 ≤ s.maximum_extended_leaf
  pub long_mode : bit 29 s.extended_feature_edx ≡ 1
  pub nx : bit 20 s.extended_feature_edx ≡ 1
  pub msr : bit 5 s.basic_feature_edx ≡ 1
  pub pae : bit 6 s.basic_feature_edx ≡ 1
  pub paging : bit 31 s.cr0 ≡ 1
  pub long_mode_active : bit 10 s.efer ≡ 1
  pub long_mode_enabled : bit 8 s.efer ≡ 1
  pub pae_active : bit 5 s.cr4 ≡ 1

-- The CPU has five-level paging, by bit 16 of a leaf that exists.
abbrev pub has_la57 : RawCpuSnapshot → Bool
has_la57 s = leb 7 s.maximum_basic_leaf && not (bit 16 s.structured_feature_ecx == 0)

pub record HasWidths (s : RawCpuSnapshot) : Type 0 where
  pub four_levels : bit 12 s.cr4 ≡ 0
  pub least : 36 ≤ s.address_width_eax % 256
  pub most : s.address_width_eax % 256 ≤ 52
  pub linear :
      (s.address_width_eax / 256 % 256 ≡ 48)
      ⊎ (s.address_width_eax / 256 % 256 ≡ 57) × (has_la57 s ≡ true)

-- CR3 is below the end of the physical addresses and has a root above 0; without PCIDs its low bits
-- are those of PWT and PCD.
pub record HasRoot (s : RawCpuSnapshot) : Type 0 where
  pub above : 4096 ≤ s.cr3
  pub below : s.cr3 < 2 ^ (s.address_width_eax % 256)
  pub low : (bit 17 s.cr4 ≡ 1) ⊎ (s.cr3 % 4096 % 8 ≡ 0) × (s.cr3 % 4096 < 32)

-- What the validation returns of a snapshot.
abbrev pub summary : RawCpuSnapshot → ValidatedCpuSnapshot
summary s = record {
  physical_address_bits = s.address_width_eax % 256;
  reported_linear_address_bits = s.address_width_eax / 256 % 256;
  la57_supported = has_la57 s;
  current_cr3 = record {
    root_address = s.cr3 - s.cr3 % 4096;
    context_or_flags = s.cr3 % 4096;
    pcid_state = if bit 17 s.cr4 == 0 then pcid_disabled else enabled_must_remain_unused;
  };
  nxe = if bit 11 s.efer == 0 then must_enable_before_activation else hardening_enabled;
  write_protect = if bit 16 s.cr0 == 0 then must_enable_before_activation else hardening_enabled;
  pge = if bit 7 s.cr4 == 0 then pge_disabled else pge_enabled;
  stability = s.cr3;
}

pub lacks-bit : (k value : ℕ) → lacks value (2 ^ k) ≡ (bit k value == 0)
lacks-bit k value = elim (Bool-cases (lacks value (2 ^ k))) [
  | inl missing ↦ missing ∙ sym ((==_iff (bit k value) 0).1 ((lacks_iff k value).0 missing))
  | inr there ↦
      let one = (lacks-not_iff k value).0 there in
      there ∙ ap (λ b. false) one ∙ sym (ap (λ b. b == 0) one)
]

pub check_features_iff : (s : RawCpuSnapshot) → (check_features s ≡ ok tt) ↔ HasFeatures s
unfolding check_features
check_features_iff s = (
  λ h. record {
    basic_leaf = ground arith;
    extended_leaf = ground arith;
    long_mode = (lacks-not_iff 29 _).0 (ground arith);
    nx = (lacks-not_iff 20 _).0 (ground arith);
    msr = (lacks-not_iff 5 _).0 (ground arith);
    pae = (lacks-not_iff 6 _).0 (ground arith);
    paging = (lacks-not_iff 31 _).0 (ground arith);
    long_mode_active = (lacks-not_iff 10 _).0 (ground arith);
    long_mode_enabled = (lacks-not_iff 8 _).0 (ground arith);
    pae_active = (lacks-not_iff 5 _).0 (ground arith);
  },
  λ is.
      let basic = is.basic_leaf in
      let extended = is.extended_leaf in
      let long_mode = (lacks-not_iff 29 _).1 is.long_mode in
      let nx = (lacks-not_iff 20 _).1 is.nx in
      let msr = (lacks-not_iff 5 _).1 is.msr in
      let pae = (lacks-not_iff 6 _).1 is.pae in
      let paging = (lacks-not_iff 31 _).1 is.paging in
      let active = (lacks-not_iff 10 _).1 is.long_mode_active in
      let enabled = (lacks-not_iff 8 _).1 is.long_mode_enabled in
      let pae_active = (lacks-not_iff 5 _).1 is.pae_active in ground arith,
)

pub la57-has_la57 : (s : RawCpuSnapshot) → la57_of s ≡ has_la57 s
la57-has_la57 s =
    ap (λ b. leb 7 s.maximum_basic_leaf && not b) (lacks-bit 16 s.structured_feature_ecx)

pub check_widths_iff : (s : RawCpuSnapshot) → (check_widths s ≡ ok tt) ↔ HasWidths s
unfolding check_widths
check_widths_iff s =
    let la57 = la57-has_la57 s in
    (
      λ h. record {
        four_levels = (lacks_iff 12 _).0 (ground arith);
        least = ground arith;
        most = ground arith;
        linear = rw (← la57) (ground arith);
      },
      λ is.
          let four = (lacks_iff 12 _).1 is.four_levels in
          let least = is.least in
          let most = is.most in let linear = rw (← la57) at is.linear in ground arith,
    )
