-- ===== src/MemoryLayout/Cpu.antt =====
-- The CPU prerequisites of activating page tables, crates/memory-layout/src/cpu.rs. A value masked to
-- a byte or to 16 bits is below the end of that type, so that the casts keep it.
pub mod Masks
pub mod Cr3
pub mod Conditions
pub mod Snapshot
pub mod Accepts
mod Tests
use unnamed_os_core.Common.{
  ℕ, ◌-◌, ◌+◌, ◌*◌, ◌/◌, ◌%◌, ◌^◌, Bool, true, false, not, ◌&&◌, ◌||◌, ltb, leb, ◌==◌,
  if◌then◌else◌, bit_and, bit_or, Result, ok, err, ◌>>=◌, ◌>>◌, reject_if, ok_or, checked_add, List,
  [], ◌∷◌, length,
}
use unnamed_os_core.MemoryLayout.Address.{page_size, supported_physical_end}
use unnamed_os_core.MemoryLayout.Align.{bit_not}

abbrev pub min_physical_address_bits : ℕ
min_physical_address_bits = 36

abbrev pub max_physical_address_bits : ℕ
max_physical_address_bits = 52

abbrev pub four_level_linear_address_bits : ℕ
four_level_linear_address_bits = 48

abbrev pub five_level_linear_address_bits : ℕ
five_level_linear_address_bits = 57

-- The feature and control bits, each as its mask.
abbrev pub cpuid_msr : ℕ
cpuid_msr = 2 ^ 5

abbrev pub cpuid_pae : ℕ
cpuid_pae = 2 ^ 6

abbrev pub cpuid_nx : ℕ
cpuid_nx = 2 ^ 20

abbrev pub cpuid_long_mode : ℕ
cpuid_long_mode = 2 ^ 29

abbrev pub cpuid_la57 : ℕ
cpuid_la57 = 2 ^ 16

abbrev pub cr0_wp : ℕ
cr0_wp = 2 ^ 16

abbrev pub cr0_pg : ℕ
cr0_pg = 2 ^ 31

abbrev pub cr4_pae : ℕ
cr4_pae = 2 ^ 5

abbrev pub cr4_pge : ℕ
cr4_pge = 2 ^ 7

abbrev pub cr4_la57 : ℕ
cr4_la57 = 2 ^ 12

abbrev pub cr4_pcide : ℕ
cr4_pcide = 2 ^ 17

abbrev pub efer_lme : ℕ
efer_lme = 2 ^ 8

abbrev pub efer_lma : ℕ
efer_lma = 2 ^ 10

abbrev pub efer_nxe : ℕ
efer_nxe = 2 ^ 11

-- Bits 3 and 4.
abbrev pub cr3_pwt_pcd : ℕ
cr3_pwt_pcd = 24

pub record RawCpuSnapshot : Type 0 where
  pub maximum_basic_leaf : ℕ
  pub maximum_extended_leaf : ℕ
  pub basic_feature_edx : ℕ
  pub structured_feature_ecx : ℕ
  pub extended_feature_edx : ℕ
  pub address_width_eax : ℕ
  pub cr0 : ℕ
  pub cr3 : ℕ
  pub cr4 : ℕ
  pub efer : ℕ

pub data HardeningState : Type 0 where
  hardening_enabled must_enable_before_activation : HardeningState

pub data PgeState : Type 0 where
  pge_disabled pge_enabled : PgeState

pub data PcidState : Type 0 where
  pcid_disabled enabled_must_remain_unused : PcidState

-- The reserved bytes are always zero and are left out, here and in `ActivationReadiness`.
pub record Cr3State : Type 0 where
  pub root_address : ℕ
  pub context_or_flags : ℕ
  pub pcid_state : PcidState

pub record ValidatedCpuSnapshot : Type 0 where
  pub physical_address_bits : ℕ
  pub reported_linear_address_bits : ℕ
  pub la57_supported : Bool
  pub current_cr3 : Cr3State
  pub nxe : HardeningState
  pub write_protect : HardeningState
  pub pge : PgeState
  pub stability : ℕ

pub record ActivationReadiness : Type 0 where
  pub current_cr3 : Cr3State
  pub proposed_root : ℕ
  pub nxe : HardeningState
  pub write_protect : HardeningState
  pub pge : PgeState
  pub pcid : PcidState
  pub physical_address_bits : ℕ
  pub effective_linear_address_bits : ℕ
  pub transition_permitted : ℕ
  pub stability : ℕ

pub data CpuCapabilityError : Type 0 where
  missing_basic_feature_leaf missing_extended_feature_leaf : CpuCapabilityError
  missing_address_width_leaf long_mode_unsupported nx_unsupported : CpuCapabilityError
  msr_unsupported pae_unsupported paging_inactive long_mode_inactive : CpuCapabilityError
  contradictory_long_mode_state pae_inactive contradictory_la57_state : CpuCapabilityError
  la57_enabled invalid_physical_address_width invalid_linear_address_width : CpuCapabilityError
  contradictory_linear_address_width unsupported_cr3_encoding : CpuCapabilityError
  invalid_current_cr3_root invalid_proposed_root invalid_required_physical_range :
      CpuCapabilityError
  architecture_physical_cap_exceeded mapped_physical_range_unsupported : CpuCapabilityError
  owned_frame_unsupported proposed_root_unsupported inherited_cr3_changed : CpuCapabilityError

-- `Cr3StabilityToken::verify`; the token is the value of CR3.
unfoldable pub verify_token : ℕ → ℕ → Result CpuCapabilityError (Unit {0})
verify_token token observed_cr3 = if token == observed_cr3 then ok tt else err inherited_cr3_changed

abbrev pub lacks : ℕ → ℕ → Bool
lacks value mask = bit_and value mask == 0

-- The checks of the features and of the mode that is active.
unfoldable pub check_features : RawCpuSnapshot → Result CpuCapabilityError (Unit {0})
check_features s = do
  reject_if (ltb s.maximum_basic_leaf 1) missing_basic_feature_leaf
  reject_if (ltb s.maximum_extended_leaf 0x8000_0001) missing_extended_feature_leaf
  reject_if (ltb s.maximum_extended_leaf 0x8000_0008) missing_address_width_leaf
  reject_if (lacks s.extended_feature_edx cpuid_long_mode) long_mode_unsupported
  reject_if (lacks s.extended_feature_edx cpuid_nx) nx_unsupported
  reject_if (lacks s.basic_feature_edx cpuid_msr) msr_unsupported
  reject_if (lacks s.basic_feature_edx cpuid_pae) pae_unsupported
  reject_if (lacks s.cr0 cr0_pg) paging_inactive
  reject_if (lacks s.efer efer_lma) long_mode_inactive
  reject_if (lacks s.efer efer_lme) contradictory_long_mode_state
  reject_if (lacks s.cr4 cr4_pae) pae_inactive

abbrev pub la57_of : RawCpuSnapshot → Bool
la57_of s = leb 7 s.maximum_basic_leaf && not (lacks s.structured_feature_ecx cpuid_la57)

abbrev pub physical_bits_of : RawCpuSnapshot → ℕ
physical_bits_of s = s.address_width_eax % 256

-- A shift by eight bits to the right.
abbrev pub linear_bits_of : RawCpuSnapshot → ℕ
linear_bits_of s = s.address_width_eax / 256 % 256

-- The checks of the widths of addresses.
unfoldable pub check_widths : RawCpuSnapshot → Result CpuCapabilityError (Unit {0})
check_widths s = do
  reject_if (not (lacks s.cr4 cr4_la57) && not (la57_of s)) contradictory_la57_state
  reject_if (not (lacks s.cr4 cr4_la57)) la57_enabled
  reject_if
      (not (
        leb min_physical_address_bits (physical_bits_of s)
        && leb (physical_bits_of s) max_physical_address_bits))
      invalid_physical_address_width
  reject_if
      (not (
        linear_bits_of s == four_level_linear_address_bits
        || linear_bits_of s == five_level_linear_address_bits))
      invalid_linear_address_width
  reject_if (linear_bits_of s == five_level_linear_address_bits && not (la57_of s))
      contradictory_linear_address_width

abbrev pub address_mask : ℕ → ℕ
address_mask bits = bit_and (2 ^ bits - 1) (bit_not (page_size - 1))

-- `RawCpuSnapshot::validate`
unfoldable pub validate_snapshot : RawCpuSnapshot → Result CpuCapabilityError ValidatedCpuSnapshot
validate_snapshot s = do
  check_features s
  check_widths s
  let mask = address_mask (physical_bits_of s)
  let pcid = not (lacks s.cr4 cr4_pcide)
  let allowed_low = if pcid then page_size - 1 else cr3_pwt_pcd
  reject_if (not (bit_and s.cr3 (bit_not (bit_or mask allowed_low)) == 0)) unsupported_cr3_encoding
  let root_address = bit_and s.cr3 mask
  reject_if (root_address == 0 || not (root_address % page_size == 0)) invalid_current_cr3_root
  ok (record {
    physical_address_bits = physical_bits_of s;
    reported_linear_address_bits = linear_bits_of s;
    la57_supported = la57_of s;
    current_cr3 = record {
      root_address = root_address;
      context_or_flags = bit_and s.cr3 allowed_low;
      pcid_state = if pcid then enabled_must_remain_unused else pcid_disabled;
    };
    nxe = if lacks s.efer efer_nxe then must_enable_before_activation else hardening_enabled;
    write_protect = if lacks s.cr0 cr0_wp then must_enable_before_activation else hardening_enabled;
    pge = if lacks s.cr4 cr4_pge then pge_disabled else pge_enabled;
    stability = s.cr3;
  })

-- The loop over the frames.
unfoldable pub check_owned_frames : List ℕ → ℕ → Result CpuCapabilityError (Unit {0})
check_owned_frames [] cpu_end = ok tt
check_owned_frames (frame ∷ rest) cpu_end = do
  end ← ok_or (checked_add frame page_size) owned_frame_unsupported
  reject_if (ltb cpu_end end) owned_frame_unsupported
  check_owned_frames rest cpu_end

-- `owned_frames.is_empty() || owned_frames[0] != proposed_root`
abbrev pub not_first : List ℕ → ℕ → Bool
not_first [] root = true
not_first (frame ∷ rest) root = not (frame == root)

unfoldable pub classify_for_hierarchy :
    ValidatedCpuSnapshot → List ℕ → ℕ → ℕ → Result CpuCapabilityError ActivationReadiness
classify_for_hierarchy v owned_frames proposed_root highest_mapped_physical_end = do
  reject_if (not_first owned_frames proposed_root || proposed_root == 0) invalid_proposed_root
  reject_if (highest_mapped_physical_end == 0) invalid_required_physical_range
  reject_if (ltb supported_physical_end highest_mapped_physical_end)
      architecture_physical_cap_exceeded
  let cpu_end = 2 ^ v.physical_address_bits
  reject_if (ltb cpu_end highest_mapped_physical_end) mapped_physical_range_unsupported
  root_end ← ok_or (checked_add proposed_root page_size) proposed_root_unsupported
  reject_if (ltb cpu_end root_end) proposed_root_unsupported
  check_owned_frames owned_frames cpu_end
  ok (record {
    current_cr3 = v.current_cr3;
    proposed_root = proposed_root;
    nxe = v.nxe;
    write_protect = v.write_protect;
    pge = v.pge;
    pcid = v.current_cr3.pcid_state;
    physical_address_bits = v.physical_address_bits;
    effective_linear_address_bits = four_level_linear_address_bits;
    transition_permitted = 1;
    stability = v.stability;
  })
