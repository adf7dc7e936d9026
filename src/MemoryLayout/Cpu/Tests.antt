-- ===== src/MemoryLayout/Cpu/Tests.antt =====
-- Runs of crates/memory-layout/src/cpu.rs on the snapshot of a CPU with 40 bits of physical addresses.
use unnamed_os_core.Common.{◌≡◌, ◌↔◌, ok, arith, refl, [], ◌∷◌, false}
use unnamed_os_core.MemoryLayout.Cpu.{
  RawCpuSnapshot, ValidatedCpuSnapshot, ActivationReadiness, check_features, check_widths,
  validate_snapshot, check_owned_frames, classify_for_hierarchy, hardening_enabled,
  must_enable_before_activation, pge_enabled, pcid_disabled,
}
use unnamed_os_core.MemoryLayout.Cpu.Conditions.{HasFeatures, HasWidths, HasRoot, summary}
use unnamed_os_core.MemoryLayout.Cpu.Snapshot.{validate_snapshot_iff}
use unnamed_os_core.MemoryLayout.Cpu.Accepts.{IsHierarchy, readiness_of, classify_for_hierarchy_iff}

abbrev snapshot : RawCpuSnapshot
snapshot = record {
  maximum_basic_leaf = 13;
  maximum_extended_leaf = 0x8000_0008;
  basic_feature_edx = 0x60;
  structured_feature_ecx = 0;
  extended_feature_edx = 0x2010_0000;
  address_width_eax = 0x3028;
  cr0 = 0x8001_0001;
  cr3 = 0x1_2018;
  cr4 = 0xa0;
  efer = 0x500;
}

abbrev valid : ValidatedCpuSnapshot
valid = record {
  physical_address_bits = 40;
  reported_linear_address_bits = 48;
  la57_supported = false;
  current_cr3 = record {
    root_address = 0x1_2000;
    context_or_flags = 0x18;
    pcid_state = pcid_disabled;
  };
  nxe = must_enable_before_activation;
  write_protect = hardening_enabled;
  pge = pge_enabled;
  stability = 0x1_2018;
}

abbrev readiness : ActivationReadiness
readiness = record {
  current_cr3 = valid.current_cr3;
  proposed_root = 0x50_0000;
  nxe = must_enable_before_activation;
  write_protect = hardening_enabled;
  pge = pge_enabled;
  pcid = pcid_disabled;
  physical_address_bits = 40;
  effective_linear_address_bits = 48;
  transition_permitted = 1;
  stability = 0x1_2018;
}

snapshot_validated : validate_snapshot snapshot ≡ ok valid
unfolding validate_snapshot check_features check_widths
snapshot_validated = refl

validate_snapshot_iff_example :
    (validate_snapshot snapshot ≡ ok valid)
    ↔ (HasFeatures snapshot × HasWidths snapshot × HasRoot snapshot × (summary snapshot ≡ valid))
validate_snapshot_iff_example = validate_snapshot_iff snapshot valid (omega arith)

frames_classified :
    classify_for_hierarchy valid (0x50_0000 ∷ 0x50_1000 ∷ []) 0x50_0000 0x4000_0000 ≡ ok readiness
unfolding classify_for_hierarchy check_owned_frames
frames_classified = refl

classify_for_hierarchy_iff_example :
    (classify_for_hierarchy valid (0x50_0000 ∷ 0x50_1000 ∷ []) 0x50_0000 0x4000_0000 ≡ ok readiness)
    ↔ (IsHierarchy valid (0x50_0000 ∷ 0x50_1000 ∷ []) 0x50_0000 0x4000_0000
        × (readiness_of valid 0x50_0000 ≡ readiness))
classify_for_hierarchy_iff_example =
    classify_for_hierarchy_iff valid (0x50_0000 ∷ 0x50_1000 ∷ []) 0x50_0000 0x4000_0000 readiness
      (omega arith)
