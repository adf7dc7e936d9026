-- ===== src/MemoryLayout/Policy/Laws.antt =====
-- What every mapping that crates/memory-layout/src/lib.rs accepts has in common, and what is
-- particular to its kind.
use unnamed_os_core.Common.{◌+◌, ◌≤◌, ◌≡◌, ◌⊎◌, ◌↔◌, ok, true, arith}
use unnamed_os_core.MemoryLayout.Range
use unnamed_os_core.MemoryLayout.Range.{PhysicalRange, VirtualRange, contains_range}
use unnamed_os_core.MemoryLayout.Range.Accept.{IsPhysical}
use unnamed_os_core.MemoryLayout.Permissions.{
  MappingPermissions, kernel_rx, kernel_r, kernel_rw, from_bits, user, CachePolicy, write_back,
  uncached,
}
use unnamed_os_core.MemoryLayout.Region.{AddressRegion, region_range, direct_map_start}
use unnamed_os_core.MemoryLayout.Policy.{
  MappingKind, kernel_text, kernel_rodata, kernel_data, bootstrap_stack, boot_info, boot_memory_map,
  page_table, direct_map, framebuffer, mmio, transition_identity, guard, validate_mapping_policy,
  bootstrap_physical_start, bootstrap_physical_end, transition_identity_end, bootstrap_stack_bytes,
}

module _ (v : VirtualRange) (p : PhysicalRange) (permissions : MappingPermissions)
    (cache : CachePolicy) where
  abbrev InRegion : AddressRegion → Type 0
  InRegion r = contains_range (region_range r) v ≡ true

  -- The physical memory that the bootstrap loader may fill.
  abbrev InWindow : Type 0
  InWindow = (bootstrap_physical_start ≤ p.start) × (p.end ≤ bootstrap_physical_end)

  -- The virtual range is the direct map's picture of the physical one.
  abbrev IsDirect : Type 0
  IsDirect = (v.start ≡ direct_map_start + p.start) × (v.end ≡ direct_map_start + p.end)

  abbrev IsIdentity : Type 0
  IsIdentity = (v.start ≡ p.start) × (v.end ≡ p.end) × (v.end ≤ transition_identity_end)

  abbrev IsKernel : Type 0
  IsKernel = (permissions ≡ kernel_rx) ⊎ (permissions ≡ kernel_r) ⊎ (permissions ≡ kernel_rw)

  abbrev Cached : Type 0
  Cached = cache ≡ write_back

  -- The mappings of each kind that the first address space may hold.
  abbrev pub Allowed : MappingKind → Type 0
  Allowed kernel_text =
      InRegion AddressRegion.kernel_image × InWindow × (permissions ≡ kernel_rx) × Cached
  Allowed kernel_rodata =
      InRegion AddressRegion.kernel_image × InWindow × (permissions ≡ kernel_r) × Cached
  Allowed kernel_data =
      InRegion AddressRegion.kernel_image × InWindow × (permissions ≡ kernel_rw) × Cached
  Allowed bootstrap_stack =
      InRegion AddressRegion.kernel_local
      × (Range.length p ≡ bootstrap_stack_bytes)
      × (p.end ≤ transition_identity_end)
      × (permissions ≡ kernel_rw)
      × Cached
  Allowed boot_info =
      InRegion AddressRegion.direct_map × IsDirect × (permissions ≡ kernel_r) × Cached
  Allowed boot_memory_map =
      InRegion AddressRegion.direct_map × IsDirect × (permissions ≡ kernel_r) × Cached
  Allowed page_table =
      InRegion AddressRegion.direct_map × IsDirect × (permissions ≡ kernel_rw) × Cached
  Allowed direct_map = InRegion AddressRegion.direct_map × IsDirect × IsKernel × Cached
  Allowed framebuffer =
      InRegion AddressRegion.framebuffer × (permissions ≡ kernel_rw) × (cache ≡ uncached)
  Allowed mmio = InRegion AddressRegion.mmio × (permissions ≡ kernel_rw) × (cache ≡ uncached)
  Allowed transition_identity = IsIdentity × IsKernel × Cached
  Allowed guard = ⊥

  -- Over a valid physical range the policy accepts exactly the mappings that the table `Allowed`
  -- lists for their kind.
  pub validate_mapping_policy_accepts :
      (kind : MappingKind)
      → IsPhysical p
      → (validate_mapping_policy v p permissions cache kind ≡ ok tt) ↔ Allowed kind
  unfolding validate_mapping_policy from_bits user
  validate_mapping_policy_accepts kernel_text physical = (λ h. ground arith, λ h. ground arith)
  validate_mapping_policy_accepts kernel_rodata physical = (λ h. ground arith, λ h. ground arith)
  validate_mapping_policy_accepts kernel_data physical = (λ h. ground arith, λ h. ground arith)
  validate_mapping_policy_accepts bootstrap_stack physical = (λ h. ground arith, λ h. ground arith)
  validate_mapping_policy_accepts boot_info physical = (λ h. ground arith, λ h. ground arith)
  validate_mapping_policy_accepts boot_memory_map physical = (λ h. ground arith, λ h. ground arith)
  validate_mapping_policy_accepts page_table physical = (λ h. ground arith, λ h. ground arith)
  validate_mapping_policy_accepts direct_map physical = (λ h. ground arith, λ h. ground arith)
  validate_mapping_policy_accepts framebuffer physical = (λ h. ground arith, λ h. ground arith)
  validate_mapping_policy_accepts mmio physical = (λ h. ground arith, λ h. ground arith)
  validate_mapping_policy_accepts transition_identity physical =
      (λ h. ground arith, λ h. ground arith)
  validate_mapping_policy_accepts guard physical = (λ h. ground arith, λ h. elim h [ ])
