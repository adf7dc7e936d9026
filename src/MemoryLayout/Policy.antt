-- ===== src/MemoryLayout/Policy.antt =====
-- `MappingKind` and `validate_mapping_policy` of crates/memory-layout/src/lib.rs: which mappings
-- the plan takes.
pub mod Laws
use package.unnamed_os_core.Common.{
  ℕ, ◌+◌, ◌-◌, ◌*◌, ◌≤◌, ◌<◌, ◌≡◌, Bool, not, ◌&&◌, ◌||◌, true, false, ltb, leb, ◌==◌, Result, ok,
  err, ◌>>=◌, ◌>>◌, reject_if, Option, none, some, checked_add,
}
use package.unnamed_os_core.MemoryLayout.Address.{
  LayoutError, user_mapping_forbidden, outside_bootstrap_physical_window,
  direct_map_address_mismatch, invalid_bootstrap_stack, invalid_region_permissions,
  invalid_cache_policy, outside_declared_region, identity_address_mismatch,
  transition_identity_above_limit, page_size,
}
use package.unnamed_os_core.MemoryLayout.Range
use package.unnamed_os_core.MemoryLayout.Range.{PhysicalRange, VirtualRange, contains_range}
use package.unnamed_os_core.MemoryLayout.Permissions.{
  MappingPermissions, kernel_rx, kernel_r, kernel_rw, from_bits, user, CachePolicy, write_back,
  uncached, cache_code,
}
use package.unnamed_os_core.MemoryLayout.Region.{AddressRegion, region_range, direct_map_start}

pub data MappingKind : Type 0 where
  kernel_text kernel_rodata kernel_data bootstrap_stack boot_info boot_memory_map : MappingKind
  page_table direct_map framebuffer mmio transition_identity guard : MappingKind

-- The `#[repr(u8)]` value, by which the derived `==` tells the kinds apart.
abbrev pub kind_code : MappingKind → ℕ
kind_code kernel_text = 0
kind_code kernel_rodata = 1
kind_code kernel_data = 2
kind_code bootstrap_stack = 3
kind_code boot_info = 4
kind_code boot_memory_map = 5
kind_code page_table = 6
kind_code direct_map = 7
kind_code framebuffer = 8
kind_code mmio = 9
kind_code transition_identity = 10
kind_code guard = 11

abbrev pub same_kind : MappingKind → MappingKind → Bool
same_kind a b = kind_code a == kind_code b

abbrev pub bootstrap_physical_start : ℕ
bootstrap_physical_start = 0x20_0000

abbrev pub bootstrap_physical_end : ℕ
bootstrap_physical_end = 0x420_0000

abbrev pub transition_identity_end : ℕ
transition_identity_end = 0x1_0000_0000

abbrev pub bootstrap_stack_bytes : ℕ
bootstrap_stack_bytes = 16 * page_size

-- The `matches!` of the physical window, and of the direct map.
abbrev pub is_image_kind : MappingKind → Bool
is_image_kind kernel_text = true
is_image_kind kernel_rodata = true
is_image_kind kernel_data = true
is_image_kind _ = false

abbrev pub is_direct_kind : MappingKind → Bool
is_direct_kind boot_info = true
is_direct_kind boot_memory_map = true
is_direct_kind page_table = true
is_direct_kind direct_map = true
is_direct_kind _ = false

-- `option == Some(value)`
abbrev equals_some : Option ℕ → ℕ → Bool
equals_some none b = false
equals_some (some a) b = a == b

abbrev pub direct_mismatch : VirtualRange → PhysicalRange → Bool
direct_mismatch v p =
    not (equals_some (checked_add direct_map_start p.start) v.start)
    || not (equals_some (checked_add direct_map_start p.end) v.end)

abbrev pub is_kernel_permissions : MappingPermissions → Bool
is_kernel_permissions p = p == kernel_rx || p == kernel_r || p == kernel_rw

module _ (v : VirtualRange) (p : PhysicalRange) (permissions : MappingPermissions)
    (cache : CachePolicy) where
  -- What follows the `match kind` for the kinds that leave it with expected values.
  check_expected : AddressRegion → MappingPermissions → CachePolicy → Result LayoutError (Unit {0})
  check_expected region expected expected_cache = do
    reject_if (not (contains_range (region_range region) v)) outside_declared_region
    reject_if (not (permissions == expected)) invalid_region_permissions
    reject_if (not (cache_code cache == cache_code expected_cache)) invalid_cache_policy

  check_direct_map : Result LayoutError (Unit {0})
  check_direct_map = do
    reject_if (not (is_kernel_permissions permissions)) invalid_region_permissions
    reject_if (not (cache_code cache == 0)) invalid_cache_policy
    reject_if (not (contains_range (region_range AddressRegion.direct_map) v))
        outside_declared_region

  check_identity : Result LayoutError (Unit {0})
  check_identity = do
    reject_if (not (v.start == p.start) || not (v.end == p.end)) identity_address_mismatch
    reject_if (ltb transition_identity_end v.end) transition_identity_above_limit
    reject_if (not (is_kernel_permissions permissions)) invalid_region_permissions
    reject_if (not (cache_code cache == 0)) invalid_cache_policy

  check_kind : MappingKind → Result LayoutError (Unit {0})
  unfolding check_expected check_direct_map check_identity
  check_kind kernel_text = check_expected AddressRegion.kernel_image kernel_rx write_back
  check_kind kernel_rodata = check_expected AddressRegion.kernel_image kernel_r write_back
  check_kind kernel_data = check_expected AddressRegion.kernel_image kernel_rw write_back
  check_kind bootstrap_stack = check_expected AddressRegion.kernel_local kernel_rw write_back
  check_kind boot_info = check_expected AddressRegion.direct_map kernel_r write_back
  check_kind boot_memory_map = check_expected AddressRegion.direct_map kernel_r write_back
  check_kind page_table = check_expected AddressRegion.direct_map kernel_rw write_back
  check_kind direct_map = check_direct_map
  check_kind framebuffer = check_expected AddressRegion.framebuffer kernel_rw uncached
  check_kind mmio = check_expected AddressRegion.mmio kernel_rw uncached
  check_kind transition_identity = check_identity
  check_kind guard = err invalid_region_permissions

  unfoldable pub validate_mapping_policy : MappingKind → Result LayoutError (Unit {0})
  unfolding check_kind
  validate_mapping_policy kind = do
    _ ← from_bits permissions
    reject_if (user permissions) user_mapping_forbidden
    reject_if
        (is_image_kind kind
          && (ltb p.start bootstrap_physical_start || ltb bootstrap_physical_end p.end))
        outside_bootstrap_physical_window
    reject_if (is_direct_kind kind && direct_mismatch v p) direct_map_address_mismatch
    reject_if
        (same_kind kind bootstrap_stack
          && (not (Range.length p == bootstrap_stack_bytes) || ltb transition_identity_end p.end))
        invalid_bootstrap_stack
    check_kind kind
