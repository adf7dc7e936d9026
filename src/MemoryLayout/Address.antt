-- ===== src/MemoryLayout/Address.antt =====
-- Constants, errors and scalar addresses of crates/memory-layout/src/lib.rs. A `u64` is a number
-- below `u64_end`; the newtypes `PhysicalAddress` and `VirtualAddress` are the number they wrap.
use unnamed_os_core.Common.{ℕ, ◌%◌, Bool, ◌||◌, ltb, leb, ◌==◌, if◌then◌else◌}
use unnamed_os_core.Common.{Result, ok, err, not}

abbrev pub page_size : ℕ
page_size = 4096

abbrev pub low_canonical_end : ℕ
low_canonical_end = 0x8000_0000_0000

abbrev pub high_canonical_start : ℕ
high_canonical_start = 0xffff_8000_0000_0000

abbrev pub supported_physical_end : ℕ
supported_physical_end = 0x4000_0000_0000

pub data LayoutError : Type 0 where
  invalid_alignment alignment_overflow non_canonical_virtual_address : LayoutError
  unsupported_physical_address empty_range reversed_range range_overflow : LayoutError
  range_not_page_aligned crosses_canonical_hole range_length_mismatch : LayoutError
  unknown_permission_bits read_permission_required writable_executable : LayoutError
  user_mapping_forbidden invalid_region_permissions invalid_cache_policy : LayoutError
  outside_declared_region outside_bootstrap_physical_window : LayoutError
  direct_map_address_mismatch invalid_bootstrap_stack missing_stack_guard : LayoutError
  virtual_overlap physical_alias_write_execute physical_alias_permission_escalation : LayoutError
  identity_address_mismatch transition_identity_above_limit : LayoutError
  transition_identity_too_large invalid_transition_composition : LayoutError
  low_mapping_in_final_plan transition_mapping_in_final_plan plan_exhausted : LayoutError
  unmapped : LayoutError

-- `PhysicalAddress::new`
unfoldable pub new_physical_address : ℕ → Result LayoutError ℕ
new_physical_address value =
    if ltb value supported_physical_end then ok value else err unsupported_physical_address

unfoldable pub is_canonical : ℕ → Bool
is_canonical address = ltb address low_canonical_end || leb high_canonical_start address

-- `VirtualAddress::new`
unfoldable pub new_virtual_address : ℕ → Result LayoutError ℕ
new_virtual_address value =
    if is_canonical value then ok value else err non_canonical_virtual_address

unfoldable pub canonical_half : ℕ → ℕ
canonical_half address = if ltb address low_canonical_end then 0 else 1

unfoldable pub validate_order : ℕ → ℕ → Result LayoutError (Unit {0})
validate_order start end =
    if start == end then err empty_range else if ltb end start then err reversed_range else ok tt

unfoldable pub validate_page_boundaries : ℕ → ℕ → Result LayoutError (Unit {0})
validate_page_boundaries start end =
    if not (start % page_size == 0) || not (end % page_size == 0)
    then err range_not_page_aligned
    else ok tt
