-- ===== src/MemoryLayout/Plan.antt =====
-- `MappingPlan` of crates/memory-layout/src/lib.rs: an array of `CAPACITY` entries of which the
-- first `len` are live, sorted by virtual address.
pub mod Shift
pub mod Valid
pub mod Insert
pub mod Translate
pub mod Alias
pub mod Validate
pub mod Checked
pub mod Keeps
pub mod Built
mod Tests
mod TableTests
use package.unnamed_os_core.Common.{
  ℕ, zero, suc, ◌+◌, ◌-◌, ◌*◌, Bool, not, ◌&&◌, ◌||◌, true, false, ltb, leb, ◌==◌, if◌then◌else◌,
  Result, ok, err, ◌>>=◌, ◌>>◌, reject_if, map_err, ok_or, Fault, raised, panic, expect, Option,
  none, some, List, [], ◌∷◌, length, get_or, set, take, replicate, find?, any, checked_add,
  checked_sub,
}
use mathlib.Core.Bool.{xor}
use package.unnamed_os_core.MemoryLayout.Address.{
  LayoutError, range_length_mismatch, outside_declared_region, virtual_overlap,
  physical_alias_write_execute, physical_alias_permission_escalation, plan_exhausted, unmapped,
  range_overflow, identity_address_mismatch, transition_identity_too_large,
  invalid_transition_composition, transition_mapping_in_final_plan, low_mapping_in_final_plan,
  missing_stack_guard, page_size, high_canonical_start, new_physical_address,
}
use package.unnamed_os_core.MemoryLayout.Range
use package.unnamed_os_core.MemoryLayout.Range.{
  PhysicalRange, VirtualRange, contains, contains_range, overlaps,
}
use package.unnamed_os_core.MemoryLayout.Permissions.{
  MappingPermissions, CachePolicy, writable, executable, kernel_rx, kernel_rw,
}
use package.unnamed_os_core.MemoryLayout.Region.{kernel_local, region_range}
use package.unnamed_os_core.MemoryLayout.Policy.{
  MappingKind, guard, transition_identity, bootstrap_stack, same_kind, validate_mapping_policy,
  bootstrap_stack_bytes,
}

pub data EntryBacking : Type 0 where
  mapped : PhysicalRange → EntryBacking
  unbacked : EntryBacking

pub record PlanEntry : Type 0 where
  pub virtual_range : VirtualRange
  pub backing : EntryBacking
  pub permissions : Option MappingPermissions
  pub cache : Option CachePolicy
  pub kind : MappingKind

-- `PlanEntry::EMPTY`
abbrev pub empty_entry : PlanEntry
empty_entry = record {
  virtual_range = record { start = 0; end = page_size };
  backing = unbacked;
  permissions = none;
  cache = none;
  kind = guard;
}

pub record MappingPlan : Type 0 where
  pub array : List PlanEntry
  pub len : ℕ

-- `MappingPlan::<CAPACITY>::new`
unfoldable pub new : ℕ → MappingPlan
new capacity = record { array = replicate capacity empty_entry; len = 0 }

-- `entries`, the live slice.
abbrev pub entries : MappingPlan → List PlanEntry
entries m = take m.len m.array

-- What `insert` asks of two mapped entries whose physical ranges overlap.
pub check_alias :
    Option MappingPermissions → Option MappingPermissions → Result (Fault LayoutError) (Unit {0})
check_alias left_permissions right_permissions = do
  lp ← expect left_permissions
  rp ← expect right_permissions
  reject_if (writable lp && executable rp || writable rp && executable lp)
      (raised physical_alias_write_execute)
  reject_if (xor (writable lp) (writable rp)) (raised physical_alias_permission_escalation)

pub check_backing :
    EntryBacking
    → Option MappingPermissions
    → EntryBacking
    → Option MappingPermissions
    → Result (Fault LayoutError) (Unit {0})
unfolding check_alias
check_backing (mapped left) lp (mapped right) rp =
    if overlaps left right then check_alias lp rp else ok tt
check_backing unbacked lp right rp = ok tt
check_backing (mapped left) lp unbacked rp = ok tt

-- The loop of `insert` over the live entries.
pub check_conflicts : PlanEntry → List PlanEntry → Result (Fault LayoutError) (Unit {0})
unfolding check_backing
check_conflicts entry [] = ok tt
check_conflicts entry (existing ∷ rest) = do
  reject_if (overlaps existing.virtual_range entry.virtual_range) (raised virtual_overlap)
  check_backing existing.backing existing.permissions entry.backing entry.permissions
  check_conflicts entry rest

-- `while position < len && entries[position].start < start { position += 1 }`, with the rounds
-- that are left to `len`. Every index is below `len`, so within the array.
pub find_position : ℕ → ℕ → ℕ → List PlanEntry → ℕ
find_position zero start position array = position
find_position (suc rounds) start position array =
    let next = find_position rounds start (position + 1) array in
    if ltb (get_or array position empty_entry).virtual_range.start start then next else position

-- `while index > position { entries[index] = entries[index - 1]; index -= 1 }`, with the
-- `index - position` rounds.
pub shift_up : ℕ → ℕ → List PlanEntry → List PlanEntry
shift_up zero index array = array
shift_up (suc rounds) index array =
    shift_up rounds (index - 1) (set array index (get_or array (index - 1) empty_entry))

unfoldable pub place : PlanEntry → MappingPlan → MappingPlan
unfolding find_position shift_up
place entry m =
    let position = find_position m.len entry.virtual_range.start 0 m.array in
    record {
      array = set (shift_up (m.len - position) m.len m.array) position entry;
      len = m.len + 1;
    }

-- The private `insert`. An error leaves the plan as it was.
pub insert : PlanEntry → MappingPlan → Result (Fault LayoutError) MappingPlan
unfolding check_conflicts place
insert entry m = do
  check_conflicts entry (entries m)
  reject_if (m.len == length m.array) (raised plan_exhausted)
  ok (place entry m)

unfoldable pub insert_mapping :
    VirtualRange
    → PhysicalRange
    → MappingPermissions
    → CachePolicy
    → MappingKind
    → MappingPlan
    → Result (Fault LayoutError) MappingPlan
unfolding insert
insert_mapping v p permissions cache kind m = do
  reject_if (not (Range.length v == Range.length p)) (raised range_length_mismatch)
  map_err raised (validate_mapping_policy v p permissions cache kind)
  insert
      (record {
        virtual_range = v;
        backing = mapped p;
        permissions = some permissions;
        cache = some cache;
        kind = kind;
      })
      m

pub insert_guard : VirtualRange → MappingPlan → Result (Fault LayoutError) MappingPlan
unfolding insert
insert_guard v m = do
  reject_if (not (contains_range (region_range kernel_local) v)) (raised outside_declared_region)
  insert
      (record {
        virtual_range = v;
        backing = unbacked;
        permissions = none;
        cache = none;
        kind = guard;
      })
      m

-- The part of `translate` behind the search for the entry.
unfoldable pub translate_in : PlanEntry → ℕ → Result LayoutError ℕ
translate_in entry address = elim (entry.backing) [
  | mapped physical ↦ do
    offset ← ok_or (checked_sub address entry.virtual_range.start) range_overflow
    translated ← ok_or (checked_add physical.start offset) range_overflow
    new_physical_address translated
  | unbacked ↦ err unmapped
]

unfoldable pub translate : MappingPlan → ℕ → Result LayoutError ℕ
translate m address = do
  entry ← ok_or (find? (λ e. contains e.virtual_range address) (entries m)) unmapped
  translate_in entry address
