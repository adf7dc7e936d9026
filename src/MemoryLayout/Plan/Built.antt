-- ===== src/MemoryLayout/Plan/Built.antt =====
-- The plans that the operations of `MappingPlan` (crates/memory-layout/src/lib.rs) lead to from a
-- new one.
use unnamed_os_core.Common.{ℕ, ◌≡◌, false, ◌&&◌, ok}
use unnamed_os_core.MemoryLayout.Range.{
  PhysicalRange, VirtualRange, new_physical_range, new_virtual_range,
}
use unnamed_os_core.MemoryLayout.Range.Accept.{
  new_physical_range_accepts, new_virtual_range_accepts,
}
use unnamed_os_core.MemoryLayout.Permissions.{MappingPermissions, CachePolicy, writable, executable}
use unnamed_os_core.MemoryLayout.Policy.{MappingKind}
use unnamed_os_core.MemoryLayout.Plan.{MappingPlan, new, insert_mapping, insert_guard}
use unnamed_os_core.MemoryLayout.Plan.Valid.{IsValid}
use unnamed_os_core.MemoryLayout.Plan.Insert.{
  new-IsValid, insert_mapping-IsValid, insert_guard-IsValid,
}
use unnamed_os_core.MemoryLayout.Plan.Translate.{MapsBy}
use unnamed_os_core.MemoryLayout.Plan.Alias.{write_xor_execute}

-- A new plan, and what calls of `insert_mapping` and `insert_guard` that succeed make of a built
-- one, over ranges that the constructors of ranges return. A call that fails leaves the plan.
pub data Built (capacity : ℕ) : MappingPlan → Type 0 where
  fresh : Built capacity (new capacity)
  with_mapping :
      (v : VirtualRange) (p : PhysicalRange) (permissions : MappingPermissions)
      (cache : CachePolicy) (kind : MappingKind) (m m' : MappingPlan)
      → new_virtual_range v.start v.end ≡ ok v
      → new_physical_range p.start p.end ≡ ok p
      → insert_mapping v p permissions cache kind m ≡ ok m'
      → Built capacity m
      → Built capacity m'
  with_guard :
      (v : VirtualRange) (m m' : MappingPlan)
      → new_virtual_range v.start v.end ≡ ok v
      → insert_guard v m ≡ ok m'
      → Built capacity m
      → Built capacity m'

-- Every plan that the operations lead to is valid.
pub Built-IsValid : (capacity : ℕ) (m : MappingPlan) → Built capacity m → IsValid m
Built-IsValid capacity _ fresh = new-IsValid capacity
Built-IsValid capacity _ (with_mapping v p permissions cache kind m m' hv hp made before) =
    insert_mapping-IsValid v p permissions cache kind m m'
      ((new_virtual_range_accepts v.start v.end v).0 hv).1
      ((new_physical_range_accepts p.start p.end p).0 hp).1 (Built-IsValid capacity m before) made
Built-IsValid capacity _ (with_guard v m m' hv made before) =
    insert_guard-IsValid v m m' ((new_virtual_range_accepts v.start v.end v).0 hv).1
      (Built-IsValid capacity m before) made

-- In every plan that `insert_mapping` and `insert_guard` lead to from a new one no physical address
-- is reached both writable and executable, by whatever two virtual addresses, and all the mappings
-- of a physical address agree on whether it may be written.
pub Built-write_xor_execute :
    (capacity : ℕ) (m : MappingPlan) (a b q : ℕ) (s t : MappingPermissions)
    → Built capacity m
    → MapsBy m a q s
    → MapsBy m b q t
    → (writable s ≡ writable t) × ((writable s && executable t) ≡ false)
Built-write_xor_execute capacity m a b q s t built x y =
    write_xor_execute m a b q s t (Built-IsValid capacity m built) x y
