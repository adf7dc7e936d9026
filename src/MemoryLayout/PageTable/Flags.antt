-- ===== src/MemoryLayout/PageTable/Flags.antt =====
-- The leaf flags of crates/memory-layout/src/page_table.rs say what the permissions say.
use unnamed_os_core.Common.{ℕ, ◌≡◌, ◌↔◌, false, ◌&&◌, ok, arith, bit_and}
use unnamed_os_core.MemoryLayout.Permissions.{
  MappingPermissions, CachePolicy, write_back, uncached, writable, executable,
}
use unnamed_os_core.MemoryLayout.PageTable.{for_leaf, flags_writable, flags_executable}

-- A leaf is present, may be written and executed exactly if the permissions say so, and never
-- both, is never a user's, and disables the cache exactly under the uncached policy.
pub for_leaf_lem :
    (p : MappingPermissions) (c : CachePolicy) (flags : ℕ)
    → for_leaf p c ≡ ok flags
    → (flags_writable flags ≡ writable p)
      × (flags_executable flags ≡ executable p)
      × ((flags_writable flags && flags_executable flags) ≡ false)
      × (bit_and flags 1 ≡ 1)
      × (bit_and flags 4 ≡ 0)
      × ((bit_and flags 16 ≡ 16) ↔ (c ≡ uncached))
unfolding for_leaf flags_writable flags_executable
for_leaf_lem p write_back flags h = ground arith
for_leaf_lem p uncached flags h = ground arith
