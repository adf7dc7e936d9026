-- ===== src/MemoryLayout/Region.antt =====
-- The declared regions of crates/memory-layout/src/lib.rs.
use unnamed_os_core.Common.{
  ℕ, ◌+◌, ◌-◌, ◌<◌, ◌≡◌, ◌↔◌, ◌||◌, true, arith, List, [], ◌∷◌, ◌++◌, Result, ok, err, ◌>>=◌, ◌>>◌,
  reject_if, any, ltb, if◌then◌else◌,
}
use unnamed_os_core.MemoryLayout.Address.{
  LayoutError, virtual_overlap, unsupported_physical_address, supported_physical_end,
}
use unnamed_os_core.MemoryLayout.Range.{VirtualRange, contains, overlaps, new_virtual_range}

pub data AddressRegion : Type 0 where
  user_space direct_map kernel_services mmio framebuffer reserved : AddressRegion
  kernel_image kernel_local : AddressRegion

abbrev pub direct_map_start : ℕ
direct_map_start = 0xffff_8000_0000_0000

abbrev pub direct_map_end : ℕ
direct_map_end = 0xffff_c000_0000_0000

abbrev pub region_range : AddressRegion → VirtualRange
region_range user_space = record { start = 0x1_0000; end = 0x7fff_ffff_f000 }
region_range direct_map = record { start = direct_map_start; end = direct_map_end }
region_range kernel_services = record { start = 0xffff_c000_0000_0000; end = 0xffff_e000_0000_0000 }
region_range mmio = record { start = 0xffff_e000_0000_0000; end = 0xffff_e800_0000_0000 }
region_range framebuffer = record { start = 0xffff_e800_0000_0000; end = 0xffff_e900_0000_0000 }
region_range reserved = record { start = 0xffff_e900_0000_0000; end = 0xffff_ffff_8000_0000 }
region_range kernel_image = record { start = 0xffff_ffff_8000_0000; end = 0xffff_ffff_c000_0000 }
region_range kernel_local = record { start = 0xffff_ffff_c000_0000; end = 0xffff_ffff_ffff_f000 }

pub record DeclaredRegion : Type 0 where
  pub kind : AddressRegion
  pub range : VirtualRange

abbrev declared : AddressRegion → DeclaredRegion
declared kind = record { kind = kind; range = region_range kind }

-- `DECLARED_REGIONS`
abbrev pub declared_regions : List DeclaredRegion
declared_regions =
    declared user_space
    ∷ declared direct_map
    ∷ declared kernel_services
    ∷ declared mmio
    ∷ declared framebuffer
    ∷ declared reserved
    ∷ declared kernel_image
    ∷ declared kernel_local
    ∷ []

-- The loop of `validate_declared_regions`, with the regions that stand before the current one.
pub validate_regions : List DeclaredRegion → List DeclaredRegion → Result LayoutError (Unit {0})
validate_regions previous [] = ok tt
validate_regions previous (region ∷ rest) = do
  _ ← new_virtual_range region.range.start region.range.end
  reject_if (any (λ p. overlaps p.range region.range) previous) virtual_overlap
  validate_regions (previous ++ region ∷ []) rest

unfoldable pub validate_declared_regions : Result LayoutError (Unit {0})
unfolding validate_regions
validate_declared_regions = do
  validate_regions [] declared_regions
  reject_if
      (overlaps user (region_range direct_map)
        || overlaps user (region_range kernel_image)
        || overlaps user (region_range kernel_local))
      virtual_overlap
  where
    user : VirtualRange
    user = region_range user_space

-- `direct_map_address`; the sum of the two is below 2 ^ 64 whenever it is below the end.
unfoldable pub direct_map_address : ℕ → Result LayoutError ℕ
direct_map_address physical =
    if ltb (direct_map_start + physical) direct_map_end
    then ok (direct_map_start + physical)
    else err unsupported_physical_address

-- An address lies in one declared region at most.
pub region_unique :
    (k j : AddressRegion) (a : ℕ)
    → contains (region_range k) a ≡ true
    → contains (region_range j) a ≡ true
    → k ≡ j
region_unique k j a p q = ground arith

-- The direct map has room for exactly the supported physical addresses: each of them, and no
-- other 64-bit address, gets an address, which lies in the region and by which it is found again.
pub direct_map_address_lem :
    (p a : ℕ)
    → (direct_map_address p ≡ ok a) ↔ (
        (p < supported_physical_end)
        × (contains (region_range direct_map) a ≡ true)
        × (a - direct_map_start ≡ p))
unfolding direct_map_address
direct_map_address_lem p a = (λ h. ground arith, λ h. ground arith)
