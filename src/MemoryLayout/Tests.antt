-- ===== src/MemoryLayout/Tests.antt =====
-- Addresses, ranges, permissions and regions of crates/memory-layout/src/lib.rs at concrete values.
use unnamed_os_core.Common.{
  ℕ, ◌+◌, ◌-◌, ◌<◌, ◌≤◌, ◌≡◌, ◌⊎◌, ◌↔◌, ◌%◌, refl, true, arith, ok, err, u64_end, is_power_of_two,
}
use unnamed_os_core.MemoryLayout.Address.{alignment_overflow}
use unnamed_os_core.MemoryLayout.Range.{Range, new_physical_range, new_virtual_range}
use unnamed_os_core.MemoryLayout.Range.Accept.{
  IsVirtual, new_physical_range_accepts, new_virtual_range_accepts,
}
use unnamed_os_core.MemoryLayout.Align.{align_down, align_up, RoundsUp, align_up_lem}
use unnamed_os_core.MemoryLayout.Permissions.{
  kernel_rw, from_bits, writable, executable, write_back, kernel_rx,
}
use unnamed_os_core.MemoryLayout.Permissions.{from_bits_accepts}
use unnamed_os_core.MemoryLayout.Region.{validate_declared_regions}
use unnamed_os_core.MemoryLayout.Policy.{kernel_text, validate_mapping_policy}
use unnamed_os_core.MemoryLayout.Policy.Laws.{Allowed, validate_mapping_policy_accepts}

-- The program's own check of its table passes.
regions_pass : validate_declared_regions ≡ ok tt
unfolding validate_declared_regions new_virtual_range
regions_pass = refl

abbrev low : Range
low = record { start = 0x20_0000; end = 0x20_4000 }

abbrev part : Range
part = record { start = 0x20_1000; end = 0x20_2000 }

abbrev text : Range
text = record { start = 0xffff_ffff_8020_0000; end = 0xffff_ffff_8020_4000 }

new_virtual_range_accepts_example :
    (new_virtual_range 0xffff_ffff_8020_0000 0xffff_ffff_8020_4000 ≡ ok text)
    ↔ ((text ≡ text) × IsVirtual text)
new_virtual_range_accepts_example =
    new_virtual_range_accepts 0xffff_ffff_8020_0000 0xffff_ffff_8020_4000 text

align_up_lem_example :
    ((r : ℕ) × (align_up 0x1234 0x1000 ≡ ok r) × RoundsUp 0x1234 0x1000 r)
    ⊎ (u64_end ≤ 0x1234 + (0x1000 - 1)) × (align_up 0x1234 0x1000 ≡ err alignment_overflow)
unfolding is_power_of_two
align_up_lem_example = align_up_lem 0x1234 0x1000 refl

aligned_down : align_down 0x1234 0x1000 ≡ ok 0x1000
unfolding align_down is_power_of_two
aligned_down = refl

aligned_up : align_up 0x1234 0x1000 ≡ ok 0x2000
unfolding align_up is_power_of_two
aligned_up = refl

from_bits_accepts_example : (from_bits 0b1_0011 ≡ ok kernel_rw) ↔ (
    (kernel_rw ≡ kernel_rw)
    × (kernel_rw < 32)
    × (kernel_rw % 2 ≡ 1)
    × ¬ ((writable kernel_rw ≡ true) × (executable kernel_rw ≡ true)))
from_bits_accepts_example = from_bits_accepts kernel_rw kernel_rw (omega arith)

validate_mapping_policy_accepts_example :
    (validate_mapping_policy text low kernel_rx write_back kernel_text ≡ ok tt)
    ↔ Allowed text low kernel_rx write_back kernel_text
unfolding new_physical_range
validate_mapping_policy_accepts_example =
    validate_mapping_policy_accepts text low kernel_rx write_back kernel_text
      (((new_physical_range_accepts 0x20_0000 0x20_4000 low).0 refl).1)
