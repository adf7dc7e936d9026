-- ===== src/Bootloader/Targets.antt =====
-- Filling and checking the pages of an item: `initialize_target`, `copy_target` and `verify_target`
-- of crates/bootloader/src/load_plan.rs. Memory is a list of bytes. `usize` has 64 bits, so that the
-- conversions from `u64` succeed. A call that fails returns no target: what it has left there is
-- not read again.
pub mod Parts
pub mod Laws
mod Tests
use unnamed_os_core.Common.{
  ℕ, ◌-◌, ◌==◌, not, Result, ok, ◌>>=◌, ◌>>◌, reject_if, ok_or, List, ◌++◌, length, take, drop,
  replicate, get_range, checked_add,
}
use unnamed_os_core.Common.Slices.{same_bytes, all_zero}
use unnamed_os_core.Bootloader.LoadPlan.{LoadItem, page_length}

pub data MemoryError : Type 0 where
  range copy_mismatch non_zero_bss non_zero_padding : MemoryError

unfoldable pub copy_target : LoadItem → List ℕ → List ℕ → Result MemoryError (List ℕ)
copy_target item source target = do
  reject_if (not (length target == page_length item)) range
  source_end ← ok_or (checked_add item.source_offset item.file_size) range
  copy_end ← ok_or (checked_add item.copy_offset item.file_size) range
  source_bytes ← ok_or (get_range source item.source_offset source_end) range
  target_bytes ← ok_or (get_range target item.copy_offset copy_end) range
  ok (take item.copy_offset target ++ source_bytes ++ drop copy_end target)

unfoldable pub initialize_target : LoadItem → List ℕ → List ℕ → Result MemoryError (List ℕ)
initialize_target item source target = copy_target item source (replicate (length target) 0)

unfoldable pub verify_target : LoadItem → List ℕ → List ℕ → Result MemoryError (Unit {0})
verify_target item source target = do
  reject_if (not (length target == page_length item)) range
  source_end ← ok_or (checked_add item.source_offset item.file_size) range
  copy_end ← ok_or (checked_add item.copy_offset item.file_size) range
  memory_end ← ok_or (checked_add item.copy_offset item.memory_size) range
  source_bytes ← ok_or (get_range source item.source_offset source_end) range
  copied ← ok_or (get_range target item.copy_offset copy_end) range
  reject_if (not (same_bytes copied source_bytes)) copy_mismatch
  bss ← ok_or (get_range target copy_end memory_end) range
  reject_if (not (all_zero bss)) non_zero_bss
  padding ← ok_or (get_range target memory_end (page_length item)) range
  reject_if (not (all_zero padding)) non_zero_padding
