-- ===== src/Bootloader/Acquire/Sizes.antt =====
-- The sizes and page counts of crates/bootloader/src/lib.rs.
use unnamed_os_core.Common.{
  ℕ, ◌+◌, ◌*◌, ◌/◌, ◌≤◌, ◌<◌, ◌≡◌, ◌⊎◌, inl, inr, arith, ltb, ◌==◌, Bool-cases, ok, err,
}
use unnamed_os_core.Bootloader.Acquire.{empty, too_large, checked_kernel_size, pages_for_bytes}

-- The size of an acceptable kernel file: 1 byte to 16 MiB, whose number of pages is the least whose
-- bytes hold it.
pub record IsKernelSize (size : ℕ) : Type 0 where
  pub accepted : checked_kernel_size size ≡ ok size
  pub above : 0 < size
  pub below : size ≤ 16777216
  pub pages : ℕ
  pub counted : pages_for_bytes size ≡ ok pages
  pub enough : size ≤ pages * 4096
  pub least : pages * 4096 < size + 4096
  pub bounded : pages ≤ 4096

-- The size of a kernel file is accepted exactly if it is between 1 byte and 16 MiB, and the value is
-- kept; the number of pages for it is then the least whose bytes hold it, and at most 4096. The size 0
-- is reported as empty, and a size above 16 MiB as too large.
pub pages_for_bytes-checked_kernel_size :
    (size : ℕ)
    → IsKernelSize size
      ⊎ (size ≡ 0) × (checked_kernel_size size ≡ err empty)
      ⊎ (16777216 < size) × (checked_kernel_size size ≡ err too_large)
unfolding checked_kernel_size pages_for_bytes
pages_for_bytes-checked_kernel_size size = elim (Bool-cases (size == 0)) [
  | inl none ↦ inr (inl (ground arith, ground arith))
  | inr some_bytes ↦ elim (Bool-cases (ltb 16777216 size)) [
    | inl large ↦ inr (inr (ground arith, ground (arith, some_bytes, large)))
    | inr small ↦
        let above : 0 < size = ground arith in
        let below : size ≤ 16777216 = ground arith in
        inl (record {
          accepted = ground (arith, some_bytes, small);
          above = above;
          below = below;
          pages = (size + 4095) / 4096;
          counted = counted size above below;
          enough = omega arith;
          least = omega arith;
          bounded = omega arith;
        })
  ]
]
  where
    counted : (n : ℕ) → 0 < n → n ≤ 16777216 → pages_for_bytes n ≡ ok ((n + 4095) / 4096)
    counted n some_bytes small = ground arith
