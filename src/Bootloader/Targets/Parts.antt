-- ===== src/Bootloader/Targets/Parts.antt =====
-- The parts of the pages of an item: the bytes of the file, and the zeroes behind them
-- (crates/bootloader/src/load_plan.rs).
use unnamed_os_core.Common.{
  ℕ, ◌+◌, ◌-◌, ◌≤◌, ◌<◌, ◌≡◌, sym, ap, ◌∙◌, arith, true, some, List, ◌++◌, length, length-append,
  length-replicate, length-take, take, drop, replicate, get_range, checked_add, u64_end,
}
use unnamed_os_core.Common.Slices.{
  all_zero, all_zero_lem, replicate-append, take-drop, length-drop, take-all, take-append,
  drop-append, drop-append_more, drop-split, take-replicate, drop-replicate, get_range-inside,
}
use unnamed_os_core.Bootloader.LoadPlan.{LoadItem, page_length}

-- What the pages of an item are to hold: the segment's bytes of the file, and zeroes.
abbrev pub image_of : LoadItem → List ℕ → List ℕ
image_of item source =
    take item.file_size (drop item.source_offset source)
    ++ replicate (page_length item - item.file_size) 0

pub zeroes :
    (n : ℕ) (xs : List ℕ) → n ≤ length xs → all_zero (take n xs) ≡ true → take n xs ≡ replicate n 0
zeroes n xs fits zero =
    all_zero_lem (take n xs) zero ∙ ap (λ k. replicate k 0) (length-take n xs fits)

-- Pages whose three parts hold the bytes, zeroes and zeroes.
pub three_parts :
    (target bytes : List ℕ) (file memory pages : ℕ)
    → file ≤ memory
    → memory ≤ pages
    → length target ≡ pages
    → take file target ≡ bytes
    → all_zero (take (memory - file) (drop file target)) ≡ true
    → all_zero (take (pages - memory) (drop memory target)) ≡ true
    → target ≡ bytes ++ replicate (pages - file) 0
three_parts target bytes file memory pages small big sized head bss padding =
    let first = length-drop file target (omega (arith, sized)) in
    let second = length-drop memory target (omega (arith, sized)) in
    let middle = zeroes (memory - file) (drop file target) (omega (arith, first, sized)) bss in
    let last =
      zeroes (pages - memory) (drop memory target) (omega (arith, second, sized)) padding in
    let rest : length (drop memory target) ≡ pages - memory = omega (arith, second, sized) in
    let whole : take (pages - memory) (drop memory target) ≡ drop memory target =
      ap (λ k. take k (drop memory target)) (sym rest) ∙ take-all (drop memory target) in
    let tail : drop file target ≡ replicate (pages - file) 0 =
      drop-split file memory target small
      ∙ ap (λ l. l ++ drop memory target) middle
      ∙ ap (λ l. replicate (memory - file) 0 ++ l) (sym whole ∙ last)
      ∙ replicate-append (memory - file) (pages - memory) (pages - file) 0 (omega arith) in
    sym (take-drop file target) ∙ ap (λ l. l ++ drop file target) head ∙ ap (λ l. bytes ++ l) tail

pub checked_add-some : (a b : ℕ) → a + b < u64_end → checked_add a b ≡ some (a + b)
checked_add-some a b h = ground arith

pub part-inside :
    (xs : List ℕ) (start size end : ℕ)
    → end ≡ start + size
    → end ≤ length xs
    → get_range xs start end ≡ some (take size (drop start xs))
part-inside xs start size end is inside =
    let e : end - start ≡ size = omega (arith, is) in
    get_range-inside xs start end (omega (arith, is)) inside
    ∙ ap (λ k. some (take k (drop start xs))) e

pub from_start : (start n : ℕ) → start ≡ 0 → n < u64_end → checked_add start n ≡ some n
from_start start n none_before fits = ground arith

-- The three parts of bytes and the zeroes behind them.
module _ (bytes : List ℕ) (file memory pages : ℕ) (sized : length bytes ≡ file)
    (small : file ≤ memory) (big : memory ≤ pages) where
  abbrev pub filled : List ℕ
  filled = bytes ++ replicate (pages - file) 0

  pub length-filled : length filled ≡ pages
  length-filled =
      let sum = length-append bytes (replicate (pages - file) 0) in
      let zeros = length-replicate {A = ℕ} (pages - file) 0 in
      omega (arith, sum, zeros, sized, small, big)

  pub copied_part : get_range filled 0 file ≡ some bytes
  copied_part =
      part-inside filled 0 file file (omega arith) (omega (arith, small, big, length-filled))
      ∙ ap some
          (ap (λ k. take k filled) (sym sized) ∙ take-append bytes (replicate (pages - file) 0))

  pub bss_part : get_range filled file memory ≡ some (replicate (memory - file) 0)
  bss_part =
      part-inside filled file (memory - file) memory (omega (arith, small))
        (omega (arith, big, length-filled))
      ∙ ap some (
          ap (take (memory - file))
            (ap (λ k. drop k filled) (sym sized) ∙ drop-append bytes (replicate (pages - file) 0))
          ∙ take-replicate (memory - file) (pages - file) 0 (omega (arith, small, big)))

  pub padding_part : get_range filled memory pages ≡ some (replicate (pages - memory) 0)
  padding_part =
      part-inside filled memory (pages - memory) pages (omega (arith, big))
        (omega (arith, length-filled))
      ∙ ap some (
          ap (take (pages - memory)) (
            drop-append_more (memory - file) memory bytes (replicate (pages - file) 0)
              (omega (arith, small, sized))
            ∙ drop-replicate (memory - file) (pages - file) 0)
          ∙ take-replicate (pages - memory) (pages - file - (memory - file)) 0
              (omega (arith, small, big)))
