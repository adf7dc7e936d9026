-- ===== src/Bootloader/Targets/Laws.antt =====
-- What `initialize_target`, `copy_target` and `verify_target` (crates/bootloader/src/load_plan.rs) do
-- to the pages of an item of a plan.
use unnamed_os_core.Common.{
  ℕ, ◌+◌, ◌-◌, ◌≤◌, ◌<◌, ◌≡◌, refl, sym, ap, ◌∙◌, subst, ◌↔◌, arith, true, not, ◌==◌, ==_iff, ok,
  ◌>>=◌, >>=-eq-ok, reject_if-not, ok_or-checked_add, reject_if, ok_or, ok_or-eq-ok, some, List, [],
  length, length-replicate, length-take, take, drop, replicate, get_range, checked_add, u64_end,
}
use unnamed_os_core.Common.Slices.{
  same_bytes, all_zero, same_bytes_lem, same_bytes_refl, all_zero-replicate, length-drop,
  drop-replicate, get_range-some,
}
use unnamed_os_core.Bootloader.LoadPlan.{LoadItem, page_length, SegmentSpec}
use unnamed_os_core.Bootloader.LoadPlan.Items.{IsItem}
use unnamed_os_core.Bootloader.Targets.{
  range, copy_mismatch, non_zero_bss, non_zero_padding, copy_target, initialize_target,
  verify_target,
}
use unnamed_os_core.Bootloader.Targets.Parts.{
  image_of, three_parts, checked_add-some, part-inside, from_start, length-filled, copied_part,
  bss_part, padding_part,
}

module _ (source : List ℕ) (segment : SegmentSpec) (item : LoadItem) where
  -- The numbers of an item of a plan for this source.
  record Fits : Type 0 where
    start : item.copy_offset ≡ 0
    in_source : item.source_offset + item.file_size ≤ length source
    file : item.file_size ≤ item.memory_size
    memory : item.memory_size ≤ page_length item

  IsItem-Fits : IsItem (length source) segment item → Fits
  IsItem-Fits is =
      let offset = is.source_offset in
      let file = is.file_size in
      let memory = is.memory_size in
      let inside = is.in_source in
      let small = is.file_fits in
      let above = is.rounded.above in
      record {
        start = is.copy_offset;
        in_source = omega (arith, offset, file, inside);
        file = omega (arith, file, memory, small);
        memory = omega (arith, memory, above);
      }

  part :
      (xs bytes : List ℕ) (start size end : ℕ)
      → end ≡ start + size
      → get_range xs start end ≡ some bytes
      → bytes ≡ take size (drop start xs)
  part xs bytes start size end is found =
      let e : end - start ≡ size = omega (arith, is) in
      (get_range-some xs start end found).2 ∙ ap (λ k. take k (drop start xs)) e

  verify_target-image :
      (target : List ℕ)
      → Fits
      → verify_target item source target ≡ ok tt
      → target ≡ image_of item source
  unfolding verify_target
  verify_target-image target fits h =
      let (_, sized, h1) =
        >>=-eq-ok (reject_if (not (length target == page_length item)) range) _ h in
      let (source_end, e1, h2) =
        >>=-eq-ok (ok_or (checked_add item.source_offset item.file_size) range) _ h1 in
      let (copy_end, e2, h3) =
        >>=-eq-ok (ok_or (checked_add item.copy_offset item.file_size) range) _ h2 in
      let (memory_end, e3, h4) =
        >>=-eq-ok (ok_or (checked_add item.copy_offset item.memory_size) range) _ h3 in
      let (bytes, e4, h5) =
        >>=-eq-ok (ok_or (get_range source item.source_offset source_end) range) _ h4 in
      let (copied, e5, h6) =
        >>=-eq-ok (ok_or (get_range target item.copy_offset copy_end) range) _ h5 in
      let (_, same, h7) =
        >>=-eq-ok (reject_if (not (same_bytes copied bytes)) copy_mismatch) _ h6 in
      let (bss, e6, h8) = >>=-eq-ok (ok_or (get_range target copy_end memory_end) range) _ h7 in
      let (_, clear, h9) = >>=-eq-ok (reject_if (not (all_zero bss)) non_zero_bss) _ h8 in
      let (padding, e7, padded) =
        >>=-eq-ok (ok_or (get_range target memory_end (page_length item)) range) _ h9 in
      let start = fits.start in
      let small = fits.file in
      let big = fits.memory in
      let copy_is : copy_end ≡ item.file_size =
        let e = (ok_or-checked_add range _ _ copy_end e2).0 in omega (arith, e, start) in
      let memory_is : memory_end ≡ item.memory_size =
        let e = (ok_or-checked_add range _ _ memory_end e3).0 in omega (arith, e, start) in
      let bytes_are =
        part source bytes item.source_offset item.file_size source_end
          (ok_or-checked_add range _ _ source_end e1).0 (ok_or-eq-ok _ range e4) in
      let copied_is : copied ≡ take item.file_size target =
        part target copied 0 item.file_size copy_end (omega (arith, copy_is))
          (subst (λ c. get_range target c copy_end ≡ some copied) start (ok_or-eq-ok _ range e5)) in
      let bss_is =
        part target bss copy_end (item.memory_size - item.file_size) memory_end
          (omega (arith, copy_is, memory_is, small)) (ok_or-eq-ok _ range e6) in
      let padding_is =
        part target padding memory_end (page_length item - item.memory_size) (page_length item)
          (omega (arith, memory_is, big)) (ok_or-eq-ok _ range e7) in
      three_parts target (take item.file_size (drop item.source_offset source)) item.file_size
        item.memory_size (page_length item) small big ((==_iff _ _).0 (reject_if-not range _ sized))
        (sym copied_is
          ∙ same_bytes_lem copied bytes (reject_if-not copy_mismatch _ same)
          ∙ bytes_are)
        (subst (λ c. all_zero (take (item.memory_size - item.file_size) (drop c target)) ≡ true)
          copy_is (subst (λ l. all_zero l ≡ true) bss_is (reject_if-not non_zero_bss _ clear)))
        (subst (λ c. all_zero (take (page_length item - item.memory_size) (drop c target)) ≡ true)
          memory_is
          (subst (λ l. all_zero l ≡ true) padding_is (reject_if-not non_zero_padding _ padded)))

  initialize_target-Fits :
      (target : List ℕ)
      → Fits
      → length source < u64_end
      → length target ≡ page_length item
      → page_length item < u64_end
      → initialize_target item source target ≡ ok (image_of item source)
  unfolding initialize_target copy_target
  initialize_target-Fits target fits source_size sized size =
      let start = fits.start in
      let inside = fits.in_source in
      let small = fits.file in
      let big = fits.memory in
      let zeros : List ℕ = replicate (length target) 0 in
      let zeros_length : length zeros ≡ page_length item =
        length-replicate (length target) 0 ∙ sized in
      let sized_ok = (==_iff (length zeros) (page_length item)).1 zeros_length in
      let source_ok =
        checked_add-some item.source_offset item.file_size (omega (arith, inside, source_size)) in
      let copy_ok : checked_add item.copy_offset item.file_size ≡ some item.file_size =
        from_start item.copy_offset item.file_size start (omega (arith, small, big, size)) in
      let bytes_ok = part-inside source item.source_offset item.file_size _ refl inside in
      let there_ok : get_range zeros item.copy_offset item.file_size
          ≡ some (take item.file_size zeros) =
        ap (λ c. get_range zeros c item.file_size) start
        ∙ part-inside zeros 0 item.file_size item.file_size (omega arith)
            (omega (arith, small, big, zeros_length)) in
      let rest : drop item.file_size zeros ≡ replicate (page_length item - item.file_size) 0 =
        drop-replicate item.file_size (length target) 0
        ∙ ap (λ n. replicate (n - item.file_size) 0) sized in
      let none_before : take item.copy_offset zeros ≡ [] = ap (λ c. take c zeros) start in
      rw (sized_ok, source_ok, copy_ok, bytes_ok, there_ok, none_before, rest) refl

  image-verify_target :
      Fits
      → length source < u64_end
      → page_length item < u64_end
      → verify_target item source (image_of item source) ≡ ok tt
  unfolding verify_target
  image-verify_target fits source_size size =
      let start = fits.start in
      let inside = fits.in_source in
      let small = fits.file in
      let big = fits.memory in
      let file : ℕ = item.file_size in
      let memory : ℕ = item.memory_size in
      let pages : ℕ = page_length item in
      let bytes : List ℕ = take file (drop item.source_offset source) in
      let left = length-drop item.source_offset source (omega (arith, inside)) in
      let sized : length bytes ≡ file =
        length-take file (drop item.source_offset source) (omega (arith, left, inside)) in
      let sized_ok = (==_iff _ pages).1 (length-filled bytes file memory pages sized small big) in
      let source_ok =
        checked_add-some item.source_offset file (omega (arith, inside, source_size)) in
      let copy_ok = from_start item.copy_offset file start (omega (arith, small, big, size)) in
      let memory_ok = from_start item.copy_offset memory start (omega (arith, big, size)) in
      let bytes_ok = part-inside source item.source_offset file _ refl inside in
      let copied_ok : get_range (image_of item source) item.copy_offset file ≡ some bytes =
        ap (λ c. get_range (image_of item source) c file) start
        ∙ copied_part bytes file memory pages sized small big in
      let bss_ok = bss_part bytes file memory pages sized small big in
      let padding_ok = padding_part bytes file memory pages sized small big in
      let same_ok = same_bytes_refl bytes in
      let bss_zero = all_zero-replicate (memory - file) in
      let padding_zero = all_zero-replicate (pages - memory) in
      rw
        (
          sized_ok, source_ok, copy_ok, memory_ok, bytes_ok, copied_ok, same_ok, bss_ok, bss_zero,
          padding_ok, padding_zero,
        )
        refl

  -- For an item that a plan has for a file of this length: `verify_target` succeeds on exactly the
  -- pages that hold the segment's bytes of the file and then only zeroes.
  pub verify_target_iff :
      (target : List ℕ)
      → IsItem (length source) segment item
      → length source < u64_end
      → page_length item < u64_end
      → (verify_target item source target ≡ ok tt) ↔ (target ≡ image_of item source)
  verify_target_iff target is source_size size =
      let fits = IsItem-Fits is in
      (
        verify_target-image target fits,
        λ same.
            subst (λ t. verify_target item source t ≡ ok tt) (sym same)
              (image-verify_target fits source_size size),
      )

  -- For an item that a plan has for a file of this length: `initialize_target` succeeds on any pages
  -- of the item's size, whatever they held, fills them with the segment's bytes of the file and then
  -- zeroes, and `verify_target` then succeeds.
  pub verify_target-initialize_target :
      (target : List ℕ)
      → IsItem (length source) segment item
      → length source < u64_end
      → length target ≡ page_length item
      → page_length item < u64_end
      → (initialize_target item source target ≡ ok (image_of item source))
        × ((initialize_target item source target >>= λ filled. verify_target item source filled)
            ≡ ok tt)
  verify_target-initialize_target target is source_size sized size =
      let fits = IsItem-Fits is in
      let filled = initialize_target-Fits target fits source_size sized size in
      (
        filled,
        ap (λ r. r >>= verify_target item source) filled
            ∙ image-verify_target fits source_size size,
      )
