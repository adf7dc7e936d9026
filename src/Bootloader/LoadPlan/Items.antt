-- ===== src/Bootloader/LoadPlan/Items.antt =====
-- What `make_item` (crates/bootloader/src/load_plan.rs) computes for a segment.
use unnamed_os_core.Common.{
  ℕ, ◌+◌, ◌-◌, ◌*◌, ◌/◌, ◌%◌, ◌≤◌, ◌<◌, ◌≡◌, refl, sym, ◌∙◌, subst, arith, true, false, not, ltb,
  ◌==◌, bit_and, ok, >>=-eq-ok, ok-injective, reject_if-ok, reject_if-not, ok_or-checked_add,
  ok_or-checked_sub, reject_if, ok_or, ==_iff, checked_add, checked_sub, u64_end, is_power_of_two,
}
use unnamed_os_core.MemoryLayout.Align.{bit_not, masked-RoundsDown}
use unnamed_os_core.Bootloader.LoadPlan.{
  load_page_size, zero_memory_size, unaligned_target, source_range_overflow, range_overflow,
  page_rounding_overflow, source_outside_file, SegmentSpec, LoadItem, page_length, round_down,
  round_up, make_item,
}

-- The least whole page number of bytes that is not below a value.
pub record RoundsUp (value r : ℕ) : Type 0 where
  pub aligned : r % load_page_size ≡ 0
  pub above : value ≤ r
  pub nearest : r < value + load_page_size

pub round_up-RoundsUp : (value r : ℕ) → round_up value load_page_size ≡ ok r → RoundsUp value r
unfolding round_up is_power_of_two
round_up-RoundsUp value r h =
    let (rounded, sum, made) =
      >>=-eq-ok (ok_or (checked_add value (load_page_size - 1)) page_rounding_overflow) _ h in
    let is : rounded ≡ value + 4095 = ground arith in
    let fits : rounded < u64_end = ground arith in
    let down = masked-RoundsDown rounded load_page_size refl fits in
    let same : bit_and rounded (bit_not (load_page_size - 1)) ≡ r = ground (arith, made) in
    record {
      aligned = rw same at down.aligned;
      above = let near = rw same at down.nearest in omega (arith, is, near);
      nearest = let below = rw same at down.below in omega (arith, is, below);
    }

round_down-aligned :
    (value : ℕ)
    → value < u64_end
    → value % load_page_size ≡ 0
    → round_down value load_page_size ≡ value
unfolding round_down is_power_of_two
round_down-aligned value fits aligned =
    let down = masked-RoundsDown value load_page_size refl fits in
    ground (arith, down.aligned, down.below, down.nearest)

-- The pages of an item hold the segment at their start: its file bytes, zeroes up to its size in
-- memory, and padding.
pub record IsItem (source_length : ℕ) (segment : SegmentSpec) (item : LoadItem) : Type 0 where
  pub source_offset : item.source_offset ≡ segment.file_offset
  pub file_size : item.file_size ≡ segment.file_size
  pub memory_size : item.memory_size ≡ segment.memory_size
  pub flags : item.flags ≡ segment.flags
  pub target_start : item.target_start ≡ segment.target
  pub target_end : item.target_end ≡ segment.target + segment.memory_size
  pub page_start : item.page_start ≡ segment.target
  pub aligned : segment.target % load_page_size ≡ 0
  pub pages : page_length item ≡ item.page_count * load_page_size
  pub rounded : RoundsUp segment.memory_size (page_length item)
  pub nonempty : 0 < segment.memory_size
  pub file_fits : segment.file_size ≤ segment.memory_size
  pub in_source : segment.file_offset + segment.file_size ≤ source_length
  pub copy_offset : item.copy_offset ≡ 0
  pub bss :
      (item.bss_start ≡ segment.target + segment.file_size)
      × (item.bss_length + segment.file_size ≡ segment.memory_size)
  pub padding :
      (item.padding_start ≡ item.target_end)
      × (item.target_end + item.padding_length ≡ item.page_start + page_length item)

-- The item of a segment whose pages end at `rounded_end`.
abbrev item_of : SegmentSpec → ℕ → LoadItem
item_of segment size = record {
  source_offset = segment.file_offset;
  file_size = segment.file_size;
  memory_size = segment.memory_size;
  target_start = segment.target;
  target_end = segment.target + segment.memory_size;
  page_start = segment.target;
  page_count = size / load_page_size;
  flags = segment.flags;
  bss_start = segment.target + segment.file_size;
  bss_length = segment.memory_size - segment.file_size;
  zero_offset = 0;
  zero_length = size;
  copy_offset = 0;
  padding_start = segment.target + segment.memory_size;
  padding_length = size - segment.memory_size;
}

-- What `make_item` has checked.
record Made (source_length : ℕ) (segment : SegmentSpec) (item : LoadItem) : Type 0 where
  size : ℕ
  same : item_of segment size ≡ item
  nonempty : (segment.memory_size == 0) ≡ false
  aligned : segment.target % load_page_size ≡ 0
  in_source : segment.file_offset + segment.file_size ≤ source_length
  file_fits : segment.file_size ≤ segment.memory_size
  rounded : RoundsUp (segment.target + segment.memory_size) (segment.target + size)

make_item-Made :
    (segment : SegmentSpec) (source_length : ℕ) (item : LoadItem)
    → make_item segment source_length ≡ ok item
    → Made source_length segment item
unfolding make_item
make_item-Made segment source_length item h =
    let (_, some_bytes, h1) =
      >>=-eq-ok (reject_if (segment.memory_size == 0) zero_memory_size) _ h in
    let (_, aligned, h2) =
      >>=-eq-ok (reject_if (not (segment.target % load_page_size == 0)) unaligned_target) _ h1 in
    let (source_end, e1, h3) =
      >>=-eq-ok (ok_or (checked_add segment.file_offset segment.file_size) source_range_overflow) _
        h2 in
    let (_, e2, h4) =
      >>=-eq-ok (reject_if (ltb source_length source_end) source_outside_file) _ h3 in
    let (target_end, e3, h5) =
      >>=-eq-ok (ok_or (checked_add segment.target segment.memory_size) range_overflow) _ h4 in
    let (rounded_end, e4, h6) = >>=-eq-ok (round_up target_end load_page_size) _ h5 in
    let start = round_down segment.target load_page_size in
    let (size, e5, h7) = >>=-eq-ok (ok_or (checked_sub rounded_end start) range_overflow) _ h6 in
    let (_, e6, h8) = >>=-eq-ok (reject_if (size / load_page_size == 0) zero_memory_size) _ h7 in
    let (bss_start, e7, h9) =
      >>=-eq-ok (ok_or (checked_add segment.target segment.file_size) range_overflow) _ h8 in
    let (bss_length, e8, h10) =
      >>=-eq-ok (ok_or (checked_sub segment.memory_size segment.file_size) range_overflow) _ h9 in
    let (copy_offset, e9, h11) =
      >>=-eq-ok (ok_or (checked_sub segment.target start) range_overflow) _ h10 in
    let (padding, e10, made) =
      >>=-eq-ok (ok_or (checked_sub rounded_end target_end) range_overflow) _ h11 in
    finish segment source_length item start source_end target_end rounded_end size bss_start
      bss_length copy_offset padding (reject_if-ok zero_memory_size _ some_bytes)
      (reject_if-not unaligned_target _ aligned)
      (ok_or-checked_add source_range_overflow _ _ source_end e1)
      (reject_if-ok source_outside_file _ e2) (ok_or-checked_add range_overflow _ _ target_end e3)
      (round_up-RoundsUp target_end rounded_end e4)
      (ok_or-checked_sub range_overflow _ start size e5)
      (ok_or-checked_add range_overflow _ _ bss_start e7).0
      (ok_or-checked_sub range_overflow _ _ bss_length e8)
      (ok_or-checked_sub range_overflow _ start copy_offset e9)
      (ok_or-checked_sub range_overflow _ _ padding e10) refl (ok-injective made)
  where
    finish :
        (segment : SegmentSpec) (source_length : ℕ) (item : LoadItem)
        (start source_end target_end rounded_end size bss_start bss_length copy_offset padding : ℕ)
        → (segment.memory_size == 0) ≡ false
        → (segment.target % load_page_size == 0) ≡ true
        → (source_end ≡ segment.file_offset + segment.file_size)
          × (segment.file_offset + segment.file_size < u64_end)
        → ltb source_length source_end ≡ false
        → (target_end ≡ segment.target + segment.memory_size)
          × (segment.target + segment.memory_size < u64_end)
        → RoundsUp target_end rounded_end
        → start + size ≡ rounded_end
        → bss_start ≡ segment.target + segment.file_size
        → segment.file_size + bss_length ≡ segment.memory_size
        → start + copy_offset ≡ segment.target
        → target_end + padding ≡ rounded_end
        → start ≡ round_down segment.target load_page_size
        → record {
          source_offset = segment.file_offset;
          file_size = segment.file_size;
          memory_size = segment.memory_size;
          target_start = segment.target;
          target_end = target_end;
          page_start = start;
          page_count = size / load_page_size;
          flags = segment.flags;
          bss_start = bss_start;
          bss_length = bss_length;
          zero_offset = 0;
          zero_length = size;
          copy_offset = copy_offset;
          padding_start = target_end;
          padding_length = padding;
        }
          ≡ item
        → Made source_length segment item
    finish segment source_length item start source_end target_end rounded_end size bss_start
          bss_length copy_offset padding some_bytes aligned source inside target rounded sized bss
          bss_size copied padded down made =
        let page_aligned : segment.target % load_page_size ≡ 0 = (==_iff _ 0).0 aligned in
        let here : segment.target ≡ start =
          sym (round_down-aligned segment.target (omega (arith, target.1)) page_aligned)
          ∙ sym down in
        let end : rounded_end ≡ segment.target + size = omega (arith, here, sized) in
        let length_is : bss_length ≡ segment.memory_size - segment.file_size =
          omega (arith, bss_size) in
        let padding_is : padding ≡ size - segment.memory_size =
          omega (arith, end, padded, target.0) in
        let offset_is : copy_offset ≡ 0 = omega (arith, here, copied) in
        record {
          size = size;
          same = let same = made in cc;
          nonempty = some_bytes;
          aligned = page_aligned;
          in_source = ground (arith, inside, source.0);
          file_fits = omega (arith, bss_size);
          rounded =
              subst (RoundsUp (segment.target + segment.memory_size)) end
                (subst (λ e. RoundsUp e rounded_end) target.0 rounded);
        }

-- An item that `make_item` returns describes whole pages that start at the segment's page-aligned
-- target and are the fewest that hold its bytes in memory; the file's bytes are inside the source,
-- the zero-initialised rest follows them, and the padding runs from there to the end of the pages.
pub make_item-IsItem :
    (segment : SegmentSpec) (source_length : ℕ) (item : LoadItem)
    → make_item segment source_length ≡ ok item
    → IsItem source_length segment item
make_item-IsItem segment source_length item h =
    let made = make_item-Made segment source_length item h in
    subst (IsItem source_length segment) made.same (
      sized segment source_length made.size made.nonempty made.aligned made.in_source made.file_fits
        made.rounded)
  where
    sized :
        (segment : SegmentSpec) (source_length size : ℕ)
        → (segment.memory_size == 0) ≡ false
        → segment.target % load_page_size ≡ 0
        → segment.file_offset + segment.file_size ≤ source_length
        → segment.file_size ≤ segment.memory_size
        → RoundsUp (segment.target + segment.memory_size) (segment.target + size)
        → IsItem source_length segment (item_of segment size)
    sized segment source_length size nonempty aligned inside fits rounded =
        let end_aligned = rounded.aligned in
        let above = rounded.above in
        let nearest = rounded.nearest in
        let whole : size % load_page_size ≡ 0 = omega (arith, aligned, end_aligned) in
        record {
          source_offset = refl;
          file_size = refl;
          memory_size = refl;
          flags = refl;
          target_start = refl;
          target_end = refl;
          page_start = refl;
          aligned = aligned;
          pages = omega (arith, whole);
          rounded = record {
            aligned = whole;
            above = omega (arith, above);
            nearest = omega (arith, nearest);
          };
          nonempty = ground (arith, nonempty);
          file_fits = fits;
          in_source = inside;
          copy_offset = refl;
          bss = (refl, omega (arith, fits));
          padding = (refl, omega (arith, above));
        }
