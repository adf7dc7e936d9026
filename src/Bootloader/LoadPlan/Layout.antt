-- ===== src/Bootloader/LoadPlan/Layout.antt =====
-- What the plans that `LoadPlan::build` (crates/bootloader/src/load_plan.rs) returns promise.
use unnamed_os_core.Common.{
  ℕ, get_elem?, some, ◌+◌, ◌*◌, ◌%◌, ◌≤◌, ◌<◌, ◌≡◌, refl, sym, ap, ◌∙◌, subst, arith, true, false,
  not, ◌==◌, ok, >>=-eq-ok, ok-injective, reject_if-ok, reject_if-not, ok_or-checked_add, reject_if,
  ok_or, any-get_elem?, List, [], length, any, All2, checked_mul, ok_or-checked_mul,
}
use unnamed_os_core.Common.Bits.{bit_and-one}
use unnamed_os_core.Bootloader.LoadPlan.{
  load_page_size, range_overflow, no_segments, entry_outside_executable_segment, SourceAllocation,
  page_end, SegmentSpec, LoadItem, LoadPlan, add_segments, enters, build, is_executable,
}
use unnamed_os_core.Bootloader.LoadPlan.Items.{IsItem}
use unnamed_os_core.Bootloader.LoadPlan.Loop.{IsPlanned, add_segments-IsPlanned}

-- A plan for a kernel with an entry point, from its segments, that is loaded from a file in memory.
pub record IsLoadPlan (entry : ℕ) (segments : List SegmentSpec) (source : SourceAllocation)
    (plan : LoadPlan) : Type 0 where
  pub each : All2 (IsItem source.file_length) segments plan.items
  pub planned :
      IsPlanned source.page_start (source.page_start + source.page_count * load_page_size) plan
  pub nonempty : 0 < length plan.items
  pub entered :
      (i : ℕ) × (item : LoadItem) × (get_elem? plan.items i ≡ some item)
      × (item.flags % 2 ≡ 1)
      × (item.target_start ≤ entry)
      × (entry < item.target_end)

enters_lem :
    (entry : ℕ) (item : LoadItem)
    → enters entry item ≡ true
    → (item.flags % 2 ≡ 1) × (item.target_start ≤ entry) × (entry < item.target_end)
unfolding is_executable
enters_lem entry item h =
    let low = bit_and-one item.flags in (ground (arith, low), ground arith, ground arith)

page_end_lem :
    (source : SourceAllocation) (end : ℕ)
    → page_end source ≡ ok end
    → end ≡ source.page_start + source.page_count * load_page_size
unfolding page_end
page_end_lem source end h =
    let (bytes, product, sum) =
      >>=-eq-ok (ok_or (checked_mul source.page_count load_page_size) range_overflow) _ h in
    let bytes_are = (ok_or-checked_mul range_overflow _ _ bytes product).0 in
    let end_is = (ok_or-checked_add range_overflow _ _ end sum).0 in
    end_is ∙ ap (λ b. source.page_start + b) bytes_are

-- A plan that `build` returns has an item for each segment, in the segments' order, and `make_item`'s
-- promises hold of each; no two items share a page, every item is inside the bootstrap window and
-- away from the pages of the file, the total is the sum of the items' pages and at most the window's
-- bytes, there are between 1 and 128 items, and the entry is in an item whose flags have the execute
-- bit, from its target start on and before its target end.
pub build-IsLoadPlan :
    (entry : ℕ) (segments : List SegmentSpec) (source : SourceAllocation) (plan : LoadPlan)
    → build entry segments source ≡ ok plan
    → IsLoadPlan entry segments source plan
unfolding build
build-IsLoadPlan entry segments source plan h =
    let start : LoadPlan = record { items = []; total_page_bytes = 0; entry = entry } in
    let (end, pages, h1) = >>=-eq-ok (page_end source) _ h in
    let (last, added, h2) = >>=-eq-ok (add_segments source end segments start) _ h1 in
    let (_, some_items, h3) = >>=-eq-ok (reject_if (length last.items == 0) no_segments) _ h2 in
    let (_, entered, done) =
      >>=-eq-ok (reject_if (not (any (enters entry) last.items)) entry_outside_executable_segment) _
        h3 in
    let (planned, (items, same, each)) =
      add_segments-IsPlanned source end segments start last added (record {
        apart = tt;
        placed = tt;
        total = refl;
        total_fits = omega arith;
        count = omega arith;
      }) in
    subst (IsLoadPlan entry segments source) (ok-injective done) (record {
      each = subst (All2 (IsItem source.file_length) segments) (sym same) each;
      planned =
          subst (λ e. IsPlanned source.page_start e last) (page_end_lem source end pages) planned;
      nonempty = positive (length last.items) (reject_if-ok no_segments _ some_items);
      entered =
          let (i, item, found, within) =
            any-get_elem? (enters entry) last.items
              (reject_if-not entry_outside_executable_segment _ entered) in
          let (executable, above, below) = enters_lem entry item within in
          (i, item, found, executable, above, below);
    })
  where
    positive : (n : ℕ) → (n == 0) ≡ false → 0 < n
    positive n h = ground arith
