-- ===== src/Bootloader/LoadPlan/Loop.antt =====
-- What the loop of `LoadPlan::build` (crates/bootloader/src/load_plan.rs) keeps.
use unnamed_os_core.Common.{
  ℕ, ◌+◌, ◌≤◌, ◌≡◌, refl, sym, ap, ◌∙◌, subst, ◌⊎◌, arith, false, ltb, ◌==◌, ok, >>=-eq-ok,
  ok-injective, reject_if-ok, ok_or-checked_add, reject_if, ok_or, List, [], ◌∷◌, ◌++◌, length,
  length-append, All, All2, Pairwise, checked_add,
}
use unnamed_os_core.Bootloader.LoadPlan.{
  bootstrap_window_start, bootstrap_window_end, bootstrap_window_bytes, max_load_items,
  range_overflow, below_window, above_window, too_many_segments, total_size_overflow,
  total_size_exceeded, rounded_overlap, source_overlap, SourceAllocation, SegmentSpec, LoadItem,
  page_length, LoadPlan, make_item, ranges_overlap, check_items, add_segment, add_segments,
}
use unnamed_os_core.Bootloader.LoadPlan.Items.{IsItem, make_item-IsItem}

abbrev pub item_end : LoadItem → ℕ
item_end item = item.page_start + page_length item

-- No page belongs to both items.
abbrev pub Apart : LoadItem → LoadItem → Type 0
Apart a b = (item_end a ≤ b.page_start) ⊎ (item_end b ≤ a.page_start)

-- The pages of an item are inside the window and away from the pages `source_start..source_end`.
pub record Placed (source_start source_end : ℕ) (item : LoadItem) : Type 0 where
  pub above : bootstrap_window_start ≤ item.page_start
  pub below : item_end item ≤ bootstrap_window_end
  pub away : (source_end ≤ item.page_start) ⊎ (item_end item ≤ source_start)

abbrev pub sum_pages : List LoadItem → ℕ
sum_pages [] = 0
sum_pages (item ∷ rest) = page_length item + sum_pages rest

sum_pages-append :
    (items : List LoadItem) (item : LoadItem)
    → sum_pages (items ++ item ∷ []) ≡ sum_pages items + page_length item
sum_pages-append [] item = omega arith
sum_pages-append (x ∷ rest) item = omega (arith, sum_pages-append rest item)

module _ {ℓ κ} {A : Type ℓ} where
  All-append : (P : A → Type κ) (xs : List A) (x : A) → All P xs → P x → All P (xs ++ x ∷ [])
  All-append P [] x h p = (p, tt)
  All-append P (y ∷ ys) x h p = (h.0, All-append P ys x h.1 p)

  Pairwise-append :
      (R : A → A → Type κ) (xs : List A) (x : A)
      → Pairwise R xs
      → All (λ y. R y x) xs
      → Pairwise R (xs ++ x ∷ [])
  Pairwise-append R [] x h r = (tt, tt)
  Pairwise-append R (y ∷ ys) x h r = (All-append (R y) ys x h.0 r.0, Pairwise-append R ys x h.1 r.1)

append-snoc {ℓ} :
    {A : Type ℓ} (xs : List A) (x : A) (ys : List A) → (xs ++ x ∷ []) ++ ys ≡ xs ++ x ∷ ys
append-snoc [] x ys = refl
append-snoc (z ∷ zs) x ys = ap (λ l. z ∷ l) (append-snoc zs x ys)

append-[] {ℓ} : {A : Type ℓ} (xs : List A) → xs ++ [] ≡ xs
append-[] [] = refl
append-[] (x ∷ xs) = ap (λ l. x ∷ l) (append-[] xs)

not_lt : (a b : ℕ) → ltb a b ≡ false → b ≤ a
not_lt a b h = ground arith

ranges_overlap-apart : (a ae b be : ℕ) → ranges_overlap a ae b be ≡ false → (ae ≤ b) ⊎ (be ≤ a)
ranges_overlap-apart a ae b be h = ground arith

check_items-Apart :
    (item : LoadItem) (items : List LoadItem)
    → check_items item (item_end item) items ≡ ok tt
    → All (λ other. Apart other item) items
unfolding check_items
check_items-Apart item [] h = tt
check_items-Apart item (previous ∷ rest) h =
    let (end, sum, h1) =
      >>=-eq-ok (ok_or (checked_add previous.page_start (page_length previous)) range_overflow) _
        h in
    let (_, apart, h2) =
      >>=-eq-ok
        (reject_if (ranges_overlap previous.page_start end item.page_start (item_end item))
          rounded_overlap)
        _ h1 in
    let is = (ok_or-checked_add range_overflow _ _ end sum).0 in
    let kept = ranges_overlap-apart _ end _ _ (reject_if-ok rounded_overlap _ apart) in
    (
      subst (λ e. (e ≤ item.page_start) ⊎ (item_end item ≤ previous.page_start)) is kept,
      check_items-Apart item rest h2,
    )

-- What the loop of `build` keeps, over the source's pages.
pub record IsPlanned (source_start source_end : ℕ) (plan : LoadPlan) : Type 0 where
  pub apart : Pairwise Apart plan.items
  pub placed : All (Placed source_start source_end) plan.items
  pub total : plan.total_page_bytes ≡ sum_pages plan.items
  pub total_fits : plan.total_page_bytes ≤ bootstrap_window_bytes
  pub count : length plan.items ≤ max_load_items

-- What one turn of the loop has found.
record Added (source : SourceAllocation) (source_end : ℕ) (segment : SegmentSpec)
    (plan next : LoadPlan) : Type 0 where
  item : LoadItem
  room : (length plan.items == max_load_items) ≡ false
  made : make_item segment source.file_length ≡ ok item
  apart : All (λ other. Apart other item) plan.items
  placed : Placed source.page_start source_end item
  fits : plan.total_page_bytes + page_length item ≤ bootstrap_window_bytes
  same :
      record plan {
        items = plan.items ++ item ∷ [];
        total_page_bytes = plan.total_page_bytes + page_length item;
      }
      ≡ next

add_segment-Added :
    (source : SourceAllocation) (source_end : ℕ) (segment : SegmentSpec) (plan next : LoadPlan)
    → add_segment source source_end segment plan ≡ ok next
    → Added source source_end segment plan next
unfolding add_segment
add_segment-Added source source_end segment plan next h =
    let (_, room, h1) =
      >>=-eq-ok (reject_if (length plan.items == max_load_items) too_many_segments) _ h in
    let (item, made, h2) = >>=-eq-ok (make_item segment source.file_length) _ h1 in
    let (_, above, h3) =
      >>=-eq-ok (reject_if (ltb item.page_start bootstrap_window_start) below_window) _ h2 in
    let (end, sum, h4) =
      >>=-eq-ok (ok_or (checked_add item.page_start (page_length item)) range_overflow) _ h3 in
    let (_, below, h5) = >>=-eq-ok (reject_if (ltb bootstrap_window_end end) above_window) _ h4 in
    let (_, apart, h6) = >>=-eq-ok (check_items item end plan.items) _ h5 in
    let (_, away, h7) =
      >>=-eq-ok
        (reject_if (ranges_overlap source.page_start source_end item.page_start end) source_overlap)
        _ h6 in
    let (total, totalled, h8) =
      >>=-eq-ok (ok_or (checked_add plan.total_page_bytes (page_length item)) total_size_overflow) _
        h7 in
    let (_, fits, done) =
      >>=-eq-ok (reject_if (ltb bootstrap_window_bytes total) total_size_exceeded) _ h8 in
    let is = (ok_or-checked_add range_overflow _ _ end sum).0 in
    let total_is = (ok_or-checked_add total_size_overflow _ _ total totalled).0 in
    record {
      item = item;
      room = reject_if-ok too_many_segments _ room;
      made = made;
      apart =
          check_items-Apart item plan.items
            (subst (λ e. check_items item e plan.items ≡ ok tt) is apart);
      placed =
          placed_at source.page_start source_end item end is (reject_if-ok below_window _ above)
            (reject_if-ok above_window _ below) (reject_if-ok source_overlap _ away);
      fits =
          within plan.total_page_bytes (page_length item) total total_is
            (reject_if-ok total_size_exceeded _ fits);
      same =
          subst (λ t. record plan { items = plan.items ++ item ∷ []; total_page_bytes = t } ≡ next)
            total_is (ok-injective done);
    }
  where
    placed_at :
        (source_start source_end : ℕ) (item : LoadItem) (end : ℕ)
        → end ≡ item_end item
        → ltb item.page_start bootstrap_window_start ≡ false
        → ltb bootstrap_window_end end ≡ false
        → ranges_overlap source_start source_end item.page_start end ≡ false
        → Placed source_start source_end item
    placed_at source_start source_end item end is above below away = record {
      above = ground arith;
      below = subst (λ e. e ≤ bootstrap_window_end) is (not_lt bootstrap_window_end end below);
      away =
          subst (λ e. (source_end ≤ item.page_start) ⊎ (e ≤ source_start)) is
            (ranges_overlap-apart source_start source_end item.page_start end away);
    }

    within :
        (before more total : ℕ)
        → total ≡ before + more
        → ltb bootstrap_window_bytes total ≡ false
        → before + more ≤ bootstrap_window_bytes
    within before more total is h = ground arith

add_segment-IsPlanned :
    (source : SourceAllocation) (source_end : ℕ) (segment : SegmentSpec) (plan next : LoadPlan)
    → Added source source_end segment plan next
    → IsPlanned source.page_start source_end plan
    → IsPlanned source.page_start source_end next
add_segment-IsPlanned source source_end segment plan next added known =
    subst (IsPlanned source.page_start source_end) added.same (record {
      apart = Pairwise-append Apart plan.items added.item known.apart added.apart;
      placed =
          All-append (Placed source.page_start source_end) plan.items added.item known.placed
            added.placed;
      total =
          let sum = sum_pages-append plan.items added.item in
          let before = known.total in omega (arith, sum, before);
      total_fits = added.fits;
      count =
          let more = length-append plan.items (added.item ∷ []) in
          count_lem (length plan.items) _ known.count added.room more;
    })
  where
    count_lem :
        (count next : ℕ)
        → count ≤ max_load_items
        → (count == max_load_items) ≡ false
        → next ≡ count + 1
        → next ≤ max_load_items
    count_lem count next most room more = ground arith

-- The loop adds an item for each segment, in their order, and keeps the invariant.
pub add_segments-IsPlanned :
    (source : SourceAllocation) (source_end : ℕ) (segments : List SegmentSpec)
    (plan last : LoadPlan)
    → add_segments source source_end segments plan ≡ ok last
    → IsPlanned source.page_start source_end plan
    → IsPlanned source.page_start source_end last
      × ((items : List LoadItem) × (last.items ≡ plan.items ++ items)
          × All2 (IsItem source.file_length) segments items)
unfolding add_segments
add_segments-IsPlanned source source_end [] plan last h known =
    subst
      (λ l.
        IsPlanned source.page_start source_end l
        × ((items : List LoadItem) × (l.items ≡ plan.items ++ items)
            × All2 (IsItem source.file_length) [] items))
      (ok-injective h) (known, ([], sym (append-[] plan.items), tt))
add_segments-IsPlanned source source_end (segment ∷ rest) plan last h known =
    let (next, first, others) = >>=-eq-ok (add_segment source source_end segment plan) _ h in
    let added = add_segment-Added source source_end segment plan next first in
    let (kept, (items, same, each)) =
      add_segments-IsPlanned source source_end rest next last others
        (add_segment-IsPlanned source source_end segment plan next added known) in
    let grown = ap (λ p. p.items ++ items) (sym added.same) in
    (
      kept,
      (
        added.item ∷ items,
        same ∙ grown ∙ append-snoc plan.items added.item items,
        (make_item-IsItem segment source.file_length added.item added.made, each),
      ),
    )
