-- ===== src/MemoryLayout/PageTable/Refine.antt =====
-- What the page loop of `add_mapping` (crates/memory-layout/src/page_table.rs) makes of the leaves.
use unnamed_os_core.Common.{
  ℕ, zero, suc, ◌+◌, ◌*◌, ◌/◌, ◌%◌, ◌≤◌, ◌<◌, ◌≡◌, ◌≢◌, refl, ap, ◌∙◌, subst, ◌⊎◌, inl, inr, arith,
  ok, >>=-eq-ok, ok_or, map_err, checked_add, checked_mul, some, Bool-cases, ◌==◌,
}
use unnamed_os_core.MemoryLayout.Address.{page_size, new_virtual_address}
use unnamed_os_core.MemoryLayout.Range.{PhysicalRange}
use unnamed_os_core.MemoryLayout.Permissions.{MappingPermissions, CachePolicy}
use unnamed_os_core.MemoryLayout.Plan.{PlanEntry}
use unnamed_os_core.MemoryLayout.PageTable.{
  layout, arithmetic_overflow, for_leaf, new_physical_frame,
}
use unnamed_os_core.MemoryLayout.PageTable.Construct.{
  Capacity, ConstructionPlan, add_page, add_pages,
}
use unnamed_os_core.MemoryLayout.PageTable.Extend.{IsTree}
use unnamed_os_core.MemoryLayout.PageTable.Leaf.{IsAddress, Inserted, resolve, insert_page-Inserted}

first_or_later : (first k : ℕ) → first ≤ k → (first ≡ k) ⊎ (first + 1 ≤ k)
first_or_later first k h = elim (Bool-cases (first == k)) [
  | inl same ↦ inl (ground arith)
  | inr later ↦ inr (ground arith)
]

module _ (capacity : Capacity) (mapping : PlanEntry) (physical : PhysicalRange)
    (permissions : MappingPermissions) (cache : CachePolicy) where
  -- The pages from `first` on, `rounds` of them, have been mapped, and no other.
  pub record Mapped (first rounds : ℕ) (p q : ConstructionPlan) : Type 0 where
    pub tree : IsTree q
    pub same_mode : q.mode ≡ p.mode
    pub inside :
        (a k : ℕ)
        → IsAddress a
        → first ≤ k
        → k < first + rounds
        → a / page_size ≡ mapping.virtual_range.start / page_size + k
        → (flags : ℕ) × (for_leaf permissions cache ≡ ok flags)
          × (resolve q a ≡ some (physical.start + k * page_size, flags))
    pub outside :
        (a : ℕ)
        → IsAddress a
        → ((k : ℕ)
            → first ≤ k
            → k < first + rounds
            → a / page_size ≢ mapping.virtual_range.start / page_size + k)
        → resolve q a ≡ resolve p a

  add_page-Inserted :
      (page : ℕ) (p q : ConstructionPlan)
      → mapping.virtual_range.start % page_size ≡ 0
      → IsTree p
      → add_page capacity mapping physical permissions cache page p ≡ ok q
      → (va flags : ℕ) × (for_leaf permissions cache ≡ ok flags)
        × (va / page_size ≡ mapping.virtual_range.start / page_size + page)
        × Inserted p q va (physical.start + page * page_size) flags
  unfolding add_page new_virtual_address new_physical_frame
  add_page-Inserted page p q aligned tree h =
      let (offset, h1, r1) =
        >>=-eq-ok (ok_or (checked_mul page page_size) arithmetic_overflow) _ h in
      let (va, h2, r2) =
        >>=-eq-ok (ok_or (checked_add mapping.virtual_range.start offset) arithmetic_overflow) _
          r1 in
      let (pa, h3, r3) =
        >>=-eq-ok (ok_or (checked_add physical.start offset) arithmetic_overflow) _ r2 in
      let (va', h4, r4) = >>=-eq-ok (map_err layout (new_virtual_address va)) _ r3 in
      let (frame, h5, r5) = >>=-eq-ok (new_physical_frame pa) _ r4 in
      let address : IsAddress va' = record { fits = ground arith; canonical = ground arith } in
      let (flags, allowed, done) =
        insert_page-Inserted capacity va' frame permissions cache p q address tree r5 in
      let at : va' ≡ mapping.virtual_range.start + page * page_size = ground arith in
      let to : frame ≡ physical.start + page * page_size = ground arith in
      (va', flags, allowed, omega (arith, at), subst (λ f. Inserted p q va' f flags) to done)

  -- The page loop of `add_mapping` that succeeds maps each of its pages to the frame at the same
  -- distance from the start of the physical range, with the flags of the permissions, and leaves
  -- the leaf of every other page as it was.
  pub add_pages-Mapped :
      (rounds first : ℕ) (p q : ConstructionPlan)
      → mapping.virtual_range.start % page_size ≡ 0
      → IsTree p
      → add_pages capacity mapping physical permissions cache rounds first p ≡ ok q
      → Mapped first rounds p q
  unfolding add_pages
  add_pages-Mapped zero first p q aligned tree h =
      let same : p ≡ q = ground arith in
      rw (← same) (record {
        tree = tree;
        same_mode = refl;
        inside = λ a k ha above below at. absurd (omega arith);
        outside = λ a ha other. refl;
      })
  add_pages-Mapped (suc rounds) first p q aligned tree h =
      let (p', step, rest) =
        >>=-eq-ok (add_page capacity mapping physical permissions cache first p) _ h in
      let (va, flags, allowed, page, one) = add_page-Inserted first p p' aligned tree step in
      let more = add_pages-Mapped rounds (first + 1) p' q aligned one.tree rest in
      record {
        tree = more.tree;
        same_mode = more.same_mode ∙ one.same_mode;
        inside = λ a k ha above below at. elim (first_or_later first k above) [
          | inl here ↦ (
            flags,
            allowed,
            more.outside a ha (λ j low high there. absurd (omega arith))
                ∙ one.own a ha (omega arith)
                ∙ ap (λ n. some (physical.start + n * page_size, flags)) here,
          )
          | inr later ↦ more.inside a k ha later (omega arith) at
        ];
        outside = λ a ha other.
            more.outside a ha (λ k low high at. other k (omega arith) (omega arith) at)
            ∙ one.others a ha (λ at. other first (omega arith) (omega arith) (omega arith));
      }
