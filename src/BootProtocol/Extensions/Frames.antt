-- ===== src/BootProtocol/Extensions/Frames.antt =====
-- Which lists of page-table frames `validate_page_table_frames`
-- (crates/boot-protocol/src/extensions.rs) accepts.
use unnamed_os_core.Common.{
  ℕ, suc, ◌+◌, ◌*◌, ◌%◌, ◌≤◌, ◌<◌, ◌≡◌, ◌≢◌, refl, inl, inr, arith, Bool, true, false, not, ◌==◌,
  ==_iff, ◌||◌, Result-cases, subst, ok_or, checked_add, checked_mul, ok_or-checked_add,
  ok_or-checked_mul, u64_end, if◌then◌else◌, Bool-cases, ok, >>=-eq-ok, ok-injective, reject_if,
  reject_if-ok, reject_if-not, List, [], ◌∷◌, ◌++◌, length, get_elem?, some, any, any-get_elem?,
  All, All-map, Pairwise,
}
use unnamed_os_core.BootProtocol.{MemoryDescriptor, memory_page_size}
use unnamed_os_core.BootProtocol.Validate.{ValidatedMemoryDescriptor, validate_descriptor}
use unnamed_os_core.BootProtocol.Extensions.{
  PageTableOwnership, ValidatedPageTableOwnership, OwnedPageTableFrame, validate_frame_address,
  owned_frame_reserved_not_zero, duplicate_owned_frame, owned_frame_not_reserved,
  owned_frame_count_mismatch, root_frame_missing_or_duplicated,
}
use unnamed_os_core.BootProtocol.Extensions.FrameList.{
  reserves, check_frames, validate_page_table_frames,
}

-- A valid descriptor of pages for page tables that holds a frame.
pub record Reserves (frame : ℕ) (d : MemoryDescriptor) : Type 0 where
  pub kind : d.kind ≡ 13
  pub reserved0 : d.reserved0 ≡ 0
  pub pages : 0 < d.page_count
  pub aligned : d.physical_start % 4096 ≡ 0
  pub fits : d.physical_start + d.page_count * 4096 < u64_end
  pub above : d.physical_start ≤ frame
  pub below : frame < d.physical_start + d.page_count * 4096

-- A frame of a page table: its reserved word is zero, it is a page-aligned frame above 0 and below the
-- cap, and a valid descriptor of the memory map reserves it for page tables.
pub record IsFrame (cap : ℕ) (memory_map : List MemoryDescriptor) (frame : OwnedPageTableFrame)
    : Type 0 where
  pub reserved0 : frame.reserved0 ≡ 0
  pub above : 0 < frame.physical_frame
  pub aligned : frame.physical_frame % memory_page_size ≡ 0
  pub below : frame.physical_frame + memory_page_size ≤ cap
  pub reserved :
      (i : ℕ) × (d : MemoryDescriptor) × (get_elem? memory_map i ≡ some d)
      × Reserves frame.physical_frame d

-- What holds of the frames behind `previous` ones.
record IsChecked (o : PageTableOwnership) (memory_map : List MemoryDescriptor)
    (previous rest : List OwnedPageTableFrame) (before after : ℕ) : Type 0 where
  each : All (IsFrame o.physical_address_cap memory_map) rest
  fresh : All (λ f. any (λ p. p.physical_frame == f.physical_frame) previous ≡ false) rest
  distinct : Pairwise (λ a b. a.physical_frame ≢ b.physical_frame) rest
  root :
      before < after
      → (i : ℕ) × (f : OwnedPageTableFrame) × (get_elem? rest i ≡ some f)
        × (f.physical_frame ≡ o.root_physical_frame)

-- What the validation of a descriptor has checked.
validate_descriptor_lem :
    (d : MemoryDescriptor) (v : ValidatedMemoryDescriptor)
    → validate_descriptor d ≡ ok v
    → (d.reserved0 ≡ 0)
      × (0 < d.page_count)
      × (d.physical_start % 4096 ≡ 0)
      × (d.physical_start + d.page_count * 4096 < u64_end)
unfolding validate_descriptor
validate_descriptor_lem d v h =
    let (_, e1, h1) = >>=-eq-ok (reject_if (not (d.reserved0 == 0)) _) _ h in
    let (_, e2, h2) =
      >>=-eq-ok (reject_if (d.page_count == 0 || not (d.physical_start % memory_page_size == 0)) _)
        _ h1 in
    let (bytes, e3, h3) = >>=-eq-ok (ok_or (checked_mul d.page_count memory_page_size) _) _ h2 in
    let (end, e4, _) = >>=-eq-ok (ok_or (checked_add d.physical_start bytes) _) _ h3 in
    let product = (ok_or-checked_mul _ d.page_count memory_page_size bytes e3).0 in
    let sum = (ok_or-checked_add _ d.physical_start bytes end e4).1 in
    let whole = reject_if-ok _ _ e2 in
    (
      (==_iff _ _).0 (reject_if-not _ _ e1),
      positive d.page_count _ whole,
      aligned d.physical_start _ whole,
      subst (λ n. d.physical_start + n < u64_end) product sum,
    )
  where
    positive : (n : ℕ) (b : Bool) → (n == 0 || b) ≡ false → 0 < n
    positive n b h = ground arith

    aligned : (n : ℕ) (b : Bool) → (b || not (n % 4096 == 0)) ≡ false → n % 4096 ≡ 0
    aligned n b h = ground arith

reserves-Reserves : (frame : ℕ) (d : MemoryDescriptor) → reserves frame d ≡ true → Reserves frame d
unfolding reserves
reserves-Reserves frame d h = elim (Result-cases (validate_descriptor d)) [
  | inr (e, bad) ↦ absurd (ground (arith, bad, h))
  | inl (v, good) ↦
      let (reserved0, pages, aligned, fits) = validate_descriptor_lem d v good in
      record {
        kind = ground (arith, good, h);
        reserved0 = reserved0;
        pages = pages;
        aligned = aligned;
        fits = fits;
        above = ground (arith, good, h);
        below = ground (arith, good, h);
      }
]

validate_frame_address_lem :
    (address cap : ℕ)
    → validate_frame_address address cap ≡ ok tt
    → (0 < address) × (address % memory_page_size ≡ 0) × (address + memory_page_size ≤ cap)
unfolding validate_frame_address
validate_frame_address_lem address cap h = (ground arith, ground arith, ground arith)

any-append_false {ℓ} :
    {A : Type ℓ} (p : A → Bool) (xs : List A) (x : A)
    → any p (xs ++ x ∷ []) ≡ false
    → (any p xs ≡ false) × (p x ≡ false)
any-append_false p [] x h = (refl, ground (arith, h))
any-append_false p (y ∷ ys) x h = elim (Bool-cases (p y)) [
  | inl e ↦ absurd (ground (arith, e, h))
  | inr e ↦ let rest = any-append_false p ys x (ground (arith, e, h)) in (rw e rest.0, rest.1)
]

module _ (o : PageTableOwnership) (memory_map : List MemoryDescriptor) where
  check_frames-IsChecked :
      (previous rest : List OwnedPageTableFrame) (before after : ℕ)
      → check_frames o memory_map previous rest before ≡ ok after
      → IsChecked o memory_map previous rest before after
  unfolding check_frames
  check_frames-IsChecked previous [] before after h =
      let same : before ≡ after = ok-injective h in
      record {
        each = tt;
        fresh = tt;
        distinct = tt;
        root = λ more. absurd (omega (arith, same, more));
      }
  check_frames-IsChecked previous (frame ∷ rest) before after h =
      let (_, e1, h1) =
        >>=-eq-ok (reject_if (not (frame.reserved0 == 0)) owned_frame_reserved_not_zero) _ h in
      let (_, e2, h2) =
        >>=-eq-ok (validate_frame_address frame.physical_frame o.physical_address_cap) _ h1 in
      let seen : Bool = any (λ p. p.physical_frame == frame.physical_frame) previous in
      let (_, e3, h3) = >>=-eq-ok (reject_if seen duplicate_owned_frame) _ h2 in
      let held : Bool = any (reserves frame.physical_frame) memory_map in
      let (_, e4, h4) = >>=-eq-ok (reject_if (not held) owned_frame_not_reserved) _ h3 in
      let is_root : Bool = frame.physical_frame == o.root_physical_frame in
      let next : ℕ = if is_root then before + 1 else before in
      let checked = check_frames-IsChecked (previous ++ frame ∷ []) rest next after h4 in
      let (above, aligned, below) = validate_frame_address_lem _ _ e2 in
      let split =
        All-map
          (λ f new. any-append_false (λ p. p.physical_frame == f.physical_frame) previous frame new)
          rest checked.fresh in
      record {
        each = (
          record {
            reserved0 = (==_iff _ _).0 (reject_if-not owned_frame_reserved_not_zero _ e1);
            above = above;
            aligned = aligned;
            below = below;
            reserved =
                let (i, d, found, is) =
                  any-get_elem? (reserves frame.physical_frame) memory_map
                    (reject_if-not owned_frame_not_reserved _ e4) in
                (i, d, found, reserves-Reserves frame.physical_frame d is);
          },
          checked.each,
        );
        fresh = (reject_if-ok duplicate_owned_frame _ e3, All-map (λ f s. s.0) rest split);
        distinct = (
          All-map (λ f s same. differs frame.physical_frame f.physical_frame s.1 same) rest split,
          checked.distinct,
        );
        root = λ more. elim (Bool-cases is_root) [
          | inl e ↦ (0, frame, refl, (==_iff _ _).0 e)
          | inr e ↦
              let (i, f, found, is) = checked.root (later is_root before after e more) in
              (suc i, f, found, is)
        ];
      }
    where
      differs : (a b : ℕ) → (a == b) ≡ false → a ≢ b
      differs a b h same = ground arith

      later :
          (b : Bool) (before after : ℕ)
          → b ≡ false
          → before < after
          → (if b then before + 1 else before) < after
      later b before after h more = rw h more

-- What the frames of an ownership are to be.
pub record IsOwned (o : PageTableOwnership) (frames : List OwnedPageTableFrame)
    (memory_map : List MemoryDescriptor) : Type 0 where
  pub count : length frames ≡ o.owned_frame_count
  pub each : All (IsFrame o.physical_address_cap memory_map) frames
  pub distinct : Pairwise (λ a b. a.physical_frame ≢ b.physical_frame) frames
  pub root :
      (i : ℕ) × (f : OwnedPageTableFrame) × (get_elem? frames i ≡ some f)
      × (f.physical_frame ≡ o.root_physical_frame)

-- Frames that `validate_page_table_frames` accepts are as many as the ownership says, pairwise
-- different, each a page-aligned frame above 0 and below the cap which is in the range of a valid
-- descriptor of the memory map with the kind of page tables, and one of them is the root.
pub validate_page_table_frames-IsOwned :
    (ownership : ValidatedPageTableOwnership) (frames : List OwnedPageTableFrame)
    (memory_map : List MemoryDescriptor)
    → validate_page_table_frames ownership frames memory_map ≡ ok tt
    → IsOwned ownership.raw frames memory_map
unfolding validate_page_table_frames
validate_page_table_frames-IsOwned ownership frames memory_map h =
    let (_, counted, h1) =
      >>=-eq-ok
        (reject_if (not (length frames == ownership.raw.owned_frame_count))
          owned_frame_count_mismatch)
        _ h in
    let (roots, checked, one) =
      >>=-eq-ok (check_frames ownership.raw memory_map [] frames 0) _ h1 in
    let is = check_frames-IsChecked ownership.raw memory_map [] frames 0 roots checked in
    let single : roots ≡ 1 =
      (==_iff _ _).0 (reject_if-not root_frame_missing_or_duplicated _ one) in
    record {
      count = (==_iff _ _).0 (reject_if-not owned_frame_count_mismatch _ counted);
      each = is.each;
      distinct = is.distinct;
      root = is.root (omega (arith, single));
    }
