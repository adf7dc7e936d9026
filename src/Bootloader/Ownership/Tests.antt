-- ===== src/Bootloader/Ownership/Tests.antt =====
-- Runs of crates/bootloader/src/load_plan.rs at a backend that allocates whatever it is asked for.
use unnamed_os_core.Common.{ℕ, ◌≡◌, refl, ap, ◌∙◌, true, Result, ok, err, List, [], ◌∷◌, ◌++◌}
use unnamed_os_core.Bootloader.LoadPlan.{LoadItem, LoadPlan}
use unnamed_os_core.Bootloader.Ownership.{
  Reply, SegmentBackend, TargetOwnership, prepare_targets, try_release, allocated_stage,
  zeroed_stage, copied_stage, verified_stage,
}
use unnamed_os_core.Bootloader.Ownership.Held.{
  PageSpan, IsLedger, owned_ranges, IsPrepared, prepare_targets-IsPrepared,
}
use unnamed_os_core.Bootloader.Ownership.Released.{try_release-held, try_release-prepare_targets}

-- The ranges without the last one.
drop_last : List PageSpan → List PageSpan
drop_last [] = []
drop_last (x ∷ []) = []
drop_last (x ∷ y ∷ rest) = x ∷ drop_last (y ∷ rest)

drop_last-append : (xs : List PageSpan) (x : PageSpan) → drop_last (xs ++ x ∷ []) ≡ xs
unfolding drop_last
drop_last-append [] x = refl
drop_last-append (y ∷ []) x = refl
drop_last-append (y ∷ z ∷ rest) x = ap (λ l. y ∷ l) (drop_last-append (z ∷ rest) x)

abbrev kept : List PageSpan → Reply (List PageSpan) ℕ
kept b = record { backend = b; result = ok tt }

abbrev ops : SegmentBackend (List PageSpan) ℕ
ops = record {
  allocate_at = λ b start count. kept (b ++ (start, count) ∷ []);
  free = λ b start count. kept (drop_last b);
  zero_item = λ b item. kept b;
  copy = λ b item source. kept b;
  verify = λ b item source. kept b;
}

ok_not_err : {e : ℕ} → ◌≡◌ {0} {A = Result ℕ (Unit {0})} (ok tt) (err e) → ⊥
ok_not_err h = cc

ops-IsLedger : IsLedger ops (λ b. b)
ops-IsLedger = record {
  allocated = λ b start count h. refl;
  not_allocated = λ b start count e h. absurd (ok_not_err h);
  freed = λ b start count others h last. ap drop_last last ∙ drop_last-append others (start, count);
  not_freed = λ b start count e h. absurd (ok_not_err h);
  zeroed = λ b item. refl;
  copied = λ b item source. refl;
  verified = λ b item source. refl;
}

abbrev item : LoadItem
item = record {
  source_offset = 0;
  file_size = 3;
  memory_size = 9;
  target_start = 0x20_0000;
  target_end = 0x20_0009;
  page_start = 0x20_0000;
  page_count = 1;
  flags = 5;
  bss_start = 0x20_0003;
  bss_length = 6;
  zero_offset = 0;
  zero_length = 4096;
  copy_offset = 0;
  padding_start = 0x20_0009;
  padding_length = 4087;
}

abbrev plan : LoadPlan
plan = record { items = item ∷ []; total_page_bytes = 4096; entry = 0x20_0000 }

abbrev before : List PageSpan
before = (0x10_0000, 4) ∷ []

prepare_targets-IsPrepared_example :
    IsPrepared ops
      (λ b. b)
      ops-IsLedger
      plan.items
      before
      (verified_stage ∷ copied_stage ∷ zeroed_stage ∷ allocated_stage ∷ [])
      (prepare_targets ops plan (1 ∷ 2 ∷ 3 ∷ []) before)
prepare_targets-IsPrepared_example =
    prepare_targets-IsPrepared ops (λ b. b) ops-IsLedger plan (1 ∷ 2 ∷ 3 ∷ []) before

abbrev owner : TargetOwnership (List PageSpan)
owner = record {
  backend = (0x10_0000, 4) ∷ (0x20_0000, 1) ∷ [];
  slots = record { page_start = 0x20_0000; page_count = 1; owned = true } ∷ [];
}

try_release-held_example :
    let after = try_release ops owner in
    (after.0.backend ≡ before ++ owned_ranges after.0.slots)
    × (after.1 ≡ ok tt → after.0.backend ≡ before)
try_release-held_example = try_release-held ops (λ b. b) ops-IsLedger owner before refl

try_release-prepare_targets_example :
    let after = try_release ops (prepare_targets ops plan (1 ∷ 2 ∷ 3 ∷ []) before).owner in
    (after.1 ≡ ok tt) × (after.0.backend ≡ before)
try_release-prepare_targets_example =
    try_release-prepare_targets ops (λ b. b) ops-IsLedger plan (1 ∷ 2 ∷ 3 ∷ []) before
      (λ b start count. refl)
