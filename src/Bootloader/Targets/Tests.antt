-- ===== src/Bootloader/Targets/Tests.antt =====
-- A run of crates/bootloader/src/load_plan.rs on the pages of an item of three bytes.
use unnamed_os_core.Common.{
  ℕ, ◌≡◌, refl, arith, ok, ◌>>=◌, List, [], ◌∷◌, length, length-replicate, replicate,
}
use unnamed_os_core.Bootloader.LoadPlan.{LoadItem, SegmentSpec, make_item, round_down, round_up}
use unnamed_os_core.Bootloader.LoadPlan.Items.{IsItem, make_item-IsItem}
use unnamed_os_core.Bootloader.Targets.{initialize_target, verify_target}
use unnamed_os_core.Bootloader.Targets.Parts.{image_of}
use unnamed_os_core.Bootloader.Targets.Laws.{verify_target_iff, verify_target-initialize_target}

abbrev source : List ℕ
source = 7 ∷ 8 ∷ 9 ∷ 10 ∷ []

abbrev segment : SegmentSpec
segment = record { file_offset = 1; file_size = 3; memory_size = 9; target = 0x20_0000; flags = 6 }

abbrev item : LoadItem
item = record {
  source_offset = 1;
  file_size = 3;
  memory_size = 9;
  target_start = 0x20_0000;
  target_end = 0x20_0009;
  page_start = 0x20_0000;
  page_count = 1;
  flags = 6;
  bss_start = 0x20_0003;
  bss_length = 6;
  zero_offset = 0;
  zero_length = 4096;
  copy_offset = 0;
  padding_start = 0x20_0009;
  padding_length = 4087;
}

item-IsItem : IsItem (length source) segment item
unfolding make_item round_down round_up
item-IsItem = make_item-IsItem segment (length source) item refl

verify_target_iff_example : verify_target item source (image_of item source) ≡ ok tt
verify_target_iff_example =
    (verify_target_iff source segment item (image_of item source) item-IsItem (omega arith)
        (omega arith)).1
      refl

abbrev noise : List ℕ
noise = replicate 4096 255

verify_target-initialize_target_example :
    (initialize_target item source noise ≡ ok (image_of item source))
    × ((initialize_target item source noise >>= λ filled. verify_target item source filled) ≡ ok tt)
verify_target-initialize_target_example =
    verify_target-initialize_target source segment item noise item-IsItem (omega arith)
      (length-replicate {A = ℕ} 4096 255) (omega arith)
