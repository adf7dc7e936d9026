-- ===== src/Bootloader/LoadPlan.antt =====
-- `LoadPlan` of crates/bootloader/src/load_plan.rs: where the segments of a kernel are loaded. The
-- items are the live prefix of their array.
pub mod Items
pub mod Loop
pub mod Layout
use unnamed_os_core.Common.{
  ℕ, ◌+◌, ◌-◌, ◌*◌, ◌/◌, ◌%◌, Bool, not, ◌&&◌, ltb, leb, ◌==◌, bit_and, Result, ok, ◌>>=◌, ◌>>◌,
  reject_if, ok_or, List, [], ◌∷◌, ◌++◌, length, any, map, checked_add, checked_mul, checked_sub,
}
use unnamed_os_core.MemoryLayout.Align.{bit_not}
use unnamed_os_core.KernelImage.{LoadSegment}
use unnamed_os_core.KernelImage.Parse.{ValidatedImage, load_segments}

abbrev pub bootstrap_window_start : ℕ
bootstrap_window_start = 0x20_0000

abbrev pub bootstrap_window_end : ℕ
bootstrap_window_end = 0x420_0000

abbrev pub bootstrap_window_bytes : ℕ
bootstrap_window_bytes = 64 * 1024 * 1024

abbrev pub load_page_size : ℕ
load_page_size = 4096

abbrev pub max_load_items : ℕ
max_load_items = 128

pub data PlanError : Type 0 where
  no_segments too_many_segments zero_memory_size unaligned_target : PlanError
  source_range_overflow range_overflow page_rounding_overflow source_outside_file : PlanError
  below_window above_window total_size_overflow total_size_exceeded rounded_overlap : PlanError
  source_overlap entry_outside_executable_segment : PlanError

pub record SourceAllocation : Type 0 where
  pub page_start : ℕ
  pub page_count : ℕ
  pub file_length : ℕ

unfoldable pub page_end : SourceAllocation → Result PlanError ℕ
page_end source = do
  bytes ← ok_or (checked_mul source.page_count load_page_size) range_overflow
  ok_or (checked_add source.page_start bytes) range_overflow

pub record SegmentSpec : Type 0 where
  pub file_offset : ℕ
  pub file_size : ℕ
  pub memory_size : ℕ
  pub target : ℕ
  pub flags : ℕ

pub record LoadItem : Type 0 where
  pub source_offset : ℕ
  pub file_size : ℕ
  pub memory_size : ℕ
  pub target_start : ℕ
  pub target_end : ℕ
  pub page_start : ℕ
  pub page_count : ℕ
  pub flags : ℕ
  pub bss_start : ℕ
  pub bss_length : ℕ
  pub zero_offset : ℕ
  pub zero_length : ℕ
  pub copy_offset : ℕ
  pub padding_start : ℕ
  pub padding_length : ℕ

abbrev pub page_length : LoadItem → ℕ
page_length item = item.zero_length

unfoldable pub is_executable : LoadItem → Bool
is_executable item = not (bit_and item.flags 1 == 0)

pub record LoadPlan : Type 0 where
  pub items : List LoadItem
  pub total_page_bytes : ℕ
  pub entry : ℕ

unfoldable pub round_down : ℕ → ℕ → ℕ
round_down value alignment = bit_and value (bit_not (alignment - 1))

unfoldable pub round_up : ℕ → ℕ → Result PlanError ℕ
round_up value alignment = do
  rounded ← ok_or (checked_add value (alignment - 1)) page_rounding_overflow
  ok (bit_and rounded (bit_not (alignment - 1)))

unfoldable pub make_item : SegmentSpec → ℕ → Result PlanError LoadItem
make_item segment source_length = do
  reject_if (segment.memory_size == 0) zero_memory_size
  reject_if (not (segment.target % load_page_size == 0)) unaligned_target
  source_end ← ok_or (checked_add segment.file_offset segment.file_size) source_range_overflow
  reject_if (ltb source_length source_end) source_outside_file
  target_end ← ok_or (checked_add segment.target segment.memory_size) range_overflow
  let page_start = round_down segment.target load_page_size
  rounded_end ← round_up target_end load_page_size
  length ← ok_or (checked_sub rounded_end page_start) range_overflow
  reject_if (length / load_page_size == 0) zero_memory_size
  bss_start ← ok_or (checked_add segment.target segment.file_size) range_overflow
  bss_length ← ok_or (checked_sub segment.memory_size segment.file_size) range_overflow
  copy_offset ← ok_or (checked_sub segment.target page_start) range_overflow
  padding_length ← ok_or (checked_sub rounded_end target_end) range_overflow
  ok (record {
    source_offset = segment.file_offset;
    file_size = segment.file_size;
    memory_size = segment.memory_size;
    target_start = segment.target;
    target_end = target_end;
    page_start = page_start;
    page_count = length / load_page_size;
    flags = segment.flags;
    bss_start = bss_start;
    bss_length = bss_length;
    zero_offset = 0;
    zero_length = length;
    copy_offset = copy_offset;
    padding_start = target_end;
    padding_length = padding_length;
  })

abbrev pub ranges_overlap : ℕ → ℕ → ℕ → ℕ → Bool
ranges_overlap left_start left_end right_start right_end =
    ltb left_start right_end && ltb right_start left_end

-- The loop over the items that are planned already.
unfoldable pub check_items : LoadItem → ℕ → List LoadItem → Result PlanError (Unit {0})
check_items item item_end [] = ok tt
check_items item item_end (previous ∷ rest) = do
  previous_end ← ok_or (checked_add previous.page_start (page_length previous)) range_overflow
  reject_if (ranges_overlap previous.page_start previous_end item.page_start item_end)
      rounded_overlap
  check_items item item_end rest

-- The body of the loop of `build`, with the end of the source's pages.
unfoldable pub add_segment :
    SourceAllocation → ℕ → SegmentSpec → LoadPlan → Result PlanError LoadPlan
add_segment source source_page_end segment plan = do
  reject_if (length plan.items == max_load_items) too_many_segments
  item ← make_item segment source.file_length
  reject_if (ltb item.page_start bootstrap_window_start) below_window
  item_end ← ok_or (checked_add item.page_start (page_length item)) range_overflow
  reject_if (ltb bootstrap_window_end item_end) above_window
  check_items item item_end plan.items
  reject_if (ranges_overlap source.page_start source_page_end item.page_start item_end)
      source_overlap
  total ← ok_or (checked_add plan.total_page_bytes (page_length item)) total_size_overflow
  reject_if (ltb bootstrap_window_bytes total) total_size_exceeded
  ok (record plan { items = plan.items ++ item ∷ []; total_page_bytes = total })

unfoldable pub add_segments :
    SourceAllocation → ℕ → List SegmentSpec → LoadPlan → Result PlanError LoadPlan
add_segments source source_page_end [] plan = ok plan
add_segments source source_page_end (segment ∷ rest) plan = do
  next ← add_segment source source_page_end segment plan
  add_segments source source_page_end rest next

abbrev pub enters : ℕ → LoadItem → Bool
enters entry item = is_executable item && leb item.target_start entry && ltb entry item.target_end

unfoldable pub build : ℕ → List SegmentSpec → SourceAllocation → Result PlanError LoadPlan
build entry segments source = do
  source_page_end ← page_end source
  plan ←
      add_segments source source_page_end segments
        (record { items = []; total_page_bytes = 0; entry = entry })
  reject_if (length plan.items == 0) no_segments
  reject_if (not (any (enters entry) plan.items)) entry_outside_executable_segment
  ok plan

abbrev pub to_spec : LoadSegment → SegmentSpec
to_spec s = record {
  file_offset = s.file_offset;
  file_size = s.file_size;
  memory_size = s.memory_size;
  target = s.physical_address;
  flags = s.flags;
}

unfoldable pub from_validated : ValidatedImage → SourceAllocation → Result PlanError LoadPlan
unfolding build
from_validated image source =
    build image.raw.header.entry (map to_spec (load_segments image)) source
