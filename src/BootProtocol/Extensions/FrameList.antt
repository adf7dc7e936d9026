-- ===== src/BootProtocol/Extensions/FrameList.antt =====
-- The frames of a page-table ownership, `validate_page_table_frames` of
-- crates/boot-protocol/src/extensions.rs.
use unnamed_os_core.Common.{
  ℕ, ◌+◌, ◌*◌, Bool, false, not, ◌&&◌, ltb, leb, ◌==◌, if◌then◌else◌, Result, ok, err, ◌>>=◌, ◌>>◌,
  reject_if, List, [], ◌∷◌, ◌++◌, length, any,
}
use unnamed_os_core.BootProtocol.{memory_kind_page_table, memory_page_size, MemoryDescriptor}
use unnamed_os_core.BootProtocol.Validate.{validate_descriptor}
use unnamed_os_core.BootProtocol.Extensions.{
  PageTableOwnership, ExtensionError, validate_frame_address, ValidatedPageTableOwnership,
  OwnedPageTableFrame, owned_frame_count_mismatch, owned_frame_reserved_not_zero,
  duplicate_owned_frame, root_frame_missing_or_duplicated, owned_frame_not_reserved,
}

-- The test of a descriptor for a frame: validation has bounded its product and sum.
unfoldable pub reserves : ℕ → MemoryDescriptor → Bool
reserves frame d =
    if not (d.kind == memory_kind_page_table) then false else (elim (validate_descriptor d) [
      | err _ ↦ false
      | ok _ ↦
          leb d.physical_start frame
          && ltb frame (d.physical_start + d.page_count * memory_page_size)
    ])

-- The loop over the frames behind the `previous` ones; there are fewer than 2^32, so that the count of
-- the root does not overflow.
unfoldable pub check_frames :
    PageTableOwnership
    → List MemoryDescriptor
    → List OwnedPageTableFrame
    → List OwnedPageTableFrame
    → ℕ
    → Result ExtensionError ℕ
check_frames o memory_map previous [] root_count = ok root_count
check_frames o memory_map previous (frame ∷ rest) root_count = do
  reject_if (not (frame.reserved0 == 0)) owned_frame_reserved_not_zero
  validate_frame_address frame.physical_frame o.physical_address_cap
  reject_if (any (λ p. p.physical_frame == frame.physical_frame) previous) duplicate_owned_frame
  let next_count =
      if frame.physical_frame == o.root_physical_frame then root_count + 1 else root_count
  reject_if (not (any (reserves frame.physical_frame) memory_map)) owned_frame_not_reserved
  check_frames o memory_map (previous ++ frame ∷ []) rest next_count

unfoldable pub validate_page_table_frames :
    ValidatedPageTableOwnership
    → List OwnedPageTableFrame
    → List MemoryDescriptor
    → Result ExtensionError (Unit {0})
validate_page_table_frames ownership frames memory_map = do
  reject_if (not (length frames == ownership.raw.owned_frame_count)) owned_frame_count_mismatch
  root_count ← check_frames ownership.raw memory_map [] frames 0
  reject_if (not (root_count == 1)) root_frame_missing_or_duplicated
