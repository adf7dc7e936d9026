-- ===== src/BootProtocol/Tests.antt =====
-- Runs of crates/boot-protocol on a boot information block, a memory map and the frames of a page
-- table.
use unnamed_os_core.Common.{ℕ, ◌≡◌, refl, Fault, arith, Result, List, [], ◌∷◌, some}
use unnamed_os_core.BootProtocol.{MemoryMapInfo, FramebufferInfo, MemoryDescriptor, BootInfo, new}
use unnamed_os_core.BootProtocol.Validate.{
  ValidatedBootInfo, validate, validate_header, validate_memory_map, validate_framebuffer,
  framebuffer_bytes, validate_descriptor,
}
use unnamed_os_core.BootProtocol.Accepts.{IsBootInfo, validate_iff}
use unnamed_os_core.BootProtocol.Extensions.{
  ValidatedPageTableOwnership, OwnedPageTableFrame, ExtensionSummary, ExtensionError,
  validate_frame_address,
}
use unnamed_os_core.BootProtocol.Extensions.Area.{validate_extension_area}
use unnamed_os_core.BootProtocol.Extensions.FrameList.{
  validate_page_table_frames, check_frames, reserves,
}
use unnamed_os_core.BootProtocol.Extensions.Reads.{Safe}
use unnamed_os_core.BootProtocol.Extensions.Ends.{validate_extension_area-ends}
use unnamed_os_core.BootProtocol.Extensions.Frames.{IsOwned, validate_page_table_frames-IsOwned}

abbrev map_info : MemoryMapInfo
map_info = record {
  physical_address = 0x1000;
  descriptor_count = 3;
  descriptor_stride = 32;
  descriptor_version = 1;
  reserved0 = 0;
  byte_length = 96;
  reserved1 = 0;
}

abbrev screen : FramebufferInfo
screen = record {
  physical_address = 0x8000_0000;
  byte_length = 0x30_0000;
  width = 1024;
  height = 768;
  pixels_per_scanline = 1024;
  pixel_format = 2;
  reserved0 = 0;
}

abbrev info : BootInfo
info = new map_info screen

abbrev valid_info : ValidatedBootInfo
valid_info = record {
  raw = info;
  memory_map_byte_length = 96;
  framebuffer_required_bytes = 0x30_0000;
}

validate_iff_example : IsBootInfo info valid_info
unfolding new validate validate_header validate_memory_map validate_framebuffer framebuffer_bytes
validate_iff_example = (validate_iff info valid_info).0 refl

abbrev area : List ℕ
area = 2 ∷ 0 ∷ 0 ∷ 0 ∷ 1 ∷ 0 ∷ 16 ∷ 0 ∷ 16 ∷ 0 ∷ 0 ∷ 0 ∷ 0 ∷ 0 ∷ 0 ∷ 0 ∷ []

validate_extension_area-ends_example :
    (r : Result (Fault ExtensionError) ExtensionSummary) × (validate_extension_area 2 2 0 144 area
      ≡ some r)
    × Safe r
validate_extension_area-ends_example = validate_extension_area-ends 2 2 0 144 area (omega arith)

abbrev ownership : ValidatedPageTableOwnership
ownership = record {
  raw = record {
    hierarchy_version = 1;
    paging_level_count = 4;
    state = 2;
    page_size = 4096;
    root_physical_frame = 0x1_0000;
    owned_frame_list_physical_address = 0x8000;
    owned_frame_count = 2;
    descriptor_stride = 16;
    physical_address_cap = 0x4000_0000_0000;
    reserved0 = 0;
    reserved1 = 0;
    reserved2 = 0;
  };
  list_byte_length = 32;
}

abbrev frames : List OwnedPageTableFrame
frames =
    record { physical_frame = 0x1_0000; reserved0 = 0 }
    ∷ record { physical_frame = 0x1_1000; reserved0 = 0 }
    ∷ []

abbrev memory_map : List MemoryDescriptor
memory_map =
    record { kind = 1; reserved0 = 0; physical_start = 0x2_0000; page_count = 16; attributes = 0 }
    ∷ record { kind = 13; reserved0 = 0; physical_start = 0x1_0000; page_count = 2; attributes = 0 }
    ∷ []

validate_page_table_frames-IsOwned_example : IsOwned ownership.raw frames memory_map
unfolding validate_page_table_frames check_frames validate_frame_address reserves
    validate_descriptor
validate_page_table_frames-IsOwned_example =
    validate_page_table_frames-IsOwned ownership frames memory_map refl
