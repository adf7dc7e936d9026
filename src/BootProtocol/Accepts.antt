-- ===== src/BootProtocol/Accepts.antt =====
-- Which boot information `BootInfo::validate` and `MemoryDescriptor::validate`
-- (crates/boot-protocol/src/lib.rs) accept.
use unnamed_os_core.Common.{
  ℕ, ◌+◌, ◌*◌, ◌%◌, ◌≤◌, ◌<◌, ◌≡◌, refl, sym, ap, ◌∙◌, ◌↔◌, ◌⊎◌, arith, not, ◌==◌, ==_iff, ok, ◌>>◌,
  >>=-eq-ok, reject_if, u64_end,
}
use unnamed_os_core.BootProtocol.{
  abi_magic, abi_major, abi_minor, boot_info_header_size, boot_info_size, memory_descriptor_size,
  memory_descriptor_alignment, memory_page_size, pixel_format_rgbx8888, pixel_format_bgrx8888,
  bytes_per_pixel, BootInfoHeader, MemoryMapInfo, MemoryDescriptor, FramebufferInfo, BootInfo,
  reserved_not_zero, boot_info0, boot_info1,
}
use unnamed_os_core.BootProtocol.Validate.{
  validate_header, validate_memory_map, framebuffer_bytes, validate_framebuffer, ValidatedBootInfo,
  validate, ValidatedMemoryDescriptor, validate_descriptor,
}

pub record IsHeader (header : BootInfoHeader) : Type 0 where
  pub magic : header.magic ≡ abi_magic
  pub major : header.major ≡ abi_major
  pub header_size : header.header_size ≡ boot_info_header_size
  pub total_size : boot_info_size ≤ header.total_size
  pub exact : header.minor ≡ abi_minor → header.total_size ≡ boot_info_size
  pub reserved0 : header.reserved0 ≡ 0
  pub reserved1 : header.reserved1 ≡ 0
  pub flags : header.flags ≡ 0

pub record IsMemoryMap (m : MemoryMapInfo) : Type 0 where
  pub address : 0 < m.physical_address
  pub count : 0 < m.descriptor_count
  pub stride : memory_descriptor_size ≤ m.descriptor_stride
  pub aligned : m.descriptor_stride % memory_descriptor_alignment ≡ 0
  pub reserved0 : m.reserved0 ≡ 0
  pub reserved1 : m.reserved1 ≡ 0
  pub byte_length : m.byte_length ≡ m.descriptor_count * m.descriptor_stride
  pub fits : m.physical_address + m.byte_length < u64_end

pub record IsFramebuffer (f : FramebufferInfo) : Type 0 where
  pub address : 0 < f.physical_address
  pub length : 0 < f.byte_length
  pub width : 0 < f.width
  pub height : 0 < f.height
  pub stride : f.width ≤ f.pixels_per_scanline
  pub format : (f.pixel_format ≡ pixel_format_rgbx8888) ⊎ (f.pixel_format ≡ pixel_format_bgrx8888)
  pub reserved0 : f.reserved0 ≡ 0
  pub holds : f.pixels_per_scanline * f.height * bytes_per_pixel ≤ f.byte_length
  pub fits : f.physical_address + f.byte_length < u64_end

validate_header_iff : (header : BootInfoHeader) → (validate_header header ≡ ok tt) ↔ IsHeader header
unfolding validate_header
validate_header_iff header = (
  λ h. record {
    magic = ground arith;
    major = ground arith;
    header_size = ground arith;
    total_size = ground arith;
    exact = λ e. ground arith;
    reserved0 = ground arith;
    reserved1 = ground arith;
    flags = ground arith;
  },
  λ h. ground (
    arith, h.magic, h.major, h.header_size, h.total_size, h.exact, h.reserved0, h.reserved1,
    h.flags,
  ),
)

validate_memory_map_iff :
    (m : MemoryMapInfo) (n : ℕ)
    → (validate_memory_map m ≡ ok n) ↔ (IsMemoryMap m × (n ≡ m.byte_length))
unfolding validate_memory_map
validate_memory_map_iff m n = (
  λ h. (
    record {
      address = ground arith;
      count = ground arith;
      stride = ground arith;
      aligned = ground arith;
      reserved0 = ground arith;
      reserved1 = ground arith;
      byte_length = ground arith;
      fits = ground arith;
    },
    ground arith,
  ),
  λ h. ground (
    arith, h.0.address, h.0.count, h.0.stride, h.0.aligned, h.0.reserved0, h.0.reserved1,
    h.0.byte_length, h.0.fits, h.1,
  ),
)

validate_framebuffer_iff :
    (f : FramebufferInfo) (n : ℕ)
    → (validate_framebuffer f ≡ ok n)
      ↔ (IsFramebuffer f × (n ≡ f.pixels_per_scanline * f.height * bytes_per_pixel))
unfolding validate_framebuffer framebuffer_bytes
validate_framebuffer_iff f n = (
  λ h. (
    record {
      address = ground arith;
      length = ground arith;
      width = ground arith;
      height = ground arith;
      stride = ground arith;
      format = ground arith;
      reserved0 = ground arith;
      holds = ground arith;
      fits = ground arith;
    },
    ground arith,
  ),
  λ h. ground (
    arith, h.0.address, h.0.length, h.0.width, h.0.height, h.0.stride, h.0.format, h.0.reserved0,
    h.0.holds, h.0.fits, h.1,
  ),
)

-- What boot information is to be: header, memory map and framebuffer of the wire format, with its
-- reserved words zero and its byte lengths below 2^64.
pub record IsBootInfo (info : BootInfo) (v : ValidatedBootInfo) : Type 0 where
  pub header : IsHeader info.header
  pub memory_map : IsMemoryMap info.memory_map
  pub framebuffer : IsFramebuffer info.framebuffer
  pub reserved0 : info.reserved0 ≡ 0
  pub reserved1 : info.reserved1 ≡ 0
  pub result : v ≡ record {
    raw = info;
    memory_map_byte_length = info.memory_map.byte_length;
    framebuffer_required_bytes =
        info.framebuffer.pixels_per_scanline * info.framebuffer.height * bytes_per_pixel;
  }

-- Boot information is accepted exactly if its header names the major version of the protocol and a size
-- that holds it, the memory
-- map has a nonempty array of whole descriptors whose length is the one it says and which ends below
-- 2^64, the framebuffer holds all scanlines of its dimensions in a known format and ends below 2^64,
-- and every reserved field is zero; the lengths that are returned are those of the map and of the
-- scanlines.
pub validate_iff :
    (info : BootInfo) (v : ValidatedBootInfo) → (validate info ≡ ok v) ↔ IsBootInfo info v
unfolding validate
validate_iff info v = (
  λ h.
      let (_, header, h1) = >>=-eq-ok (validate_header info.header) _ h in
      let (map_length, map, h2) = >>=-eq-ok (validate_memory_map info.memory_map) _ h1 in
      let (required, frames, h3) = >>=-eq-ok (validate_framebuffer info.framebuffer) _ h2 in
      let (is_map, map_is) = (validate_memory_map_iff info.memory_map map_length).0 map in
      let (is_frames, frames_are) = (validate_framebuffer_iff info.framebuffer required).0 frames in
      let (zero0, zero1, same) = tail info v map_length required h3 in
      record {
        header = (validate_header_iff info.header).0 header;
        memory_map = is_map;
        framebuffer = is_frames;
        reserved0 = zero0;
        reserved1 = zero1;
        result =
            same
            ∙ ap
                (λ n. record {
                  raw = info;
                  memory_map_byte_length = n;
                  framebuffer_required_bytes = required;
                })
                map_is
            ∙ ap
                (λ n. record {
                  raw = info;
                  memory_map_byte_length = info.memory_map.byte_length;
                  framebuffer_required_bytes = n;
                })
                frames_are;
      },
  λ is.
      let header = (validate_header_iff info.header).1 is.header in
      let map =
        (validate_memory_map_iff info.memory_map info.memory_map.byte_length).1
          (is.memory_map, refl) in
      let frames = (validate_framebuffer_iff info.framebuffer _).1 (is.framebuffer, refl) in
      let zero0 = (==_iff info.reserved0 0).1 is.reserved0 in
      let zero1 = (==_iff info.reserved1 0).1 is.reserved1 in
      rw (header, map, frames, zero0, zero1) (ap ok (sym is.result)),
)
  where
    tail :
        (info : BootInfo) (v : ValidatedBootInfo) (map_length required : ℕ)
        → (do
          reject_if (not (info.reserved0 == 0)) (reserved_not_zero boot_info0)
          reject_if (not (info.reserved1 == 0)) (reserved_not_zero boot_info1)
          ok (record {
            raw = info;
            memory_map_byte_length = map_length;
            framebuffer_required_bytes = required;
          }))
          ≡ ok v
        → (info.reserved0 ≡ 0)
          × (info.reserved1 ≡ 0)
          × (v ≡ record {
            raw = info;
            memory_map_byte_length = map_length;
            framebuffer_required_bytes = required;
          })
    tail info v map_length required h = (ground arith, ground arith, ground arith)

-- A descriptor is accepted exactly if its reserved word is zero and it has at least one page, starts at
-- a page boundary and ends below 2^64; the length that is returned is that of its pages.
pub validate_descriptor_iff :
    (d : MemoryDescriptor) (v : ValidatedMemoryDescriptor)
    → (validate_descriptor d ≡ ok v) ↔ (
        (d.reserved0 ≡ 0)
        × (0 < d.page_count)
        × (d.physical_start % memory_page_size ≡ 0)
        × (d.physical_start + d.page_count * memory_page_size < u64_end)
        × (v ≡ record { raw = d; byte_length = d.page_count * memory_page_size }))
unfolding validate_descriptor
validate_descriptor_iff d v =
    (λ h. (ground arith, ground arith, ground arith, ground arith, ground arith), λ h. ground arith)
