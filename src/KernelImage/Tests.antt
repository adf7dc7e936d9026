-- ===== src/KernelImage/Tests.antt =====
-- Runs of crates/kernel-image/src/lib.rs on an image of three segments: code, constants, and data that
-- the file has no bytes of.
use unnamed_os_core.Common.{ℕ, ◌≡◌, refl, Result, ok, err, List, [], ◌∷◌, is_power_of_two}
use unnamed_os_core.KernelImage.{is_canonical, is_executable}
use unnamed_os_core.KernelImage.Bytes.{read, parse_program_header, program_header}
use unnamed_os_core.KernelImage.Validate.{
  validate_magic, parse_raw, validate_header, validate_program_table, validate_section_table,
  validate_load_segment,
}
use unnamed_os_core.KernelImage.Parse.{
  ValidatedImage, parse, scan_load, scan_header, scan_headers, collect, load_segments,
  segments_from, check_previous, check_against,
}
use unnamed_os_core.KernelImage.Image.{IsImage, parse-IsImage}
use unnamed_os_core.KernelImage.HigherHalf.{
  ValidatedHigherHalfImage, validate_higher_half_image, add_kind, check_segment, check_segments,
}
use unnamed_os_core.KernelImage.HigherHalf.Laws.{
  IsHigherHalf, validate_higher_half_image-IsHigherHalf,
}

abbrev pub bytes : List ℕ
bytes =
    0x7f ∷ 0x45 ∷ 0x4c ∷ 0x46 ∷ 0x02 ∷ 0x01 ∷ 0x01 ∷ 0x00 ∷ 0x00 ∷ 0x00 ∷ 0x00 ∷ 0x00 ∷ 0x00 ∷ 0x00
    ∷ 0x00 ∷ 0x00 ∷ 0x02 ∷ 0x00 ∷ 0x3e ∷ 0x00 ∷ 0x01 ∷ 0x00 ∷ 0x00 ∷ 0x00 ∷ 0x00 ∷ 0x00 ∷ 0x20
    ∷ 0x80 ∷ 0xff ∷ 0xff ∷ 0xff ∷ 0xff ∷ 0x40 ∷ 0x00 ∷ 0x00 ∷ 0x00 ∷ 0x00 ∷ 0x00 ∷ 0x00 ∷ 0x00
    ∷ 0x00 ∷ 0x00 ∷ 0x00 ∷ 0x00 ∷ 0x00 ∷ 0x00 ∷ 0x00 ∷ 0x00 ∷ 0x00 ∷ 0x00 ∷ 0x00 ∷ 0x00 ∷ 0x40
    ∷ 0x00 ∷ 0x38 ∷ 0x00 ∷ 0x03 ∷ 0x00 ∷ 0x00 ∷ 0x00 ∷ 0x00 ∷ 0x00 ∷ 0x00 ∷ 0x00 ∷ 0x01 ∷ 0x00
    ∷ 0x00 ∷ 0x00 ∷ 0x05 ∷ 0x00 ∷ 0x00 ∷ 0x00 ∷ 0x00 ∷ 0x00 ∷ 0x00 ∷ 0x00 ∷ 0x00 ∷ 0x00 ∷ 0x00
    ∷ 0x00 ∷ 0x00 ∷ 0x00 ∷ 0x20 ∷ 0x80 ∷ 0xff ∷ 0xff ∷ 0xff ∷ 0xff ∷ 0x00 ∷ 0x00 ∷ 0x20 ∷ 0x00
    ∷ 0x00 ∷ 0x00 ∷ 0x00 ∷ 0x00 ∷ 0xe8 ∷ 0x00 ∷ 0x00 ∷ 0x00 ∷ 0x00 ∷ 0x00 ∷ 0x00 ∷ 0x00 ∷ 0xe8
    ∷ 0x00 ∷ 0x00 ∷ 0x00 ∷ 0x00 ∷ 0x00 ∷ 0x00 ∷ 0x00 ∷ 0x00 ∷ 0x10 ∷ 0x00 ∷ 0x00 ∷ 0x00 ∷ 0x00
    ∷ 0x00 ∷ 0x00 ∷ 0x01 ∷ 0x00 ∷ 0x00 ∷ 0x00 ∷ 0x04 ∷ 0x00 ∷ 0x00 ∷ 0x00 ∷ 0x00 ∷ 0x00 ∷ 0x00
    ∷ 0x00 ∷ 0x00 ∷ 0x00 ∷ 0x00 ∷ 0x00 ∷ 0x00 ∷ 0x10 ∷ 0x20 ∷ 0x80 ∷ 0xff ∷ 0xff ∷ 0xff ∷ 0xff
    ∷ 0x00 ∷ 0x10 ∷ 0x20 ∷ 0x00 ∷ 0x00 ∷ 0x00 ∷ 0x00 ∷ 0x00 ∷ 0x40 ∷ 0x00 ∷ 0x00 ∷ 0x00 ∷ 0x00
    ∷ 0x00 ∷ 0x00 ∷ 0x00 ∷ 0x40 ∷ 0x00 ∷ 0x00 ∷ 0x00 ∷ 0x00 ∷ 0x00 ∷ 0x00 ∷ 0x00 ∷ 0x00 ∷ 0x10
    ∷ 0x00 ∷ 0x00 ∷ 0x00 ∷ 0x00 ∷ 0x00 ∷ 0x00 ∷ 0x01 ∷ 0x00 ∷ 0x00 ∷ 0x00 ∷ 0x06 ∷ 0x00 ∷ 0x00
    ∷ 0x00 ∷ 0x00 ∷ 0x00 ∷ 0x00 ∷ 0x00 ∷ 0x00 ∷ 0x00 ∷ 0x00 ∷ 0x00 ∷ 0x00 ∷ 0x20 ∷ 0x20 ∷ 0x80
    ∷ 0xff ∷ 0xff ∷ 0xff ∷ 0xff ∷ 0x00 ∷ 0x20 ∷ 0x20 ∷ 0x00 ∷ 0x00 ∷ 0x00 ∷ 0x00 ∷ 0x00 ∷ 0x00
    ∷ 0x00 ∷ 0x00 ∷ 0x00 ∷ 0x00 ∷ 0x00 ∷ 0x00 ∷ 0x00 ∷ 0x40 ∷ 0x00 ∷ 0x00 ∷ 0x00 ∷ 0x00 ∷ 0x00
    ∷ 0x00 ∷ 0x00 ∷ 0x00 ∷ 0x10 ∷ 0x00 ∷ 0x00 ∷ 0x00 ∷ 0x00 ∷ 0x00 ∷ 0x00 ∷ []

abbrev no_image : ValidatedImage
no_image = record {
  raw = record {
    bytes = [];
    header = record {
      class = 0;
      endianness = 0;
      ident_version = 0;
      os_abi = 0;
      object_type = 0;
      machine = 0;
      elf_version = 0;
      entry = 0;
      program_header_offset = 0;
      section_header_offset = 0;
      header_size = 0;
      program_header_size = 0;
      program_header_count = 0;
      section_header_size = 0;
      section_header_count = 0;
    };
  };
  load_count = 0;
  load_start = 0;
  load_end = 0;
  virtual_load_start = 0;
  virtual_load_end = 0;
}

abbrev value_or {ℓ κ} : {E : Type ℓ} {A : Type κ} → Result E A → A → A
value_or (ok a) d = a
value_or (err e) d = d

abbrev pub image : ValidatedImage
image = value_or (parse bytes) no_image

abbrev pub high : ValidatedHigherHalfImage
high = value_or (validate_higher_half_image bytes) (record { image = no_image; physical_entry = 0 })

image_parsed : parse bytes ≡ ok image
unfolding parse validate_magic parse_raw read validate_header validate_program_table
    validate_section_table collect scan_headers program_header scan_header scan_load
    validate_load_segment is_canonical is_power_of_two check_previous check_against
    parse_program_header
image_parsed = refl

high_validated : validate_higher_half_image bytes ≡ ok high
unfolding validate_higher_half_image parse validate_magic parse_raw read validate_header
    validate_program_table validate_section_table collect scan_headers program_header scan_header
    scan_load validate_load_segment is_canonical is_power_of_two check_previous check_against
    parse_program_header add_kind check_segment check_segments load_segments segments_from
    is_executable
high_validated = refl

parse-IsImage_example : IsImage image × (image.raw.bytes ≡ bytes)
parse-IsImage_example = parse-IsImage bytes image image_parsed

validate_higher_half_image-IsHigherHalf_example : IsHigherHalf bytes high
validate_higher_half_image-IsHigherHalf_example =
    validate_higher_half_image-IsHigherHalf bytes high high_validated
