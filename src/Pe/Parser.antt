-- ===== src/Pe/Parser.antt =====
-- upx-killer-engine/Core/PE/Parsing/PeParser.cpp.
pub mod Sections
pub mod Accepted
use upx_killer.Common.{
  ℕ, zero, suc, ◌+◌, ◌-◌, ◌*◌, ◌^◌, min, max, bit_and, Bool, true, false, not, ◌&&◌, ◌||◌, Option,
  none, some, List, [], ◌∷◌, ◌++◌, Bytes, ltb, leb, ◌==◌, ◌!=◌, length, get_elem?, take, drop,
  replicate, if◌then◌else◌,
}
use upx_killer.Common.Reading.{le_value}
use upx_killer.Common.Results.{Result, ok, err, ◌>>=◌, ◌>>◌, reject_if}
use upx_killer.Pe.Headers.{PeFormatTraits, WindowsHeaders, pe_directory_count, is_readable, field}
use upx_killer.Pe.Format.{
  PeFormat, PeImageKind, SourceLoadPolicy, PeDataDirectory, PeSection, PeImageLayout,
}

pub data PeError : Type 0 where
  truncated invalid_signature unsupported_pe32 unsupported_architecture unsupported_image_kind :
      PeError
  invalid_alignment invalid_section_table image_too_large : PeError

unfoldable pub is_power_of_two : ℕ → Bool
is_power_of_two value = value != 0 && bit_and value (value - 1) == 0

unfoldable pub range_fits : ℕ → ℕ → ℕ → Bool
range_fits offset size limit = leb offset limit && leb size (limit - offset)

unfoldable pub section_at : WindowsHeaders → Bytes → ℕ → PeSection
section_at h bytes at = record {
  name = take 8 (drop at bytes);
  virtual_address = field 4 bytes (at + h.virtual_address_offset);
  virtual_size = field 4 bytes (at + h.virtual_size_offset);
  raw_offset = field 4 bytes (at + h.raw_pointer_offset);
  raw_size = field 4 bytes (at + h.raw_size_offset);
  characteristics = field 4 bytes (at + h.section_characteristics_offset);
}

abbrev pub virtual_extent : PeSection → ℕ
virtual_extent section = max section.virtual_size section.raw_size

-- The tests of one section.
unfoldable pub check_section : ℕ → ℕ → ℕ → PeSection → Result PeError (Unit {0})
check_section file_size size_of_image previous_end section = do
  reject_if
      (not (range_fits section.virtual_address (virtual_extent section) size_of_image)
        || ltb section.virtual_address previous_end)
      PeError.invalid_section_table
  reject_if
      (section.raw_size != 0 && not (range_fits section.raw_offset section.raw_size file_size))
      PeError.truncated

-- `rounds` rounds of the loop over the sections from `index` on, whose results come in order.
unfoldable pub parse_sections :
    WindowsHeaders → Bytes → ℕ → ℕ → ℕ → ℕ → ℕ → Result PeError (List PeSection)
parse_sections h bytes table size_of_image zero index previous_end = ok []
parse_sections h bytes table size_of_image (suc rounds) index previous_end = do
  let at = table + index * h.section_header_size
  let section = section_at h bytes at
  reject_if (not (is_readable bytes at h.section_header_size)) PeError.truncated
  check_section (length bytes) size_of_image previous_end section
  sections ←
      parse_sections h bytes table size_of_image rounds (index + 1)
        (section.virtual_address + virtual_extent section)
  ok (section ∷ sections)

-- `rounds` directories from `index` on.
unfoldable pub read_directories : Bytes → ℕ → ℕ → List PeDataDirectory
read_directories bytes table zero = []
read_directories bytes table (suc rounds) =
    record { address = field 4 bytes table; size = field 4 bytes (table + 4) }
    ∷ read_directories bytes (table + 8) rounds

abbrev pub no_directory : PeDataDirectory
no_directory = record { address = 0; size = 0 }

abbrev pub directory_or_none : Option PeDataDirectory → PeDataDirectory
directory_or_none none = no_directory
directory_or_none (some directory) = directory

-- The layout's array: those of the optional header, and empty ones.
unfoldable pub directories_of : PeFormatTraits → Bytes → ℕ → List PeDataDirectory
directories_of traits bytes optional =
    let count = min (field 4 bytes (optional + traits.directory_count_offset)) pe_directory_count in
    read_directories bytes (optional + traits.directory_offset) count
    ++ replicate (pe_directory_count - count) no_directory

-- The layout but for its sections; `file` and `optional` are the offsets of the two headers.
unfoldable pub layout_at :
    WindowsHeaders → PeFormatTraits → Bytes → ℕ → ℕ → ℕ → List PeSection → PeImageLayout
layout_at h traits bytes nt file optional sections =
    let characteristics = field 2 bytes (file + h.characteristics_offset) in
    let dll = field 2 bytes (optional + h.dll_characteristics_offset) in
    let base = field traits.address_width bytes (optional + traits.image_base_offset) in
    let directories = directories_of traits bytes optional in
    let relocations = directory_or_none (get_elem? directories h.base_relocation_entry) in
    record {
      format = traits.format;
      image_kind =
          if bit_and characteristics h.dynamic_library != 0
          then PeImageKind.dynamic_library
          else PeImageKind.executable;
      source_load_policy = record {
        preferred_image_base = base;
        dynamic_base = bit_and dll h.dynamic_base != 0;
        high_entropy_va = bit_and dll h.high_entropy_va != 0;
        has_relocations =
            bit_and characteristics h.relocations_stripped == 0
            && relocations.address != 0
            && relocations.size != 0;
      };
      machine = field 2 bytes (file + h.machine_offset);
      nt_header_offset = nt;
      preferred_image_base = base;
      entry_point = field 4 bytes (optional + h.entry_point_offset);
      size_of_image = field 4 bytes (optional + h.size_of_image_offset);
      size_of_headers = field 4 bytes (optional + h.size_of_headers_offset);
      section_alignment = field 4 bytes (optional + h.section_alignment_offset);
      file_alignment = field 4 bytes (optional + h.file_alignment_offset);
      characteristics = characteristics;
      dll_characteristics = dll;
      directories = directories;
      sections = sections;
    }

-- The test of the sizes and alignments of the optional header.
unfoldable pub is_bad_header : PeImageLayout → Bool
is_bad_header layout =
    not (is_power_of_two layout.file_alignment)
    || not (is_power_of_two layout.section_alignment)
    || ltb layout.section_alignment layout.file_alignment
    || layout.size_of_image == 0
    || ltb (2 ^ 30) layout.size_of_image
    || ltb layout.size_of_image layout.size_of_headers
    || layout.preferred_image_base == 0

unfoldable pub parse_typed :
    WindowsHeaders → PeFormatTraits → Bytes → ℕ → ℕ → ℕ → Result PeError PeImageLayout
parse_typed h traits bytes nt file optional = do
  let header = layout_at h traits bytes nt file optional []
  let optional_size = field 2 bytes (file + h.optional_size_offset)
  let count = field 2 bytes (file + h.section_count_offset)
  reject_if (header.machine != traits.machine) PeError.unsupported_architecture
  reject_if (ltb optional_size traits.optional_header_size) PeError.truncated
  reject_if (not (is_readable bytes optional traits.optional_header_size)) PeError.truncated
  reject_if (field 2 bytes optional != traits.optional_header_magic) PeError.invalid_signature
  reject_if (is_bad_header header) PeError.invalid_alignment
  reject_if
      (not (range_fits (optional + optional_size) (count * h.section_header_size) (length bytes)))
      PeError.truncated
  sections ← parse_sections h bytes (optional + optional_size) header.size_of_image count 0 0
  reject_if (leb header.size_of_image header.entry_point) PeError.invalid_section_table
  ok (layout_at h traits bytes nt file optional sections)

-- The choice of the traits by the magic number.
unfoldable pub parse_magic : WindowsHeaders → Bytes → ℕ → ℕ → ℕ → Result PeError PeImageLayout
parse_magic h bytes nt file optional =
    if field 2 bytes optional == h.pe32.optional_header_magic
    then parse_typed h h.pe32 bytes nt file optional
    else if field 2 bytes optional == h.pe64.optional_header_magic
    then parse_typed h h.pe64 bytes nt file optional
    else err PeError.invalid_signature

-- `e_lfanew` is a signed 32-bit number; a negative one is below every size.
unfoldable pub parse : WindowsHeaders → Bytes → Result PeError PeImageLayout
parse h bytes = do
  let nt = field 4 bytes h.dos_new_header_offset
  let file = nt + 4
  let optional = nt + 4 + h.file_header_size
  let count = field 2 bytes (file + h.section_count_offset)
  reject_if (not (is_readable bytes 0 h.dos_header_size)) PeError.truncated
  reject_if (field 2 bytes 0 != h.dos_signature || ltb nt h.dos_header_size || leb (2 ^ 31) nt)
      PeError.invalid_signature
  reject_if (not (is_readable bytes nt 4) || not (is_readable bytes file h.file_header_size))
      PeError.truncated
  reject_if (field 4 bytes nt != h.nt_signature) PeError.invalid_signature
  reject_if (bit_and (field 2 bytes (file + h.characteristics_offset)) h.executable_image == 0)
      PeError.unsupported_image_kind
  reject_if (count == 0 || ltb 96 count) PeError.invalid_section_table
  reject_if (not (is_readable bytes optional 2)) PeError.truncated
  parse_magic h bytes nt file optional
