-- ===== src/Elf/Parser.antt =====
-- upx-killer-engine/Core/ELF/Parsing/ElfParser.cpp: the loop over the program headers, and `Parse`.
pub mod Sound
pub mod Accepted
use upx_killer.Common.{
  ℕ, zero, suc, ◌+◌, ◌-◌, ◌*◌, ◌%◌, ◌^◌, bit_and, Bool, true, false, not, ◌&&◌, ◌||◌, Option, none,
  some, List, [], ◌∷◌, ◌++◌, Bytes, ltb, leb, ◌==◌, ◌!=◌, length, get_elem?, if◌then◌else◌,
}
use upx_killer.Common.Reading.{read}
use upx_killer.Common.Results.{Result, ok, err, ◌>>=◌, ◌>>◌, reject_if, or_reject}
use upx_killer.Elf.Format.{
  ElfImageType, ElfProgramHeader, ElfImageLayout, ElfClassTraits, find_elf_class_traits,
}
use upx_killer.Elf.Classifier.{
  ElfParseExtent, complete_file, loaded_headers, value_or_zero, classify_dynamic_image,
}
use upx_killer.Elf.Header.{
  executable_type, dynamic_type, load_program_header, executable_flag, maximum_program_headers,
  read_address, add_overflows, is_power_of_two, byte, find_traits, read_fields, is_complete,
  check_fields, HeaderFields, ElfParseError, truncated, invalid_magic, unsupported_class,
  unsupported_endianness, unsupported_machine, unsupported_type, invalid_program_headers,
  invalid_section_headers, invalid_load_segment, invalid_entry_point,
}

unfoldable pub read_program_header :
    ElfClassTraits → Bytes → ℕ → Result ElfParseError ElfProgramHeader
read_program_header traits bytes offset = do
  let at = λ (field : ℕ). read_address bytes (offset + field) traits.address_width
  type ← or_reject (read 4 bytes offset) invalid_program_headers
  flags ← or_reject (read 4 bytes (offset + traits.program_flags_offset)) invalid_program_headers
  file_offset ← or_reject (at traits.program_file_offset_offset) invalid_program_headers
  virtual_address ← or_reject (at traits.program_virtual_address_offset) invalid_program_headers
  physical_address ← or_reject (at traits.program_physical_address_offset) invalid_program_headers
  file_size ← or_reject (at traits.program_file_size_offset) invalid_program_headers
  memory_size ← or_reject (at traits.program_memory_size_offset) invalid_program_headers
  alignment ← or_reject (at traits.program_alignment_offset) invalid_program_headers
  ok (record {
    type = type;
    flags = flags;
    file_offset = file_offset;
    virtual_address = virtual_address;
    physical_address = physical_address;
    file_size = file_size;
    memory_size = memory_size;
    alignment = alignment;
  })

-- The variables of the loop over the program headers.
pub record Scan : Type 0 where
  pub headers : List ElfProgramHeader
  pub entry_is_executable : Bool
  pub has_load : Bool

unfoldable pub is_bad_load : ElfProgramHeader → Bool
is_bad_load h =
    ltb h.memory_size h.file_size
    || add_overflows h.virtual_address h.memory_size
    || add_overflows h.file_offset h.file_size
    || not (is_power_of_two h.alignment)
    || (ltb 1 h.alignment && h.virtual_address % h.alignment != h.file_offset % h.alignment)

unfoldable pub holds_entry : ℕ → ElfProgramHeader → Bool
holds_entry entry h =
    bit_and h.flags executable_flag != 0
    && leb h.virtual_address entry
    && ltb entry (h.virtual_address + h.memory_size)

-- The body of the loop behind the reads.
unfoldable pub add_header : ℕ → ElfProgramHeader → Scan → Result ElfParseError Scan
add_header entry h scan =
    if h.type == load_program_header
    then reject_if (is_bad_load h) invalid_load_segment
      >> ok (record {
        headers = scan.headers ++ (h ∷ []);
        entry_is_executable = if holds_entry entry h then true else scan.entry_is_executable;
        has_load = true;
      })
    else ok (record scan { headers = scan.headers ++ (h ∷ []) })

-- `rounds` rounds from `index` on.
unfoldable pub scan_headers :
    ElfClassTraits → Bytes → HeaderFields → ℕ → ℕ → Scan → Result ElfParseError Scan
scan_headers traits bytes f zero index scan = ok scan
scan_headers traits bytes f (suc rounds) index scan = do
  header ← read_program_header traits bytes (f.ph_offset + index * f.ph_entry_size)
  next ← add_header f.entry header scan
  scan_headers traits bytes f rounds (index + 1) next

-- The layout before its image type is known; the C++ default is an executable.
unfoldable pub layout_of :
    ElfClassTraits → HeaderFields → List ElfProgramHeader → ElfImageType → ElfImageLayout
layout_of traits f headers image_type = record {
  image_class = traits.image_class;
  machine = traits.machine;
  image_type = image_type;
  entry_point = f.entry;
  program_header_offset = f.ph_offset;
  program_header_entry_size = f.ph_entry_size;
  program_header_count = f.ph_count;
  section_header_offset = f.sh_offset;
  section_header_entry_size = f.sh_entry_size;
  section_header_count = f.sh_count;
  flags = f.flags;
  program_headers = headers;
}

unfoldable pub image_type_of :
    ElfClassTraits
    → Bytes
    → ElfParseExtent
    → HeaderFields
    → Scan
    → Result ElfParseError ElfImageType
image_type_of traits bytes extent f scan =
    if f.type == executable_type
    then reject_if (f.entry == 0 || not scan.entry_is_executable) invalid_entry_point
      >> ok ElfImageType.executable
    else or_reject
        (classify_dynamic_image bytes (layout_of traits f scan.headers ElfImageType.executable)
          scan.entry_is_executable extent)
        invalid_entry_point

unfoldable pub parse : Bytes → ElfParseExtent → Result ElfParseError ElfImageLayout
parse bytes extent = do
  traits ← find_traits bytes
  f ← read_fields traits bytes
  check_fields traits (length bytes) extent f
  scan ←
      scan_headers traits bytes f f.ph_count 0
        (record { headers = []; entry_is_executable = false; has_load = false })
  reject_if (not scan.has_load) invalid_load_segment
  image_type ← image_type_of traits bytes extent f scan
  ok (layout_of traits f scan.headers image_type)
