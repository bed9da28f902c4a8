-- ===== src/Elf/Classifier.antt =====
-- upx-killer-engine/Core/ELF/Parsing/ElfParser.h and Internal/ElfImageTypeClassifier.cpp.
use upx_killer.Common.{
  ℕ, zero, suc, ◌+◌, ◌-◌, ◌/◌, ◌%◌, Bool, true, false, ◌&&◌, ◌||◌, Option, none, some, List, [],
  ◌∷◌, Bytes, ltb, ◌==◌, ◌!=◌, length, if◌then◌else◌,
}
use upx_killer.Common.Reading.{read}
use upx_killer.Elf.Format.{
  ElfImageType, ElfProgramHeader, ElfImageLayout, ElfClassTraits, get_elf_class_traits,
}

pub data ElfParseExtent : Type 0 where
  complete_file loaded_headers : ElfParseExtent

abbrev dynamic_program_header : ℕ
dynamic_program_header = 2

abbrev null_tag : ℕ
null_tag = 0

abbrev soname_tag : ℕ
soname_tag = 14

abbrev pub value_or_zero : Option ℕ → ℕ
value_or_zero none = 0
value_or_zero (some value) = value

unfoldable pub read_unsigned : Bytes → ℕ → ℕ → ℕ
read_unsigned bytes offset width =
    if width != 4 && width != 8 then 0 else value_or_zero (read width bytes offset)

-- The rounds of the loop over a dynamic table that are left. `file_size` is a multiple of the entry
-- size here, so `cursor < header.fileSize` allows `file_size / entry_size` rounds.
unfoldable pub find_soname : ElfClassTraits → Bytes → ElfProgramHeader → ℕ → ℕ → Bool
find_soname traits bytes header zero cursor = false
find_soname traits bytes header (suc rounds) cursor =
    let tag = read_unsigned bytes (header.file_offset + cursor) traits.address_width in
    let later = find_soname traits bytes header rounds (cursor + traits.dynamic_entry_size) in
    if tag == null_tag then false else if tag == soname_tag then true else later

-- The test whose success is `continue`.
unfoldable pub is_skipped : ElfClassTraits → Bytes → ElfProgramHeader → Bool
is_skipped traits bytes header =
    header.type != dynamic_program_header
    || ltb header.file_size traits.dynamic_entry_size
    || header.file_size % traits.dynamic_entry_size != 0
    || ltb (length bytes) header.file_offset
    || ltb (length bytes - header.file_offset) header.file_size

unfoldable pub any_soname : ElfClassTraits → Bytes → List ElfProgramHeader → Bool
any_soname traits bytes [] = false
any_soname traits bytes (header ∷ headers) =
    let here = find_soname traits bytes header (header.file_size / traits.dynamic_entry_size) 0 in
    let later = any_soname traits bytes headers in
    if is_skipped traits bytes header then later else if here then true else later

unfoldable pub has_soname : Bytes → ElfImageLayout → ElfParseExtent → Bool
has_soname bytes layout ElfParseExtent.loaded_headers = false
has_soname bytes layout ElfParseExtent.complete_file =
    any_soname (get_elf_class_traits layout.image_class) bytes layout.program_headers

unfoldable pub classify_dynamic_image :
    Bytes → ElfImageLayout → Bool → ElfParseExtent → Option ElfImageType
classify_dynamic_image bytes layout entry_is_executable extent =
    if layout.entry_point == 0 || has_soname bytes layout extent
    then some ElfImageType.shared_object
    else if entry_is_executable
    then some ElfImageType.position_independent_executable
    else none
