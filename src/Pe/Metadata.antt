-- ===== src/Pe/Metadata.antt =====
-- upx-killer-engine/Core/PE/Metadata/EmbeddedOriginalPeHeader.cpp. The structures of <Windows.h> are
-- a parameter. Nothing of the code throws, so the handler behind `catch (...)` is not reached.
pub mod Unique
mod Tests
use upx_killer.Common.{
  ℕ, zero, suc, ◌+◌, ◌-◌, ◌*◌, ◌/◌, min, Bool, true, not, ◌&&◌, ◌||◌, Option, none, some, List, [],
  ◌∷◌, Bytes, ltb, leb, ◌==◌, ◌!=◌, length, get_elem?, if◌then◌else◌,
}
use upx_killer.Common.Options.{◌>>=◌, ◌>>◌, none_if}
use upx_killer.Pe.Format.{PeFormat, PeDataDirectory, PeSection, PeImageLayout}
use upx_killer.Pe.Headers.{PeFormatTraits, WindowsHeaders, is_readable, field}
use upx_killer.Pe.Directories.{ImportDescriptorFormat, WindowsDirectories}

pub record EmbeddedOriginalPeHeader : Type 0 where
  pub metadata_offset : ℕ
  pub first_rva : ℕ
  pub image_size : ℕ
  pub import_descriptors : ℕ
  pub tls_directory : PeDataDirectory

abbrev pub traits_for : WindowsHeaders → PeFormat → PeFormatTraits
traits_for h PeFormat.pe32 = h.pe32
traits_for h PeFormat.pe64 = h.pe64

-- `DataDirectory[entry]` of the optional header.
unfoldable pub directory_at : PeFormatTraits → Bytes → ℕ → ℕ → PeDataDirectory
directory_at traits bytes optional entry = record {
  address = field 4 bytes (optional + traits.directory_offset + 8 * entry);
  size = field 4 bytes (optional + traits.directory_offset + 8 * entry + 4);
}

unfoldable pub is_null_descriptor : ImportDescriptorFormat → Bytes → ℕ → Bool
is_null_descriptor format bytes at =
    field 4 bytes (at + format.original_first_thunk_offset) == 0
    && field 4 bytes (at + format.time_stamp_offset) == 0
    && field 4 bytes (at + format.forwarder_chain_offset) == 0
    && field 4 bytes (at + format.name_offset) == 0
    && field 4 bytes (at + format.first_thunk_offset) == 0

-- `rounds` rounds of the loop over the import descriptors, `index` of which have been counted; `none`
-- also where the loop ends without a null descriptor behind the first.
unfoldable pub count_descriptors : ImportDescriptorFormat → Bytes → ℕ → ℕ → ℕ → ℕ → Option ℕ
count_descriptors format bytes table image_size zero index = none
count_descriptors format bytes table image_size (suc rounds) index =
    let at = table + index * format.size in
    let rest = count_descriptors format bytes table image_size rounds (index + 1) in
    if not (is_readable bytes at format.size)
    then none
    else if is_null_descriptor format bytes at
    then (if index != 0 then some index else none)
    else if leb image_size (field 4 bytes (at + format.name_offset))
        || leb image_size (field 4 bytes (at + format.first_thunk_offset))
    then none
    else rest

-- The bounds of the import directory.
unfoldable pub is_bad_imports : ImportDescriptorFormat → PeDataDirectory → ℕ → Bool
is_bad_imports format imports image_size =
    imports.address == 0
    || ltb imports.size (2 * format.size)
    || leb image_size imports.address
    || ltb (image_size - imports.address) imports.size

unfoldable pub is_bad_tls : PeDataDirectory → ℕ → Bool
is_bad_tls tls image_size =
    (if tls.address == 0 then tls.size != 0 else tls.size == 0)
    || (tls.address != 0 && (leb image_size tls.address || ltb (image_size - tls.address) tls.size))

-- `source.sections.empty() || first.VirtualAddress != source.sections.front().virtualAddress.value`
unfoldable pub is_other_first : List PeSection → ℕ → Bool
is_other_first [] first_rva = true
is_other_first (section ∷ sections) first_rva = first_rva != section.virtual_address

-- `Parse` from the optional header on, at `optional`; `file` is the offset of the file header.
unfoldable pub parse_optional :
    WindowsHeaders
    → WindowsDirectories
    → PeFormatTraits
    → Bytes
    → PeImageLayout
    → ℕ
    → ℕ
    → ℕ
    → Option EmbeddedOriginalPeHeader
parse_optional h d traits dumped source oep file optional = do
  none_if (
      not (is_readable dumped optional traits.optional_header_size)
      || field 2 dumped optional != traits.optional_header_magic
      || leb (field 4 dumped (optional + traits.directory_count_offset)) d.tls_entry)
  let image_size = field 4 dumped (optional + h.size_of_image_offset)
  let imports = directory_at traits dumped optional d.import_entry
  let tls = directory_at traits dumped optional d.tls_entry
  none_if (
      field 4 dumped (optional + h.entry_point_offset) != oep
      || image_size == 0
      || ltb (length dumped) image_size
      || is_bad_imports d.import_descriptor imports image_size)
  import_descriptors ←
      count_descriptors d.import_descriptor dumped imports.address image_size
        (min (imports.size / d.import_descriptor.size) 4097) 0
  let table = optional + field 2 dumped (file + h.optional_size_offset)
  let sections_size = field 2 dumped (file + h.section_count_offset) * h.section_header_size
  let first_rva = field 4 dumped (table + h.virtual_address_offset)
  none_if (not (is_readable dumped table sections_size))
  none_if (
      not (is_readable dumped table h.section_header_size)
      || is_other_first source.sections first_rva
      || field 4 dumped (table + h.virtual_size_offset) == 0)
  none_if (not (is_readable dumped (table + sections_size) 8))
  none_if (is_bad_tls tls image_size)
  some (record {
    metadata_offset = table + sections_size;
    first_rva = first_rva;
    image_size = image_size;
    import_descriptors = import_descriptors;
    tls_directory = tls;
  })

-- `Parse`.
unfoldable pub parse_embedded :
    WindowsHeaders
    → WindowsDirectories
    → Bytes
    → PeImageLayout
    → ℕ
    → ℕ
    → Option EmbeddedOriginalPeHeader
parse_embedded h d dumped source oep offset = do
  let traits = traits_for h source.format
  let file = offset + 4
  let count = field 2 dumped (file + h.section_count_offset)
  none_if (
      not (is_readable dumped offset 4)
      || field 4 dumped offset != h.nt_signature
      || not (is_readable dumped file h.file_header_size)
      || count == 0
      || ltb 96 count)
  none_if (
      field 2 dumped (file + h.machine_offset) != traits.machine
      || field 2 dumped (file + h.optional_size_offset) != traits.optional_header_size)
  parse_optional h d traits dumped source oep file (file + h.file_header_size)

-- `dumped[offset] != std::byte{'P'}`, which is passed over, or the header at the offset.
unfoldable pub candidate_at :
    WindowsHeaders
    → WindowsDirectories
    → Bytes
    → PeImageLayout
    → ℕ
    → ℕ
    → Option EmbeddedOriginalPeHeader
candidate_at h d dumped source oep offset = elim (get_elem? dumped offset) [
  | none ↦ none
  | some b ↦ if b != b'P' then none else parse_embedded h d dumped source oep offset
]

-- One round of the loop with what its candidate gives: the result so far, or `none` for a second one.
abbrev pub keep_single : {A : Type 0} → Option A → Option A → (Option A → Option A) → Option A
keep_single none result rest = rest result
keep_single (some header) none rest = rest (some header)
keep_single (some header) (some other) rest = none

-- `rounds` rounds of the loop over the offsets from `offset` on.
unfoldable pub find_from :
    (ℕ → Option EmbeddedOriginalPeHeader)
    → ℕ
    → ℕ
    → Option EmbeddedOriginalPeHeader
    → Option EmbeddedOriginalPeHeader
find_from candidate zero offset result = result
find_from candidate (suc rounds) offset result =
    keep_single (candidate offset) result (find_from candidate rounds (offset + 1))

-- The size of an IMAGE_NT_HEADERS32.
abbrev pub nt_headers32_size : WindowsHeaders → ℕ
nt_headers32_size h = 4 + h.file_header_size + h.pe32.optional_header_size

-- `FindEmbeddedOriginalPeHeader`.
unfoldable pub find_embedded :
    WindowsHeaders
    → WindowsDirectories
    → Bytes
    → PeImageLayout
    → ℕ
    → Option EmbeddedOriginalPeHeader
find_embedded h d dumped source oep =
    if source.entry_point == oep
    then none
    else find_from (candidate_at h d dumped source oep) (length dumped - nt_headers32_size h) 0 none
