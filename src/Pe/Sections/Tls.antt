-- ===== src/Pe/Sections/Tls.antt =====
-- upx-killer-engine/Core/PE/Sections/SectionLayoutRebuilder.cpp: the search for the TLS directory.
use upx_killer.Common.{
  ℕ, zero, suc, ◌+◌, ◌-◌, bit_and, ◌^◌, Bool, true, false, not, ◌&&◌, ◌||◌, Option, none, some,
  List, [], ◌∷◌, ltb, leb, ◌==◌, ◌!=◌, if◌then◌else◌,
}
use upx_killer.Common.Options.{◌>>=◌, ◌>>◌, none_if}
use upx_killer.Pe.Format.{PeFormat, PeDataDirectory, PeSection, PeImageLayout}
use upx_killer.Pe.Headers.{WindowsHeaders, is_readable, field}
use upx_killer.Pe.Directories.{TlsDirectoryFormat, WindowsDirectories}
use upx_killer.Pe.Parser.{virtual_extent}
use upx_killer.Pe.Metadata.{directory_at, traits_for}
use upx_killer.Pe.Sections.{
  SectionLayoutInput, AddressRange, not32, align_down, is_valid_directory, page_range,
}

pub record TlsEvidence : Type 0 where
  pub directory : PeDataDirectory
  pub writable_index_page : AddressRange
  pub callback_code_pages : List AddressRange
  pub runtime_index : ℕ
  pub has_raw_template : Bool
  pub has_explicit_alignment : Bool

abbrev pub tls_format : WindowsDirectories → PeFormat → TlsDirectoryFormat
tls_format d PeFormat.pe32 = d.tls32
tls_format d PeFormat.pe64 = d.tls64

abbrev pub pointer_size : PeFormat → ℕ
pointer_size PeFormat.pe32 = 4
pointer_size PeFormat.pe64 = 8

unfoldable pub tls_va_to_rva : ℕ → SectionLayoutInput → PeImageLayout → Option ℕ
tls_va_to_rva address input source =
    if ltb address input.loaded_base || leb source.size_of_image (address - input.loaded_base)
    then none
    else some (address - input.loaded_base)

abbrev pub maximum_plausible_tls_index : ℕ
maximum_plausible_tls_index = 4096

unfoldable pub evidence_score : TlsEvidence → ℕ
evidence_score evidence =
    (if evidence.runtime_index != 0 then 4 else 0)
    + (if evidence.has_explicit_alignment then 2 else 0)
    + (if evidence.has_raw_template then 1 else 0)

-- `dos.e_lfanew` is a signed 32-bit number.
unfoldable pub read_runtime_tls_directory :
    WindowsHeaders
    → WindowsDirectories
    → SectionLayoutInput
    → PeImageLayout
    → Option PeDataDirectory
read_runtime_tls_directory h d input source = do
  let bytes = input.loaded_image
  let traits = traits_for h source.format
  let nt = field 4 bytes h.dos_new_header_offset
  let optional = nt + 4 + h.file_header_size
  let result = directory_at traits bytes optional d.tls_entry
  none_if (not (is_readable bytes 0 h.dos_header_size))
  none_if (field 2 bytes 0 != h.dos_signature || leb (2 ^ 31) nt)
  none_if (not (is_readable bytes nt (4 + h.file_header_size + traits.optional_header_size)))
  none_if (
      field 4 bytes nt != h.nt_signature
      || field 2 bytes optional != traits.optional_header_magic
      || leb (field 4 bytes (optional + traits.directory_count_offset)) d.tls_entry)
  none_if (not (is_valid_directory result source.size_of_image))
  some result

-- The test of `std::find_if`: whether the section holds the address.
unfoldable pub holds : PeSection → ℕ → Bool
holds section rva =
    leb section.virtual_address rva && ltb (rva - section.virtual_address) (virtual_extent section)

unfoldable pub find_section : ℕ → List PeSection → Option PeSection
find_section rva [] = none
find_section rva (section ∷ sections) =
    if holds section rva then some section else find_section rva sections

abbrev pub any_holds : ℕ → Option PeSection → Bool
any_holds rva none = false
any_holds rva (some section) = holds section rva

unfoldable pub in_source_entry_section : PeImageLayout → ℕ → Bool
in_source_entry_section source rva = any_holds rva (find_section source.entry_point source.sections)

abbrev pub cons_page : AddressRange → Option (List AddressRange) → Option (List AddressRange)
cons_page page none = none
cons_page page (some pages) = some (page ∷ pages)

-- `rounds` rounds of the loop over the callbacks, the next of them at `offset`; `none` also where no
-- null ends the table.
unfoldable pub read_callbacks :
    SectionLayoutInput → PeImageLayout → ℕ → ℕ → Option (List AddressRange)
read_callbacks input source zero offset = none
read_callbacks input source (suc rounds) offset =
    let width = pointer_size source.format in
    let callback = field width input.loaded_image offset in
    let rest = read_callbacks input source rounds (offset + width) in
    if not (is_readable input.loaded_image offset width)
    then none
    else if callback == 0
    then some []
    else do
      rva ← tls_va_to_rva callback input source
      let start = align_down rva source.section_alignment
      cons_page (page_range start source.section_alignment source.size_of_image) rest

-- Whether there are bytes between the two addresses.
unfoldable pub is_filled : SectionLayoutInput → PeImageLayout → ℕ → ℕ → Option Bool
is_filled input source start_address end_address = do
  raw_start ← tls_va_to_rva start_address input source
  raw_end ← tls_va_to_rva end_address input source
  none_if (ltb raw_end raw_start)
  some (ltb raw_start raw_end)

-- Whether the template of raw data is there and not empty; `none` is a template that is refused.
unfoldable pub raw_template : SectionLayoutInput → PeImageLayout → ℕ → ℕ → Option Bool
raw_template input source start_address end_address =
    if start_address == 0
    then (if end_address == 0 then some false else none)
    else if end_address == 0
    then none
    else is_filled input source start_address end_address

unfoldable pub is_empty : List AddressRange → Bool
is_empty [] = true
is_empty (page ∷ pages) = false

-- The pages of the callbacks: none without a table, which a required callback or template misses.
unfoldable pub callback_pages :
    SectionLayoutInput → PeImageLayout → ℕ → Bool → Bool → Option (List AddressRange)
callback_pages input source table_address require_callbacks has_raw_template =
    if table_address == 0
    then (if require_callbacks && not has_raw_template then none else some [])
    else do
      table ← tls_va_to_rva table_address input source
      pages ← read_callbacks input source 1024 table
      none_if (require_callbacks && is_empty pages && not has_raw_template)
      some pages

-- `ValidateTlsDirectory`.
unfoldable pub validate_tls_directory :
    WindowsDirectories
    → PeImageLayout
    → SectionLayoutInput
    → PeDataDirectory
    → Bool
    → Option TlsEvidence
validate_tls_directory d source input directory require_callbacks = do
  let format = tls_format d source.format
  let bytes = input.loaded_image
  let width = pointer_size source.format
  let at = directory.address
  let characteristics = field 4 bytes (at + format.characteristics_offset)
  let alignment = bit_and characteristics d.align_mask
  none_if
      (not (is_valid_directory directory source.size_of_image) || ltb directory.size format.size)
  none_if (not (is_readable bytes at format.size))
  none_if (
      ltb source.size_of_image (field 4 bytes (at + format.zero_fill_offset))
      || bit_and characteristics (not32 d.align_mask) != 0
      || alignment == d.align_mask)
  has_raw_template ←
      raw_template input source (field width bytes (at + format.raw_start_offset))
        (field width bytes (at + format.raw_end_offset))
  let index_address = field width bytes (at + format.index_offset)
  none_if (index_address == 0)
  index_rva ← tls_va_to_rva index_address input source
  none_if (ltb (source.size_of_image - index_rva) 4)
  let runtime_index = field 4 bytes index_rva
  none_if (ltb maximum_plausible_tls_index runtime_index)
  pages ←
      callback_pages input source (field width bytes (at + format.callbacks_offset))
        require_callbacks has_raw_template
  let index_page = align_down index_rva source.section_alignment
  some (record {
    directory = directory;
    writable_index_page = page_range index_page source.section_alignment source.size_of_image;
    callback_code_pages = pages;
    runtime_index = runtime_index;
    has_raw_template = has_raw_template;
    has_explicit_alignment = alignment != 0;
  })
