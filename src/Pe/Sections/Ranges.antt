-- ===== src/Pe/Sections/Ranges.antt =====
-- upx-killer-engine/Core/PE/Sections/SectionLayoutRebuilder.cpp: the ranges of code, of import
-- addresses and of the captured regions of memory.
use upx_killer.Common.{
  ℕ, zero, suc, ◌+◌, ◌-◌, ◌*◌, ◌/◌, ◌%◌, ◌^◌, min, max, Bool, true, false, not, ◌&&◌, ◌||◌, Option,
  none, some, List, [], ◌∷◌, ◌++◌, Bytes, ltb, leb, ◌==◌, ◌!=◌, length, if◌then◌else◌,
}
use upx_killer.Common.Results.{Result, ok, ◌>>=◌, ◌>>◌, reject_if, or_reject}
use upx_killer.Dumping.{CapturedImageRegion}
use upx_killer.Pe.Format.{PeDataDirectory, PeSection, PeImageLayout}
use upx_killer.Pe.Headers.{WindowsHeaders, is_readable, field}
use upx_killer.Pe.Directories.{ImportModulePlan, ImportRebuildPlan, WindowsDirectories}
use upx_killer.Pe.Parser.{virtual_extent}
use upx_killer.Pe.Sections.{
  SectionLayoutInput, invalid_input, Stop, refused, AddressRange, align_down, align_up,
  is_valid_directory, source_directory,
}
use upx_killer.Pe.Sections.Tls.{TlsEvidence, pointer_size, find_section}
use upx_killer.Pe.Sections.Scan.{discover_tls}

-- The variables `minimum` and `maximum`.
pub record Extent : Type 0 where
  pub minimum : ℕ
  pub maximum : ℕ

-- `value + 1` of 32 bits.
abbrev pub after : ℕ → ℕ
after value = (value + 1) % 2 ^ 32

-- The loop over the export targets; `none` is a target that is out of the image.
unfoldable pub extend_exports : ℕ → List ℕ → Extent → Option Extent
extend_exports image_size [] extent = some extent
extend_exports image_size (target ∷ targets) extent =
    let rest = extend_exports image_size targets (record {
      minimum = min extent.minimum target;
      maximum = max extent.maximum (after target);
    }) in
    if leb image_size target then none else rest

-- `rounds` rounds of the loop over the runtime functions, the next of them at `at`, with whether one
-- has been found.
unfoldable pub extend_functions :
    WindowsDirectories → Bytes → ℕ → ℕ → ℕ → Extent × Bool → Extent × Bool
extend_functions d bytes image_size zero at found = found
extend_functions d bytes image_size (suc rounds) at (extent, seen) =
    let begin_address = field 4 bytes (at + d.begin_address_offset) in
    let end_address = field 4 bytes (at + d.end_address_offset) in
    let skip = leb end_address begin_address || ltb image_size end_address in
    let extended : Extent = record {
      minimum = min extent.minimum begin_address;
      maximum = max extent.maximum end_address;
    } in
    let rest =
      extend_functions d bytes image_size rounds (at + d.runtime_function_size)
        (if skip then (extent, seen) else (extended, true)) in
    if not (is_readable bytes at d.runtime_function_size) then (extent, seen) else rest

unfoldable pub exception_extent :
    WindowsDirectories → PeImageLayout → SectionLayoutInput → Extent → Extent × Bool
exception_extent d source input extent =
    let exception = source_directory source d.exception_entry in
    if is_valid_directory exception source.size_of_image
    then extend_functions d input.loaded_image source.size_of_image
        (exception.size / d.runtime_function_size) exception.address (extent, false)
    else (extent, false)

-- The section of the entry point, where no runtime function has been found.
abbrev pub section_extent : Extent → Option PeSection → Extent
section_extent extent none = extent
section_extent extent (some section) = record {
  minimum = section.virtual_address;
  maximum = (section.virtual_address + virtual_extent section) % 2 ^ 32;
}

unfoldable pub entry_extent : PeImageLayout → ℕ → Extent × Bool → Extent
entry_extent source oep (extent, seen) =
    if not seen && oep != 0
    then section_extent extent (find_section oep source.sections)
    else extent

abbrev pub first_extent : PeImageLayout → ℕ → Extent
first_extent source oep =
    if oep != 0
    then record { minimum = oep; maximum = after oep }
    else record { minimum = source.size_of_image; maximum = 0 }

-- The ranges that the pages are classified by, and the TLS directory.
pub record Evidence : Type 0 where
  pub code : List AddressRange
  pub writable : List AddressRange
  pub executable_writable : List AddressRange
  pub import_addresses : List AddressRange
  pub tls_directory : Option PeDataDirectory

abbrev pub with_tls : AddressRange → Option TlsEvidence → Evidence
with_tls range none = record {
  code = range ∷ [];
  writable = [];
  executable_writable = [];
  import_addresses = [];
  tls_directory = none;
}
with_tls range (some tls) = record {
  code = range ∷ tls.callback_code_pages;
  writable = tls.writable_index_page ∷ [];
  executable_writable = [];
  import_addresses = [];
  tls_directory = some tls.directory;
}

-- `DiscoverCodeRanges`; the ranges of code are not empty where it goes through.
unfoldable pub discover_code_ranges :
    WindowsHeaders → WindowsDirectories → PeImageLayout → SectionLayoutInput → Result Stop Evidence
discover_code_ranges h d source input = do
  exports ←
      or_reject
        (extend_exports source.size_of_image input.export_code_targets
          (first_extent source input.oep))
        (refused invalid_input)
  let extent = entry_extent source input.oep (exception_extent d source input exports)
  reject_if (extent.maximum == 0 || leb source.size_of_image extent.minimum) (refused invalid_input)
  end ← or_reject (align_up extent.maximum source.section_alignment) (refused invalid_input)
  tls ← discover_tls h d source input
  ok (
      with_tls
        (record {
          begin = align_down extent.minimum source.section_alignment;
          end = min end source.size_of_image;
        })
        tls)

-- The range of one module's import addresses; `none` is a plan that is refused.
unfoldable pub module_range : PeImageLayout → ImportModulePlan → Option AddressRange
module_range source imports =
    let width = pointer_size source.format in
    let count = length imports.symbols in
    let size = count * width in
    if count == 0
      || ltb ((2 ^ 32 - 1) / width) count
      || leb source.size_of_image imports.first_thunk
      || ltb (source.size_of_image - imports.first_thunk) size
    then none
    else some (record { begin = imports.first_thunk; end = imports.first_thunk + size })

abbrev pub cons_range :
    Option AddressRange → Option (List AddressRange) → Option (List AddressRange)
cons_range none ranges = none
cons_range (some range) none = none
cons_range (some range) (some ranges) = some (range ∷ ranges)

unfoldable pub module_ranges : PeImageLayout → List ImportModulePlan → Option (List AddressRange)
module_ranges source [] = some []
module_ranges source (imports ∷ rest) =
    cons_range (module_range source imports) (module_ranges source rest)

-- `DiscoverIatRanges`.
unfoldable pub discover_iat_ranges :
    PeImageLayout → Option ImportRebuildPlan → Option (List AddressRange)
discover_iat_ranges source none = some []
discover_iat_ranges source (some imports) = module_ranges source imports.modules

abbrev pub region_range : CapturedImageRegion → AddressRange
region_range region = record { begin = region.offset; end = region.offset + region.size }

-- One round of the loop over the regions of memory.
unfoldable pub add_region : CapturedImageRegion → Evidence → Evidence
add_region region evidence =
    let range = region_range region ∷ [] in
    if region.writable && region.executable
    then record evidence { executable_writable = evidence.executable_writable ++ range }
    else if region.writable
    then record evidence { writable = evidence.writable ++ range }
    else if region.executable
    then record evidence { code = evidence.code ++ range }
    else evidence

unfoldable pub is_region_outside : ℕ → CapturedImageRegion → Bool
is_region_outside image_size region =
    leb image_size region.offset || ltb (image_size - region.offset) region.size

unfoldable pub add_regions : ℕ → List CapturedImageRegion → Evidence → Result Stop Evidence
add_regions image_size [] evidence = ok evidence
add_regions image_size (region ∷ regions) evidence = do
  reject_if (is_region_outside image_size region) (refused invalid_input)
  add_regions image_size regions (add_region region evidence)
