-- ===== src/Pe/Sections.antt =====
-- upx-killer-engine/Core/PE/Sections/SectionLayoutRebuilder.cpp and its header: the data, and the
-- ranges of addresses. The structures of <Windows.h> are a parameter. The allocations are taken to
-- succeed, so the handler behind `catch (...)` is not reached.
pub mod Tls
pub mod Scan
pub mod Ranges
pub mod Layout
pub mod Pages
pub mod Tiles
pub mod Order
pub mod Built
pub mod Recorded
pub mod Rights
pub mod Names
pub mod Total
mod Tests
use upx_killer.Common.{
  ℕ, ◌+◌, ◌-◌, ◌^◌, ◌%◌, bit_and, Bool, false, not, ◌&&◌, ◌||◌, Option, none, some, List, [], ◌∷◌,
  Bytes, ltb, leb, ◌!=◌, get_elem?, if◌then◌else◌,
}
use upx_killer.Dumping.{CapturedImageRegion}
use upx_killer.Pe.Format.{PeDataDirectory, PeImageLayout}
use upx_killer.Pe.Directories.{ImportRebuildPlan}
use upx_killer.Pe.Parser.{directory_or_none}

pub record SectionLayoutInput : Type 0 where
  pub loaded_image : Bytes
  pub loaded_base : ℕ
  pub oep : ℕ
  pub imports : Option ImportRebuildPlan
  pub export_code_targets : List ℕ
  pub memory_regions : List CapturedImageRegion

pub record RebuiltSection : Type 0 where
  pub name : Bytes
  pub virtual_address : ℕ
  pub virtual_size : ℕ
  pub characteristics : ℕ

pub record SectionLayoutPlan : Type 0 where
  pub sections : List RebuiltSection
  pub tls_directory : Option PeDataDirectory

pub data SectionLayoutError : Type 0 where
  invalid_input too_many_sections : SectionLayoutError

-- Why no plan is returned: an error of the program, or a loop that has not ended within its fuel.
pub data Stop : Type 0 where
  refused : SectionLayoutError → Stop
  unfinished : Stop

pub data SectionRole : Type 0 where
  text read_only_data writable_data exception_data resource_data : SectionRole
  import_address_table executable_writable : SectionRole

pub record AddressRange : Type 0 where
  pub begin : ℕ
  pub end : ℕ

-- `~mask` of 32 bits.
abbrev pub not32 : ℕ → ℕ
not32 mask = 2 ^ 32 - 1 - mask

unfoldable pub align_down : ℕ → ℕ → ℕ
align_down value alignment = bit_and value (not32 (alignment - 1))

unfoldable pub align_up : ℕ → ℕ → Option ℕ
align_up value alignment =
    let mask = alignment - 1 in
    if ltb (2 ^ 32 - 1 - mask) value then none else some (bit_and (value + mask) (not32 mask))

unfoldable pub overlaps : AddressRange → AddressRange → Bool
overlaps left right = ltb left.begin right.end && ltb right.begin left.end

unfoldable pub is_valid_directory : PeDataDirectory → ℕ → Bool
is_valid_directory directory image_size =
    directory.address != 0
    && directory.size != 0
    && ltb directory.address image_size
    && leb directory.size (image_size - directory.address)

-- Only of a valid directory, so the sum does not wrap.
abbrev pub directory_range : PeDataDirectory → AddressRange
directory_range directory = record {
  begin = directory.address;
  end = directory.address + directory.size;
}

-- `source.directories[entry]`, a fixed array.
abbrev pub source_directory : PeImageLayout → ℕ → PeDataDirectory
source_directory source entry = directory_or_none (get_elem? source.directories entry)

-- The page of `start`: a sum of 32 bits, cut off at the image.
unfoldable pub page_range : ℕ → ℕ → ℕ → AddressRange
page_range start alignment image_size =
    let end = (start + alignment) % 2 ^ 32 in
    record { begin = start; end = if ltb image_size end then image_size else end }

-- `std::any_of` of the ranges that overlap the page.
unfoldable pub any_overlaps : AddressRange → List AddressRange → Bool
any_overlaps page [] = false
any_overlaps page (range ∷ ranges) = overlaps page range || any_overlaps page ranges
