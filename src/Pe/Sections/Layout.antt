-- ===== src/Pe/Sections/Layout.antt =====
-- upx-killer-engine/Core/PE/Sections/SectionLayoutRebuilder.cpp: the roles of the pages, the sections
-- that adjacent pages of one role make, and `Build`.
use upx_killer.Common.{
  ℕ, zero, suc, ◌+◌, ◌-◌, ◌%◌, min, bit_and, bit_or, Bool, not, ◌&&◌, ◌||◌, List, [], ◌∷◌, ◌++◌,
  Bytes, codes, ltb, leb, ◌==◌, ◌!=◌, length, take, drop, replicate, if◌then◌else◌,
}
use mathlib.Core.List.{reverse}
use upx_killer.Common.Results.{Result, ok, err, ◌>>=◌, ◌>>◌, reject_if, or_reject}
use upx_killer.Pe.Format.{PeSection, PeImageLayout}
use upx_killer.Pe.Headers.{WindowsHeaders}
use upx_killer.Pe.Directories.{WindowsDirectories}
use upx_killer.Pe.Parser.{is_power_of_two, virtual_extent}
use upx_killer.Pe.Sections.{
  SectionLayoutInput, RebuiltSection, SectionLayoutPlan, invalid_input, too_many_sections, Stop,
  refused, unfinished, SectionRole, AddressRange, overlaps, any_overlaps, is_valid_directory,
  directory_range, source_directory,
}
use upx_killer.Pe.Sections.Ranges.{Evidence, discover_code_ranges, discover_iat_ranges, add_regions}

abbrev pub maximum_sections : ℕ
maximum_sections = 95

-- Whether the page meets the valid directory of an entry.
unfoldable pub meets_directory : PeImageLayout → ℕ → AddressRange → Bool
meets_directory source entry page =
    let directory = source_directory source entry in
    is_valid_directory directory source.size_of_image && overlaps page (directory_range directory)

unfoldable pub is_read_only : WindowsDirectories → PeSection → Bool
is_read_only d section =
    bit_and section.characteristics d.mem_read != 0
    && bit_and section.characteristics (bit_or d.mem_write d.mem_execute) == 0

unfoldable pub classify :
    WindowsDirectories → PeImageLayout → Evidence → PeSection → AddressRange → SectionRole
classify d source evidence section page =
    if any_overlaps page evidence.executable_writable
    then SectionRole.executable_writable
    else if any_overlaps page evidence.writable
    then SectionRole.writable_data
    else if any_overlaps page evidence.code
    then SectionRole.text
    else if any_overlaps page evidence.import_addresses
    then SectionRole.import_address_table
    else if meets_directory source d.exception_entry page
    then SectionRole.exception_data
    else if meets_directory source d.resource_entry page
    then SectionRole.resource_data
    else if meets_directory source d.export_entry page
    then SectionRole.read_only_data
    else if is_read_only d section
    then SectionRole.read_only_data
    else SectionRole.writable_data

unfoldable pub base_name : SectionRole → Bytes
base_name SectionRole.text = codes ".text"
base_name SectionRole.read_only_data = codes ".rdata"
base_name SectionRole.writable_data = codes ".data"
base_name SectionRole.exception_data = codes ".pdata"
base_name SectionRole.resource_data = codes ".rsrc"
base_name SectionRole.import_address_table = codes ".iat"
base_name SectionRole.executable_writable = codes ".textw"

unfoldable pub characteristics_of : WindowsDirectories → SectionRole → ℕ
characteristics_of d SectionRole.text = bit_or (bit_or d.content_code d.mem_execute) d.mem_read
characteristics_of d SectionRole.writable_data =
    bit_or (bit_or d.content_initialized_data d.mem_read) d.mem_write
characteristics_of d SectionRole.import_address_table =
    bit_or (bit_or d.content_initialized_data d.mem_read) d.mem_write
characteristics_of d SectionRole.executable_writable =
    bit_or (bit_or (bit_or d.content_code d.mem_execute) d.mem_read) d.mem_write
characteristics_of d SectionRole.read_only_data = bit_or d.content_initialized_data d.mem_read
characteristics_of d SectionRole.exception_data = bit_or d.content_initialized_data d.mem_read
characteristics_of d SectionRole.resource_data = bit_or d.content_initialized_data d.mem_read

-- `name[index] = value` in an array.
abbrev pub set_at : ℕ → ℕ → Bytes → Bytes
set_at index value name = take index name ++ (value ∷ drop (suc index) name)

unfoldable pub make_name : SectionRole → ℕ → Bytes
make_name role ordinal =
    let base = base_name role in
    let name = base ++ replicate (8 - length base) 0 in
    if ordinal != 0 then set_at (min (length base) 7) (b'0' + min ordinal 9) name else name

pub record PlannedRange : Type 0 where
  pub range : AddressRange
  pub role : SectionRole

-- The position of a role in the enumeration.
abbrev pub role_index : SectionRole → ℕ
role_index SectionRole.text = 0
role_index SectionRole.read_only_data = 1
role_index SectionRole.writable_data = 2
role_index SectionRole.exception_data = 3
role_index SectionRole.resource_data = 4
role_index SectionRole.import_address_table = 5
role_index SectionRole.executable_writable = 6

abbrev same_role : SectionRole → SectionRole → Bool
same_role a b = role_index a == role_index b

-- One page: the back of the vector, which is extended or followed by the page, is the head of the list.
unfoldable pub add_page : AddressRange → SectionRole → List PlannedRange → List PlannedRange
add_page page role [] = record { range = page; role = role } ∷ []
add_page page role (last ∷ ranges) =
    if same_role last.role role && last.range.end == page.begin
    then record last { range = record { begin = last.range.begin; end = page.end } } ∷ ranges
    else record { range = page; role = role } ∷ (last ∷ ranges)

-- `while (cursor < end)`, where `role_of` is `Classify`; a round of fuel for each byte is enough.
unfoldable pub add_pages :
    (AddressRange → SectionRole)
    → ℕ
    → ℕ
    → ℕ
    → ℕ
    → List PlannedRange
    → Result Stop (List PlannedRange)
add_pages role_of alignment zero cursor end ranges =
    if ltb cursor end then err unfinished else ok ranges
add_pages role_of alignment (suc fuel) cursor end ranges =
    let page_end = min (cursor + alignment) end in
    let page : AddressRange = record { begin = cursor; end = page_end } in
    let rest =
      add_pages role_of alignment fuel page_end end (add_page page (role_of page) ranges) in
    if ltb cursor end then rest else ok ranges

unfoldable pub is_bad_section : PeImageLayout → PeSection → Bool
is_bad_section source section =
    virtual_extent section == 0
    || leb source.size_of_image section.virtual_address
    || section.virtual_address % source.section_alignment != 0

abbrev pub section_end : PeImageLayout → PeSection → ℕ
section_end source section =
    min (section.virtual_address + virtual_extent section) source.size_of_image

-- The loop over the sections of the source.
unfoldable pub add_sections :
    WindowsDirectories
    → PeImageLayout
    → Evidence
    → List PeSection
    → List PlannedRange
    → Result Stop (List PlannedRange)
add_sections d source evidence [] ranges = ok ranges
add_sections d source evidence (section ∷ sections) ranges = do
  reject_if (is_bad_section source section) (refused invalid_input)
  let end = section_end source section
  more ←
      add_pages (classify d source evidence section) source.section_alignment
        (end - section.virtual_address) section.virtual_address end ranges
  add_sections d source evidence sections more

abbrev pub no_counts : ℕ → ℕ
no_counts index = 0

-- `nameCounts[index]++`
abbrev pub count_name : (ℕ → ℕ) → ℕ → ℕ → ℕ
count_name counts index i = if i == index then counts i + 1 else counts i

-- The last loop.
unfoldable pub name_sections :
    WindowsDirectories → (ℕ → ℕ) → List PlannedRange → List RebuiltSection
name_sections d counts [] = []
name_sections d counts (planned ∷ ranges) =
    let index = role_index planned.role in
    record {
      name = make_name planned.role (counts index);
      virtual_address = planned.range.begin;
      virtual_size = planned.range.end - planned.range.begin;
      characteristics = characteristics_of d planned.role;
    }
    ∷ name_sections d (count_name counts index) ranges

abbrev is_empty : List PeSection → Bool
is_empty sections = length sections == 0

unfoldable pub is_bad_input : PeImageLayout → SectionLayoutInput → Bool
is_bad_input source input =
    is_empty source.sections
    || source.size_of_image == 0
    || not (is_power_of_two source.section_alignment)
    || not (is_power_of_two source.file_alignment)
    || ltb (length input.loaded_image) source.size_of_image
    || leb source.size_of_image input.oep

-- The ranges of the pages that `Build` plans, the last first.
unfoldable pub plan_ranges :
    WindowsHeaders
    → WindowsDirectories
    → PeImageLayout
    → SectionLayoutInput
    → Result Stop (Evidence × List PlannedRange)
plan_ranges h d source input = do
  reject_if (is_bad_input source input) (refused invalid_input)
  found ← discover_code_ranges h d source input
  import_addresses ← or_reject (discover_iat_ranges source input.imports) (refused invalid_input)
  evidence ←
      add_regions source.size_of_image input.memory_regions
        (record found { import_addresses = import_addresses })
  ranges ← add_sections d source evidence source.sections []
  ok (evidence, ranges)

-- `SectionLayoutRebuilder::Build`.
unfoldable pub build :
    WindowsHeaders
    → WindowsDirectories
    → PeImageLayout
    → SectionLayoutInput
    → Result Stop SectionLayoutPlan
build h d source input = do
  planned ← plan_ranges h d source input
  reject_if (length planned.1 == 0) (refused invalid_input)
  reject_if (ltb maximum_sections (length planned.1)) (refused too_many_sections)
  ok (record {
    sections = name_sections d no_counts (reverse planned.1);
    tls_directory = planned.0.tls_directory;
  })
