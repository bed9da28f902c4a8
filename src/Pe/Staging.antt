-- ===== src/Pe/Staging.antt =====
-- upx-killer-engine/Core/PE/Rebasing/NoSourceRelocations: the staging of a file without source
-- relocations, and the addressing of the stub of a PE32 file. Nothing of the code throws but failed
-- allocations, so the handlers behind `catch (...)` are not reached.
pub mod Stub
pub mod Fields
pub mod Staged
mod Tests
use upx_killer.Common.{
  ℕ, ◌+◌, ◌-◌, ◌^◌, ◌%◌, bit_and, bit_or, Bool, true, false, not, ◌&&◌, ◌||◌, Option, none, some,
  List, [], ◌∷◌, Bytes, ltb, leb, ◌==◌, ◌!=◌, length, get_elem?, if◌then◌else◌,
}
use upx_killer.Common.Results.{Result, ok, err, ◌>>=◌, ◌>>◌, reject_if, or_reject}
use upx_killer.Pe.Format.{PeFormat, PeSection, PeImageLayout}
use upx_killer.Pe.Headers.{WindowsHeaders, PeFormatTraits, field}
use upx_killer.Pe.Parser.{directory_or_none}
use upx_killer.Pe.Relocations.{SourceRelocationSlot, traits_of, address_fits}
use upx_killer.Pe.Rebasing.{section_raw, le_bytes, splice, format_traits}
use upx_killer.Pe.Discovery.{find_section}

pub record NoSourceRelocationsImage : Type 0 where
  pub bytes : Bytes
  pub required_base : ℕ
  pub staging_only_slots : List SourceRelocationSlot

pub data NoSourceRelocationsError : Type 0 where
  invalid_input source_relocations_present : NoSourceRelocationsError

-- `UpxPe32StubAddressingRebaseStatus`
pub data StubStatus : Type 0 where
  not_applicable applied invalid : StubStatus

-- `UpxPe32StubAddressingRebaseResult`, with the bytes of the staged image behind the call.
pub record StubRebase : Type 0 where
  pub status : StubStatus
  pub patched_location : Option ℕ
  pub image_target : Option ℕ
  pub staged : Bytes

abbrev pub prologue_size : ℕ
prologue_size = 12

abbrev pub source_immediate_offset : ℕ
source_immediate_offset = 2

abbrev pub destination_displacement_offset : ℕ
destination_displacement_offset = 8

-- `RawOffsetForRva`
unfoldable pub raw_offset_for_rva : PeImageLayout → ℕ → ℕ → Option ℕ
raw_offset_for_rva layout rva size =
    if ltb rva layout.size_of_headers && leb size (layout.size_of_headers - rva)
    then some rva
    else section_raw rva size layout.sections

-- The sum of an address and a signed displacement of 32 bits, given by its bits; `none` is below zero.
unfoldable pub displaced : ℕ → ℕ → Option ℕ
displaced address displacement =
    let forward = address + displacement in
    if ltb displacement (2 ^ 31)
    then some forward
    else if ltb forward (2 ^ 32)
    then none
    else some (forward - 2 ^ 32)

-- `pushad; mov esi, imm32; lea edi, [esi + disp32]`
unfoldable pub has_prologue : Bytes → ℕ → Bool
has_prologue staged offset =
    field 1 staged offset == 0x60
    && field 1 staged (offset + 1) == 0xbe
    && field 1 staged (offset + 6) == 0x8d
    && field 1 staged (offset + 7) == 0xbe

-- The tests of the destination section, a pointer to another section than the packed one.
unfoldable pub is_destination : ℕ × PeSection → ℕ × PeSection → ℕ → Bool
is_destination packed destination rva =
    destination.0 != packed.0
    && rva == destination.1.virtual_address
    && destination.1.raw_size == 0
    && destination.1.virtual_size != 0

-- The packed section, after every test of the prologue at `offset` and before the write.
unfoldable pub check_stub : Bytes → PeImageLayout → ℕ → ℕ → Result StubStatus (ℕ × PeSection)
check_stub staged layout base offset = do
  let source_address = field 4 staged (offset + source_immediate_offset)
  let displacement = field 4 staged (offset + destination_displacement_offset)
  reject_if (not (has_prologue staged offset)) StubStatus.not_applicable
  packed ← or_reject (find_section layout.entry_point 0 layout.sections) StubStatus.invalid
  let expected = layout.preferred_image_base + packed.1.virtual_address
  reject_if (ltb (2 ^ 32 - 1) layout.preferred_image_base) StubStatus.invalid
  reject_if (ltb (2 ^ 32 - 1) expected || source_address != expected) StubStatus.invalid
  address ← or_reject (displaced source_address displacement) StubStatus.invalid
  let rva = address - layout.preferred_image_base
  reject_if (ltb address layout.preferred_image_base || leb layout.size_of_image rva)
      StubStatus.invalid
  destination ← or_reject (find_section rva 0 layout.sections) StubStatus.invalid
  reject_if (not (is_destination packed destination rva)) StubStatus.invalid
  reject_if (ltb (2 ^ 32 - 1) (base + packed.1.virtual_address)) StubStatus.invalid
  ok packed

abbrev unchanged : StubStatus → Bytes → StubRebase
unchanged status staged = record {
  status = status;
  patched_location = none;
  image_target = none;
  staged = staged;
}

-- `UpxPe32StubAddressingRebaser::Rebase` at the file offset of the entry point.
unfoldable pub rebase_stub_at : Bytes → PeImageLayout → ℕ → ℕ → StubRebase
rebase_stub_at staged layout base offset =
    if ltb (length staged) offset || ltb (length staged - offset) prologue_size
    then unchanged StubStatus.invalid staged
    else elim (check_stub staged layout base offset) [
      | err status ↦ unchanged status staged
      | ok packed ↦ record {
        status = StubStatus.applied;
        patched_location = some ((layout.entry_point + source_immediate_offset) % 2 ^ 32);
        image_target = some packed.1.virtual_address;
        staged =
            splice (offset + source_immediate_offset) (le_bytes 4 (base + packed.1.virtual_address))
              staged;
      }
    ]

unfoldable pub rebase_stub : Bytes → PeImageLayout → ℕ → StubRebase
rebase_stub staged layout base = elim layout.format [
  | PeFormat.pe64 ↦ unchanged StubStatus.not_applicable staged
  | PeFormat.pe32 ↦ elim (raw_offset_for_rva layout layout.entry_point prologue_size) [
    | none ↦ unchanged StubStatus.invalid staged
    | some offset ↦ rebase_stub_at staged layout base offset
  ]
]

-- The base and the characteristics without the two of a moving image.
unfoldable pub place_headers : WindowsHeaders → PeFormatTraits → ℕ → ℕ → Bytes → Bytes
place_headers h traits optional base bytes =
    let based =
      splice (optional + traits.image_base_offset) (le_bytes traits.address_width base) bytes in
    let dll = field 2 based (optional + h.dll_characteristics_offset) in
    let mask = 2 ^ 16 - 1 - bit_or h.dynamic_base h.high_entropy_va in
    splice (optional + h.dll_characteristics_offset) (le_bytes 2 (bit_and dll mask)) based

-- The slots of a stub that has been applied, which needs both addresses.
unfoldable pub staging_slots :
    StubRebase → Result NoSourceRelocationsError (List SourceRelocationSlot)
staging_slots stub = elim stub.status [
  | StubStatus.invalid ↦ err NoSourceRelocationsError.invalid_input
  | StubStatus.not_applicable ↦ ok []
  | StubStatus.applied ↦ do
    location ← or_reject stub.patched_location NoSourceRelocationsError.invalid_input
    target ← or_reject stub.image_target NoSourceRelocationsError.invalid_input
    ok (record { location = location; image_target = some target } ∷ [])
]

-- `PrepareTyped`; the stub is addressed in a PE32 file only.
unfoldable pub prepare_typed :
    WindowsHeaders
    → Bytes
    → PeImageLayout
    → ℕ
    → Result NoSourceRelocationsError NoSourceRelocationsImage
prepare_typed h source layout base = do
  let traits = format_traits h layout.format
  let nt_size = 4 + h.file_header_size + traits.optional_header_size
  let optional = layout.nt_header_offset + 4 + h.file_header_size
  reject_if
      (not (address_fits (traits_of layout.format) base)
        || ltb (length source) layout.nt_header_offset
        || ltb (length source - layout.nt_header_offset) nt_size)
      NoSourceRelocationsError.invalid_input
  let stub = rebase_stub (place_headers h traits optional base source) layout base
  slots ← staging_slots stub
  ok (record { bytes = stub.staged; required_base = base; staging_only_slots = slots })

-- `NoSourceRelocationsImagePreparer::Prepare`
unfoldable pub prepare_staging :
    WindowsHeaders
    → Bytes
    → PeImageLayout
    → ℕ
    → Result NoSourceRelocationsError NoSourceRelocationsImage
prepare_staging h source layout base = do
  let directory = directory_or_none (get_elem? layout.directories h.base_relocation_entry)
  reject_if
      (length source == 0 || base == 0 || base % 2 ^ 16 != 0 || layout.preferred_image_base == 0)
      NoSourceRelocationsError.invalid_input
  reject_if (directory.address != 0 || directory.size != 0)
      NoSourceRelocationsError.source_relocations_present
  prepare_typed h source layout base
