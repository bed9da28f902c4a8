-- ===== src/Pe/Rebasing.antt =====
-- upx-killer-engine/Core/PE/Rebasing/PeFileRebaser.cpp. The structures of <Windows.h> are the parameter
-- that the parser takes; the block header of the relocation directory is two values of four bytes.
pub mod Splices
pub mod Moved
pub mod Confined
pub mod Rebased
mod Tests
use upx_killer.Common.{
  ℕ, zero, suc, ◌+◌, ◌-◌, ◌*◌, ◌/◌, ◌%◌, ◌^◌, bit_and, bit_or, Bool, true, false, not, ◌&&◌, ◌||◌,
  Option, none, some, List, [], ◌∷◌, ◌++◌, Bytes, ltb, leb, ◌==◌, ◌!=◌, length, take, drop,
  get_elem?, if◌then◌else◌,
}
use upx_killer.Common.Reading.{read}
use upx_killer.Common.Results.{Result, ok, err, ◌>>=◌, ◌>>◌, reject_if, or_reject}
use upx_killer.Pe.Format.{PeFormat, PeSection, PeDataDirectory, PeImageLayout}
use upx_killer.Pe.Headers.{WindowsHeaders, PeFormatTraits, field}
use upx_killer.Pe.Parser.{directory_or_none}
use upx_killer.Pe.Relocations.{SourceRelocationSlot, traits_of, address_fits}

pub record RebasedFileImage : Type 0 where
  pub bytes : Bytes
  pub required_base : ℕ
  pub source_slots : List SourceRelocationSlot

pub data PeFileRebaseError : Type 0 where
  invalid_input missing_relocations : PeFileRebaseError
  invalid_relocation_directory unsupported_relocation_type : PeFileRebaseError

unfoldable pub section_raw : ℕ → ℕ → List PeSection → Option ℕ
section_raw rva size [] = none
section_raw rva size (section ∷ sections) =
    let later = section_raw rva size sections in
    let delta = rva - section.virtual_address in
    if ltb rva section.virtual_address
    then later
    else if leb delta section.raw_size && leb size (section.raw_size - delta)
    then some (section.raw_offset + delta)
    else later

unfoldable pub rva_to_raw : PeImageLayout → ℕ → ℕ → Option ℕ
rva_to_raw layout rva size =
    if ltb rva layout.size_of_headers
    then (if leb size (layout.size_of_headers - rva) then some rva else none)
    else section_raw rva size layout.sections

-- The little-endian bytes of a value.
unfoldable pub le_bytes : ℕ → ℕ → Bytes
le_bytes zero v = []
le_bytes (suc width) v = v % 256 ∷ le_bytes width (v / 256)

-- `memcpy` of `new` over the bytes from `offset` on.
unfoldable pub splice : ℕ → Bytes → Bytes → Bytes
splice offset new bytes = take offset bytes ++ (new ++ drop (offset + length new) bytes)

-- `Write`.
unfoldable pub write : ℕ → Bytes → ℕ → ℕ → Option Bytes
write width bytes offset v =
    if ltb (length bytes) offset || ltb (length bytes - offset) width
    then none
    else some (splice offset (le_bytes width v) bytes)

-- The target of a word that points into the image at its preferred base.
unfoldable pub evidence_of : PeImageLayout → ℕ → Option ℕ
evidence_of layout value =
    if leb layout.preferred_image_base value
      && ltb (value - layout.preferred_image_base) layout.size_of_image
    then some (value - layout.preferred_image_base)
    else none

-- `static_cast<Pointer>(value + delta)`, where `delta` is a difference of pointers.
unfoldable pub moved : ℕ → PeImageLayout → ℕ → ℕ → ℕ
moved width layout base value =
    (value + (base + (256 ^ width - layout.preferred_image_base))) % 256 ^ width

module _ (source : Bytes) (layout : PeImageLayout) (base : ℕ) where
  -- A slot of the format's type at an address.
  unfoldable pub rebase_slot : ℕ → RebasedFileImage → Result PeFileRebaseError RebasedFileImage
  rebase_slot slot image = do
    let width = (traits_of layout.format).pointer_size
    reject_if (ltb (2 ^ 32 - 1) slot) PeFileRebaseError.invalid_relocation_directory
    raw ← or_reject (rva_to_raw layout slot width) PeFileRebaseError.invalid_relocation_directory
    value ← or_reject (read width source raw) PeFileRebaseError.invalid_relocation_directory
    bytes ←
        or_reject (write width image.bytes raw (moved width layout base value))
          PeFileRebaseError.invalid_relocation_directory
    ok (record image {
      bytes = bytes;
      source_slots =
          image.source_slots
          ++ (record { location = slot; image_target = evidence_of layout value } ∷ []);
    })

  -- One entry of a block.
  unfoldable pub rebase_entry : ℕ → ℕ → RebasedFileImage → Result PeFileRebaseError RebasedFileImage
  rebase_entry page entry image =
      if entry / 4096 == 0
      then ok image
      else if entry / 4096 != (traits_of layout.format).relocation_type
      then err PeFileRebaseError.unsupported_relocation_type
      else rebase_slot (page + entry % 4096) image

  -- `rounds` entries from the address `rva` on, which is computed with 32 bits.
  unfoldable pub rebase_entries :
      ℕ → ℕ → ℕ → RebasedFileImage → Result PeFileRebaseError RebasedFileImage
  rebase_entries page zero rva image = ok image
  rebase_entries page (suc rounds) rva image = do
    raw ←
        or_reject (rva_to_raw layout (rva % 2 ^ 32) 2)
          PeFileRebaseError.invalid_relocation_directory
    entry ← or_reject (read 2 source raw) PeFileRebaseError.invalid_relocation_directory
    next ← rebase_entry page entry image
    rebase_entries page rounds (rva + 2) next

  -- One block at `consumed`: its size with the image behind it.
  unfoldable pub rebase_block :
      PeDataDirectory → ℕ → RebasedFileImage → Result PeFileRebaseError (ℕ × RebasedFileImage)
  rebase_block directory consumed image = do
    let rva = directory.address + consumed
    raw ←
        or_reject (rva_to_raw layout (rva % 2 ^ 32) 8)
          PeFileRebaseError.invalid_relocation_directory
    page ← or_reject (read 4 source raw) PeFileRebaseError.invalid_relocation_directory
    size ← or_reject (read 4 source (raw + 4)) PeFileRebaseError.invalid_relocation_directory
    reject_if (ltb size 8 || ltb (directory.size - consumed) size || (size - 8) % 2 != 0)
        PeFileRebaseError.invalid_relocation_directory
    next ← rebase_entries page ((size - 8) / 2) (rva + 8) image
    ok (size, next)

  -- `while (consumed < directory.size)`, at most a round for each byte of the directory, since a block
  -- has at least eight; what has been consumed comes back with the image.
  unfoldable pub rebase_blocks :
      PeDataDirectory → ℕ → ℕ → RebasedFileImage → Result PeFileRebaseError (ℕ × RebasedFileImage)
  rebase_blocks directory zero consumed image = ok (consumed, image)
  rebase_blocks directory (suc fuel) consumed image =
      if ltb consumed directory.size
      then (rebase_block directory consumed image >>= λ done.
          rebase_blocks directory fuel (consumed + done.0) done.1)
      else ok (consumed, image)

-- The fields of the optional header that are written at the end: the base, the characteristics
-- without the two of a moving image, and the checksum.
unfoldable pub patch_headers :
    WindowsHeaders → PeFormatTraits → ℕ → ℕ → RebasedFileImage → RebasedFileImage
patch_headers h traits optional base image =
    let based =
      splice (optional + traits.image_base_offset) (le_bytes traits.address_width base)
        image.bytes in
    let dll = field 2 based (optional + h.dll_characteristics_offset) in
    let mask = 2 ^ 16 - 1 - bit_or h.dynamic_base h.high_entropy_va in
    let fixed =
      splice (optional + h.dll_characteristics_offset) (le_bytes 2 (bit_and dll mask)) based in
    record image { bytes = splice (optional + h.checksum_offset) (le_bytes 4 0) fixed }

abbrev pub format_traits : WindowsHeaders → PeFormat → PeFormatTraits
format_traits h PeFormat.pe32 = h.pe32
format_traits h PeFormat.pe64 = h.pe64

unfoldable pub rebase_typed :
    WindowsHeaders → Bytes → PeImageLayout → ℕ → Result PeFileRebaseError RebasedFileImage
rebase_typed h source layout base = do
  let traits = format_traits h layout.format
  let fits = address_fits (traits_of layout.format)
  let nt_size = 4 + h.file_header_size + traits.optional_header_size
  let optional = layout.nt_header_offset + 4 + h.file_header_size
  let directory = directory_or_none (get_elem? layout.directories h.base_relocation_entry)
  reject_if
      (not (fits base)
        || not (fits layout.preferred_image_base)
        || ltb (length source) layout.nt_header_offset
        || ltb (length source - layout.nt_header_offset) nt_size)
      PeFileRebaseError.invalid_input
  reject_if (directory.address == 0 || ltb directory.size 8) PeFileRebaseError.missing_relocations
  done ←
      rebase_blocks source layout base directory directory.size 0
        (record { bytes = source; required_base = base; source_slots = [] })
  reject_if (done.0 != directory.size) PeFileRebaseError.invalid_relocation_directory
  ok (patch_headers h traits optional base done.1)

unfoldable pub rebase :
    WindowsHeaders → Bytes → PeImageLayout → ℕ → Result PeFileRebaseError RebasedFileImage
rebase h source layout base = do
  reject_if
      (length source == 0 || base == 0 || base % 2 ^ 16 != 0 || layout.preferred_image_base == 0)
      PeFileRebaseError.invalid_input
  rebase_typed h source layout base
