-- ===== src/Pe/Relocations.antt =====
-- upx-killer-engine/Core/PE/Relocations/RelocationReconstructor.cpp. The widths and the relocation
-- type of the format's traits are arguments; `memcpy` reads and writes little-endian values.
pub mod Reader
pub mod Directory
pub mod Reconstruct
pub mod Evidence
pub mod Slots
pub mod Rebuilt
mod Tests
use upx_killer.Common.{
  ℕ, zero, suc, ◌+◌, ◌-◌, ◌*◌, ◌/◌, ◌%◌, ◌^◌, Bool, true, false, not, ◌&&◌, ◌||◌, Option, none,
  some, List, [], ◌∷◌, ◌++◌, Bytes, ltb, leb, ◌==◌, ◌!=◌, length, if◌then◌else◌,
}
use upx_killer.Common.Results.{Result, ok, err, ◌>>=◌, ◌>>◌, reject_if}
use upx_killer.Pe.Headers.{field}
use upx_killer.Pe.Format.{PeFormat, PeImageLayout}

pub record SourceRelocationSlot : Type 0 where
  pub location : ℕ
  pub image_target : Option ℕ

pub record LoadedImageSnapshot : Type 0 where
  pub loaded_base : ℕ
  pub bytes : Bytes

pub record RelocationSlot : Type 0 where
  pub location : ℕ
  pub image_target : ℕ

pub record RelocationRebuildPlan : Type 0 where
  pub preferred_image_base : ℕ
  pub enable_dynamic_base : Bool
  pub enable_high_entropy_va : Bool
  pub slots : List RelocationSlot
  pub directory_bytes : Bytes

pub data RelocationRebuildError : Type 0 where
  invalid_input evidence_insufficient candidates_ambiguous no_relocations : RelocationRebuildError

-- What the format's traits give: the size of a pointer, `RelocationType` and `AddressFits`.
pub record RelocationTraits : Type 0 where
  pub pointer_size : ℕ
  pub relocation_type : ℕ

unfoldable pub address_fits : RelocationTraits → ℕ → Bool
address_fits traits address = ltb address (256 ^ traits.pointer_size)

-- `IMAGE_REL_BASED_HIGHLOW` and `IMAGE_REL_BASED_DIR64`.
abbrev pub traits_of : PeFormat → RelocationTraits
traits_of PeFormat.pe32 = record { pointer_size = 4; relocation_type = 3 }
traits_of PeFormat.pe64 = record { pointer_size = 8; relocation_type = 10 }

-- `Append` of a `WORD` and of a `DWORD`.
unfoldable pub word_bytes : ℕ → Bytes
word_bytes v = v % 256 ∷ v / 256 % 256 ∷ []

unfoldable pub dword_bytes : ℕ → Bytes
dword_bytes v = v % 256 ∷ v / 256 % 256 ∷ v / 2 ^ 16 % 256 ∷ v / 2 ^ 24 % 256 ∷ []

-- `value & ~0xfffu`
abbrev pub page_of : ℕ → ℕ
page_of location = location / 4096 * 4096

unfoldable pub take_page : ℕ → List RelocationSlot → List RelocationSlot
take_page page [] = []
take_page page (slot ∷ slots) =
    let later = slot ∷ take_page page slots in if page_of slot.location == page then later else []

unfoldable pub drop_page : ℕ → List RelocationSlot → List RelocationSlot
drop_page page [] = []
drop_page page (slot ∷ slots) =
    let later = drop_page page slots in
    if page_of slot.location == page then later else slot ∷ slots

-- `(Traits::RelocationType << 12) | offset`, where the offset has twelve bits.
unfoldable pub entry_bytes : ℕ → ℕ → List RelocationSlot → Bytes
entry_bytes type page [] = []
entry_bytes type page (slot ∷ slots) =
    word_bytes (type * 4096 + (slot.location - page)) ++ entry_bytes type page slots

unfoldable pub block_size : ℕ → ℕ
block_size count = let size = (8 + count * 2) % 2 ^ 32 in if size % 4 != 0 then size + 2 else size

unfoldable pub padding : ℕ → Bytes
padding count = if count % 2 != 0 then word_bytes 0 else []

unfoldable pub block_bytes : ℕ → ℕ → List RelocationSlot → Bytes
block_bytes type page run =
    dword_bytes page
    ++ (dword_bytes (block_size (length run))
        ++ (entry_bytes type page run ++ padding (length run)))

-- Every round of the outer loop takes at least one slot, so a round for each slot is enough.
unfoldable pub encode_blocks : ℕ → ℕ → List RelocationSlot → Bytes
encode_blocks type zero slots = []
encode_blocks type (suc fuel) [] = []
encode_blocks type (suc fuel) (slot ∷ slots) =
    let page = page_of slot.location in
    block_bytes type page (slot ∷ take_page page slots)
    ++ encode_blocks type fuel (drop_page page slots)

unfoldable pub encode_directory : ℕ → List RelocationSlot → Bytes
encode_directory type slots = encode_blocks type (length slots) slots
