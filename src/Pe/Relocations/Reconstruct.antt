-- ===== src/Pe/Relocations/Reconstruct.antt =====
-- The search for relocation slots of RelocationReconstructor.cpp, and `Reconstruct`.
use upx_killer.Common.{
  ℕ, zero, suc, ◌+◌, ◌-◌, Bool, true, false, not, ◌||◌, Option, none, some, List, [], ◌∷◌, ◌++◌,
  ltb, leb, ◌==◌, ◌!=◌, length, if◌then◌else◌,
}
use upx_killer.Common.Results.{Result, ok, err, ◌>>=◌, ◌>>◌, reject_if}
use upx_killer.Pe.Headers.{field}
use upx_killer.Pe.Format.{PeImageLayout}
use upx_killer.Pe.Relocations.{
  SourceRelocationSlot, LoadedImageSnapshot, RelocationSlot, RelocationRebuildPlan,
  RelocationRebuildError, RelocationTraits, address_fits, traits_of, encode_directory,
}

-- `found->imageTarget && found->imageTarget->value == target.value`
abbrev is_target : Option ℕ → ℕ → Bool
is_target none target = false
is_target (some t) target = t == target

-- `IsPackedResidue`: the first source slot at the location has the target.
unfoldable pub is_packed_residue : List SourceRelocationSlot → ℕ → ℕ → Bool
is_packed_residue [] location target = false
is_packed_residue (source ∷ sources) location target =
    let later = is_packed_residue sources location target in
    if source.location == location then is_target source.image_target target else later

-- `target && *target != relative`
abbrev differs : Option ℕ → ℕ → Bool
differs none relative = false
differs (some target) relative = target != relative

-- The loop over the snapshots at one address: the target that all of them agree on.
unfoldable pub common_target : ℕ → ℕ → ℕ → List LoadedImageSnapshot → Option ℕ → Option ℕ
common_target pointer_size size_of_image rva [] target = target
common_target pointer_size size_of_image rva (snapshot ∷ snapshots) target =
    let value = field pointer_size snapshot.bytes rva in
    let relative = value - snapshot.loaded_base in
    let later = common_target pointer_size size_of_image rva snapshots (some relative) in
    if ltb value snapshot.loaded_base
    then none
    else if leb size_of_image relative || differs target relative
    then none
    else later

-- Where the last slot ends; zero when there is none.
unfoldable pub last_end : ℕ → List RelocationSlot → ℕ
last_end pointer_size [] = 0
last_end pointer_size (slot ∷ []) = slot.location + pointer_size
last_end pointer_size (slot ∷ (next ∷ slots)) = last_end pointer_size (next ∷ slots)

-- The body of the loop over the addresses.
unfoldable pub add_slot :
    ℕ
    → ℕ
    → List LoadedImageSnapshot
    → List SourceRelocationSlot
    → ℕ
    → List RelocationSlot
    → Result RelocationRebuildError (List RelocationSlot)
add_slot pointer_size size_of_image snapshots sources rva slots =
    elim (common_target pointer_size size_of_image rva snapshots none) [
      | none ↦ ok slots
      | some target ↦
          if is_packed_residue sources rva target
          then ok slots
          else if ltb rva (last_end pointer_size slots)
          then err RelocationRebuildError.candidates_ambiguous
          else ok (slots ++ (record { location = rva; image_target = target } ∷ []))
    ]

-- `rounds` rounds of the loop from `rva` on.
unfoldable pub scan_slots :
    ℕ
    → ℕ
    → List LoadedImageSnapshot
    → List SourceRelocationSlot
    → ℕ
    → ℕ
    → List RelocationSlot
    → Result RelocationRebuildError (List RelocationSlot)
scan_slots pointer_size size_of_image snapshots sources zero rva slots = ok slots
scan_slots pointer_size size_of_image snapshots sources (suc rounds) rva slots = do
  next ← add_slot pointer_size size_of_image snapshots sources rva slots
  scan_slots pointer_size size_of_image snapshots sources rounds (rva + 1) next

unfoldable pub any_unfit : RelocationTraits → List LoadedImageSnapshot → Bool
any_unfit traits [] = false
any_unfit traits (snapshot ∷ snapshots) =
    not (address_fits traits snapshot.loaded_base) || any_unfit traits snapshots

-- The loop runs while a pointer at the address still lies in the image.
unfoldable pub reconstruct_typed :
    RelocationTraits
    → List LoadedImageSnapshot
    → List SourceRelocationSlot
    → PeImageLayout
    → ℕ
    → Result RelocationRebuildError RelocationRebuildPlan
reconstruct_typed traits snapshots sources layout base = do
  let rounds = layout.size_of_image + 1 - traits.pointer_size - layout.size_of_headers
  reject_if (not (address_fits traits base)) RelocationRebuildError.invalid_input
  reject_if (any_unfit traits snapshots) RelocationRebuildError.invalid_input
  slots ←
      scan_slots traits.pointer_size layout.size_of_image snapshots sources rounds
        layout.size_of_headers []
  reject_if (length slots == 0) RelocationRebuildError.no_relocations
  reject_if (length (encode_directory traits.relocation_type slots) == 0)
      RelocationRebuildError.invalid_input
  ok (record {
    preferred_image_base = base;
    enable_dynamic_base = true;
    enable_high_entropy_va = true;
    slots = slots;
    directory_bytes = encode_directory traits.relocation_type slots;
  })

unfoldable pub has_base : ℕ → List LoadedImageSnapshot → Bool
has_base base [] = false
has_base base (snapshot ∷ snapshots) = snapshot.loaded_base == base || has_base base snapshots

-- The checks of the snapshots in order, each against those before it.
unfoldable pub check_snapshots :
    ℕ
    → List LoadedImageSnapshot
    → List LoadedImageSnapshot
    → Result RelocationRebuildError (Unit {0})
check_snapshots size_of_image earlier [] = ok tt
check_snapshots size_of_image earlier (snapshot ∷ snapshots) = do
  reject_if (snapshot.loaded_base == 0 || ltb (length snapshot.bytes) size_of_image)
      RelocationRebuildError.invalid_input
  reject_if (has_base snapshot.loaded_base earlier) RelocationRebuildError.evidence_insufficient
  check_snapshots size_of_image (earlier ++ (snapshot ∷ [])) snapshots

unfoldable pub reconstruct :
    List LoadedImageSnapshot
    → List SourceRelocationSlot
    → PeImageLayout
    → ℕ
    → Result RelocationRebuildError RelocationRebuildPlan
reconstruct snapshots sources layout base = do
  reject_if (length snapshots != 3 || leb layout.size_of_image layout.size_of_headers || base == 0)
      RelocationRebuildError.evidence_insufficient
  check_snapshots layout.size_of_image [] snapshots
  reconstruct_typed (traits_of layout.format) snapshots sources layout base
