-- ===== src/Pe/Relocations/Rebuilt.antt =====
-- The plan that `RelocationReconstructor::Reconstruct` returns.
use upx_killer.Common.{
  ℕ, zero, suc, ◌+◌, ◌-◌, ◌*◌, ◌≤◌, ◌<◌, ◌^◌, ◌≡◌, refl, sym, subst, ◌∙◌, arith, IsU32, none, some,
  List, [], ◌∷◌, All, All-append, ltb, length, Bool-cases, Option-cases, inl, inr,
}
use upx_killer.Common.Results.{ok, step_inversion, reject_if_inversion, ok-injective}
use upx_killer.Pe.Format.{PeFormat, PeImageLayout}
use upx_killer.Pe.Relocations.{
  SourceRelocationSlot, LoadedImageSnapshot, RelocationSlot, RelocationRebuildPlan, traits_of,
}
use upx_killer.Pe.Relocations.Reconstruct.{
  is_packed_residue, common_target, last_end, add_slot, scan_slots, reconstruct_typed,
  check_snapshots, reconstruct,
}
use upx_killer.Pe.Relocations.Reader.{read_directory, locations}
use upx_killer.Pe.Relocations.Directory.{encode_directory-read}
use upx_killer.Pe.Relocations.Evidence.{IsUsable, AreDistinct, check_snapshots-AreDistinct}
use upx_killer.Pe.Relocations.Slots.{IsSlot, IsSpaced, common_target-found, IsSpaced-append}

-- The invariant of the loop over the addresses.
record IsScanned (pointer_size first size_of_image : ℕ) (snapshots : List LoadedImageSnapshot)
    (slots : List RelocationSlot) : Type 0 where
  slots_good : All (IsSlot pointer_size first size_of_image snapshots) slots
  spaced : IsSpaced pointer_size first slots

module _ (pointer_size first size_of_image : ℕ) (snapshots : List LoadedImageSnapshot)
    (sources : List SourceRelocationSlot) where
  add_slot-IsScanned :
      (rva : ℕ) (slots next : List RelocationSlot)
      → first ≤ rva
      → rva + pointer_size ≤ size_of_image
      → IsScanned pointer_size first size_of_image snapshots slots
      → add_slot pointer_size size_of_image snapshots sources rva slots ≡ ok next
      → IsScanned pointer_size first size_of_image snapshots next
  unfolding add_slot
  add_slot-IsScanned rva slots next low high inv e =
      elim (Option-cases (common_target pointer_size size_of_image rva snapshots none)) [
        | inl missing ↦
            subst (IsScanned pointer_size first size_of_image snapshots) (ground arith) inv
        | inr found ↦ elim (Bool-cases (is_packed_residue sources rva found.0)) [
          | inl residue ↦
              subst (IsScanned pointer_size first size_of_image snapshots)
                (ok-injective slots next (sym (rw (add_slot, found.1, residue)) ∙ e)) inv
          | inr fresh ↦ elim (Bool-cases (ltb rva (last_end pointer_size slots))) [
            | inl overlap ↦ absurd (ground (arith, found.1))
            | inr apart ↦
                let slot : RelocationSlot = record { location = rva; image_target = found.0 } in
                let agreed =
                  common_target-found pointer_size size_of_image rva snapshots found.0 found.1 in
                subst (IsScanned pointer_size first size_of_image snapshots)
                  (ground (arith, found.1))
                  (record {
                    slots_good =
                        All-append (IsSlot pointer_size first size_of_image snapshots) slots
                          (slot ∷ []) inv.slots_good
                          (
                            record {
                              above = low;
                              below = high;
                              target = agreed.0;
                              agreed = agreed.1;
                            },
                            tt,
                          );
                    spaced =
                        IsSpaced-append pointer_size first slots slot inv.spaced low (ground arith);
                  })
          ]
        ]
      ]

  scan_slots-IsScanned :
      (rounds rva : ℕ) (slots done : List RelocationSlot)
      → first ≤ rva
      → rounds ≤ size_of_image + 1 - pointer_size - rva
      → IsScanned pointer_size first size_of_image snapshots slots
      → scan_slots pointer_size size_of_image snapshots sources rounds rva slots ≡ ok done
      → IsScanned pointer_size first size_of_image snapshots done
  unfolding scan_slots
  scan_slots-IsScanned zero rva slots done low left inv e =
      subst (IsScanned pointer_size first size_of_image snapshots) (ok-injective slots done e) inv
  scan_slots-IsScanned (suc rounds) rva slots done low left inv e =
      step_inversion (add_slot pointer_size size_of_image snapshots sources rva slots) _ done e
        λ next added e1.
          scan_slots-IsScanned rounds (rva + 1) next done (omega arith) (omega arith)
            (add_slot-IsScanned rva slots next low (omega arith) inv added) e1

-- The slots fit the image, four bytes or more each.
length-slots :
    (pointer_size first start size_of_image : ℕ) (snapshots : List LoadedImageSnapshot)
    (slots : List RelocationSlot)
    → 4 ≤ pointer_size
    → start ≤ size_of_image
    → All (IsSlot pointer_size first size_of_image snapshots) slots
    → IsSpaced pointer_size start slots
    → start + 4 * length slots ≤ size_of_image
length-slots pointer_size first start size_of_image snapshots [] wide fits good spaced = omega arith
length-slots pointer_size first start size_of_image snapshots (slot ∷ slots) wide fits good spaced =
    omega (
      arith,
      spaced.0,
      good.0.below,
      length-slots pointer_size first (slot.location + pointer_size) size_of_image snapshots slots
          wide good.0.below good.1 spaced.1,
    )

slots-IsU32 :
    (pointer_size first size_of_image : ℕ) (snapshots : List LoadedImageSnapshot)
    (slots : List RelocationSlot)
    → size_of_image ≤ 2 ^ 30
    → All (IsSlot pointer_size first size_of_image snapshots) slots
    → All (λ s. IsU32 s.location) slots
slots-IsU32 pointer_size first size_of_image snapshots [] small good = tt
slots-IsU32 pointer_size first size_of_image snapshots (slot ∷ slots) small good = (
  omega (arith, good.0.below),
  slots-IsU32 pointer_size first size_of_image snapshots slots small good.1,
)

-- A plan for three whole snapshots at bases that differ and are not zero: it moves the image to the
-- given base; it has a slot; its slots are pointers into the image on which all snapshots agree,
-- ascending and disjoint; and its directory names exactly them.
pub record IsRebuilt (snapshots : List LoadedImageSnapshot) (layout : PeImageLayout) (base : ℕ)
    (plan : RelocationRebuildPlan) : Type 0 where
  pub three : length snapshots ≡ 3
  pub usable : All (IsUsable layout.size_of_image) snapshots
  pub distinct : AreDistinct [] snapshots
  pub based : plan.preferred_image_base ≡ base
  pub some_slot : 1 ≤ length plan.slots
  pub slots_good :
      All
        (IsSlot
          (traits_of layout.format).pointer_size
          layout.size_of_headers
          layout.size_of_image
          snapshots)
        plan.slots
  pub spaced : IsSpaced (traits_of layout.format).pointer_size layout.size_of_headers plan.slots
  pub named : read_directory (length plan.slots) plan.directory_bytes ≡ some (locations plan.slots)

traits_of-wide : (format : PeFormat) → 4 ≤ (traits_of format).pointer_size
traits_of-wide PeFormat.pe32 = omega arith
traits_of-wide PeFormat.pe64 = omega arith

traits_of-type :
    (format : PeFormat)
    → (1 ≤ (traits_of format).relocation_type) × ((traits_of format).relocation_type < 16)
traits_of-type PeFormat.pe32 = (omega arith, omega arith)
traits_of-type PeFormat.pe64 = (omega arith, omega arith)

reconstruct_typed-IsRebuilt :
    (snapshots : List LoadedImageSnapshot) (sources : List SourceRelocationSlot)
    (layout : PeImageLayout) (base : ℕ) (plan : RelocationRebuildPlan)
    → length snapshots ≡ 3
    → All (IsUsable layout.size_of_image) snapshots × AreDistinct [] snapshots
    → layout.size_of_headers < layout.size_of_image
    → layout.size_of_image ≤ 2 ^ 30
    → reconstruct_typed (traits_of layout.format) snapshots sources layout base ≡ ok plan
    → IsRebuilt snapshots layout base plan
unfolding reconstruct_typed
reconstruct_typed-IsRebuilt snapshots sources layout base plan three sound headers small e =
    let traits = traits_of layout.format in
    let size = traits.pointer_size in
    let rounds = layout.size_of_image + 1 - size - layout.size_of_headers in
    reject_if_inversion _ _ _ plan e λ _ e1. reject_if_inversion _ _ _ plan e1 λ _ e2.
      step_inversion
        (scan_slots size layout.size_of_image snapshots sources rounds layout.size_of_headers []) _
        plan e2
        λ slots scanned e3. reject_if_inversion _ _ _ plan e3 λ has_slot e4.
          reject_if_inversion _ _ _ plan e4 λ _ e5.
            let inv =
              scan_slots-IsScanned size layout.size_of_headers layout.size_of_image snapshots
                sources rounds layout.size_of_headers [] slots (omega arith) (omega arith)
                (record { slots_good = tt; spaced = tt }) scanned in
            let count =
              length-slots size layout.size_of_headers layout.size_of_headers layout.size_of_image
                snapshots slots (traits_of-wide layout.format) (omega arith) inv.slots_good
                inv.spaced in
            let type = traits_of-type layout.format in
            subst (IsRebuilt snapshots layout base) (ok-injective _ plan e5) (record {
              three = three;
              usable = sound.0;
              distinct = sound.1;
              based = refl;
              some_slot = ground arith;
              slots_good = inv.slots_good;
              spaced = inv.spaced;
              named =
                  encode_directory-read traits.relocation_type slots type.0 type.1
                    (slots-IsU32 size layout.size_of_headers layout.size_of_image snapshots slots
                      small inv.slots_good)
                    (omega arith);
            })

-- Relocations that are reconstructed for an image of at most 1 GiB come from three whole snapshots at
-- bases that differ and are not zero; the plan has a slot and the given base, its slots lie between
-- the headers and the end of the image, ascend without overlap, and hold in each snapshot a pointer to
-- the same target in the image; and its directory reads back as exactly their locations.
pub reconstruct-IsRebuilt :
    (snapshots : List LoadedImageSnapshot) (sources : List SourceRelocationSlot)
    (layout : PeImageLayout) (base : ℕ) (plan : RelocationRebuildPlan)
    → layout.size_of_image ≤ 2 ^ 30
    → reconstruct snapshots sources layout base ≡ ok plan
    → IsRebuilt snapshots layout base plan
unfolding reconstruct
reconstruct-IsRebuilt snapshots sources layout base plan small e =
    reject_if_inversion _ _ _ plan e λ given e1.
      step_inversion (check_snapshots layout.size_of_image [] snapshots) _ plan e1 λ _ checked e2.
        reconstruct_typed-IsRebuilt snapshots sources layout base plan (ground arith)
          (check_snapshots-AreDistinct layout.size_of_image [] snapshots checked) (ground arith)
          small e2
