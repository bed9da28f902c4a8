-- ===== src/Pe/Jobs/Placed.antt =====
-- The images of a target that are staged, one for each capture base.
use upx_killer.Common.{
  ℕ, suc, ◌≡◌, ◌⊎◌, refl, ap, arith, true, false, List, [], ◌∷◌, length, subst, inl, inr,
  Bool-cases,
}
use upx_killer.Common.Results.{ok, step_inversion, ok-injective, Result-cases}
use upx_killer.Pe.Headers.{WindowsHeaders}
use upx_killer.Pe.Rebasing.{RebasedFileImage, format_traits, rebase}
use upx_killer.Pe.Rebasing.Rebased.{HasFields, IsRebased, rebase-IsRebased}
use upx_killer.Pe.Staging.{NoSourceRelocationsImage, prepare_staging}
use upx_killer.Pe.Staging.Fields.{HasBaseFirst}
use upx_killer.Pe.Staging.Staged.{IsStaged, prepare_staging-IsStaged}
use upx_killer.Pe.Jobs.Preparation.{PreparedPeTarget}
use upx_killer.Pe.Jobs.Capture.{StagedImage, stage_image, stage_images}

-- An image for one base: the rebased file, or the file that is staged without source relocations.
abbrev pub IsStagedAt : WindowsHeaders → PreparedPeTarget → ℕ → StagedImage → Type 0
IsStagedAt h target base image =
    (image.required_base ≡ base)
    × (((target.has_source_relocation_directory ≡ true)
          × ((rebased : RebasedFileImage) × (image.bytes ≡ rebased.bytes)
              × (image.source_slots ≡ rebased.source_slots)
              × IsRebased h target.source_bytes target.layout base rebased))
        ⊎ ((target.has_source_relocation_directory ≡ false)
            × ((staged : NoSourceRelocationsImage) × (image.bytes ≡ staged.bytes)
                × (image.source_slots ≡ staged.staging_only_slots)
                × IsStaged h target.source_bytes target.layout base staged)))

abbrev pub AreStaged : WindowsHeaders → PreparedPeTarget → List ℕ → List StagedImage → Type 0
AreStaged h target [] [] = Unit {0}
AreStaged h target (base ∷ bases) (image ∷ images) =
    IsStagedAt h target base image × AreStaged h target bases images
AreStaged h target _ _ = ⊥

module _ (h : WindowsHeaders) (target : PreparedPeTarget)
    (fields : HasFields h (format_traits h target.layout.format))
    (ordered : HasBaseFirst h target.layout.format) where
  stage_image-IsStagedAt :
      (base : ℕ) (image : StagedImage)
      → stage_image h target base ≡ ok image
      → IsStagedAt h target base image
  unfolding stage_image
  stage_image-IsStagedAt base image e = elim (Bool-cases target.has_source_relocation_directory) [
    | inl has ↦ elim (Result-cases (rebase h target.source_bytes target.layout base)) [
      | inr bad ↦ absurd (ground (arith, has, bad.1))
      | inl (rebased, made) ↦
          let good =
            rebase-IsRebased h target.source_bytes target.layout base rebased fields made in
          subst (IsStagedAt h target base) (ok-injective _ image (rw (has, made, stage_image) at e))
            (good.based, inl (has, (rebased, refl, refl, good)))
    ]
    | inr has ↦ elim (Result-cases (prepare_staging h target.source_bytes target.layout base)) [
      | inr bad ↦ absurd (ground (arith, has, bad.1))
      | inl (staged, made) ↦
          let good =
            prepare_staging-IsStaged h target.source_bytes target.layout base staged fields ordered
              made in
          subst (IsStagedAt h target base) (ok-injective _ image (rw (has, made, stage_image) at e))
            (good.based, inr (has, (staged, refl, refl, good)))
    ]
  ]

  pub stage_images-AreStaged :
      (bases : List ℕ) (images : List StagedImage)
      → stage_images h target bases ≡ ok images
      → AreStaged h target bases images
  unfolding stage_images
  stage_images-AreStaged [] images e = subst (AreStaged h target []) (ok-injective [] images e) tt
  stage_images-AreStaged (base ∷ bases) images e =
      step_inversion (stage_image h target base) _ images e λ image one e1.
        step_inversion (stage_images h target bases) _ images e1 λ others all e2.
          subst (AreStaged h target (base ∷ bases)) (ok-injective (image ∷ others) images e2)
            (stage_image-IsStagedAt base image one, stage_images-AreStaged bases others all)

pub AreStaged-length :
    (h : WindowsHeaders) (target : PreparedPeTarget) (bases : List ℕ) (images : List StagedImage)
    → AreStaged h target bases images
    → length images ≡ length bases
AreStaged-length h target [] [] all = refl
AreStaged-length h target [] (image ∷ images) all = absurd all
AreStaged-length h target (base ∷ bases) [] all = absurd all
AreStaged-length h target (base ∷ bases) (image ∷ images) all =
    ap suc (AreStaged-length h target bases images all.1)
