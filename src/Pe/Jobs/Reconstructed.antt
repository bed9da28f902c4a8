-- ===== src/Pe/Jobs/Reconstructed.antt =====
-- What a reconstructed image is made of.
use upx_killer.Common.{
  ℕ, ◌^◌, ◌≤◌, ◌≡◌, ◌⊎◌, refl, arith, true, false, Option, none, some, List, [], ◌∷◌, ◌++◌, length,
  subst, inl, inr, ◌!=◌, Bool-cases, Option-cases,
}
use upx_killer.Common.Results.{ok, ok-injective, Result-cases}
use upx_killer.Pe.Directories.{ImportRebuildPlan}
use upx_killer.Pe.Relocations.{RelocationRebuildPlan}
use upx_killer.Pe.Relocations.Reconstruct.{reconstruct}
use upx_killer.Pe.Relocations.Rebuilt.{IsRebuilt, reconstruct-IsRebuilt}
use upx_killer.Pe.Jobs.{EngineStage, UnpackRequest}
use upx_killer.Pe.Jobs.Preparation.{PreparedPeTarget}
use upx_killer.Pe.Jobs.Capture.{PeCapturedRun, PeCaptureEvidence}
use upx_killer.Pe.Jobs.Reconstruction.{
  ImagePlacementPlan, FixedPeImage, RebuiltPeImageValidationRequest, ReconstructionPasses,
  ReconstructedPeImage, snapshots_of, source_slots, discover_imports, fix_image, place_image,
  rebuild_from, reconstruct_image,
}
use upx_killer.Pe.Jobs.Imported.{IsImportPlan, discover_imports-IsImportPlan}

pub runs-cases :
    (l : List PeCapturedRun)
    → (l ≡ []) ⊎ ((first : PeCapturedRun) × (rest : List PeCapturedRun) × (l ≡ first ∷ rest))
runs-cases [] = inl refl
runs-cases (first ∷ rest) = inr (first, rest, refl)

module _ (passes : ReconstructionPasses) (request : UnpackRequest) (target : PreparedPeTarget)
    (evidence : PeCaptureEvidence) where
  -- The image stays at its preferred base, or has relocations that are rebuilt from the runs and the flags of the plan.
  pub data IsPlacement (placement : ImagePlacementPlan) (count : Option ℕ) : Type 0 where
    fixed :
        target.execution_plan.rebuild_relocations ≡ false
        → placement ≡ ImagePlacementPlan.fixed_placement target.layout.preferred_image_base
        → count ≡ none
        → IsPlacement placement count
    relocated :
        target.execution_plan.rebuild_relocations ≡ true
        → (plan : RelocationRebuildPlan)
        → IsRebuilt
            (snapshots_of evidence.runs)
            target.layout
            target.execution_plan.output_base
            plan
        → placement
          ≡ ImagePlacementPlan.relocated_placement (record plan {
            enable_dynamic_base = target.execution_plan.enable_dynamic_base;
            enable_high_entropy_va = target.execution_plan.enable_high_entropy_va;
          })
        → count ≡ some (length plan.slots)
        → IsPlacement placement count

  pub record IsReconstructed (image : ReconstructedPeImage) : Type 0 where
    pub first : PeCapturedRun
    pub rest : List PeCapturedRun
    pub runs : evidence.runs ≡ first ∷ rest
    pub imports : ImportRebuildPlan
    pub imported : IsImportPlan passes request target evidence first imports
    pub placement : ImagePlacementPlan
    pub count : Option ℕ
    pub placed : IsPlacement placement count
    pub rebuilt : FixedPeImage
    pub fixed :
        passes.rebuild target.layout first.image
          (record { oep = first.entry_point; imports = some imports; image_placement = placement })
        ≡ ok rebuilt
    pub validated :
        passes.validate (record {
          image = image.image.bytes;
          source_layout = target.layout;
          output_base = target.execution_plan.output_base;
          relocation_validation_base = target.execution_plan.validation_base;
          expect_rebuilt_relocations = target.execution_plan.rebuild_relocations;
          expected_relocation_count = count;
        })
        ≡ ok image.layout
    pub bytes : image.image.bytes ≡ rebuilt.bytes
    pub quality : image.image.quality ≡ rebuilt.quality
    pub warnings : image.image.warnings ≡ rebuilt.warnings ++ first.image.warnings

  module _ (first : PeCapturedRun) (rest : List PeCapturedRun)
      (runs : evidence.runs ≡ first ∷ rest) where
    fix_image-IsReconstructed :
        (imports : ImportRebuildPlan) (placement : ImagePlacementPlan) (count : Option ℕ)
        (stages : List EngineStage) (image : ReconstructedPeImage)
        → IsImportPlan passes request target evidence first imports
        → IsPlacement placement count
        → (fix_image passes request target evidence first imports placement count stages).result
          ≡ ok image
        → IsReconstructed image
    unfolding fix_image
    fix_image-IsReconstructed imports placement count stages image imported placed e =
        elim (Result-cases (
          passes.rebuild target.layout first.image (record {
            oep = first.entry_point;
            imports = some imports;
            image_placement = placement;
          }))) [
            | inr bad ↦ absurd (ground (arith, bad.1))
            | inl (rebuilt, made) ↦
                let asked : RebuiltPeImageValidationRequest = record {
                  image = rebuilt.bytes;
                  source_layout = target.layout;
                  output_base = target.execution_plan.output_base;
                  relocation_validation_base = target.execution_plan.validation_base;
                  expect_rebuilt_relocations = target.execution_plan.rebuild_relocations;
                  expected_relocation_count = count;
                } in
                elim (Result-cases (passes.validate asked)) [
                  | inr bad ↦ absurd (ground (arith, made, bad.1))
                  | inl (layout, valid) ↦
                      subst IsReconstructed
                        (ok-injective _ image (rw (made, valid, fix_image) at e))
                        (record {
                          first = first;
                          rest = rest;
                          runs = runs;
                          imports = imports;
                          imported = imported;
                          placement = placement;
                          count = count;
                          placed = placed;
                          rebuilt = rebuilt;
                          fixed = made;
                          validated = valid;
                          bytes = refl;
                          quality = refl;
                          warnings = refl;
                        })
                ]
          ]

    place_image-IsReconstructed :
        (imports : ImportRebuildPlan) (stages : List EngineStage) (image : ReconstructedPeImage)
        → target.layout.size_of_image ≤ 2 ^ 30
        → IsImportPlan passes request target evidence first imports
        → (place_image passes request target evidence first imports stages).result ≡ ok image
        → IsReconstructed image
    unfolding place_image
    place_image-IsReconstructed imports stages image small imported e =
        elim (Bool-cases target.execution_plan.rebuild_relocations) [
          | inr stays ↦
              fix_image-IsReconstructed imports
                (ImagePlacementPlan.fixed_placement target.layout.preferred_image_base) none stages
                image imported (IsPlacement.fixed stays refl refl) (simp (stays, place_image) at e)
          | inl moves ↦ elim (Bool-cases (length evidence.runs != 3)) [
            | inl few ↦ absurd (ground (arith, moves, few))
            | inr three ↦
                elim (Result-cases (
                  reconstruct (snapshots_of evidence.runs) (source_slots request.oep evidence)
                    target.layout target.execution_plan.output_base)) [
                      | inr bad ↦ absurd (ground (arith, moves, three, bad.1))
                      | inl (plan, found) ↦
                          fix_image-IsReconstructed imports _ _ _ image imported
                            (IsPlacement.relocated moves plan
                              (reconstruct-IsRebuilt (snapshots_of evidence.runs)
                                (source_slots request.oep evidence) target.layout
                                target.execution_plan.output_base plan small found)
                              refl refl)
                            (simp (moves, three, found, place_image) at e)
                    ]
          ]
        ]

    rebuild_from-IsReconstructed :
        (image : ReconstructedPeImage)
        → target.layout.size_of_image ≤ 2 ^ 30
        → (rebuild_from passes request target evidence first).result ≡ ok image
        → IsReconstructed image
    unfolding rebuild_from
    rebuild_from-IsReconstructed image small e = elim (Option-cases request.imports) [
      | inr (imports, asked) ↦
          place_image-IsReconstructed imports [] image small (IsImportPlan.requested asked)
            (simp (asked, rebuild_from) at e)
      | inl asked ↦ elim (Result-cases (discover_imports passes request target evidence first)) [
        | inr bad ↦ absurd (ground (arith, asked, bad.1))
        | inl (imports, found) ↦
            place_image-IsReconstructed imports (EngineStage.rebuilding_imports ∷ []) image small
              (discover_imports-IsImportPlan passes request target evidence first imports asked
                found)
              (simp (asked, found, rebuild_from) at e)
      ]
    ]

  -- For an image of at most 1 GiB: an image that is reconstructed is what the fixer makes of the first run at its entry
  -- point, and the validator accepts its bytes. The imports are the requested ones, the discovered ones, or none,
  -- the last only where none are found for a library without an entry point; the image stays at its preferred base,
  -- or moves with relocations that are rebuilt from the runs and the flags of the plan.
  pub reconstruct_image-IsReconstructed :
      (image : ReconstructedPeImage)
      → target.layout.size_of_image ≤ 2 ^ 30
      → (reconstruct_image passes request target evidence).result ≡ ok image
      → IsReconstructed image
  unfolding reconstruct_image
  reconstruct_image-IsReconstructed image small e = elim (runs-cases evidence.runs) [
    | inl empty ↦ absurd (ground (arith, empty))
    | inr (first, rest, runs) ↦
        rebuild_from-IsReconstructed first rest runs image small
          (simp (runs, reconstruct_image) at e)
  ]
