-- ===== src/Pe/Jobs/Reconstruction.antt =====
-- upx-killer-engine/Application/PE/Reconstruction/PeImageReconstructionUseCase.h and .cpp. The passes over
-- the image that it calls are an interface; the relocations are reconstructed as Pe/Relocations has it.
-- Nothing of the code throws but failed allocations, so the handler behind `catch (...)` is not reached.
use upx_killer.Common.{
  ℕ, Bool, true, false, not, ◌&&◌, Option, none, some, List, [], ◌∷◌, ◌++◌, Bytes, ◌==◌, ◌!=◌,
  length, if◌then◌else◌,
}
use upx_killer.Common.Results.{Result, ok, err}
use upx_killer.Contracts.Jobs.{ArtifactQuality}
use upx_killer.Dumping.{CapturedImage}
use upx_killer.Pe.Format.{PeImageLayout}
use upx_killer.Pe.Discovery.{is_library}
use upx_killer.Pe.Imports.{RuntimeModuleSnapshot, ImportDiscoveryError}
use upx_killer.Pe.Directories.{ImportRebuildPlan}
use upx_killer.Pe.Relocations.{
  SourceRelocationSlot, LoadedImageSnapshot, RelocationRebuildPlan, RelocationRebuildError,
}
use upx_killer.Pe.Relocations.Reconstruct.{reconstruct}
use upx_killer.Pe.Jobs.{EngineStage, UnpackRequest, PeFixError, PeReconstructionError}
use upx_killer.Pe.Jobs.Preparation.{PreparedPeTarget}
use upx_killer.Pe.Jobs.Capture.{PeCapturedRun, PeCaptureEvidence}

-- `ImagePlacementPlan`
pub data ImagePlacementPlan : Type 0 where
  fixed_placement : ℕ → ImagePlacementPlan
  relocated_placement : RelocationRebuildPlan → ImagePlacementPlan

pub record FixRequest : Type 0 where
  pub oep : ℕ
  pub imports : Option ImportRebuildPlan
  pub image_placement : ImagePlacementPlan

pub record FixedPeImage : Type 0 where
  pub bytes : Bytes
  pub quality : ArtifactQuality
  pub warnings : List Bytes

pub data RebuiltPeImageValidationError : Type 0 where
  no_error invalid_image invalid_imports : RebuiltPeImageValidationError
  invalid_fixed_placement invalid_relocations : RebuiltPeImageValidationError

pub record RebuiltPeImageValidationRequest : Type 0 where
  pub image : Bytes
  pub source_layout : PeImageLayout
  pub output_base : ℕ
  pub relocation_validation_base : ℕ
  pub expect_rebuilt_relocations : Bool
  pub expected_relocation_count : Option ℕ

-- `ImportDiscovery::Discover`, `PeImageFixer::Rebuild` and `RebuiltPeImageValidator::Validate`.
pub record ReconstructionPasses : Type 0 where
  pub discover :
      Bytes
      → Bytes
      → PeImageLayout
      → RuntimeModuleSnapshot
      → ℕ
      → Result ImportDiscoveryError ImportRebuildPlan
  pub rebuild : PeImageLayout → CapturedImage → FixRequest → Result PeFixError FixedPeImage
  pub validate :
      RebuiltPeImageValidationRequest → Result RebuiltPeImageValidationError PeImageLayout

pub record ReconstructedPeImage : Type 0 where
  pub image : FixedPeImage
  pub layout : PeImageLayout

-- `PeImageReconstructionResult`, whose failure has an error and one of the fixer, with the stages.
pub record Reconstruction : Type 0 where
  pub result : Result (PeReconstructionError × PeFixError) ReconstructedPeImage
  pub stages : List EngineStage

abbrev pub abandoned : PeReconstructionError → List EngineStage → Reconstruction
abandoned error stages = record { result = err (error, PeFixError.no_error); stages = stages }

abbrev is_missing : ImportDiscoveryError → Bool
is_missing ImportDiscoveryError.imports_not_found = true
is_missing _ = false

abbrev pub import_failure : ImportDiscoveryError → PeReconstructionError
import_failure ImportDiscoveryError.imports_ambiguous = PeReconstructionError.imports_ambiguous
import_failure _ = PeReconstructionError.imports_not_found

abbrev pub relocation_failure : RelocationRebuildError → PeReconstructionError
relocation_failure RelocationRebuildError.candidates_ambiguous =
    PeReconstructionError.relocation_candidates_ambiguous
relocation_failure _ = PeReconstructionError.relocation_evidence_insufficient

abbrev pub validation_failure : RebuiltPeImageValidationError → PeReconstructionError
validation_failure RebuiltPeImageValidationError.invalid_relocations =
    PeReconstructionError.relocation_validation_failed
validation_failure _ = PeReconstructionError.output_validation_failed

abbrev pub no_imports : ImportRebuildPlan
no_imports = record { modules = [] }

-- A library without an entry point may have no imports at all.
unfoldable pub may_lack_imports : PreparedPeTarget → PeCapturedRun → ImportDiscoveryError → Bool
may_lack_imports target first error =
    is_missing error && is_library target.layout.image_kind && first.entry_point == 0

abbrev pub snapshots_of : List PeCapturedRun → List LoadedImageSnapshot
snapshots_of [] = []
snapshots_of (run ∷ runs) =
    record { loaded_base = run.image.loaded_address; bytes = run.image.bytes } ∷ snapshots_of runs

-- The slots of the source, for an entry point that has been discovered.
abbrev pub source_slots : Option ℕ → PeCaptureEvidence → List SourceRelocationSlot
source_slots none evidence = evidence.source_relocation_slots
source_slots (some oep) evidence = []

module _ (passes : ReconstructionPasses) (request : UnpackRequest) (target : PreparedPeTarget)
    (evidence : PeCaptureEvidence) (first : PeCapturedRun) where
  -- The imports of a request without any.
  unfoldable pub discover_imports : Result PeReconstructionError ImportRebuildPlan
  discover_imports =
      elim (passes.discover first.image.bytes target.source_bytes target.layout
        first.runtime_imports first.entry_point) [
          | ok plan ↦ ok plan
          | err e ↦
              if may_lack_imports target first e then ok no_imports else err (import_failure e)
        ]

  -- From the fixing on.
  unfoldable pub fix_image :
      ImportRebuildPlan → ImagePlacementPlan → Option ℕ → List EngineStage → Reconstruction
  fix_image imports placement count stages =
      let later = stages ++ (EngineStage.fixing ∷ []) in
      elim (passes.rebuild target.layout first.image
        (record { oep = first.entry_point; imports = some imports; image_placement = placement })) [
          | err e ↦ record { result = err (PeReconstructionError.fixing_failed, e); stages = later }
          | ok image ↦
              elim (passes.validate (record {
                image = image.bytes;
                source_layout = target.layout;
                output_base = target.execution_plan.output_base;
                relocation_validation_base = target.execution_plan.validation_base;
                expect_rebuilt_relocations = target.execution_plan.rebuild_relocations;
                expected_relocation_count = count;
              })) [
                | err e ↦ abandoned (validation_failure e) later
                | ok layout ↦ record {
                  result = ok (record {
                    image = record image { warnings = image.warnings ++ first.image.warnings };
                    layout = layout;
                  });
                  stages = later;
                }
              ]
        ]

  -- From the placement of the image on.
  unfoldable pub place_image : ImportRebuildPlan → List EngineStage → Reconstruction
  place_image imports stages =
      let plan = target.execution_plan in
      let later = stages ++ (EngineStage.rebuilding_relocations ∷ []) in
      if not plan.rebuild_relocations
      then fix_image imports (fixed_placement target.layout.preferred_image_base) none stages
      else if length evidence.runs != 3
      then abandoned PeReconstructionError.relocation_evidence_insufficient stages
      else elim (reconstruct (snapshots_of evidence.runs) (source_slots request.oep evidence)
          target.layout plan.output_base) [
            | err e ↦ abandoned (relocation_failure e) later
            | ok relocations ↦
                fix_image imports
                  (relocated_placement (record relocations {
                    enable_dynamic_base = plan.enable_dynamic_base;
                    enable_high_entropy_va = plan.enable_high_entropy_va;
                  }))
                  (some (length relocations.slots)) later
          ]

  -- From the imports on.
  unfoldable pub rebuild_from : Reconstruction
  rebuild_from = elim request.imports [
    | some imports ↦ place_image imports []
    | none ↦ elim discover_imports [
      | err e ↦ abandoned e (EngineStage.rebuilding_imports ∷ [])
      | ok imports ↦ place_image imports (EngineStage.rebuilding_imports ∷ [])
    ]
  ]

-- `PeImageReconstructionUseCase::Execute`
unfoldable pub reconstruct_image :
    ReconstructionPasses → UnpackRequest → PreparedPeTarget → PeCaptureEvidence → Reconstruction
reconstruct_image passes request target evidence = elim evidence.runs [
  | [] ↦ abandoned PeReconstructionError.missing_capture []
  | first ∷ _ ↦ rebuild_from passes request target evidence first
]
