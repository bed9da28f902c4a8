-- ===== src/Pe/Jobs/Capture.antt =====
-- upx-killer-engine/Application/PE/Capture/PeRuntimeCaptureUseCase.h and .cpp. The capture of one run is
-- an interface on a state `S` of the system, with the stop token in it; it is `noexcept` and reports
-- stages. Nothing else throws but failed allocations, so the handler behind `catch (...)` is not reached.
use upx_killer.Common.{
  ℕ, ◌+◌, Bool, true, false, not, ◌&&◌, Option, none, some, List, [], ◌∷◌, ◌++◌, Bytes, ◌==◌, ◌!=◌,
  if◌then◌else◌,
}
use upx_killer.Common.Results.{Result, ok, err, ◌>>=◌}
use upx_killer.Dumping.{CapturedImage}
use upx_killer.Pe.Format.{PeFormat, PeImageKind, PeImageLayout}
use upx_killer.Pe.Headers.{WindowsHeaders}
use upx_killer.Pe.Imports.{RuntimeModuleSnapshot}
use upx_killer.Pe.Directories.{ImportRebuildPlan}
use upx_killer.Pe.Relocations.{SourceRelocationSlot}
use upx_killer.Pe.Rebasing.{PeFileRebaseError, rebase}
use upx_killer.Pe.Staging.{prepare_staging}
use upx_killer.Pe.Jobs.{EngineStage, UnpackRequest, PeSnapshotCaptureError, PeCaptureError}
use upx_killer.Pe.Jobs.Preparation.{EntryPointTarget, PreparedPeTarget}

pub record PeCapturedRun : Type 0 where
  pub image : CapturedImage
  pub entry_point : ℕ
  pub runtime_imports : RuntimeModuleSnapshot

pub record PeSnapshotCaptureRequest : Type 0 where
  pub target_path : Bytes
  pub dependency_directory : Bytes
  pub format : PeFormat
  pub image_kind : PeImageKind
  pub entry_point_target : EntryPointTarget
  pub layout : PeImageLayout
  pub staged_image : Bytes
  pub required_base : ℕ
  pub timeout : ℕ
  pub maximum_image_size : ℕ
  pub collect_runtime_imports : Bool

pub record PeSnapshotCaptureResult : Type 0 where
  pub capture : Option PeCapturedRun
  pub error : PeSnapshotCaptureError
  pub native_error : ℕ

-- `IPeSnapshotCapture`: the result, the stages reported and the state behind the call.
pub record PeSnapshotCapture (S : Type 0) : Type 0 where
  pub capture_one : PeSnapshotCaptureRequest → S → PeSnapshotCaptureResult × List EngineStage × S

pub record PeCaptureEvidence : Type 0 where
  pub runs : List PeCapturedRun
  pub source_relocation_slots : List SourceRelocationSlot

-- The errors of `PeRuntimeCaptureResult`.
pub record PeCaptureFailure : Type 0 where
  pub error : PeCaptureError
  pub snapshot_error : PeSnapshotCaptureError
  pub native_error : ℕ

-- What captures have come to: a result, the stages reported and the state.
pub record Captured (S A : Type 0) : Type 0 where
  pub result : Result PeCaptureFailure A
  pub stages : List EngineStage
  pub state : S

pub record StagedImage : Type 0 where
  pub bytes : Bytes
  pub required_base : ℕ
  pub source_slots : List SourceRelocationSlot

abbrev pub failed_with : PeCaptureError → PeCaptureFailure
failed_with error = record {
  error = error;
  snapshot_error = PeSnapshotCaptureError.no_error;
  native_error = 0;
}

unfoldable pub staging_error : PeFormat → PeFileRebaseError → PeCaptureError
staging_error PeFormat.pe32 PeFileRebaseError.unsupported_relocation_type =
    PeCaptureError.unsupported_pe32_relocation_type
staging_error _ _ = PeCaptureError.source_relocations_invalid

-- The body of the first loop.
unfoldable pub stage_image :
    WindowsHeaders → PreparedPeTarget → ℕ → Result PeCaptureError StagedImage
stage_image h target base =
    if not target.has_source_relocation_directory
    then (elim (prepare_staging h target.source_bytes target.layout base) [
      | err e ↦ err PeCaptureError.source_relocations_invalid
      | ok image ↦ ok (record {
        bytes = image.bytes;
        required_base = image.required_base;
        source_slots = image.staging_only_slots;
      })
    ])
    else elim (rebase h target.source_bytes target.layout base) [
      | err e ↦ err (staging_error target.layout.format e)
      | ok image ↦ ok (record {
        bytes = image.bytes;
        required_base = image.required_base;
        source_slots = image.source_slots;
      })
    ]

unfoldable pub stage_images :
    WindowsHeaders → PreparedPeTarget → List ℕ → Result PeCaptureError (List StagedImage)
stage_images h target [] = ok []
stage_images h target (base ∷ bases) = stage_image h target base >>= λ image.
    stage_images h target bases >>= λ images. ok (image ∷ images)

abbrev has_value : Option ImportRebuildPlan → Bool
has_value none = false
has_value (some plan) = true

-- The request for the image at an index.
abbrev pub snapshot_request :
    UnpackRequest → PreparedPeTarget → ℕ → StagedImage → PeSnapshotCaptureRequest
snapshot_request request target index image = record {
  target_path = target.target_path;
  dependency_directory = target.dependency_directory;
  format = target.layout.format;
  image_kind = target.layout.image_kind;
  entry_point_target = target.entry_point_target;
  layout = target.layout;
  staged_image = image.bytes;
  required_base = image.required_base;
  timeout = request.timeout_milliseconds;
  maximum_image_size = request.maximum_image_size;
  collect_runtime_imports = index == 0 && not (has_value request.imports);
}

unfoldable pub entry_differs : List PeCapturedRun → PeCapturedRun → Bool
entry_differs [] run = false
entry_differs (first ∷ runs) run = run.entry_point != first.entry_point

abbrev pub first_slots : Bool → List StagedImage → List SourceRelocationSlot
first_slots rebuild [] = []
first_slots rebuild (image ∷ images) = if rebuild then image.source_slots else []

module _ {S : Type 0} (snapshots : PeSnapshotCapture S) (request : UnpackRequest)
    (target : PreparedPeTarget) where
  -- The second loop, from an index on, with the runs so far.
  unfoldable pub capture_runs :
      ℕ → List StagedImage → List PeCapturedRun → S → Captured S (List PeCapturedRun)
  capture_runs index [] runs s = record { result = ok runs; stages = []; state = s }
  capture_runs index (image ∷ images) runs s =
      let one = snapshots.capture_one (snapshot_request request target index image) s in
      elim one.0.capture [
        | none ↦ record {
          result = err (record {
            error = PeCaptureError.snapshot_failed;
            snapshot_error = one.0.error;
            native_error = one.0.native_error;
          });
          stages = one.1;
          state = one.2;
        }
        | some run ↦
            let rest = capture_runs (index + 1) images (runs ++ (run ∷ [])) one.2 in
            if entry_differs runs run
            then record {
              result = err (failed_with PeCaptureError.entry_points_differ);
              stages = one.1;
              state = one.2;
            }
            else record { result = rest.result; stages = one.1 ++ rest.stages; state = rest.state }
      ]

  -- From the second loop on.
  unfoldable pub capture_staged : List StagedImage → S → Captured S PeCaptureEvidence
  capture_staged images s =
      let rebuild = target.execution_plan.rebuild_relocations in
      let done = capture_runs 0 images [] s in
      record {
        result = done.result >>= λ runs.
            ok (record { runs = runs; source_relocation_slots = first_slots rebuild images });
        stages = (if rebuild then EngineStage.capturing_relocations ∷ [] else []) ++ done.stages;
        state = done.state;
      }

  -- `PeRuntimeCaptureUseCase::Execute`
  unfoldable pub capture : WindowsHeaders → S → Captured S PeCaptureEvidence
  capture h s = elim (stage_images h target target.execution_plan.capture_bases) [
    | err e ↦ record { result = err (failed_with e); stages = []; state = s }
    | ok images ↦ capture_staged images s
  ]
