-- ===== src/Publication.antt =====
-- upx-killer-engine/Application/Artifacts/ArtifactPublicationUseCase.h and .cpp. The store is an
-- interface on a state `S` of the system, which its calls change; the validator runs the image, which may
-- change the state as well.
-- Both are `noexcept`, and the progress callback, which only takes the events, is taken not to throw,
-- so the handler behind `catch (...)` is not reached.
mod Tests
pub mod Samples
pub mod Storage
pub mod Windows
pub mod Promises
pub mod Stored
use upx_killer.Common.{
  ℕ, Bool, true, false, not, ◌&&◌, ◌||◌, Option, none, some, List, [], ◌∷◌, Bytes, codes, ◌==◌,
  ◌!=◌, if◌then◌else◌,
}
use upx_killer.Contracts.Targets.{TargetDescriptor, ImageKind}
use upx_killer.Contracts.Jobs.{ArtifactQuality, JobStage, ProgressEvent}

pub data ArtifactPublicationError : Type 0 where
  no_error stage_failed validation_failed promote_failed unexpected_failure :
      ArtifactPublicationError

pub record PublishedArtifact : Type 0 where
  pub path : Bytes
  pub quality : ArtifactQuality
  pub loader_mappable : Bool
  pub warnings : List Bytes

pub record ArtifactStageResult : Type 0 where
  pub temporary_path : Option Bytes
  pub native_error : ℕ

pub record ArtifactValidationRequest : Type 0 where
  pub image_path : Bytes
  pub target : TargetDescriptor
  pub dependency_directory : Bytes
  pub timeout_milliseconds : ℕ

pub record ArtifactValidationResult : Type 0 where
  pub loader_mappable : Bool
  pub exports_valid : Bool
  pub completed : Bool
  pub timed_out : Bool
  pub exit_code : ℕ
  pub native_error : ℕ

pub record ArtifactPublicationRequest : Type 0 where
  pub final_path : Bytes
  pub bytes : Bytes
  pub target : TargetDescriptor
  pub dependency_directory : Bytes
  pub validation_timeout_milliseconds : ℕ
  pub quality : ArtifactQuality
  pub warnings : List Bytes
  pub retain_failed_output : Bool

pub record ArtifactPublicationResult : Type 0 where
  pub artifact : Option PublishedArtifact
  pub error : ArtifactPublicationError
  pub native_error : ℕ

pub record ArtifactStore (S : Type 0) : Type 0 where
  pub stage : Bytes → Bytes → S → ArtifactStageResult × S
  pub promote : Bytes → Bytes → S → ℕ × S
  pub remove : Bytes → S → S

pub record ArtifactValidator (S : Type 0) : Type 0 where
  pub validate : ArtifactValidationRequest → S → ArtifactValidationResult × S

-- What `Execute` has done: its result, the state of the storage, and the events in order.
pub record Publication (S : Type 0) : Type 0 where
  pub result : ArtifactPublicationResult
  pub storage : S
  pub events : List ProgressEvent

unfoldable pub is_completed : ImageKind → ArtifactValidationResult → Bool
is_completed ImageKind.shared_library v = v.completed
is_completed ImageKind.executable v = v.completed || v.timed_out

unfoldable pub is_valid : ImageKind → ArtifactValidationResult → Bool
is_valid kind v =
    v.loader_mappable
    && v.exports_valid
    && is_completed kind v
    && (not v.completed || v.exit_code == 0)

unfoldable pub validation_error : ArtifactValidationResult → ℕ
validation_error v = if v.completed && v.exit_code != 0 then v.exit_code else v.native_error

abbrev pub validating : ProgressEvent
validating = record {
  stage = JobStage.validating_artifact;
  detail_code = codes "artifact.progress.validating";
}

abbrev pub completed : ProgressEvent
completed = record { stage = JobStage.completed; detail_code = codes "job.completed" }

abbrev pub failure : ArtifactPublicationError → ℕ → ArtifactPublicationResult
failure error native_error = record { artifact = none; error = error; native_error = native_error }

abbrev pub validation_request : ArtifactPublicationRequest → Bytes → ArtifactValidationRequest
validation_request request path = record {
  image_path = path;
  target = request.target;
  dependency_directory = request.dependency_directory;
  timeout_milliseconds = request.validation_timeout_milliseconds;
}

module _ {S : Type 0} (store : ArtifactStore S) (validator : ArtifactValidator S) where
  -- `if (!request.retainFailedOutput) store_.Remove(...)`.
  unfoldable pub discard : ArtifactPublicationRequest → Bytes → S → S
  discard request path s = if request.retain_failed_output then s else store.remove path s

  -- From the promotion on.
  unfoldable pub promote_staged : ArtifactPublicationRequest → Bytes → S → Publication S
  promote_staged request path s =
      let promoted = store.promote path request.final_path s in
      if promoted.0 != 0
      then record {
        result = failure ArtifactPublicationError.promote_failed promoted.0;
        storage = discard request path promoted.1;
        events = validating ∷ [];
      }
      else record {
        result = record {
          artifact = some (record {
            path = request.final_path;
            quality = request.quality;
            loader_mappable = true;
            warnings = request.warnings;
          });
          error = ArtifactPublicationError.no_error;
          native_error = 0;
        };
        storage = promoted.1;
        events = validating ∷ completed ∷ [];
      }

  -- From the validation on.
  unfoldable pub publish_staged : ArtifactPublicationRequest → Bytes → S → Publication S
  publish_staged request path s =
      let validation = validator.validate (validation_request request path) s in
      if is_valid request.target.image_kind validation.0
      then promote_staged request path validation.1
      else record {
        result = failure ArtifactPublicationError.validation_failed (validation_error validation.0);
        storage = discard request path validation.1;
        events = validating ∷ [];
      }

  unfoldable pub publish : ArtifactPublicationRequest → S → Publication S
  publish request s =
      let staged = store.stage request.final_path request.bytes s in
      elim staged.0.temporary_path [
        | none ↦ record {
          result = failure ArtifactPublicationError.stage_failed staged.0.native_error;
          storage = staged.1;
          events = validating ∷ [];
        }
        | some path ↦ publish_staged request path staged.1
      ]
