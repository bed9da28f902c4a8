-- ===== src/Pe/Jobs/Outcomes.antt =====
-- The two ends of a job of the PE backend.
use upx_killer.Common.{
  ℕ, ◌+◌, ◌≡◌, refl, ◌∙◌, arith, Bool, true, false, Option, none, some, List, [], ◌∷◌, ◌++◌, Bytes,
  inl, inr, Bool-cases, Option-cases,
}
use upx_killer.Common.Results.{Result-cases}
use upx_killer.Contracts.Jobs.{JobOutcome, ErrorCategory, JobResult}
use upx_killer.Publication.{
  ArtifactPublicationError, ArtifactPublicationRequest, ArtifactPublicationResult,
  PublishedArtifact, ArtifactStore, ArtifactValidator, promote_staged, publish_staged, publish,
}
use upx_killer.Pe.Headers.{WindowsHeaders}
use upx_killer.Pe.Jobs.{
  UnpackRequest, PePreparationError, PeSnapshotCaptureError, PeCaptureError, PeFixError,
  PeReconstructionError,
}
use upx_killer.Pe.Jobs.Answers.{
  preparation_failure, snapshot_failure, capture_failure, reconstruction_failure,
  publication_failure, translate_publication, outcome_of,
}
use upx_killer.Pe.Jobs.Preparation.{PreparedPeTarget}
use upx_killer.Pe.Jobs.Capture.{
  PeCapturedRun, PeSnapshotCaptureRequest, PeSnapshotCapture, StagedImage, stage_images,
  snapshot_request, entry_differs, capture_runs, capture_staged, capture,
}

abbrev pub is_done : JobOutcome → Bool
is_done JobOutcome.completed = true
is_done JobOutcome.partial = true
is_done _ = false

-- A result without an artifact whose outcome is neither complete nor partial.
pub record IsFailure (result : JobResult) : Type 0 where
  pub no_artifact : result.artifact ≡ none
  pub not_done : is_done result.outcome ≡ false

pub preparation_failure-IsFailure :
    (e : PePreparationError) (n : ℕ) → IsFailure (preparation_failure e n)
unfolding preparation_failure
preparation_failure-IsFailure e n = record { no_artifact = ground arith; not_done = ground arith }

snapshot_failure-IsFailure : (e : PeSnapshotCaptureError) (n : ℕ) → IsFailure (snapshot_failure e n)
unfolding snapshot_failure
snapshot_failure-IsFailure e n = record { no_artifact = ground arith; not_done = ground arith }

pub reconstruction_failure-IsFailure :
    (e : PeReconstructionError) (fix : PeFixError) → IsFailure (reconstruction_failure e fix)
unfolding reconstruction_failure
reconstruction_failure-IsFailure e fix = record {
  no_artifact = ground arith;
  not_done = ground arith;
}

publication_failure-IsFailure :
    (e : ArtifactPublicationError) (n : ℕ) → IsFailure (publication_failure e n)
unfolding publication_failure
publication_failure-IsFailure e n = record { no_artifact = ground arith; not_done = ground arith }

pub capture_failure-IsFailure :
    (e : PeCaptureError) (snapshot : PeSnapshotCaptureError) (n : ℕ)
    → IsFailure (capture_failure e snapshot n)
unfolding capture_failure
capture_failure-IsFailure PeCaptureError.snapshot_failed snapshot n =
    snapshot_failure-IsFailure snapshot n
capture_failure-IsFailure PeCaptureError.no_error snapshot n = record {
  no_artifact = refl;
  not_done = refl;
}
capture_failure-IsFailure PeCaptureError.source_relocations_invalid snapshot n = record {
  no_artifact = refl;
  not_done = refl;
}
capture_failure-IsFailure PeCaptureError.unsupported_pe32_relocation_type snapshot n = record {
  no_artifact = refl;
  not_done = refl;
}
capture_failure-IsFailure PeCaptureError.entry_points_differ snapshot n = record {
  no_artifact = refl;
  not_done = refl;
}
capture_failure-IsFailure PeCaptureError.unexpected_failure snapshot n = record {
  no_artifact = refl;
  not_done = refl;
}

pub translate_publication-IsFailure :
    (result : ArtifactPublicationResult)
    → result.artifact ≡ none
    → IsFailure (translate_publication result)
unfolding translate_publication
translate_publication-IsFailure result missing =
    rw (missing, translate_publication)
      (publication_failure-IsFailure result.error result.native_error)

-- The artifact of a publication is the requested one.
abbrev pub artifact_for : ArtifactPublicationRequest → PublishedArtifact
artifact_for request = record {
  path = request.final_path;
  quality = request.quality;
  loader_mappable = true;
  warnings = request.warnings;
}

pub publish-artifact :
    {S : Type 0} (store : ArtifactStore S) (validator : ArtifactValidator S)
    (request : ArtifactPublicationRequest) (s : S) (a : PublishedArtifact)
    → (publish store validator request s).result.artifact ≡ some a
    → a ≡ artifact_for request
unfolding publish publish_staged promote_staged
publish-artifact store validator request s a e = ground arith

-- What a job says of an artifact that is published.
pub record IsReported (request : ArtifactPublicationRequest) (result : JobResult) : Type 0 where
  pub outcome : result.outcome ≡ outcome_of request.quality
  pub category : result.category ≡ ErrorCategory.no_error
  pub artifact :
      result.artifact
      ≡ some (record {
        path = request.final_path;
        quality = request.quality;
        loader_verified = true;
        warnings = request.warnings;
      })

pub translate_publication-IsReported :
    (request : ArtifactPublicationRequest) (result : ArtifactPublicationResult)
    (a : PublishedArtifact)
    → result.artifact ≡ some a
    → a ≡ artifact_for request
    → IsReported request (translate_publication result)
unfolding translate_publication
translate_publication-IsReported request result a there same =
    rw (there, same, translate_publication)
      (record { outcome = refl; category = refl; artifact = refl })

module _ {S : Type 0} (snapshots : PeSnapshotCapture S) (request : UnpackRequest)
    (target : PreparedPeTarget) (contents : S → Bytes → Option Bytes) (path : Bytes)
    (keeps : (r : PeSnapshotCaptureRequest) (s : S)
      → contents (snapshots.capture_one r s).2 path ≡ contents s path) where
  capture_runs-keeps :
      (index : ℕ) (images : List StagedImage) (runs : List PeCapturedRun) (s : S)
      → contents (capture_runs snapshots request target index images runs s).state path
        ≡ contents s path
  unfolding capture_runs
  capture_runs-keeps index [] runs s = refl
  capture_runs-keeps index (image ∷ images) runs s =
      let asked = snapshot_request request target index image in
      let one = snapshots.capture_one asked s in
      elim (Option-cases one.0.capture) [
        | inl missing ↦ rw (missing, capture_runs) (keeps asked s)
        | inr (run, captured) ↦ elim (Bool-cases (entry_differs runs run)) [
          | inl differs ↦ rw (captured, differs, capture_runs) (keeps asked s)
          | inr agrees ↦
              rw (captured, agrees, capture_runs)
                (capture_runs-keeps (index + 1) images (runs ++ (run ∷ [])) one.2 ∙ keeps asked s)
        ]
      ]

  pub capture-keeps :
      (h : WindowsHeaders) (s : S)
      → contents (capture snapshots request target h s).state path ≡ contents s path
  unfolding capture capture_staged
  capture-keeps h s =
      elim (Result-cases (stage_images h target target.execution_plan.capture_bases)) [
        | inr (e, bad) ↦ rw (bad, capture) refl
        | inl (images, made) ↦ rw (made, capture) (capture_runs-keeps 0 images [] s)
      ]
