-- ===== src/Pe/Jobs/Delivered.antt =====
-- What a job of the PE backend has done when it ends.
use upx_killer.Common.{
  ℕ, ◌≡◌, ◌⊎◌, refl, ◌∙◌, true, false, Option, some, List, Bytes, inl, inr, Option-cases,
}
use upx_killer.Common.Results.{Result-cases}
use upx_killer.Contracts.Jobs.{UnpackJobRequest, ErrorCategory, ProgressEvent}
use upx_killer.Publication.{ArtifactValidator, publish}
use upx_killer.Publication.Windows.{
  PathOperations, FileSystem, temporary_artifact_path, windows_store,
}
use upx_killer.Publication.Storage.{IsQuiet}
use upx_killer.Publication.Promises.{IsFileSystem, IsOrdinary, closing}
use upx_killer.Publication.Stored.{IsInstalled, publish-IsStored}
use upx_killer.Pe.Format.{PeFormat}
use upx_killer.Pe.Headers.{WindowsHeaders}
use upx_killer.Pe.Capabilities.{PeBackendCapabilities}
use upx_killer.Pe.Rebasing.{format_traits}
use upx_killer.Pe.Rebasing.Rebased.{HasFields}
use upx_killer.Pe.Staging.Fields.{HasBaseFirst}
use upx_killer.Pe.Jobs.{UnpackRequest, translate_entry, translate_request}
use upx_killer.Pe.Jobs.Answers.{outcome_of}
use upx_killer.Pe.Jobs.Preparation.{TargetSource, TargetSourceReader, PreparedPeTarget, prepare}
use upx_killer.Pe.Jobs.Prepared.{IsPrepared, prepare-IsPrepared}
use upx_killer.Pe.Jobs.Capture.{
  PeSnapshotCaptureRequest, PeSnapshotCapture, PeCaptureEvidence, capture,
}
use upx_killer.Pe.Jobs.Runs.{IsCaptured, capture-IsCaptured}
use upx_killer.Pe.Jobs.Reconstruction.{
  ReconstructionPasses, ReconstructedPeImage, reconstruct_image,
}
use upx_killer.Pe.Jobs.Reconstructed.{IsReconstructed, reconstruct_image-IsReconstructed}
use upx_killer.Pe.Jobs.Backend.{
  Execution, publication_request, finish_job, capture_job, prepare_job, execute_job,
}
use upx_killer.Pe.Jobs.Outcomes.{
  IsFailure, preparation_failure-IsFailure, capture_failure-IsFailure,
  reconstruction_failure-IsFailure, translate_publication-IsFailure,
  translate_publication-IsReported, publish-artifact, capture-keeps,
}

module _ {S : Type 0} (h : WindowsHeaders) (reader : TargetSourceReader)
    (capabilities : PeBackendCapabilities) (snapshots : PeSnapshotCapture S)
    (passes : ReconstructionPasses) (fs : FileSystem S) (paths : PathOperations)
    (validator : ArtifactValidator S) (contents : S → Bytes → Option Bytes) where
  -- A published image and how it has come about, from a state to the one behind the job.
  pub record IsDelivered (request : UnpackRequest) (before : S) (after : Execution S) : Type 0 where
    pub source : TargetSource
    pub held : (reader.read request.target_path request.maximum_image_size).source ≡ some source
    pub target : PreparedPeTarget
    pub prepared : IsPrepared h capabilities request source target
    pub evidence : PeCaptureEvidence
    pub middle : S
    pub captured : IsCaptured h snapshots request target before middle evidence
    pub image : ReconstructedPeImage
    pub reconstructed : IsReconstructed passes request target evidence image
    pub published :
        IsInstalled fs paths validator contents
          (publication_request request target image.image)
          middle
          (publish
            (windows_store fs paths)
            validator
            (publication_request request target image.image)
            middle)
    pub written :
        (contents after.state request.output_path ≡ some image.image.bytes)
        ⊎ ((closing fs paths request.output_path image.image.bytes middle).0 ≡ false)
    pub outcome : after.result.outcome ≡ outcome_of image.image.quality
    pub category : after.result.category ≡ ErrorCategory.no_error
    pub artifact :
        after.result.artifact
        ≡ some (record {
          path = request.output_path;
          quality = image.image.quality;
          loader_verified = true;
          warnings = image.image.warnings;
        })

  -- The two ends of a job.
  abbrev pub IsEnded : UnpackRequest → S → Execution S → Type 0
  IsEnded request before after =
      (IsFailure after.result
        × contents after.state request.output_path ≡ contents before request.output_path)
      ⊎ IsDelivered request before after

  module _ (laws : IsFileSystem fs contents) (request : UnpackRequest)
      (ordinary : IsOrdinary paths request.output_path)
      (quiet : IsQuiet validator contents request.output_path)
      (still : IsQuiet validator contents (temporary_artifact_path paths request.output_path))
      (fields : (f : PeFormat) → HasFields h (format_traits h f))
      (ordered : (f : PeFormat) → HasBaseFirst h f)
      (keeps : (r : PeSnapshotCaptureRequest) (s : S)
        → contents (snapshots.capture_one r s).2 request.output_path
          ≡ contents s request.output_path) where
    finish_job-IsEnded :
        (source : TargetSource) (target : PreparedPeTarget) (evidence : PeCaptureEvidence)
        (events : List ProgressEvent) (before s : S)
        → (reader.read request.target_path request.maximum_image_size).source ≡ some source
        → IsPrepared h capabilities request source target
        → IsCaptured h snapshots request target before s evidence
        → contents s request.output_path ≡ contents before request.output_path
        → IsEnded request before (
            finish_job h reader capabilities snapshots passes
              (windows_store fs paths)
              validator
              request
              target
              evidence
              events
              s)
    unfolding finish_job
    finish_job-IsEnded source target evidence events before s held prepared captured same =
        elim (Result-cases (reconstruct_image passes request target evidence).result) [
          | inr ((e, fix), bad) ↦
              rw (bad, finish_job) (inl (reconstruction_failure-IsFailure e fix, same))
          | inl (image, made) ↦
              let asked = publication_request request target image.image in
              let done = publish (windows_store fs paths) validator asked s in
              elim (publish-IsStored fs paths validator contents asked s laws ordinary quiet
                still) [
                  | inl (_, missing, kept) ↦
                      rw (made, finish_job)
                        (inl (translate_publication-IsFailure done.result missing, kept ∙ same))
                  | inr (_, present, published) ↦ elim (Option-cases done.result.artifact) [
                    | inl missing ↦ absurd (present missing)
                    | inr (a, there) ↦
                        let reported =
                          translate_publication-IsReported asked done.result a there
                            (publish-artifact (windows_store fs paths) validator asked s a there) in
                        rw (made, finish_job)
                          (inr (record {
                            source = source;
                            held = held;
                            target = target;
                            prepared = prepared;
                            evidence = evidence;
                            middle = s;
                            captured = captured;
                            image = image;
                            reconstructed =
                                reconstruct_image-IsReconstructed passes request target evidence
                                  image prepared.accepted.size_high made;
                            published = published;
                            written = published.exact;
                            outcome = reported.outcome;
                            category = reported.category;
                            artifact = reported.artifact;
                          }))
                  ]
                ]
        ]

    capture_job-IsEnded :
        (source : TargetSource) (target : PreparedPeTarget) (events : List ProgressEvent) (s : S)
        → (reader.read request.target_path request.maximum_image_size).source ≡ some source
        → IsPrepared h capabilities request source target
        → IsEnded request s (
            capture_job h reader capabilities snapshots passes
              (windows_store fs paths)
              validator
              request
              target
              events
              s)
    unfolding capture_job
    capture_job-IsEnded source target events s held prepared =
        let same = capture-keeps snapshots request target contents request.output_path keeps h s in
        elim (Result-cases (capture snapshots request target h s).result) [
          | inr (f, bad) ↦
              rw (bad, capture_job)
                (inl (capture_failure-IsFailure f.error f.snapshot_error f.native_error, same))
          | inl (evidence, made) ↦
              rw (made, capture_job)
                (finish_job-IsEnded source target evidence _ s _ held prepared
                  (capture-IsCaptured h snapshots request target s evidence
                    (fields target.layout.format) (ordered target.layout.format) made)
                  same)
        ]

    prepare_job-IsEnded :
        (s : S)
        → IsEnded request s (
            prepare_job h reader capabilities snapshots passes
              (windows_store fs paths)
              validator
              request
              s)
    unfolding prepare_job
    prepare_job-IsEnded s = elim (Result-cases (prepare h reader capabilities request).result) [
      | inr ((e, n), bad) ↦ rw (bad, prepare_job) (inl (preparation_failure-IsFailure e n, refl))
      | inl (target, made) ↦
          let ready = prepare-IsPrepared h capabilities request reader target made in
          rw (made, prepare_job) (capture_job-IsEnded ready.0 target _ s ready.1 ready.2)
    ]

  -- The two ends of a job, as it is asked for.
  abbrev pub IsAnswered : UnpackJobRequest → S → Execution S → Type 0
  IsAnswered job before after =
      (IsFailure after.result
        × contents after.state job.output_path ≡ contents before job.output_path)
      ⊎ ((oep : Option ℕ) × (translate_entry job.entry_point ≡ some oep)
          × IsDelivered (translate_request job oep) before after)

  -- With the store on Windows, on a file system that keeps its promises and an ordinary output path, validations that
  -- leave the output file and the temporary file alone, captures that leave the output file alone, and
  -- headers whose fields lie in the optional header, the base before the characteristics: a job fails, without an
  -- artifact and with the output file as it was, or reports an artifact. Then the output file is the staged one,
  -- which the validator has found valid, and holds exactly the bytes of an image that has been reconstructed from
  -- the captures of the prepared target, unless the close of its stream has failed; the quality of the image is
  -- the outcome.
  pub execute_job-IsAnswered :
      (job : UnpackJobRequest) (s : S)
      → IsFileSystem fs contents
      → IsOrdinary paths job.output_path
      → IsQuiet validator contents job.output_path
      → IsQuiet validator contents (temporary_artifact_path paths job.output_path)
      → ((f : PeFormat) → HasFields h (format_traits h f))
      → ((f : PeFormat) → HasBaseFirst h f)
      → ((r : PeSnapshotCaptureRequest) (t : S)
          → contents (snapshots.capture_one r t).2 job.output_path ≡ contents t job.output_path)
      → IsAnswered job s (
          execute_job h reader capabilities snapshots passes
            (windows_store fs paths)
            validator
            job
            s)
  unfolding execute_job translate_request
  execute_job-IsAnswered job s laws ordinary quiet still fields ordered keeps =
      elim (Option-cases (translate_entry job.entry_point)) [
        | inl bad ↦
            rw (bad, execute_job) (inl (record { no_artifact = refl; not_done = refl }, refl))
        | inr (oep, accepted) ↦
            let ended =
              prepare_job-IsEnded laws (translate_request job oep) ordinary quiet still fields
                ordered keeps s in
            elim ended [
              | inl failed ↦ rw (accepted, execute_job) (inl failed)
              | inr delivered ↦ rw (accepted, execute_job) (inr (oep, refl, delivered))
            ]
      ]
