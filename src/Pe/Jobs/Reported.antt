-- ===== src/Pe/Jobs/Reported.antt =====
-- The events that a job of the PE backend reports.
use upx_killer.Common.{
  ◌≡◌, ◌≢◌, ◌⊎◌, refl, arith, none, List, [], ◌∷◌, ◌++◌, codes, All, All-append, inl, inr,
  Option-cases,
}
use upx_killer.Common.Results.{Result-cases}
use upx_killer.Contracts.Jobs.{UnpackJobRequest, JobStage, ProgressEvent}
use upx_killer.Publication.{
  ArtifactPublicationRequest, ArtifactPublicationResult, ArtifactStore, ArtifactValidator,
  validating, completed, promote_staged, publish_staged, publish,
}
use upx_killer.Pe.Headers.{WindowsHeaders}
use upx_killer.Pe.Capabilities.{PeBackendCapabilities}
use upx_killer.Pe.Jobs.{EngineStage, UnpackRequest, translate_entry, translate_request}
use upx_killer.Pe.Jobs.Answers.{translate_publication}
use upx_killer.Pe.Jobs.Preparation.{TargetSourceReader, PreparedPeTarget, prepare}
use upx_killer.Pe.Jobs.Capture.{
  PeSnapshotCaptureRequest, PeSnapshotCapture, PeCaptureEvidence, capture,
}
use upx_killer.Pe.Jobs.Reconstruction.{ReconstructionPasses, reconstruct_image}
use upx_killer.Pe.Jobs.Backend.{
  Execution, publication_request, progress_events, finish_job, capture_job, prepare_job,
  execute_job,
}
use upx_killer.Pe.Jobs.Stages.{
  IsEarly, map_stage-early, prepare-IsEarly, reconstruct_image-IsEarly, capture-IsEarly,
}
use upx_killer.Pe.Jobs.Outcomes.{
  preparation_failure-IsFailure, capture_failure-IsFailure, reconstruction_failure-IsFailure,
  translate_publication-IsFailure,
}

-- An event that reports the completion of the job neither by its stage nor by its detail.
abbrev pub IsUnfinished : ProgressEvent → Type 0
IsUnfinished event =
    (event.stage ≢ JobStage.completed) × (event.detail_code ≢ codes "job.completed")

-- A job without an artifact has reported no completion; one with an artifact has reported one, at the end.
abbrev pub IsTold : {S : Type 0} → Execution S → Type 0
IsTold after =
    ((after.result.artifact ≡ none) × All IsUnfinished after.events)
    ⊎ ((after.result.artifact ≢ none)
        × ((earlier : List ProgressEvent) × (after.events
              ≡ earlier ++ (validating ∷ completed ∷ []))
            × All IsUnfinished earlier))

progress_events-IsUnfinished :
    (stages : List EngineStage) → All IsEarly stages → All IsUnfinished (progress_events stages)
unfolding progress_events
progress_events-IsUnfinished [] early = tt
progress_events-IsUnfinished (stage ∷ stages) early = (
  (map_stage-early stage early.0, λ e. ground arith),
  progress_events-IsUnfinished stages early.1,
)

validating-IsUnfinished : IsUnfinished validating
validating-IsUnfinished = (λ e. ground arith, λ e. ground arith)

-- The events of a publication.
publish-events :
    {S : Type 0} (store : ArtifactStore S) (validator : ArtifactValidator S)
    (request : ArtifactPublicationRequest) (s : S)
    → (((publish store validator request s).result.artifact ≡ none)
        × ((publish store validator request s).events ≡ validating ∷ []))
      ⊎ (((publish store validator request s).result.artifact ≢ none)
          × ((publish store validator request s).events ≡ validating ∷ completed ∷ []))
unfolding publish publish_staged promote_staged
publish-events store validator request s = ground arith

translated_artifact :
    (result : ArtifactPublicationResult)
    → result.artifact ≢ none
    → (translate_publication result).artifact ≢ none
unfolding translate_publication
translated_artifact result present e = elim (Option-cases result.artifact) [
  | inl missing ↦ present missing
  | inr (a, there) ↦ absurd (ground (arith, there))
]

module _ {S : Type 0} (h : WindowsHeaders) (reader : TargetSourceReader)
    (capabilities : PeBackendCapabilities) (snapshots : PeSnapshotCapture S)
    (passes : ReconstructionPasses) (store : ArtifactStore S) (validator : ArtifactValidator S)
    (early : (r : PeSnapshotCaptureRequest) (s : S)
      → All IsEarly (snapshots.capture_one r s).1) where
  finish_job-IsTold :
      (request : UnpackRequest) (target : PreparedPeTarget) (evidence : PeCaptureEvidence)
      (events : List ProgressEvent) (s : S)
      → All IsUnfinished events
      → IsTold (
          finish_job h reader capabilities snapshots passes store validator request target evidence
            events s)
  unfolding finish_job
  finish_job-IsTold request target evidence events s open_yet =
      let stages = (reconstruct_image passes request target evidence).stages in
      let later = All-append IsUnfinished events (progress_events stages) open_yet (
        progress_events-IsUnfinished stages
          (reconstruct_image-IsEarly passes request target evidence)) in
      elim (Result-cases (reconstruct_image passes request target evidence).result) [
        | inr ((e, fix), bad) ↦
            rw (bad, finish_job) (inl ((reconstruction_failure-IsFailure e fix).no_artifact, later))
        | inl (image, made) ↦
            let asked = publication_request request target image.image in
            elim (publish-events store validator asked s) [
              | inl (missing, events_then) ↦
                  rw (made, events_then, finish_job)
                    (inl (
                      (translate_publication-IsFailure (publish store validator asked s).result
                          missing).no_artifact,
                      All-append IsUnfinished _ (validating ∷ []) later
                          (validating-IsUnfinished, tt),
                    ))
              | inr (present, events_then) ↦
                  rw (made, events_then, finish_job)
                    (inr (
                      translated_artifact (publish store validator asked s).result present,
                      (events ++ progress_events stages, refl, later),
                    ))
            ]
      ]

  capture_job-IsTold :
      (request : UnpackRequest) (target : PreparedPeTarget) (events : List ProgressEvent) (s : S)
      → All IsUnfinished events
      → IsTold (
          capture_job h reader capabilities snapshots passes store validator request target events
            s)
  unfolding capture_job
  capture_job-IsTold request target events s open_yet =
      let done = capture snapshots request target h s in
      let told =
        progress_events-IsUnfinished done.stages
          (capture-IsEarly snapshots request target early h s) in
      let later = All-append IsUnfinished events (progress_events done.stages) open_yet told in
      elim (Result-cases done.result) [
        | inr (f, bad) ↦
            rw (bad, capture_job)
              (inl (
                (capture_failure-IsFailure f.error f.snapshot_error f.native_error).no_artifact,
                later,
              ))
        | inl (evidence, made) ↦
            rw (made, capture_job) (finish_job-IsTold request target evidence _ done.state later)
      ]

  prepare_job-IsTold :
      (request : UnpackRequest) (s : S)
      → IsTold (prepare_job h reader capabilities snapshots passes store validator request s)
  unfolding prepare_job
  prepare_job-IsTold request s =
      let done = prepare h reader capabilities request in
      let told =
        progress_events-IsUnfinished done.stages (prepare-IsEarly h capabilities request reader) in
      elim (Result-cases done.result) [
        | inr ((e, n), bad) ↦
            rw (bad, prepare_job) (inl ((preparation_failure-IsFailure e n).no_artifact, told))
        | inl (target, made) ↦ rw (made, prepare_job) (capture_job-IsTold request target _ s told)
      ]

  -- With captures that report no stage `EngineStage.completed`: a job without an artifact has reported no
  -- event that says, by its stage or its detail, that the job is completed; one with an artifact has
  -- reported the validation and then the completion as its last two events, and no completion before.
  pub execute_job-IsTold :
      (job : UnpackJobRequest) (s : S)
      → IsTold (execute_job h reader capabilities snapshots passes store validator job s)
  unfolding execute_job
  execute_job-IsTold job s = elim (Option-cases (translate_entry job.entry_point)) [
    | inl bad ↦ rw (bad, execute_job) (inl (refl, tt))
    | inr (oep, accepted) ↦
        rw (accepted, execute_job) (prepare_job-IsTold (translate_request job oep) s)
  ]
