-- ===== src/Pe/Jobs/Backend.antt =====
-- upx-killer-engine/Application/PE/PeUnpackBackend.cpp: the chain of the use cases. The state `S` is that of
-- the system, which captures and the storage change; the reader is asked once, before either of them.
-- The progress callback only takes the events.
use upx_killer.Common.{none, some, List, [], ◌∷◌, ◌++◌, codes}
use upx_killer.Common.Results.{ok, err}
use upx_killer.Contracts.Targets.{BackendManifest}
use upx_killer.Contracts.Backends.{UnpackBackend}
use upx_killer.Contracts.Jobs.{UnpackJobRequest, ProgressEvent, JobResult}
use upx_killer.Publication.{ArtifactPublicationRequest, ArtifactStore, ArtifactValidator, publish}
use upx_killer.Pe.Headers.{WindowsHeaders}
use upx_killer.Pe.Capabilities.{PeBackendCapabilities, manifest, describe}
use upx_killer.Pe.Jobs.{
  EngineStage, UnpackRequest, progress_of, entry_refused, translate_entry, translate_request,
}
use upx_killer.Pe.Jobs.Answers.{
  preparation_failure, capture_failure, reconstruction_failure, translate_publication,
}
use upx_killer.Pe.Jobs.Preparation.{TargetSourceReader, PreparedPeTarget, prepare, probe}
use upx_killer.Pe.Jobs.Capture.{PeSnapshotCapture, PeCaptureEvidence, capture}
use upx_killer.Pe.Jobs.Reconstruction.{FixedPeImage, ReconstructionPasses, reconstruct_image}

-- What a job has come to: its result, the state and the events in order.
pub record Execution (S : Type 0) : Type 0 where
  pub result : JobResult
  pub state : S
  pub events : List ProgressEvent

unfoldable pub progress_events : List EngineStage → List ProgressEvent
progress_events [] = []
progress_events (stage ∷ stages) = progress_of stage ∷ progress_events stages

-- The request of the publication; the two types of quality have the same values, and are one here.
abbrev pub publication_request :
    UnpackRequest → PreparedPeTarget → FixedPeImage → ArtifactPublicationRequest
publication_request request target image = record {
  final_path = request.output_path;
  bytes = image.bytes;
  target = describe target.layout;
  dependency_directory = target.dependency_directory;
  validation_timeout_milliseconds = 3000;
  quality = image.quality;
  warnings = image.warnings;
  retain_failed_output = request.retain_failed_output;
}

module _ {S : Type 0} (h : WindowsHeaders) (reader : TargetSourceReader)
    (capabilities : PeBackendCapabilities) (snapshots : PeSnapshotCapture S)
    (passes : ReconstructionPasses) (store : ArtifactStore S)
    (validator : ArtifactValidator S) where
  -- From the reconstruction on.
  unfoldable pub finish_job :
      UnpackRequest → PreparedPeTarget → PeCaptureEvidence → List ProgressEvent → S → Execution S
  finish_job request target evidence events s =
      let done = reconstruct_image passes request target evidence in
      let later = events ++ progress_events done.stages in
      elim done.result [
        | err (e, fix) ↦ record { result = reconstruction_failure e fix; state = s; events = later }
        | ok image ↦
            let published =
              publish store validator (publication_request request target image.image) s in
            record {
              result = translate_publication published.result;
              state = published.storage;
              events = later ++ published.events;
            }
      ]

  -- From the capture on.
  unfoldable pub capture_job :
      UnpackRequest → PreparedPeTarget → List ProgressEvent → S → Execution S
  capture_job request target events s =
      let done = capture snapshots request target h s in
      let later = events ++ progress_events done.stages in
      elim done.result [
        | err f ↦ record {
          result = capture_failure f.error f.snapshot_error f.native_error;
          state = done.state;
          events = later;
        }
        | ok evidence ↦ finish_job request target evidence later done.state
      ]

  -- From the preparation on.
  unfoldable pub prepare_job : UnpackRequest → S → Execution S
  prepare_job request s =
      let done = prepare h reader capabilities request in
      let events = progress_events done.stages in
      elim done.result [
        | err (e, n) ↦ record { result = preparation_failure e n; state = s; events = events }
        | ok target ↦ capture_job request target events s
      ]

  -- `PeUnpackBackend::Execute`
  unfoldable pub execute_job : UnpackJobRequest → S → Execution S
  execute_job job s = elim (translate_entry job.entry_point) [
    | none ↦ record { result = entry_refused; state = s; events = [] }
    | some oep ↦ prepare_job (translate_request job oep) s
  ]

  abbrev pub pe_manifest : BackendManifest
  pe_manifest = manifest capabilities (codes "pe.windows.upx")

  -- `PeUnpackBackend`, as the coordinator sees it.
  pub pe_backend : UnpackBackend S
  pe_backend = record {
    manifest = pe_manifest;
    probe = probe h reader capabilities;
    execute = λ job s. (execute_job job s).result;
  }
