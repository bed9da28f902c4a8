-- ===== src/Pe/Jobs.antt =====
-- upx-killer-engine/Application/PE/Translation/PeJobContractTranslator.cpp: the stages, the requests and the
-- errors of the use cases. Copying texts and paths is taken to succeed, so the handlers behind `catch (...)`
-- are not reached.
pub mod Answers
pub mod Preparation
pub mod Prepared
pub mod Probed
pub mod Capture
pub mod Placed
pub mod Runs
pub mod Reconstruction
pub mod Imported
pub mod Reconstructed
pub mod Backend
pub mod Outcomes
pub mod Delivered
pub mod Stages
pub mod Reported
mod Tests
mod RunTests
use upx_killer.Common.{
  ℕ, ◌-◌, ◌^◌, Bool, Option, none, some, List, [], Bytes, codes, leb, if◌then◌else◌,
}
use upx_killer.Contracts.Jobs.{
  ArtifactQuality, JobArtifact, EntryPointAddressKind, EntryPointHint, UnpackJobRequest, JobOutcome,
  ErrorCategory, JobStage, ProgressEvent, JobResult,
}
use upx_killer.Pe.Directories.{ImportRebuildPlan}
use upx_killer.Publication.{ArtifactPublicationError, PublishedArtifact, ArtifactPublicationResult}

pub data EngineStage : Type 0 where
  validating discovering_oep loading_target_library launching waiting_for_oep dumping : EngineStage
  rebuilding_imports capturing_relocations rebuilding_relocations fixing : EngineStage
  validating_output completed : EngineStage

pub record UnpackRequest : Type 0 where
  pub target_path : Bytes
  pub oep : Option ℕ
  pub imports : Option ImportRebuildPlan
  pub output_path : Bytes
  pub timeout_milliseconds : ℕ
  pub maximum_image_size : ℕ
  pub retain_failed_output : Bool

pub data PePreparationError : Type 0 where
  no_error source_read_failed invalid_pe unsupported_pe32 unsupported_architecture :
      PePreparationError
  unsupported_image_kind entry_point_out_of_range unsupported_packer entry_point_not_found :
      PePreparationError
  source_relocations_invalid unexpected_failure : PePreparationError

pub data PeSnapshotCaptureError : Type 0 where
  no_error invalid_request dll_loader_unavailable target_library_launch_failed :
      PeSnapshotCaptureError
  process_launch_failed debug_protocol_failed target_exited read_failed dump_invalid cancelled :
      PeSnapshotCaptureError
  timed_out entry_point_not_found controlled_base_unavailable machine_mismatch wow64_unavailable :
      PeSnapshotCaptureError
  target_library_attach_invalid import_snapshot_failed : PeSnapshotCaptureError

pub data PeCaptureError : Type 0 where
  no_error source_relocations_invalid unsupported_pe32_relocation_type entry_points_differ :
      PeCaptureError
  snapshot_failed unexpected_failure : PeCaptureError

pub data PeFixError : Type 0 where
  no_error entry_point_out_of_range image_placement_invalid relocation_slot_invalid : PeFixError
  export_directory_invalid section_layout_invalid import_plan_invalid header_write_failed :
      PeFixError
  unexpected_failure : PeFixError

pub data PeReconstructionError : Type 0 where
  no_error missing_capture imports_not_found imports_ambiguous relocation_evidence_insufficient :
      PeReconstructionError
  relocation_candidates_ambiguous relocation_validation_failed output_validation_failed :
      PeReconstructionError
  fixing_failed unexpected_failure : PeReconstructionError

unfoldable pub map_stage : EngineStage → JobStage
map_stage EngineStage.validating = JobStage.validating_target
map_stage EngineStage.discovering_oep = JobStage.discovering_entry_point
map_stage EngineStage.waiting_for_oep = JobStage.discovering_entry_point
map_stage EngineStage.loading_target_library = JobStage.loading_target
map_stage EngineStage.launching = JobStage.loading_target
map_stage EngineStage.dumping = JobStage.capturing_image
map_stage EngineStage.rebuilding_imports = JobStage.rebuilding_imports
map_stage EngineStage.capturing_relocations = JobStage.capturing_relocations
map_stage EngineStage.rebuilding_relocations = JobStage.capturing_relocations
map_stage EngineStage.fixing = JobStage.rebuilding_image
map_stage EngineStage.validating_output = JobStage.validating_artifact
map_stage EngineStage.completed = JobStage.completed

abbrev pub progress_of : EngineStage → ProgressEvent
progress_of stage = record { stage = map_stage stage; detail_code = [] }

-- `Failure`
abbrev pub job_failure : JobOutcome → ErrorCategory → Bytes → ℕ → JobResult
job_failure outcome category detail native_code = record {
  outcome = outcome;
  category = category;
  detail_code = detail;
  artifact = none;
  native_code = native_code;
}

abbrev pub failed_in : ErrorCategory → Bytes → ℕ → JobResult
failed_in = job_failure JobOutcome.failed

-- The entry point of a request: `none` is one that is refused, `some none` is none at all.
unfoldable pub translate_entry : Option EntryPointHint → Option (Option ℕ)
translate_entry none = some none
translate_entry (some hint) = elim hint.kind [
  | EntryPointAddressKind.relative_virtual_address ↦
      if leb hint.value (2 ^ 32 - 1) then some (some hint.value) else none
  | EntryPointAddressKind.virtual_address ↦ none
  | EntryPointAddressKind.file_offset ↦ none
]

abbrev pub entry_refused : JobResult
entry_refused = failed_in ErrorCategory.invalid_request (codes "pe.entry_point.kind_unsupported") 0

-- `Request` of an accepted entry point.
unfoldable pub translate_request : UnpackJobRequest → Option ℕ → UnpackRequest
translate_request source oep = record {
  target_path = source.target_path;
  oep = oep;
  imports = none;
  output_path = source.output_path;
  timeout_milliseconds = source.timeout_milliseconds;
  maximum_image_size = source.maximum_image_size;
  retain_failed_output = source.retain_failed_output;
}
