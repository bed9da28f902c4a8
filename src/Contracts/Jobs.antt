-- ===== src/Contracts/Jobs.antt =====
-- upx-killer-contracts/Core/Images/Artifact.h and Core/Jobs/UnpackJob.h.
use upx_killer.Common.{ℕ, Bool, Option, List, Bytes}

pub data ArtifactQuality : Type 0 where
  partial complete : ArtifactQuality

pub record JobArtifact : Type 0 where
  pub path : Bytes
  pub quality : ArtifactQuality
  pub loader_verified : Bool
  pub warnings : List Bytes

pub data EntryPointAddressKind : Type 0 where
  relative_virtual_address virtual_address file_offset : EntryPointAddressKind

pub record EntryPointHint : Type 0 where
  pub kind : EntryPointAddressKind
  pub value : ℕ

pub record UnpackJobRequest : Type 0 where
  pub target_path : Bytes
  pub output_path : Bytes
  pub entry_point : Option EntryPointHint
  pub timeout_milliseconds : ℕ
  pub maximum_image_size : ℕ
  pub retain_failed_output : Bool

pub data JobOutcome : Type 0 where
  completed partial unsupported_target cancelled timed_out failed : JobOutcome

pub data ErrorCategory : Type 0 where
  no_error invalid_request unsupported_target configuration input execution : ErrorCategory
  reconstruction validation storage protocol cancelled timed_out internal : ErrorCategory

pub data JobStage : Type 0 where
  validating_target discovering_entry_point loading_target capturing_image : JobStage
  rebuilding_imports capturing_relocations rebuilding_image : JobStage
  validating_artifact completed : JobStage

pub record ProgressEvent : Type 0 where
  pub stage : JobStage
  pub detail_code : Bytes

pub record JobResult : Type 0 where
  pub outcome : JobOutcome
  pub category : ErrorCategory
  pub detail_code : Bytes
  pub artifact : Option JobArtifact
  pub native_code : ℕ
