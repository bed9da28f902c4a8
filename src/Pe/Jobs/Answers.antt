-- ===== src/Pe/Jobs/Answers.antt =====
-- upx-killer-engine/Application/PE/Translation/PeJobContractTranslator.cpp: the results of the failures and
-- of a publication.
use upx_killer.Common.{ℕ, none, some, [], Bytes, codes}
use upx_killer.Contracts.Jobs.{ArtifactQuality, JobOutcome, ErrorCategory, JobResult}
use upx_killer.Publication.{ArtifactPublicationError, ArtifactPublicationResult}
use upx_killer.Pe.Jobs.{
  PePreparationError, PeSnapshotCaptureError, PeCaptureError, PeFixError, PeReconstructionError,
  job_failure, failed_in,
}

abbrev unsupported : Bytes → ℕ → JobResult
unsupported = job_failure JobOutcome.unsupported_target ErrorCategory.unsupported_target

unfoldable pub preparation_failure : PePreparationError → ℕ → JobResult
preparation_failure PePreparationError.unsupported_pe32 n =
    unsupported (codes "pe.target.unsupported") n
preparation_failure PePreparationError.unsupported_architecture n =
    unsupported (codes "pe.target.unsupported") n
preparation_failure PePreparationError.unsupported_image_kind n =
    unsupported (codes "pe.target.unsupported") n
preparation_failure PePreparationError.unsupported_packer n =
    unsupported (codes "pe.packer.unsupported") n
preparation_failure PePreparationError.entry_point_not_found n =
    job_failure JobOutcome.unsupported_target ErrorCategory.execution (codes "pe.oep.not_found") n
preparation_failure PePreparationError.source_read_failed n =
    failed_in ErrorCategory.input (codes "pe.target.invalid") n
preparation_failure PePreparationError.invalid_pe n =
    failed_in ErrorCategory.input (codes "pe.target.invalid") n
preparation_failure PePreparationError.entry_point_out_of_range n =
    failed_in ErrorCategory.input (codes "pe.entry_point.out_of_range") n
preparation_failure PePreparationError.source_relocations_invalid n =
    failed_in ErrorCategory.execution (codes "pe.relocations.source_invalid") n
preparation_failure PePreparationError.unexpected_failure n =
    failed_in ErrorCategory.internal (codes "pe.preparation.failed") n
preparation_failure PePreparationError.no_error n =
    failed_in ErrorCategory.internal (codes "pe.preparation.missing_failure") 0

abbrev capture_missing : JobResult
capture_missing = failed_in ErrorCategory.internal (codes "pe.capture.missing_failure") 0

-- The inner `switch`, of a snapshot that has failed.
unfoldable pub snapshot_failure : PeSnapshotCaptureError → ℕ → JobResult
snapshot_failure PeSnapshotCaptureError.cancelled n =
    job_failure JobOutcome.cancelled ErrorCategory.cancelled (codes "job.cancelled") n
snapshot_failure PeSnapshotCaptureError.timed_out n =
    job_failure JobOutcome.timed_out ErrorCategory.timed_out (codes "job.timed_out") n
snapshot_failure PeSnapshotCaptureError.entry_point_not_found n =
    job_failure JobOutcome.unsupported_target ErrorCategory.execution (codes "pe.oep.not_found") n
snapshot_failure PeSnapshotCaptureError.dll_loader_unavailable n =
    failed_in ErrorCategory.configuration (codes "pe.dll.loader_unavailable") n
snapshot_failure PeSnapshotCaptureError.target_library_launch_failed n =
    failed_in ErrorCategory.execution (codes "pe.dll.load_failed") n
snapshot_failure PeSnapshotCaptureError.machine_mismatch n =
    failed_in ErrorCategory.execution (codes "pe.machine.mismatch") n
snapshot_failure PeSnapshotCaptureError.wow64_unavailable n =
    failed_in ErrorCategory.configuration (codes "pe.wow64.unavailable") n
snapshot_failure PeSnapshotCaptureError.target_library_attach_invalid n =
    failed_in ErrorCategory.execution (codes "pe.dll.attach_invalid") n
snapshot_failure PeSnapshotCaptureError.controlled_base_unavailable n =
    failed_in ErrorCategory.execution (codes "pe.relocations.controlled_base_unavailable") n
snapshot_failure PeSnapshotCaptureError.invalid_request n =
    failed_in ErrorCategory.input (codes "pe.capture.invalid_request") n
snapshot_failure PeSnapshotCaptureError.no_error n = capture_missing
snapshot_failure _ n = failed_in ErrorCategory.execution (codes "pe.capture.failed") n

unfoldable pub capture_failure : PeCaptureError → PeSnapshotCaptureError → ℕ → JobResult
capture_failure PeCaptureError.snapshot_failed snapshot n = snapshot_failure snapshot n
capture_failure PeCaptureError.source_relocations_invalid snapshot n =
    failed_in ErrorCategory.execution (codes "pe.relocations.source_invalid") n
capture_failure PeCaptureError.unsupported_pe32_relocation_type snapshot n =
    failed_in ErrorCategory.unsupported_target (codes "pe.relocations.pe32_type_unsupported") n
capture_failure PeCaptureError.entry_points_differ snapshot n =
    failed_in ErrorCategory.reconstruction (codes "pe.relocations.evidence_insufficient") n
capture_failure PeCaptureError.unexpected_failure snapshot n =
    failed_in ErrorCategory.internal (codes "pe.capture.failed") n
capture_failure PeCaptureError.no_error snapshot n = capture_missing

abbrev fix_detail : PeFixError → Bytes
fix_detail PeFixError.export_directory_invalid = codes "pe.exports.invalid"
fix_detail _ = codes "pe.rebuild.failed"

unfoldable pub reconstruction_failure : PeReconstructionError → PeFixError → JobResult
reconstruction_failure PeReconstructionError.imports_not_found fix =
    failed_in ErrorCategory.reconstruction (codes "pe.imports.not_found") 0
reconstruction_failure PeReconstructionError.imports_ambiguous fix =
    failed_in ErrorCategory.reconstruction (codes "pe.imports.ambiguous") 0
reconstruction_failure PeReconstructionError.relocation_evidence_insufficient fix =
    failed_in ErrorCategory.reconstruction (codes "pe.relocations.evidence_insufficient") 0
reconstruction_failure PeReconstructionError.relocation_candidates_ambiguous fix =
    failed_in ErrorCategory.reconstruction (codes "pe.relocations.candidates_ambiguous") 0
reconstruction_failure PeReconstructionError.relocation_validation_failed fix =
    failed_in ErrorCategory.validation (codes "pe.relocations.validation_failed") 0
reconstruction_failure PeReconstructionError.output_validation_failed fix =
    failed_in ErrorCategory.validation (codes "artifact.validation_failed") 0
reconstruction_failure PeReconstructionError.fixing_failed fix =
    failed_in ErrorCategory.reconstruction (fix_detail fix) 0
reconstruction_failure PeReconstructionError.missing_capture fix =
    failed_in ErrorCategory.internal (codes "pe.rebuild.failed") 0
reconstruction_failure PeReconstructionError.unexpected_failure fix =
    failed_in ErrorCategory.internal (codes "pe.rebuild.failed") 0
reconstruction_failure PeReconstructionError.no_error fix =
    failed_in ErrorCategory.internal (codes "pe.reconstruction.missing_failure") 0

abbrev pub outcome_of : ArtifactQuality → JobOutcome
outcome_of ArtifactQuality.complete = JobOutcome.completed
outcome_of ArtifactQuality.partial = JobOutcome.partial

unfoldable pub publication_failure : ArtifactPublicationError → ℕ → JobResult
publication_failure ArtifactPublicationError.stage_failed n =
    failed_in ErrorCategory.storage (codes "artifact.write_failed") n
publication_failure ArtifactPublicationError.promote_failed n =
    failed_in ErrorCategory.storage (codes "artifact.write_failed") n
publication_failure ArtifactPublicationError.validation_failed n =
    failed_in ErrorCategory.validation (codes "artifact.validation_failed") n
publication_failure ArtifactPublicationError.unexpected_failure n =
    failed_in ErrorCategory.internal (codes "artifact.publication_failed") n
publication_failure ArtifactPublicationError.no_error n =
    failed_in ErrorCategory.internal (codes "artifact.publication.missing_failure") 0

-- `Publication`
unfoldable pub translate_publication : ArtifactPublicationResult → JobResult
translate_publication result = elim result.artifact [
  | none ↦ publication_failure result.error result.native_error
  | some artifact ↦ record {
    outcome = outcome_of artifact.quality;
    category = ErrorCategory.no_error;
    detail_code = [];
    artifact = some (record {
      path = artifact.path;
      quality = artifact.quality;
      loader_verified = artifact.loader_mappable;
      warnings = artifact.warnings;
    });
    native_code = 0;
  }
]
