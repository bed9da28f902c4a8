-- ===== src/Pe/Jobs/RunTests.antt =====
-- Captures, a reconstruction and a whole job, on two small files: a 32-bit one that is staged without
-- relocations, and a 64-bit program.
use upx_killer.Common.{◌≡◌, refl, arith, false, some, none, [], ◌∷◌, ◌++◌, replicate}
use upx_killer.Common.Reading.{le_value, read}
use upx_killer.Common.Results.{ok, reject_if, or_reject}
use upx_killer.Contracts.Jobs.{ArtifactQuality, EntryPointAddressKind, JobOutcome, UnpackJobRequest}
use upx_killer.Publication.Windows.{windows_store, promote_artifact, stage_artifact, write_artifact}
use upx_killer.Publication.Samples.{
  contents, fs, fs-IsFileSystem, paths, paths-IsOrdinary, validator, system,
}
use upx_killer.Pe.Format.{PeFormat}
use upx_killer.Pe.Samples.{headers, fixed_program, program_capabilities, stub_file, stub_layout}
use upx_killer.Pe.Headers.{field, is_readable}
use upx_killer.Pe.Relocations.{address_fits}
use upx_killer.Pe.Rebasing.{
  splice, format_traits, patch_headers, rebase, rebase_block, rebase_blocks, rebase_entries,
  rebase_typed, rva_to_raw,
}
use upx_killer.Pe.Rebasing.Rebased.{HasFields}
use upx_killer.Pe.Jobs.{
  EngineStage, UnpackRequest, PeSnapshotCaptureError, translate_entry, translate_request,
}
use upx_killer.Pe.Jobs.Preparation.{
  TargetSourceReader, EntryPointTarget, PreparedPeTarget, finish_preparation,
  has_relocation_directory, is_out_of_range, plan_source, prepare, prepare_entry, prepare_source,
}
use upx_killer.Pe.Jobs.Capture.{
  PeCapturedRun, PeSnapshotCaptureRequest, PeSnapshotCapture, PeCaptureEvidence, stage_image,
  stage_images, entry_differs, capture_runs, capture_staged, capture,
}
use upx_killer.Pe.Jobs.Reconstruction.{
  ReconstructionPasses, ReconstructedPeImage, no_imports, discover_imports, fix_image, place_image,
  rebuild_from, reconstruct_image,
}
use upx_killer.Pe.Jobs.Reconstructed.{IsReconstructed, reconstruct_image-IsReconstructed}
use upx_killer.Pe.Jobs.Backend.{execute_job, capture_job, finish_job, prepare_job}
use upx_killer.Pe.Staging.Fields.{HasBaseFirst}
use upx_killer.Pe.Parser.{
  check_section, directories_of, is_bad_header, is_power_of_two, layout_at, parse, parse_magic,
  parse_sections, parse_typed, range_fits, read_directories, section_at,
}
use upx_killer.Pe.Capabilities.{describe, is_member, is_same_target, supports, supports_target}
use upx_killer.Pe.Plan.{create, fixed_plan}
use upx_killer.Pe.Jobs.Answers.{translate_publication}
use upx_killer.Publication.{is_completed, is_valid, promote_staged, publish, publish_staged}
use upx_killer.Pe.Jobs.Reported.{IsTold, execute_job-IsTold}
use upx_killer.Pe.Jobs.Delivered.{IsAnswered, execute_job-IsAnswered}

-- The run of an image, as it is staged.
abbrev run_of : PeSnapshotCaptureRequest → PeCapturedRun
run_of r = record {
  image = record {
    loaded_address = r.required_base;
    bytes = r.staged_image;
    regions = [];
    warnings = [];
  };
  entry_point = 0x10000;
  runtime_imports = record { modules = [] };
}

abbrev snapshots : {S : Type 0} → PeSnapshotCapture S
snapshots = record {
  capture_one = λ r s. (
    record { capture = some (run_of r); error = PeSnapshotCaptureError.no_error; native_error = 0 },
    EngineStage.launching ∷ EngineStage.dumping ∷ [],
    s,
  );
}

abbrev request : UnpackRequest
request = record {
  target_path = [];
  oep = none;
  imports = none;
  output_path = 111 ∷ [];
  timeout_milliseconds = 1000;
  maximum_image_size = 4096;
  retain_failed_output = false;
}

abbrev target : PreparedPeTarget
target = record {
  target_path = [];
  dependency_directory = [];
  source_bytes = stub_file;
  layout = stub_layout;
  entry_point_target = EntryPointTarget.explicit_entry 0x10000;
  execution_plan = record {
    capture_bases = 0x10000000 ∷ [];
    output_base = 0x400000;
    validation_base = 0x400000;
    rebuild_relocations = false;
    enable_dynamic_base = false;
    enable_high_entropy_va = false;
  };
  has_source_relocation_directory = false;
}

-- The run of the file that is staged for its base.
abbrev first : PeCapturedRun
first = record {
  image = record {
    loaded_address = 0x10000000;
    bytes =
        replicate 4 0
        ++ (0 ∷ 0 ∷ 0 ∷ 16 ∷ 0 ∷ 0 ∷ 0 ∷ 0 ∷ 0 ∷ 0 ∷ 0 ∷ 0 ∷ 96 ∷ 190 ∷ 0 ∷ 0 ∷ 2 ∷ 16 ∷ 141 ∷ 190
            ∷ 0 ∷ 0 ∷ 255 ∷ 255 ∷ []);
    regions = [];
    warnings = [];
  };
  entry_point = 0x10000;
  runtime_imports = record { modules = [] };
}

abbrev evidence : PeCaptureEvidence
evidence = record { runs = first ∷ []; source_relocation_slots = [] }

abbrev passes : ReconstructionPasses
passes = record {
  discover = λ dumped bytes layout runtime entry. ok no_imports;
  rebuild = λ layout image r.
      ok (record { bytes = image.bytes; quality = ArtifactQuality.complete; warnings = [] });
  validate = λ r. ok r.source_layout;
}

abbrev image : ReconstructedPeImage
image = record {
  image = record { bytes = first.image.bytes; quality = ArtifactQuality.complete; warnings = [] };
  layout = stub_layout;
}

reconstructed : (reconstruct_image passes request target evidence).result ≡ ok image
unfolding reconstruct_image rebuild_from discover_imports place_image fix_image
reconstructed = refl

reconstruct_image-IsReconstructed_example : IsReconstructed passes request target evidence image
reconstruct_image-IsReconstructed_example =
    reconstruct_image-IsReconstructed passes request target evidence image (omega arith)
      reconstructed

abbrev reader : TargetSourceReader
reader = record {
  read = λ path size. record {
    source = some (record { bytes = fixed_program; dependency_directory = [] });
    native_error = 0;
  };
}

abbrev job : UnpackJobRequest
job = record {
  target_path = 112 ∷ [];
  output_path = 111 ∷ [];
  entry_point =
      some (record { kind = EntryPointAddressKind.relative_virtual_address; value = 0x1000 });
  timeout_milliseconds = 1000;
  maximum_image_size = 4096;
  retain_failed_output = false;
}

headers-HasFields : (f : PeFormat) → HasFields headers (format_traits headers f)
headers-HasFields PeFormat.pe32 = record {
  base_inside = omega arith;
  dll_inside = omega arith;
  checksum_inside = omega arith;
}
headers-HasFields PeFormat.pe64 = record {
  base_inside = omega arith;
  dll_inside = omega arith;
  checksum_inside = omega arith;
}

headers-HasBaseFirst : (f : PeFormat) → HasBaseFirst headers f
headers-HasBaseFirst PeFormat.pe32 = record { width = refl; first = omega arith }
headers-HasBaseFirst PeFormat.pe64 = record { width = refl; first = omega arith }

-- The job is done.
job_completes :
    (execute_job headers reader program_capabilities snapshots passes
      (windows_store fs paths)
      validator
      job
      system).result.outcome
    ≡ JobOutcome.completed
unfolding execute_job prepare_source is_readable field translate_entry reject_if is_bad_header
    prepare layout_at le_value parse_magic parse plan_source is_power_of_two range_fits
    parse_sections parse_typed prepare_job supports_target has_relocation_directory directories_of
    is_same_target or_reject is_member section_at is_out_of_range supports create read_directories
    finish_preparation capture_job check_section translate_request prepare_entry describe rva_to_raw
    fixed_plan stage_images capture_runs rebase_entries address_fits entry_differs reconstruct_image
    rebase read rebase_block rebase_typed finish_job capture rebase_blocks capture_staged
    stage_image translate_publication fix_image patch_headers publish splice publish_staged
    discover_imports promote_staged is_valid stage_artifact place_image write_artifact rebuild_from
    promote_artifact is_completed
job_completes = refl

execute_job-IsAnswered_example :
    IsAnswered headers reader program_capabilities snapshots passes fs paths validator contents job
      system
      (execute_job headers reader program_capabilities snapshots passes
        (windows_store fs paths)
        validator
        job
        system)
execute_job-IsAnswered_example =
    execute_job-IsAnswered headers reader program_capabilities snapshots passes fs paths validator
      contents job system fs-IsFileSystem (paths-IsOrdinary job.output_path) (λ r s. refl)
      (λ r s. refl) headers-HasFields headers-HasBaseFirst (λ r t. refl)

execute_job-IsTold_example : IsTold (
    execute_job headers reader program_capabilities snapshots passes
      (windows_store fs paths)
      validator
      job
      system)
execute_job-IsTold_example =
    execute_job-IsTold headers reader program_capabilities snapshots passes (windows_store fs paths)
      validator (λ r s. ((λ e. ground arith), ((λ e. ground arith), tt))) job system
