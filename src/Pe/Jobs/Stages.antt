-- ===== src/Pe/Jobs/Stages.antt =====
-- The stages that the use cases of the PE backend report. The capture of one run, in
-- upx-killer-engine/Infrastructure/Windows/Capture/WindowsPeSnapshotCapture.cpp, reports only that it loads the
-- library or launches the process, and that it dumps the image; this is a hypothesis here.
use upx_killer.Common.{
  ℕ, ◌+◌, ◌≢◌, arith, none, Option, List, [], ◌∷◌, ◌++◌, All, All-append, length, ◌!=◌, inl, inr,
  Bool-cases, Option-cases,
}
use upx_killer.Common.Results.{Result-cases}
use upx_killer.Contracts.Jobs.{JobStage}
use upx_killer.Pe.Format.{PeImageLayout}
use upx_killer.Pe.Headers.{WindowsHeaders}
use upx_killer.Pe.Capabilities.{PeBackendCapabilities}
use upx_killer.Pe.Plan.{PeExecutionPlan}
use upx_killer.Pe.Directories.{ImportRebuildPlan}
use upx_killer.Pe.Jobs.{EngineStage, UnpackRequest, map_stage}
use upx_killer.Pe.Jobs.Preparation.{
  TargetSource, TargetSourceReader, PreparedPeTarget, finish_preparation, plan_source,
  prepare_entry, prepare_source, prepare,
}
use upx_killer.Pe.Jobs.Capture.{
  PeCapturedRun, PeSnapshotCaptureRequest, PeSnapshotCapture, PeCaptureEvidence, StagedImage,
  snapshot_request, entry_differs, stage_images, capture_runs, capture_staged, capture,
}
use upx_killer.Pe.Jobs.Reconstruction.{
  ReconstructionPasses, ImagePlacementPlan, snapshots_of, source_slots, discover_imports, fix_image,
  place_image, rebuild_from, reconstruct_image,
}
use upx_killer.Pe.Relocations.Reconstruct.{reconstruct}
use upx_killer.Pe.Jobs.Reconstructed.{runs-cases}

-- A stage of the engine other than the last.
abbrev pub IsEarly : EngineStage → Type 0
IsEarly stage = stage ≢ EngineStage.completed

pub map_stage-early : (stage : EngineStage) → IsEarly stage → map_stage stage ≢ JobStage.completed
unfolding map_stage
map_stage-early stage early = λ e. ground arith

validating-IsEarly : IsEarly EngineStage.validating
validating-IsEarly = λ e. ground arith

module _ (h : WindowsHeaders) (capabilities : PeBackendCapabilities) (request : UnpackRequest) where
  prepare_entry-IsEarly :
      (source : TargetSource) (layout : PeImageLayout) (plan : PeExecutionPlan)
      → All IsEarly (prepare_entry request source layout plan).stages
  unfolding prepare_entry finish_preparation
  prepare_entry-IsEarly source layout plan = ground (arith, validating-IsEarly)

  pub prepare-IsEarly :
      (reader : TargetSourceReader) → All IsEarly (prepare h reader capabilities request).stages
  unfolding prepare prepare_source
  prepare-IsEarly reader =
      let read = reader.read request.target_path request.maximum_image_size in
      elim (Option-cases read.source) [
        | inl missing ↦ rw (missing, prepare) (validating-IsEarly, tt)
        | inr (source, held) ↦
            elim (Result-cases (plan_source h capabilities request source.bytes)) [
              | inr (e, bad) ↦ rw (held, bad, prepare, prepare_source) (validating-IsEarly, tt)
              | inl ((layout, plan), made) ↦
                  rw (held, made, prepare, prepare_source)
                    (prepare_entry-IsEarly source layout plan)
            ]
      ]

module _ (passes : ReconstructionPasses) (request : UnpackRequest) (target : PreparedPeTarget)
    (evidence : PeCaptureEvidence) where
  one_more-IsEarly :
      (stages : List EngineStage) (stage : EngineStage)
      → All IsEarly stages
      → IsEarly stage
      → All IsEarly (stages ++ (stage ∷ []))
  one_more-IsEarly stages stage early new = All-append IsEarly stages (stage ∷ []) early (new, tt)

  fix_image-IsEarly :
      (first : PeCapturedRun) (imports : ImportRebuildPlan) (placement : ImagePlacementPlan)
      (count : Option ℕ) (stages : List EngineStage)
      → All IsEarly stages
      → All IsEarly
          (fix_image passes request target evidence first imports placement count stages).stages
  unfolding fix_image
  fix_image-IsEarly first imports placement count stages early =
      let later = one_more-IsEarly stages EngineStage.fixing early (λ e. ground arith) in
      ground (arith, later)

  place_image-IsEarly :
      (first : PeCapturedRun) (imports : ImportRebuildPlan) (stages : List EngineStage)
      → All IsEarly stages
      → All IsEarly (place_image passes request target evidence first imports stages).stages
  unfolding place_image
  place_image-IsEarly first imports stages early =
      let later =
        one_more-IsEarly stages EngineStage.rebuilding_relocations early (λ e. ground arith) in
      let plan = target.execution_plan in
      elim (Bool-cases plan.rebuild_relocations) [
        | inr fixed ↦
            simp (fixed, place_image) (fix_image-IsEarly first imports _ none stages early)
        | inl moving ↦ elim (Bool-cases (length evidence.runs != 3)) [
          | inl few ↦ simp (moving, few, place_image) early
          | inr three ↦
              elim (Result-cases (
                reconstruct (snapshots_of evidence.runs) (source_slots request.oep evidence)
                  target.layout plan.output_base)) [
                    | inr (e, bad) ↦ simp (moving, three, bad, place_image) later
                    | inl (relocations, made) ↦
                        simp (moving, three, made, place_image)
                          (fix_image-IsEarly first imports _ _ _ later)
                  ]
        ]
      ]

  rebuild_from-IsEarly :
      (first : PeCapturedRun)
      → All IsEarly (rebuild_from passes request target evidence first).stages
  unfolding rebuild_from
  rebuild_from-IsEarly first =
      let begun : All IsEarly (EngineStage.rebuilding_imports ∷ []) = ((λ e. ground arith), tt) in
      elim (Option-cases request.imports) [
        | inr (imports, given) ↦
            simp (given, rebuild_from) (place_image-IsEarly first imports [] tt)
        | inl nothing ↦
            elim (Result-cases (discover_imports passes request target evidence first)) [
              | inr (e, bad) ↦ simp (nothing, bad, rebuild_from) begun
              | inl (imports, found) ↦
                  simp (nothing, found, rebuild_from) (place_image-IsEarly first imports _ begun)
            ]
      ]

  pub reconstruct_image-IsEarly :
      All IsEarly (reconstruct_image passes request target evidence).stages
  unfolding reconstruct_image
  reconstruct_image-IsEarly = elim (runs-cases evidence.runs) [
    | inl nothing ↦ simp (nothing, reconstruct_image) tt
    | inr (first, rest, some_runs) ↦
        simp (some_runs, reconstruct_image) (rebuild_from-IsEarly first)
  ]

module _ {S : Type 0} (snapshots : PeSnapshotCapture S) (request : UnpackRequest)
    (target : PreparedPeTarget)
    (early : (r : PeSnapshotCaptureRequest) (s : S)
      → All IsEarly (snapshots.capture_one r s).1) where
  capture_runs-IsEarly :
      (index : ℕ) (images : List StagedImage) (runs : List PeCapturedRun) (s : S)
      → All IsEarly (capture_runs snapshots request target index images runs s).stages
  unfolding capture_runs
  capture_runs-IsEarly index [] runs s = tt
  capture_runs-IsEarly index (image ∷ images) runs s =
      let asked = snapshot_request request target index image in
      let one = snapshots.capture_one asked s in
      elim (Option-cases one.0.capture) [
        | inl missing ↦ rw (missing, capture_runs) (early asked s)
        | inr (run, captured) ↦ elim (Bool-cases (entry_differs runs run)) [
          | inl differs ↦ rw (captured, differs, capture_runs) (early asked s)
          | inr agrees ↦
              rw (captured, agrees, capture_runs)
                (All-append IsEarly one.1 _ (early asked s)
                  (capture_runs-IsEarly (index + 1) images (runs ++ (run ∷ [])) one.2))
        ]
      ]

  pub capture-IsEarly :
      (h : WindowsHeaders) (s : S) → All IsEarly (capture snapshots request target h s).stages
  unfolding capture capture_staged capture_runs
  capture-IsEarly h s =
      elim (Result-cases (stage_images h target target.execution_plan.capture_bases)) [
        | inr (e, bad) ↦ rw (bad, capture) tt
        | inl (images, made) ↦ elim (Bool-cases target.execution_plan.rebuild_relocations) [
          | inl rebuild ↦
              rw (made, rebuild, capture, capture_staged)
                ((λ e. ground arith), capture_runs-IsEarly 0 images [] s)
          | inr fixed ↦
              rw (made, fixed, capture, capture_staged) (capture_runs-IsEarly 0 images [] s)
        ]
      ]
