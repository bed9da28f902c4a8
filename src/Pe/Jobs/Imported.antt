-- ===== src/Pe/Jobs/Imported.antt =====
-- Where the imports of a reconstructed image come from.
use upx_killer.Common.{◌≡◌, ◌⊎◌, refl, arith, true, none, some, subst, inl, inr, Bool-cases}
use upx_killer.Common.Results.{ok, err, ok-injective, Result-cases}
use upx_killer.Pe.Format.{PeImageKind}
use upx_killer.Pe.Imports.{ImportDiscoveryError}
use upx_killer.Pe.Directories.{ImportRebuildPlan}
use upx_killer.Pe.Jobs.{UnpackRequest}
use upx_killer.Pe.Jobs.Preparation.{PreparedPeTarget}
use upx_killer.Pe.Jobs.Capture.{PeCapturedRun, PeCaptureEvidence}
use upx_killer.Pe.Jobs.Reconstruction.{
  ReconstructionPasses, no_imports, may_lack_imports, discover_imports,
}

PeImageKind-cases :
    (k : PeImageKind) → (k ≡ PeImageKind.executable) ⊎ (k ≡ PeImageKind.dynamic_library)
PeImageKind-cases PeImageKind.executable = inl refl
PeImageKind-cases PeImageKind.dynamic_library = inr refl

module _ (passes : ReconstructionPasses) (request : UnpackRequest) (target : PreparedPeTarget)
    (evidence : PeCaptureEvidence) (first : PeCapturedRun) where
  -- The imports are requested, discovered, or absent from a library without an entry point.
  pub data IsImportPlan (imports : ImportRebuildPlan) : Type 0 where
    requested : request.imports ≡ some imports → IsImportPlan imports
    discovered :
        request.imports ≡ none
        → passes.discover first.image.bytes target.source_bytes target.layout first.runtime_imports
            first.entry_point
          ≡ ok imports
        → IsImportPlan imports
    absent :
        request.imports ≡ none
        → passes.discover first.image.bytes target.source_bytes target.layout first.runtime_imports
            first.entry_point
          ≡ err ImportDiscoveryError.imports_not_found
        → target.layout.image_kind ≡ PeImageKind.dynamic_library
        → first.entry_point ≡ 0
        → imports ≡ no_imports
        → IsImportPlan imports

  may_lack_imports-IsImportPlan :
      (error : ImportDiscoveryError)
      → request.imports ≡ none
      → passes.discover first.image.bytes target.source_bytes target.layout first.runtime_imports
          first.entry_point
        ≡ err error
      → may_lack_imports target first error ≡ true
      → IsImportPlan no_imports
  unfolding may_lack_imports
  may_lack_imports-IsImportPlan ImportDiscoveryError.imports_not_found asked missing lacks =
      elim (PeImageKind-cases target.layout.image_kind) [
        | inl program ↦ absurd (ground (arith, program))
        | inr library ↦ IsImportPlan.absent asked missing library (ground (arith, library)) refl
      ]
  may_lack_imports-IsImportPlan ImportDiscoveryError.no_error asked missing lacks =
      absurd (ground arith)
  may_lack_imports-IsImportPlan ImportDiscoveryError.imports_ambiguous asked missing lacks =
      absurd (ground arith)
  may_lack_imports-IsImportPlan ImportDiscoveryError.invalid_input asked missing lacks =
      absurd (ground arith)

  pub discover_imports-IsImportPlan :
      (imports : ImportRebuildPlan)
      → request.imports ≡ none
      → discover_imports passes request target evidence first ≡ ok imports
      → IsImportPlan imports
  unfolding discover_imports
  discover_imports-IsImportPlan imports asked e =
      elim (Result-cases (
        passes.discover first.image.bytes target.source_bytes target.layout first.runtime_imports
          first.entry_point)) [
            | inl (plan, found) ↦
                subst IsImportPlan (ok-injective plan imports (rw (found, discover_imports) at e))
                  (IsImportPlan.discovered asked found)
            | inr (error, missing) ↦ elim (Bool-cases (may_lack_imports target first error)) [
              | inr needed ↦ absurd (ground (arith, missing, needed))
              | inl lacks ↦
                  subst IsImportPlan
                    (ok-injective no_imports imports (rw (missing, lacks, discover_imports) at e))
                    (may_lack_imports-IsImportPlan error asked missing lacks)
            ]
          ]
