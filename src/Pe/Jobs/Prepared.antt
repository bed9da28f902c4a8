-- ===== src/Pe/Jobs/Prepared.antt =====
-- What the preparation of a target promises to the stages behind it.
use upx_killer.Common.{
  ℕ, ◌≡◌, ◌<◌, refl, arith, true, false, not, ◌&&◌, Option, none, some, Bytes, length, subst, inl,
  inr, Bool-cases, Option-cases, List,
}
use upx_killer.Common.Results.{
  ok, reject_if_inversion, or_reject_inversion, ok-injective, Result-cases,
}
use upx_killer.Pe.Format.{PeImageLayout}
use upx_killer.Pe.Headers.{WindowsHeaders}
use upx_killer.Pe.Parser.{parse}
use upx_killer.Pe.Parser.Accepted.{IsLayout, parse-IsLayout}
use upx_killer.Pe.Capabilities.{PeBackendCapabilities, supports}
use upx_killer.Pe.Plan.{PeExecutionPlan, create}
use upx_killer.Pe.Plan.Bases.{IsPlan, create-IsPlan}
use upx_killer.Pe.Discovery.{OepDiscoveryPlan}
use upx_killer.Pe.Discovery.Locator.{analyze}
use upx_killer.Pe.Discovery.Located.{IsLocated, analyze-IsLocated}
use upx_killer.Pe.Jobs.{EngineStage, UnpackRequest}
use upx_killer.Pe.Jobs.Preparation.{
  TargetSource, TargetSourceReader, EntryPointTarget, PreparedPeTarget, has_relocation_directory,
  is_discovered, is_out_of_range, plan_source, finish_preparation, prepare_entry, prepare_source,
  prepare,
}

-- Where the entry point comes from: the request, inside the image, or the analysis of the file.
pub data IsEntry (oep : Option ℕ) (bytes : Bytes) (layout : PeImageLayout)
    (entry : EntryPointTarget) : Type 0 where
  given :
      (rva : ℕ)
      → oep ≡ some rva
      → rva < layout.size_of_image
      → entry ≡ EntryPointTarget.explicit_entry rva
      → IsEntry oep bytes layout entry
  found :
      (plan : OepDiscoveryPlan)
      → oep ≡ none
      → IsLocated bytes layout plan
      → entry ≡ EntryPointTarget.discovered_entry plan
      → IsEntry oep bytes layout entry

pub record IsPrepared (h : WindowsHeaders) (capabilities : PeBackendCapabilities)
    (request : UnpackRequest) (source : TargetSource) (target : PreparedPeTarget) : Type 0 where
  pub path : target.target_path ≡ request.target_path
  pub dependencies : target.dependency_directory ≡ source.dependency_directory
  pub bytes : target.source_bytes ≡ source.bytes
  pub parsed : parse h source.bytes ≡ ok target.layout
  pub accepted : IsLayout (length source.bytes) target.layout
  pub supported : supports capabilities target.layout ≡ true
  pub planned : IsPlan target.layout target.execution_plan
  pub entry : IsEntry request.oep source.bytes target.layout target.entry_point_target
  pub directory : target.has_source_relocation_directory ≡ has_relocation_directory target.layout
  pub movable :
      target.has_source_relocation_directory ≡ false
      → is_discovered target.entry_point_target ≡ true

-- What `plan_source` has found out.
pub record IsPlanned (h : WindowsHeaders) (capabilities : PeBackendCapabilities)
    (request : UnpackRequest) (bytes : Bytes) (layout : PeImageLayout) (plan : PeExecutionPlan)
    : Type 0 where
  pub parsed : parse h bytes ≡ ok layout
  pub accepted : IsLayout (length bytes) layout
  pub in_range : is_out_of_range request.oep layout ≡ false
  pub supported : supports capabilities layout ≡ true
  pub planned : IsPlan layout plan

created-IsPlan :
    (layout : PeImageLayout) (capabilities : PeBackendCapabilities) (plan : PeExecutionPlan)
    (size : ℕ)
    → IsLayout size layout
    → create layout capabilities ≡ some plan
    → (supports capabilities layout ≡ true) × IsPlan layout plan
created-IsPlan layout capabilities plan size accepted e =
    elim (create-IsPlan layout capabilities accepted.based) [
      | inl missing ↦ absurd (ground (arith, missing.1))
      | inr made ↦ (made.0, subst (IsPlan layout) (ground (arith, made.1.1)) made.1.2)
    ]

module _ (h : WindowsHeaders) (capabilities : PeBackendCapabilities) (request : UnpackRequest) where
  pub plan_source-IsPlanned :
      (bytes : Bytes) (layout : PeImageLayout) (plan : PeExecutionPlan)
      → plan_source h capabilities request bytes ≡ ok (layout, plan)
      → IsPlanned h capabilities request bytes layout plan
  unfolding plan_source
  plan_source-IsPlanned bytes layout plan e = elim (Result-cases (parse h bytes)) [
    | inr bad ↦ absurd (ground (arith, bad.1))
    | inl (read, parsed) ↦
        let e0 = rw (parsed, plan_source) at e in
        reject_if_inversion _ _ _ (layout, plan) e0
          λ range e1.
            or_reject_inversion _ _ _ (layout, plan) e1
              λ made created e2.
                let accepted = parse-IsLayout h bytes read parsed in
                let good = created-IsPlan read capabilities made (length bytes) accepted created in
                subst
                  (λ (p : PeImageLayout × PeExecutionPlan).
                    IsPlanned h capabilities request bytes p.0 p.1)
                  (ok-injective (read, made) (layout, plan) e2)
                  (record {
                    parsed = parsed;
                    accepted = accepted;
                    in_range = range;
                    supported = good.0;
                    planned = good.1;
                  })
  ]

  finish_preparation-IsPrepared :
      (source : TargetSource) (layout : PeImageLayout) (plan : PeExecutionPlan)
      (entry : EntryPointTarget) (stages : List EngineStage) (target : PreparedPeTarget)
      → IsPlanned h capabilities request source.bytes layout plan
      → IsEntry request.oep source.bytes layout entry
      → (finish_preparation request source layout plan entry stages).result ≡ ok target
      → IsPrepared h capabilities request source target
  unfolding finish_preparation
  finish_preparation-IsPrepared source layout plan entry stages target planned at e =
      elim (Bool-cases (not (has_relocation_directory layout) && not (is_discovered entry))) [
        | inl bad ↦ absurd (ground (arith, bad))
        | inr good ↦
            subst (IsPrepared h capabilities request source)
              (ok-injective _ target (rw (good, finish_preparation) at e))
              (record {
                path = refl;
                dependencies = refl;
                bytes = refl;
                parsed = planned.parsed;
                accepted = planned.accepted;
                supported = planned.supported;
                planned = planned.planned;
                entry = at;
                directory = refl;
                movable = λ fixed. ground (arith, good, fixed);
              })
      ]

  prepare_entry-IsPrepared :
      (source : TargetSource) (layout : PeImageLayout) (plan : PeExecutionPlan)
      (target : PreparedPeTarget)
      → IsPlanned h capabilities request source.bytes layout plan
      → (prepare_entry request source layout plan).result ≡ ok target
      → IsPrepared h capabilities request source target
  unfolding prepare_entry is_out_of_range
  prepare_entry-IsPrepared source layout plan target planned e = elim (Option-cases request.oep) [
    | inl missing ↦ elim (Result-cases (analyze source.bytes layout)) [
      | inr bad ↦ absurd (ground (arith, bad.1, missing))
      | inl (discovery, located) ↦
          finish_preparation-IsPrepared source layout plan
            (EntryPointTarget.discovered_entry discovery) _ target planned
            (IsEntry.found discovery missing
              (analyze-IsLocated source.bytes layout discovery located) refl)
            (rw (missing, located, prepare_entry) at e)
    ]
    | inr (rva, there) ↦
        finish_preparation-IsPrepared source layout plan (EntryPointTarget.explicit_entry rva) _
          target planned (IsEntry.given rva there (ground (arith, planned.in_range, there)) refl)
          (rw (there, prepare_entry) at e)
  ]

  prepare_source-IsPrepared :
      (source : TargetSource) (target : PreparedPeTarget)
      → (prepare_source h capabilities request source).result ≡ ok target
      → IsPrepared h capabilities request source target
  unfolding prepare_source
  prepare_source-IsPrepared source target e =
      elim (Result-cases (plan_source h capabilities request source.bytes)) [
        | inr bad ↦ absurd (ground (arith, bad.1))
        | inl ((layout, plan), planned) ↦
            prepare_entry-IsPrepared source layout plan target
              (plan_source-IsPlanned source.bytes layout plan planned)
              (rw (planned, prepare_source) at e)
      ]

  -- A target that is prepared is the file that the reader gives within the size limit: it parses to an
  -- accepted layout of a supported kind, with an execution plan as `IsPlan` states. Its entry point is
  -- the requested one, inside the image, or, where none is requested, the candidates that the analysis of the
  -- file has located; a file without a base relocation directory is prepared only with the latter.
  pub prepare-IsPrepared :
      (reader : TargetSourceReader) (target : PreparedPeTarget)
      → (prepare h reader capabilities request).result ≡ ok target
      → (source : TargetSource) × ((reader.read request.target_path
            request.maximum_image_size).source
          ≡ some source)
        × IsPrepared h capabilities request source target
  unfolding prepare
  prepare-IsPrepared reader target e =
      elim (Option-cases (reader.read request.target_path request.maximum_image_size).source) [
        | inl missing ↦ absurd (ground (arith, missing))
        | inr (source, there) ↦
            (source, there, prepare_source-IsPrepared source target (rw (there, prepare) at e))
      ]
