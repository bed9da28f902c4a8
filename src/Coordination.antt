-- ===== src/Coordination.antt =====
-- upx-killer-contracts/Application/Coordination/UnpackCoordinator: the choice of a backend.
pub mod Selection
pub mod Decided
mod Tests
use upx_killer.Common.{
  ℕ, Bool, true, false, ◌||◌, Option, none, some, List, [], ◌∷◌, ◌++◌, Bytes, codes, ◌==◌, length,
  if◌then◌else◌,
}
use upx_killer.Contracts.Targets.{BackendManifest}
use upx_killer.Contracts.Jobs.{UnpackJobRequest, JobOutcome, ErrorCategory, JobResult}
use upx_killer.Contracts.Backends.{BackendProbeResult, UnpackBackend}

-- `{outcome, category, "…", std::nullopt, 0}`
abbrev pub failure : JobOutcome → ErrorCategory → Bytes → JobResult
failure outcome category detail = record {
  outcome = outcome;
  category = category;
  detail_code = detail;
  artifact = none;
  native_code = 0;
}

abbrev pub is_empty {ℓ} : {A : Type ℓ} → List A → Bool
is_empty [] = true
is_empty (x ∷ xs) = false

pub is_invalid : UnpackJobRequest → Bool
is_invalid request =
    is_empty request.target_path
    || is_empty request.output_path
    || request.timeout_milliseconds == 0
    || request.maximum_image_size == 0

-- How the loop over the backends ends: by its `return`, or with what `selected` holds.
pub data Choice (C : Type 0) : Type 0 where
  multiple_matches : Choice C
  selected : Option (UnpackBackend C × BackendProbeResult) → Choice C

module _ {C : Type 0} where
  -- A null pointer is not registered.
  pub register : List (UnpackBackend C) → Option (UnpackBackend C) → List (UnpackBackend C)
  register backends none = backends
  register backends (some backend) = backends ++ (backend ∷ [])

  pub query_capabilities : List (UnpackBackend C) → List BackendManifest
  query_capabilities [] = []
  query_capabilities (backend ∷ backends) = backend.manifest ∷ query_capabilities backends

  -- One round for a backend that recognizes the target.
  pub choose :
      UnpackJobRequest
      → List (UnpackBackend C)
      → Option (UnpackBackend C × BackendProbeResult)
      → Choice C
  choose request [] chosen = selected chosen
  choose request (backend ∷ backends) chosen =
      let probe = backend.probe request in
      elim probe.recognized [
        | false ↦ choose request backends chosen
        | true ↦ elim chosen [
          | some earlier ↦ multiple_matches
          | none ↦ choose request backends (some (backend, probe))
        ]
      ]

  -- What follows the loop.
  pub run_selected : UnpackJobRequest → C → Choice C → JobResult
  run_selected request context multiple_matches =
      failure JobOutcome.failed ErrorCategory.configuration
        (codes "coordinator.backend.multiple_matches")
  run_selected request context (selected none) =
      failure JobOutcome.unsupported_target ErrorCategory.unsupported_target
        (codes "target.unrecognized")
  run_selected request context (selected (some (backend, probe))) =
      if probe.supported
      then backend.execute request context
      else failure JobOutcome.unsupported_target ErrorCategory.unsupported_target
          (if is_empty probe.detail_code then codes "target.unsupported" else probe.detail_code)

  pub execute : List (UnpackBackend C) → UnpackJobRequest → C → JobResult
  execute backends request context =
      if is_invalid request
      then failure JobOutcome.failed ErrorCategory.invalid_request (codes "job.request.invalid")
      else run_selected request context (choose request backends none)
