-- ===== src/Coordination/Decided.antt =====
-- What the coordinator decides, by the backends that recognize the target.
use upx_killer.Common.{
  ◌≡◌, ◌≢◌, ◌⊎◌, refl, arith, true, false, none, List, [], ◌∷◌, Bytes, codes, inl, inr, Bool-cases,
}
use upx_killer.Contracts.Jobs.{UnpackJobRequest, JobResult, JobOutcome, ErrorCategory}
use upx_killer.Contracts.Backends.{BackendProbeResult, UnpackBackend}
use upx_killer.Coordination.{failure, is_empty, is_invalid, run_selected, execute}
use upx_killer.Coordination.Selection.{recognizers, choice_of, choose-recognizers}

-- A request without a path, without time or without room for an image.
abbrev pub IsRefused : UnpackJobRequest → Type 0
IsRefused request =
    (request.target_path ≡ [])
    ⊎ (request.output_path ≡ [])
    ⊎ (request.timeout_milliseconds ≡ 0)
    ⊎ (request.maximum_image_size ≡ 0)

-- A result without an artifact.
pub record HasFailed (outcome : JobOutcome) (category : ErrorCategory) (detail : Bytes)
    (result : JobResult) : Type 0 where
  pub has_outcome : result.outcome ≡ outcome
  pub has_category : result.category ≡ category
  pub has_detail : result.detail_code ≡ detail
  pub no_artifact : result.artifact ≡ none
  pub no_native_code : result.native_code ≡ 0

-- The answer of a backend that does not support the target gives the detail, if it has one.
abbrev pub IsUnsupported : BackendProbeResult → JobResult → Type 0
IsUnsupported probe result =
    ((probe.detail_code ≡ [])
      × HasFailed JobOutcome.unsupported_target ErrorCategory.unsupported_target
          (codes "target.unsupported") result)
    ⊎ ((probe.detail_code ≢ [])
        × HasFailed JobOutcome.unsupported_target ErrorCategory.unsupported_target probe.detail_code
            result)

failure-HasFailed :
    (outcome : JobOutcome) (category : ErrorCategory) (detail : Bytes)
    → HasFailed outcome category detail (failure outcome category detail)
failure-HasFailed outcome category detail = record {
  has_outcome = refl;
  has_category = refl;
  has_detail = refl;
  no_artifact = refl;
  no_native_code = refl;
}

is_empty-inversion : {A : Type 0} (l : List A) → is_empty l ≡ true → l ≡ []
is_empty-inversion [] e = refl
is_empty-inversion (x ∷ l) e = absurd (ground arith)

is_empty-false : {A : Type 0} (l : List A) → is_empty l ≡ false → l ≢ []
is_empty-false [] e = absurd (ground arith)
is_empty-false (x ∷ l) e = λ h. ground arith

is_invalid-IsRefused : (request : UnpackJobRequest) → is_invalid request ≡ true → IsRefused request
unfolding is_invalid
is_invalid-IsRefused request e = elim (Bool-cases (is_empty request.target_path)) [
  | inl no_target ↦ inl (is_empty-inversion request.target_path no_target)
  | inr target ↦ elim (Bool-cases (is_empty request.output_path)) [
    | inl no_output ↦ inr (inl (is_empty-inversion request.output_path no_output))
    | inr output ↦ ground (arith, target, output)
  ]
]

is_invalid-accepted :
    (request : UnpackJobRequest) → is_invalid request ≡ false → ¬ IsRefused request
unfolding is_invalid
is_invalid-accepted request e refused =
    ground (arith, is_empty-false request.target_path, is_empty-false request.output_path)

module _ {C : Type 0} where
  -- No, one and several backends that recognize the target.
  abbrev pub IsRun : UnpackJobRequest → C → List (UnpackBackend C) → JobResult → Type 0
  IsRun request context [] result =
      HasFailed JobOutcome.unsupported_target ErrorCategory.unsupported_target
        (codes "target.unrecognized") result
  IsRun request context (b ∷ []) result =
      (((b.probe request).supported ≡ true) × (result ≡ b.execute request context))
      ⊎ (((b.probe request).supported ≡ false) × IsUnsupported (b.probe request) result)
  IsRun request context (first ∷ second ∷ rest) result =
      HasFailed JobOutcome.failed ErrorCategory.configuration
        (codes "coordinator.backend.multiple_matches") result

  abbrev pub IsDecided : List (UnpackBackend C) → UnpackJobRequest → C → JobResult → Type 0
  IsDecided backends request context result =
      (IsRefused request
        × HasFailed JobOutcome.failed ErrorCategory.invalid_request (codes "job.request.invalid")
            result)
      ⊎ ((¬ IsRefused request) × IsRun request context (recognizers request backends) result)

  run_selected-IsRun :
      (request : UnpackJobRequest) (context : C) (found : List (UnpackBackend C))
      → IsRun request context found (run_selected request context (choice_of request found))
  unfolding run_selected
  run_selected-IsRun request context [] = failure-HasFailed _ _ _
  run_selected-IsRun request context (b ∷ []) = elim (Bool-cases (b.probe request).supported) [
    | inl good ↦ rw (good, run_selected) (inl (refl, refl))
    | inr bad ↦ elim (Bool-cases (is_empty (b.probe request).detail_code)) [
      | inl nothing ↦
          rw (bad, nothing, run_selected)
            (inr (
              refl,
              inl (
                is_empty-inversion (b.probe request).detail_code nothing,
                failure-HasFailed _ _ _,
              ),
            ))
      | inr detail ↦
          rw (bad, detail, run_selected)
            (inr (
              refl,
              inr (is_empty-false (b.probe request).detail_code detail, failure-HasFailed _ _ _),
            ))
    ]
  ]
  run_selected-IsRun request context (first ∷ second ∷ rest) = failure-HasFailed _ _ _

  -- A request with an empty path, no time or no room for an image fails as invalid. For every other one: where no
  -- backend recognizes the target, the result says so; where one does, it is run if it supports the
  -- target, and else the result has the detail of its answer, if there is one; where several do, the
  -- job fails.
  pub execute-IsDecided :
      (backends : List (UnpackBackend C)) (request : UnpackJobRequest) (context : C)
      → IsDecided backends request context (execute backends request context)
  unfolding execute
  execute-IsDecided backends request context = elim (Bool-cases (is_invalid request)) [
    | inl bad ↦ rw (bad, execute) (inl (is_invalid-IsRefused request bad, failure-HasFailed _ _ _))
    | inr good ↦
        rw (good, execute, choose-recognizers request backends)
          (inr (
            is_invalid-accepted request good,
            run_selected-IsRun request context (recognizers request backends),
          ))
  ]
