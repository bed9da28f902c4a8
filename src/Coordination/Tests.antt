-- ===== src/Coordination/Tests.antt =====
-- A run of the coordinator with two backends, one for each family.
use upx_killer.Common.{ℕ, ◌≡◌, refl, Bool, true, false, none, List, [], ◌∷◌, codes}
use mathlib.Core.List.{Permᴰ}
use upx_killer.Contracts.Jobs.{UnpackJobRequest, JobOutcome, ErrorCategory}
use upx_killer.Contracts.Backends.{BackendProbeResult, UnpackBackend}
use upx_killer.Coordination.{execute}
use upx_killer.Coordination.Selection.{execute-perm}
use upx_killer.Coordination.Decided.{IsDecided, execute-IsDecided}

abbrev answer : Bool → BackendProbeResult
answer b = record { recognized = b; supported = b; target = none; detail_code = [] }

abbrev backend : Bool → UnpackBackend ℕ
backend b = record {
  manifest = record { backend_id = codes "backend"; capabilities = [] };
  probe = λ request. answer b;
  execute = λ request context. record {
    outcome = JobOutcome.completed;
    category = ErrorCategory.no_error;
    detail_code = codes "job.completed";
    artifact = none;
    native_code = context;
  };
}

abbrev request : UnpackJobRequest
request = record {
  target_path = codes "in.exe";
  output_path = codes "out.exe";
  entry_point = none;
  timeout_milliseconds = 60000;
  maximum_image_size = 0x40000000;
  retain_failed_output = false;
}

abbrev backends : List (UnpackBackend ℕ)
backends = backend false ∷ backend true ∷ []

abbrev swapped : List (UnpackBackend ℕ)
swapped = backend true ∷ backend false ∷ []

execute-perm_example : execute backends request 7 ≡ execute swapped request 7
execute-perm_example = execute-perm backends swapped request 7 ∣ Permᴰ.swap refl refl ∣₁

execute-IsDecided_example : IsDecided backends request 7 (execute backends request 7)
execute-IsDecided_example = execute-IsDecided backends request 7
