-- ===== src/Coordination/Selection.antt =====
-- The coordinator runs the one backend that recognizes the target, whatever the order of
-- registration.
use upx_killer.Common.{
  ◌≡◌, refl, ◌∙◌, arith, true, false, none, some, List, [], ◌∷◌, codes, if◌then◌else◌,
}
use mathlib.Core.List.{Permᴰ, Perm}
use mathlib.Core.Path.{subst₂}
use mathlib.Core.Logic.{∥∥₁_elim}
use native.Mathlib.Nat.{ℕ_set}
use upx_killer.Contracts.Jobs.{UnpackJobRequest, JobResult, JobOutcome, ErrorCategory}
use upx_killer.Contracts.Backends.{UnpackBackend}
use upx_killer.Coordination.{
  Choice, multiple_matches, selected, choose, is_invalid, run_selected, execute, failure,
}

JobResult-set : IsSet JobResult
JobResult-set = hlevel ℕ_set

module _ {C : Type 0} where
  -- The registered backends that recognize the target, in order.
  abbrev pub recognizers : UnpackJobRequest → List (UnpackBackend C) → List (UnpackBackend C)
  recognizers request [] = []
  recognizers request (backend ∷ backends) = elim (backend.probe request).recognized [
    | true ↦ backend ∷ recognizers request backends
    | false ↦ recognizers request backends
  ]

  -- What the loop must find.
  abbrev pub choice_of : UnpackJobRequest → List (UnpackBackend C) → Choice C
  choice_of request [] = selected none
  choice_of request (backend ∷ []) = selected (some (backend, backend.probe request))
  choice_of request (first ∷ second ∷ rest) = multiple_matches

  choose_started :
      (request : UnpackJobRequest) (first : UnpackBackend C) (backends : List (UnpackBackend C))
      → choose request backends (some (first, first.probe request))
        ≡ choice_of request (first ∷ recognizers request backends)
  unfolding choose
  choose_started request first [] = refl
  choose_started request first (backend ∷ backends) =
      ground (arith, choose_started request first backends)

  pub choose-recognizers :
      (request : UnpackJobRequest) (backends : List (UnpackBackend C))
      → choose request backends none ≡ choice_of request (recognizers request backends)
  unfolding choose
  choose-recognizers request [] = refl
  choose-recognizers request (backend ∷ backends) =
      ground (arith, choose-recognizers request backends, choose_started request backend backends)

  -- The choice among more backends depends on what the choice among the others was, and no more.
  choice_of-cons :
      (request : UnpackJobRequest) (b : UnpackBackend C) (xs ys : List (UnpackBackend C))
      → choice_of request xs ≡ choice_of request ys
      → choice_of request (b ∷ xs) ≡ choice_of request (b ∷ ys)
  choice_of-cons request b [] [] e = refl
  choice_of-cons request b (x ∷ xs) (y ∷ ys) e = refl
  choice_of-cons request b [] (y ∷ []) e = absurd (ground arith)
  choice_of-cons request b [] (y ∷ z ∷ ys) e = absurd (ground arith)
  choice_of-cons request b (x ∷ []) [] e = absurd (ground arith)
  choice_of-cons request b (x ∷ z ∷ xs) [] e = absurd (ground arith)

  recognizers_swap :
      (request : UnpackJobRequest) (a b : UnpackBackend C) (l : List (UnpackBackend C))
      → choice_of request (recognizers request (a ∷ b ∷ l))
        ≡ choice_of request (recognizers request (b ∷ a ∷ l))
  recognizers_swap request a b l = ground arith

  recognizers-perm :
      (request : UnpackJobRequest) {xs ys : List (UnpackBackend C)}
      → Permᴰ xs ys
      → choice_of request (recognizers request xs) ≡ choice_of request (recognizers request ys)
  recognizers-perm request Permᴰ.nil = refl
  recognizers-perm request (Permᴰ.cons {a = a} {b = b} {l₁ = l₁} {l₂ = l₂} e p) = rw (← e) (
      ground (
        arith,
        recognizers-perm request p,
        choice_of-cons request a (recognizers request l₁) (recognizers request l₂),
      ))
  recognizers-perm request (Permᴰ.swap {a = a} {b = b} {l = l} e e') =
      subst₂
        (λ x y.
          choice_of request (recognizers request (a ∷ b ∷ l))
          ≡ choice_of request (recognizers request (y ∷ x ∷ l)))
        e e' (recognizers_swap request a b l)
  recognizers-perm request (Permᴰ.trans p q) =
      recognizers-perm request p ∙ recognizers-perm request q

  execute-recognizers :
      (backends : List (UnpackBackend C)) (request : UnpackJobRequest) (context : C)
      → execute backends request context ≡ (
          if is_invalid request
          then failure JobOutcome.failed ErrorCategory.invalid_request (codes "job.request.invalid")
          else run_selected request context (choice_of request (recognizers request backends)))
  unfolding execute
  execute-recognizers backends request context = rw (choose-recognizers request backends)

  -- The order of registration does not matter.
  pub execute-perm :
      (xs ys : List (UnpackBackend C)) (request : UnpackJobRequest) (context : C)
      → Perm xs ys
      → execute xs request context ≡ execute ys request context
  execute-perm xs ys request context p = ∥∥₁_elim p (JobResult-set _ _) λ q. rw (
    execute-recognizers xs request context,
    execute-recognizers ys request context,
    recognizers-perm request q,
  )
