-- ===== src/Pe/Jobs/Runs.antt =====
-- What the captures of a prepared target have in common.
use upx_killer.Common.{
  ℕ, suc, ◌+◌, ◌≡◌, refl, sym, ap, ◌∙◌, arith, false, some, List, [], ◌∷◌, ◌++◌, append-nil,
  append_assoc, All, All-append, length, subst, inl, inr, Bool-cases, Option-cases,
}
use upx_killer.Common.Results.{ok, step_inversion, ok-injective, Result-cases}
use upx_killer.Pe.Headers.{WindowsHeaders}
use upx_killer.Pe.Rebasing.{format_traits}
use upx_killer.Pe.Rebasing.Rebased.{HasFields}
use upx_killer.Pe.Staging.Fields.{HasBaseFirst}
use upx_killer.Pe.Jobs.{UnpackRequest}
use upx_killer.Pe.Jobs.Preparation.{PreparedPeTarget}
use upx_killer.Pe.Jobs.Capture.{
  PeCapturedRun, PeSnapshotCapture, PeCaptureEvidence, StagedImage, stage_images, snapshot_request,
  entry_differs, first_slots, capture_runs, capture_staged, capture,
}
use upx_killer.Pe.Jobs.Placed.{AreStaged, stage_images-AreStaged, AreStaged-length}

-- Every run resolves the entry point of the first one.
abbrev pub HaveOneEntry : List PeCapturedRun → Type 0
HaveOneEntry [] = Unit {0}
HaveOneEntry (first ∷ runs) = All (λ (r : PeCapturedRun). r.entry_point ≡ first.entry_point) runs

entry_differs-HaveOneEntry :
    (runs : List PeCapturedRun) (run : PeCapturedRun)
    → HaveOneEntry runs
    → entry_differs runs run ≡ false
    → HaveOneEntry (runs ++ (run ∷ []))
unfolding entry_differs
entry_differs-HaveOneEntry [] run all e = tt
entry_differs-HaveOneEntry (first ∷ runs) run all e =
    All-append (λ (r : PeCapturedRun). r.entry_point ≡ first.entry_point) runs (run ∷ []) all
      (ground arith, tt)

module _ {S : Type 0} (snapshots : PeSnapshotCapture S) (request : UnpackRequest)
    (target : PreparedPeTarget) where
  -- The images from an index on run one after the other, each in the state behind the one before.
  abbrev pub AreRuns : ℕ → List StagedImage → List PeCapturedRun → S → S → Type 0
  AreRuns index [] [] before after = before ≡ after
  AreRuns index (image ∷ images) (run ∷ runs) before after =
      ((snapshots.capture_one (snapshot_request request target index image) before).0.capture
        ≡ some run)
      × AreRuns (index + 1) images runs
          (snapshots.capture_one (snapshot_request request target index image) before).2 after
  AreRuns index _ _ before after = ⊥

  AreRuns-length :
      (index : ℕ) (images : List StagedImage) (runs : List PeCapturedRun) (before after : S)
      → AreRuns index images runs before after
      → length runs ≡ length images
  AreRuns-length index [] [] before after all = refl
  AreRuns-length index [] (run ∷ runs) before after all = absurd all
  AreRuns-length index (image ∷ images) [] before after all = absurd all
  AreRuns-length index (image ∷ images) (run ∷ runs) before after all =
      ap suc (AreRuns-length (index + 1) images runs _ after all.1)

  -- What the second loop adds to the runs.
  abbrev IsAdded : ℕ → List StagedImage → List PeCapturedRun → List PeCapturedRun → S → S → Type 0
  IsAdded index images runs all before after =
      ((new : List PeCapturedRun) × (all ≡ runs ++ new) × AreRuns index images new before after)
      × HaveOneEntry all

  capture_runs-IsAdded :
      (index : ℕ) (images : List StagedImage) (runs all : List PeCapturedRun) (s : S)
      → HaveOneEntry runs
      → (capture_runs snapshots request target index images runs s).result ≡ ok all
      → IsAdded index images runs all s
          (capture_runs snapshots request target index images runs s).state
  unfolding capture_runs
  capture_runs-IsAdded index [] runs all s same e =
      let whole = ok-injective runs all e in
      (([], sym whole ∙ sym (append-nil runs), refl), subst HaveOneEntry whole same)
  capture_runs-IsAdded index (image ∷ images) runs all s same e =
      let one = snapshots.capture_one (snapshot_request request target index image) s in
      elim (Option-cases one.0.capture) [
        | inl missing ↦ absurd (ground (arith, missing))
        | inr (run, captured) ↦ elim (Bool-cases (entry_differs runs run)) [
          | inl differs ↦ absurd (ground (arith, captured, differs))
          | inr agrees ↦
              let later =
                capture_runs-IsAdded (index + 1) images (runs ++ (run ∷ [])) all one.2
                  (entry_differs-HaveOneEntry runs run same agrees)
                  (rw (captured, agrees, capture_runs) at e) in
              rw (captured, agrees, capture_runs)
                (
                  (
                    run ∷ later.0.0,
                    later.0.1 ∙ append_assoc runs (run ∷ []) later.0.0,
                    (captured, later.0.2),
                  ),
                  later.1,
                )
        ]
      ]

-- The evidence of captures that have succeeded, from a state to another one.
pub record IsCaptured {S : Type 0} (h : WindowsHeaders) (snapshots : PeSnapshotCapture S)
    (request : UnpackRequest) (target : PreparedPeTarget) (before after : S)
    (evidence : PeCaptureEvidence) : Type 0 where
  pub images : List StagedImage
  pub staged : AreStaged h target target.execution_plan.capture_bases images
  pub ran : AreRuns snapshots request target 0 images evidence.runs before after
  pub count : length evidence.runs ≡ length target.execution_plan.capture_bases
  pub one_entry : HaveOneEntry evidence.runs
  pub slots :
      evidence.source_relocation_slots
      ≡ first_slots target.execution_plan.rebuild_relocations images

module _ {S : Type 0} (h : WindowsHeaders) (snapshots : PeSnapshotCapture S)
    (request : UnpackRequest) (target : PreparedPeTarget) (s : S)
    (evidence : PeCaptureEvidence) where
  capture_staged-IsCaptured :
      (images : List StagedImage)
      → AreStaged h target target.execution_plan.capture_bases images
      → (capture_staged snapshots request target images s).result ≡ ok evidence
      → IsCaptured h snapshots request target s
          (capture_staged snapshots request target images s).state
          evidence
  unfolding capture_staged
  capture_staged-IsCaptured images staged e =
      step_inversion (capture_runs snapshots request target 0 images [] s).result _ evidence e
        λ runs done e1.
          let added = capture_runs-IsAdded snapshots request target 0 images [] runs s tt done in
          let ran =
            subst
              (λ r.
                AreRuns snapshots request target 0 images r s
                  (capture_runs snapshots request target 0 images [] s).state)
              (sym added.0.1) added.0.2 in
          subst
            (IsCaptured h snapshots request target s
              (capture_runs snapshots request target 0 images [] s).state)
            (ok-injective _ evidence e1)
            (record {
              images = images;
              staged = staged;
              ran = ran;
              count =
                  AreRuns-length snapshots request target 0 images runs s _ ran
                  ∙ AreStaged-length h target _ images staged;
              one_entry = added.1;
              slots = refl;
            })

  pub capture-IsCaptured :
      HasFields h (format_traits h target.layout.format)
      → HasBaseFirst h target.layout.format
      → (capture snapshots request target h s).result ≡ ok evidence
      → IsCaptured h snapshots request target s
          (capture snapshots request target h s).state
          evidence
  unfolding capture
  capture-IsCaptured fields ordered e =
      elim (Result-cases (stage_images h target target.execution_plan.capture_bases)) [
        | inr bad ↦ absurd (ground (arith, bad.1))
        | inl (images, made) ↦
            rw (made, capture)
              (capture_staged-IsCaptured images
                (stage_images-AreStaged h target fields ordered _ images made)
                (rw (made, capture) at e))
      ]
