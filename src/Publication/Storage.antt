-- ===== src/Publication/Storage.antt =====
-- What publishing an artifact does to the file at the final path, for a store that keeps its promises.
use upx_killer.Common.{
  ◌≡◌, ◌≢◌, ◌⊎◌, refl, ◌∙◌, arith, true, Option, none, some, Bytes, ◌!=◌, Bool-cases, Option-cases,
  inl, inr,
}
use upx_killer.Publication.{
  ArtifactPublicationError, ArtifactPublicationRequest, ArtifactValidationRequest, ArtifactStore,
  ArtifactValidator, Publication, validation_request, is_valid, discard, promote_staged,
  publish_staged, publish,
}

-- The promises of a store, for the contents of the files in its state and one final path: `Stage` names
-- another file, `Promote` moves a file there or leaves it as it is, and no other call touches it.
pub record IsStore {S : Type 0} (store : ArtifactStore S) (contents : S → Bytes → Option Bytes)
    (final : Bytes) : Type 0 where
  pub staged :
      (bytes : Bytes) (s : S) (path : Bytes)
      → (store.stage final bytes s).0.temporary_path ≡ some path
      → path ≢ final
  pub stage_keeps :
      (bytes : Bytes) (s : S) → contents (store.stage final bytes s).1 final ≡ contents s final
  pub promoted :
      (path : Bytes) (s : S)
      → (store.promote path final s).0 ≡ 0
      → contents (store.promote path final s).1 final ≡ contents s path
  pub promote_keeps :
      (path : Bytes) (s : S)
      → (store.promote path final s).0 ≢ 0
      → contents (store.promote path final s).1 final ≡ contents s final
  pub remove_keeps :
      (path : Bytes) (s : S)
      → path ≢ final
      → contents (store.remove path s) final ≡ contents s final

-- The run of an image in the validation leaves the file at a path alone.
abbrev pub IsQuiet :
    {S : Type 0} → ArtifactValidator S → (S → Bytes → Option Bytes) → Bytes → Type 0
IsQuiet {S} validator contents path =
    (r : ArtifactValidationRequest) (s : S)
    → contents (validator.validate r s).1 path ≡ contents s path

-- The image that is validated is the staged file, in the state behind the staging, and what is found at the final
-- path afterwards is that file.
pub record IsPublished {S : Type 0} (store : ArtifactStore S) (validator : ArtifactValidator S)
    (contents : S → Bytes → Option Bytes) (request : ArtifactPublicationRequest) (before : S)
    (after : Publication S) : Type 0 where
  pub image : Bytes
  pub named : (store.stage request.final_path request.bytes before).0.temporary_path ≡ some image
  pub validated :
      is_valid request.target.image_kind
        (validator.validate
          (validation_request request image)
          (store.stage request.final_path request.bytes before).1).0
      ≡ true
  pub replaced :
      contents after.storage request.final_path
      ≡ contents (store.stage request.final_path request.bytes before).1 image

-- The two ends of a publication.
abbrev pub IsSettled :
    {S : Type 0}
    → ArtifactStore S
    → ArtifactValidator S
    → (S → Bytes → Option Bytes)
    → ArtifactPublicationRequest
    → S
    → Publication S
    → Type 0
IsSettled store validator contents request before after =
    ((after.result.error ≢ ArtifactPublicationError.no_error)
      × (after.result.artifact ≡ none)
      × (contents after.storage request.final_path ≡ contents before request.final_path))
    ⊎ ((after.result.error ≡ ArtifactPublicationError.no_error)
        × (after.result.artifact ≢ none)
        × IsPublished store validator contents request before after)

module _ {S : Type 0} (store : ArtifactStore S) (validator : ArtifactValidator S)
    (contents : S → Bytes → Option Bytes) (request : ArtifactPublicationRequest)
    (laws : IsStore store contents request.final_path)
    (quiet : IsQuiet validator contents request.final_path) where
  discard-keeps :
      (path : Bytes) (s : S)
      → path ≢ request.final_path
      → contents (discard store validator request path s) request.final_path
        ≡ contents s request.final_path
  unfolding discard
  discard-keeps path s n = elim (Bool-cases request.retain_failed_output) [
    | inl kept ↦ rw (kept)
    | inr dropped ↦ rw (dropped) (laws.remove_keeps path s n)
  ]

  -- From the staged file on, which the validation leaves alone.
  publish_staged-IsSettled :
      (path : Bytes) (before : S)
      → (store.stage request.final_path request.bytes before).0.temporary_path ≡ some path
      → IsQuiet validator contents path
      → IsSettled store validator contents request before (
          publish_staged store validator request path
            (store.stage request.final_path request.bytes before).1)
  unfolding publish_staged promote_staged
  publish_staged-IsSettled path before named still =
      let s = (store.stage request.final_path request.bytes before).1 in
      let asked = validation_request request path in
      let done = validator.validate asked s in
      let moved = store.promote path request.final_path done.1 in
      let apart = laws.staged request.bytes before path named in
      let same = quiet asked s ∙ laws.stage_keeps request.bytes before in
      elim (Bool-cases (is_valid request.target.image_kind done.0)) [
        | inr invalid ↦
            rw (publish_staged, invalid)
              (inl ((λ e. ground arith), refl, discard-keeps path done.1 apart ∙ same))
        | inl valid ↦ elim (Bool-cases (moved.0 != 0)) [
          | inl failed ↦
              rw (publish_staged, promote_staged, valid, failed)
                (inl (
                  (λ e. ground arith),
                  refl,
                  discard-keeps path moved.1 apart
                      ∙ laws.promote_keeps path done.1 (ground arith)
                      ∙ same,
                ))
          | inr ready ↦
              rw (publish_staged, promote_staged, valid, ready)
                (inr (
                  refl,
                  (λ e. ground arith),
                  record {
                    image = path;
                    named = named;
                    validated = valid;
                    replaced = laws.promoted path done.1 (ground arith) ∙ still asked s;
                  },
                ))
        ]
      ]

  pub publish-IsSettled :
      (s : S)
      → ((path : Bytes)
          → (store.stage request.final_path request.bytes s).0.temporary_path ≡ some path
          → IsQuiet validator contents path)
      → IsSettled store validator contents request s (publish store validator request s)
  unfolding publish
  publish-IsSettled s still =
      let staged = store.stage request.final_path request.bytes s in
      elim (Option-cases staged.0.temporary_path) [
        | inl missing ↦
            rw (publish, missing)
              (inl ((λ e. ground arith), refl, laws.stage_keeps request.bytes s))
        | inr (path, named) ↦
            rw (publish, named) (publish_staged-IsSettled path s named (still path named))
      ]
