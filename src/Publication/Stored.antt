-- ===== src/Publication/Stored.antt =====
-- What publishing an artifact with the store on Windows does to the files.
use upx_killer.Common.{
  ◌≡◌, ◌≢◌, ◌⊎◌, ap, subst, ◌∙◌, sym, true, false, Option, none, some, Bytes, inl, inr,
}
use upx_killer.Publication.{
  ArtifactPublicationError, ArtifactPublicationRequest, ArtifactValidator, Publication,
  validation_request, is_valid, publish,
}
use upx_killer.Publication.Windows.{
  PathOperations, FileSystem, temporary_artifact_path, stage_artifact, windows_store,
}
use upx_killer.Publication.Storage.{IsQuiet, IsPublished, publish-IsSettled}
use upx_killer.Publication.Promises.{
  IsFileSystem, IsOrdinary, closing, stage_artifact-staged, windows_store-IsStore,
}

-- What an artifact that is published is: the staged file has been found valid, it is what is at the final path
-- afterwards, and it holds the requested bytes unless the stream that wrote it has failed to close.
pub record IsInstalled {S : Type 0} (fs : FileSystem S) (paths : PathOperations)
    (validator : ArtifactValidator S) (contents : S → Bytes → Option Bytes)
    (request : ArtifactPublicationRequest) (before : S) (after : Publication S) : Type 0 where
  pub validated :
      is_valid request.target.image_kind
        (validator.validate
          (validation_request request (temporary_artifact_path paths request.final_path))
          (stage_artifact fs paths request.final_path request.bytes before).1).0
      ≡ true
  pub replaced :
      contents after.storage request.final_path
      ≡ contents
          (stage_artifact fs paths request.final_path request.bytes before).1
          (temporary_artifact_path paths request.final_path)
  pub exact :
      (contents after.storage request.final_path ≡ some request.bytes)
      ⊎ ((closing fs paths request.final_path request.bytes before).0 ≡ false)

-- The two ends of a publication.
abbrev pub IsStored :
    {S : Type 0}
    → FileSystem S
    → PathOperations
    → ArtifactValidator S
    → (S → Bytes → Option Bytes)
    → ArtifactPublicationRequest
    → S
    → Publication S
    → Type 0
IsStored fs paths validator contents request before after =
    ((after.result.error ≢ ArtifactPublicationError.no_error)
      × (after.result.artifact ≡ none)
      × (contents after.storage request.final_path ≡ contents before request.final_path))
    ⊎ ((after.result.error ≡ ArtifactPublicationError.no_error)
        × (after.result.artifact ≢ none)
        × IsInstalled fs paths validator contents request before after)

module _ {S : Type 0} (fs : FileSystem S) (paths : PathOperations) (validator : ArtifactValidator S)
    (contents : S → Bytes → Option Bytes) (request : ArtifactPublicationRequest) where
  published-IsInstalled :
      (s : S) (after : Publication S)
      → IsFileSystem fs contents
      → IsPublished (windows_store fs paths) validator contents request s after
      → IsInstalled fs paths validator contents request s after
  published-IsInstalled s after laws done =
      let staged =
        stage_artifact-staged fs paths contents laws request.final_path request.bytes s done.image
          done.named in
      record {
        validated =
            subst
              (λ p.
                is_valid request.target.image_kind
                  (validator.validate (validation_request request p)
                    (stage_artifact fs paths request.final_path request.bytes s).1).0
                ≡ true)
              (sym staged.0) done.validated;
        replaced =
            done.replaced
            ∙ ap (contents (stage_artifact fs paths request.final_path request.bytes s).1)
                (sym staged.0);
        exact = elim staged.1 [
          | inl full ↦ inl (done.replaced ∙ full)
          | inr unflushed ↦ inr unflushed
        ];
      }

  -- On a file system that keeps its promises, for an ordinary final path, and with validations that leave the file there
  -- and the temporary file alone: publishing with the store on Windows reports an error, without an artifact, and
  -- leaves the file at the final path as it was; or it reports an artifact, after the temporary file has been found
  -- valid, and that file is at the final path afterwards, with exactly the requested bytes unless the
  -- close of its stream has failed.
  pub publish-IsStored :
      (s : S)
      → IsFileSystem fs contents
      → IsOrdinary paths request.final_path
      → IsQuiet validator contents request.final_path
      → IsQuiet validator contents (temporary_artifact_path paths request.final_path)
      → IsStored fs paths validator contents request s
          (publish (windows_store fs paths) validator request s)
  publish-IsStored s laws ordinary quiet still =
      let after = publish (windows_store fs paths) validator request s in
      elim (publish-IsSettled (windows_store fs paths) validator contents request
        (windows_store-IsStore fs paths contents laws request.final_path ordinary) quiet s
        (λ path named.
          subst (IsQuiet validator contents)
            (stage_artifact-staged fs paths contents laws request.final_path request.bytes s path
              named).0
            still)) [
              | inl failed ↦ inl failed
              | inr (good, present, done) ↦
                  inr (good, present, published-IsInstalled s after laws done)
            ]
