-- ===== src/Publication/Tests.antt =====
-- A publication into a system of files.
use upx_killer.Common.{◌≡◌, refl, ◌∷◌, [], some}
use upx_killer.Publication.{is_completed, is_valid, promote_staged, publish_staged, publish}
use upx_killer.Publication.Windows.{windows_store, write_artifact, stage_artifact, promote_artifact}
use upx_killer.Publication.Samples.{
  contents, fs, fs-IsFileSystem, paths, paths-IsOrdinary, validator, system, request,
}
use upx_killer.Publication.Stored.{IsStored, publish-IsStored}

-- The artifact replaces the file that was there.
published :
    contents (publish (windows_store fs paths) validator request system).storage (111 ∷ [])
    ≡ some (77 ∷ 90 ∷ [])
unfolding publish publish_staged promote_staged is_valid is_completed stage_artifact write_artifact
    promote_artifact
published = refl

publish-IsStored_example :
    IsStored fs paths validator contents request system
      (publish (windows_store fs paths) validator request system)
publish-IsStored_example =
    publish-IsStored fs paths validator contents request system fs-IsFileSystem
      (paths-IsOrdinary request.final_path) (λ r s. refl) (λ r s. refl)
