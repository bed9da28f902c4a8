-- ===== src/Publication/Windows.antt =====
-- upx-killer-engine/Infrastructure/Windows/Storage/WindowsArtifactStore.cpp. The calls of Windows and of the standard
-- library are an interface on the state `S` of the system, without exceptions, so the handler behind
-- `catch (...)` is not reached.
use upx_killer.Common.{
  ℕ, Bool, true, false, not, ◌||◌, Option, none, some, [], ◌∷◌, ◌++◌, Bytes, codes, ◌!=◌,
  if◌then◌else◌,
}
use upx_killer.Publication.{ArtifactStageResult, ArtifactStore}

-- `std::filesystem::path`
pub record PathOperations : Type 0 where
  pub parent_path : Bytes → Bytes
  pub filename : Bytes → Bytes
  pub stem : Bytes → Bytes
  pub extension : Bytes → Bytes
  pub join : Bytes → Bytes → Bytes

-- `create_directories` gives the value of the error code, 0 for none; `open_stream`, `write_stream` and `close_stream` of an
-- `ofstream` give whether it is good behind the call; `move_file` is `MoveFileExW`, and gives what
-- `GetLastError` is if it fails.
pub record FileSystem (S : Type 0) : Type 0 where
  pub create_directories : Bytes → S → ℕ × S
  pub open_stream : Bytes → S → Bool × S
  pub write_stream : Bytes → Bytes → S → Bool × S
  pub close_stream : Bytes → S → Bool × S
  pub remove : Bytes → S → S
  pub move_file : Bytes → Bytes → S → Option ℕ × S

abbrev pub invalid_parameter : ℕ
invalid_parameter = 87

abbrev pub write_fault : ℕ
write_fault = 29

abbrev pub publishing_name : PathOperations → Bytes → Bytes
publishing_name paths final = paths.stem final ++ (codes ".publishing" ++ paths.extension final)

-- `TemporaryArtifactPath`
abbrev pub temporary_artifact_path : PathOperations → Bytes → Bytes
temporary_artifact_path paths final =
    paths.join (paths.parent_path final) (publishing_name paths final)

abbrev pub not_staged : ℕ → ArtifactStageResult
not_staged error = record { temporary_path = none; native_error = error }

-- `empty()`
abbrev pub is_blank : Bytes → Bool
is_blank [] = true
is_blank (b ∷ bytes) = false

module _ {S : Type 0} (fs : FileSystem S) (paths : PathOperations) where
  -- The stream behind the write, and behind the close that follows it in either branch.
  abbrev pub written : Bytes → Bytes → S → Bool × S
  written path bytes s = fs.write_stream path bytes (fs.open_stream path s).1

  abbrev pub closed : Bytes → Bytes → S → Bool × S
  closed path bytes s = fs.close_stream path (written path bytes s).1

  -- From the opening of the stream on; whether the close has succeeded is not looked at.
  unfoldable pub write_artifact : Bytes → Bytes → S → ArtifactStageResult × S
  write_artifact path bytes s =
      if not (fs.open_stream path s).0
      then (not_staged write_fault, (fs.open_stream path s).1)
      else if not (written path bytes s).0
      then (not_staged write_fault, fs.remove path (closed path bytes s).1)
      else (record { temporary_path = some path; native_error = 0 }, (closed path bytes s).1)

  -- `WindowsArtifactStore::Stage`
  unfoldable pub stage_artifact : Bytes → Bytes → S → ArtifactStageResult × S
  stage_artifact final bytes s =
      let created = fs.create_directories (paths.parent_path final) s in
      if is_blank final || is_blank bytes
      then (not_staged invalid_parameter, s)
      else if created.0 != 0
      then (not_staged created.0, created.1)
      else write_artifact (temporary_artifact_path paths final) bytes created.1

  -- `WindowsArtifactStore::Promote`
  unfoldable pub promote_artifact : Bytes → Bytes → S → ℕ × S
  promote_artifact path final s =
      let moved = fs.move_file path final s in
      elim moved.0 [ none ↦ (0, moved.1) | some error ↦ (error, moved.1) ]

  -- `WindowsArtifactStore`
  abbrev pub windows_store : ArtifactStore S
  windows_store = record { stage = stage_artifact; promote = promote_artifact; remove = fs.remove }
