-- ===== src/Publication/Promises.antt =====
-- What the store on Windows does to the files, for calls that keep their promises.
use upx_killer.Common.{
  ℕ, ◌≡◌, ◌≢◌, ◌⊎◌, refl, ap, subst, ◌∙◌, sym, arith, Bool, true, false, ◌||◌, Option, none, some,
  ◌++◌, Bytes, codes, length, length-append, ◌!=◌, Bool-cases, Option-cases, inl, inr,
}
use upx_killer.Publication.Windows.{
  PathOperations, FileSystem, temporary_artifact_path, is_blank, written, closed, write_artifact,
  stage_artifact, promote_artifact, windows_store,
}
use upx_killer.Publication.Storage.{IsStore}

-- What the calls do to the files, where different paths are different files: directories are no files, a stream and
-- `remove` touch the one file only; a stream that is good behind each of its calls has written its
-- bytes; and a move replaces the file, or fails with an error and leaves it.
pub record IsFileSystem {S : Type 0} (fs : FileSystem S) (contents : S → Bytes → Option Bytes)
    : Type 0 where
  pub create_keeps :
      (directory path : Bytes) (s : S)
      → contents (fs.create_directories directory s).1 path ≡ contents s path
  pub open_keeps :
      (path other : Bytes) (s : S)
      → path ≢ other
      → contents (fs.open_stream path s).1 other ≡ contents s other
  pub write_keeps :
      (path other bytes : Bytes) (s : S)
      → path ≢ other
      → contents (fs.write_stream path bytes s).1 other ≡ contents s other
  pub close_keeps :
      (path other : Bytes) (s : S)
      → path ≢ other
      → contents (fs.close_stream path s).1 other ≡ contents s other
  pub remove_keeps :
      (path other : Bytes) (s : S)
      → path ≢ other
      → contents (fs.remove path s) other ≡ contents s other
  pub flushed :
      (path bytes : Bytes) (s : S)
      → (fs.open_stream path s).0 ≡ true
      → (fs.write_stream path bytes (fs.open_stream path s).1).0 ≡ true
      → (fs.close_stream path (fs.write_stream path bytes (fs.open_stream path s).1).1).0 ≡ true
      → contents
          (fs.close_stream path (fs.write_stream path bytes (fs.open_stream path s).1).1).1
          path
        ≡ some bytes
  pub moved :
      (path final : Bytes) (s : S)
      → (fs.move_file path final s).0 ≡ none
      → contents (fs.move_file path final s).1 final ≡ contents s path
  pub unmoved :
      (path final : Bytes) (s : S) (error : ℕ)
      → (fs.move_file path final s).0 ≡ some error
      → (error ≢ 0) × (contents (fs.move_file path final s).1 final ≡ contents s final)

-- A path whose last name is its stem and its extension, and beside which a file with a part between the two can be named.
pub record IsOrdinary (paths : PathOperations) (path : Bytes) : Type 0 where
  pub parts : paths.filename path ≡ paths.stem path ++ paths.extension path
  pub beside :
      paths.filename (
        paths.join
          (paths.parent_path path)
          (paths.stem path ++ (codes ".publishing" ++ paths.extension path)))
      ≡ paths.stem path ++ (codes ".publishing" ++ paths.extension path)

-- The temporary file is another one: its name is longer.
pub temporary-ne :
    (paths : PathOperations) (final : Bytes)
    → IsOrdinary paths final
    → temporary_artifact_path paths final ≢ final
temporary-ne paths final ordinary e =
    let a = paths.stem final in
    let b = paths.extension final in
    let same : a ++ (codes ".publishing" ++ b) ≡ a ++ b =
      sym ordinary.beside ∙ ap paths.filename e ∙ ordinary.parts in
    let sizes = ap length same in
    omega (
      arith,
      sizes,
      length-append a b,
      length-append a (codes ".publishing" ++ b),
      length-append (codes ".publishing") b,
    )

-- The close of the stream of the temporary file, when an artifact is staged.
abbrev pub closing : {S : Type 0} → FileSystem S → PathOperations → Bytes → Bytes → S → Bool × S
closing fs paths final bytes s =
    closed fs paths (temporary_artifact_path paths final) bytes
      (fs.create_directories (paths.parent_path final) s).1

module _ {S : Type 0} (fs : FileSystem S) (paths : PathOperations)
    (contents : S → Bytes → Option Bytes) (laws : IsFileSystem fs contents) where
  closed-keeps :
      (path other bytes : Bytes) (s : S)
      → path ≢ other
      → contents (closed fs paths path bytes s).1 other ≡ contents s other
  closed-keeps path other bytes s n =
      laws.close_keeps path other _ n
      ∙ laws.write_keeps path other bytes _ n
      ∙ laws.open_keeps path other s n

  write_artifact-keeps :
      (path other bytes : Bytes) (s : S)
      → path ≢ other
      → contents (write_artifact fs paths path bytes s).1 other ≡ contents s other
  unfolding write_artifact
  write_artifact-keeps path other bytes s n = elim (Bool-cases (fs.open_stream path s).0) [
    | inr bad ↦ rw (bad, write_artifact) (laws.open_keeps path other s n)
    | inl good ↦ elim (Bool-cases (written fs paths path bytes s).0) [
      | inr bad ↦
          rw (good, bad, write_artifact)
            (laws.remove_keeps path other _ n ∙ closed-keeps path other bytes s n)
      | inl full ↦ rw (good, full, write_artifact) (closed-keeps path other bytes s n)
    ]
  ]

  stage_artifact-keeps :
      (final bytes : Bytes) (s : S)
      → temporary_artifact_path paths final ≢ final
      → contents (stage_artifact fs paths final bytes s).1 final ≡ contents s final
  unfolding stage_artifact
  stage_artifact-keeps final bytes s n =
      let created = fs.create_directories (paths.parent_path final) s in
      let same = laws.create_keeps (paths.parent_path final) final s in
      elim (Bool-cases (is_blank final || is_blank bytes)) [
        | inl bad ↦ rw (bad, stage_artifact) refl
        | inr good ↦ elim (Bool-cases (created.0 != 0)) [
          | inl failed ↦ rw (good, failed, stage_artifact) same
          | inr ready ↦
              rw (good, ready, stage_artifact)
                (write_artifact-keeps (temporary_artifact_path paths final) final bytes created.1 n
                  ∙ same)
        ]
      ]

  write_artifact-staged :
      (path bytes : Bytes) (s : S) (image : Bytes)
      → (write_artifact fs paths path bytes s).0.temporary_path ≡ some image
      → (path ≡ image)
        × ((contents (write_artifact fs paths path bytes s).1 image ≡ some bytes)
            ⊎ ((closed fs paths path bytes s).0 ≡ false))
  unfolding write_artifact
  write_artifact-staged path bytes s image e = elim (Bool-cases (fs.open_stream path s).0) [
    | inr bad ↦ absurd (ground (arith, bad))
    | inl good ↦ elim (Bool-cases (written fs paths path bytes s).0) [
      | inr bad ↦ absurd (ground (arith, good, bad))
      | inl full ↦
          let same : path ≡ image = ground (arith, good, full) in
          elim (Bool-cases (closed fs paths path bytes s).0) [
            | inr bad ↦ (same, inr bad)
            | inl done ↦ (
              same,
              inl (
                  rw (good, full, write_artifact)
                    (subst (λ p. contents (closed fs paths path bytes s).1 p ≡ some bytes) same
                      (laws.flushed path bytes s good full done))),
            )
          ]
    ]
  ]

  -- A staged file is the temporary one, and holds the bytes unless the stream has failed to close.
  pub stage_artifact-staged :
      (final bytes : Bytes) (s : S) (image : Bytes)
      → (stage_artifact fs paths final bytes s).0.temporary_path ≡ some image
      → (temporary_artifact_path paths final ≡ image)
        × ((contents (stage_artifact fs paths final bytes s).1 image ≡ some bytes)
            ⊎ ((closing fs paths final bytes s).0 ≡ false))
  unfolding stage_artifact
  stage_artifact-staged final bytes s image e =
      let created = fs.create_directories (paths.parent_path final) s in
      elim (Bool-cases (is_blank final || is_blank bytes)) [
        | inl bad ↦ absurd (ground (arith, bad))
        | inr good ↦ elim (Bool-cases (created.0 != 0)) [
          | inl failed ↦ absurd (ground (arith, good, failed))
          | inr ready ↦
              rw (good, ready, stage_artifact)
                (write_artifact-staged (temporary_artifact_path paths final) bytes created.1 image
                  (rw (good, ready, stage_artifact) at e))
        ]
      ]

  -- The store on Windows keeps the promises of a store.
  pub windows_store-IsStore :
      (final : Bytes) → IsOrdinary paths final → IsStore (windows_store fs paths) contents final
  unfolding promote_artifact
  windows_store-IsStore final ordinary =
      let n = temporary-ne paths final ordinary in
      record {
        staged = λ bytes s path e h. n ((stage_artifact-staged final bytes s path e).0 ∙ h);
        stage_keeps = λ bytes s. stage_artifact-keeps final bytes s n;
        promoted = λ path s e. elim (Option-cases (fs.move_file path final s).0) [
          | inl done ↦ rw (done, promote_artifact) (laws.moved path final s done)
          | inr (error, failed) ↦
              absurd
                ((laws.unmoved path final s error failed).0 (rw (failed, promote_artifact) at e))
        ];
        promote_keeps = λ path s e. elim (Option-cases (fs.move_file path final s).0) [
          | inl done ↦ absurd (e (rw (done, promote_artifact) refl))
          | inr (error, failed) ↦
              rw (failed, promote_artifact) (laws.unmoved path final s error failed).1
        ];
        remove_keeps = λ path s m. laws.remove_keeps path final s m;
      }
