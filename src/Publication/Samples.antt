-- ===== src/Publication/Samples.antt =====
-- A system of files in memory, and publications into it.
use upx_killer.Common.{
  ℕ, ◌+◌, ◌≡◌, ◌≢◌, refl, sym, ap₂, arith, Bool, true, false, ◌&&◌, Option, none, some, [], ◌∷◌,
  Bytes, append-nil, ◌==◌, if◌then◌else◌, Bool-cases, inl, inr,
}
use upx_killer.Contracts.Targets.{
  BinaryFamily, BinaryClass, CpuArchitecture, ImageKind, ImageAddressing,
}
use upx_killer.Contracts.Jobs.{ArtifactQuality}
use upx_killer.Publication.{ArtifactPublicationRequest, ArtifactValidator}
use upx_killer.Publication.Windows.{PathOperations, FileSystem}
use upx_killer.Publication.Promises.{IsFileSystem, IsOrdinary}

-- The files by their paths, and how many images have been run.
pub record System : Type 0 where
  pub files : Bytes → Option Bytes
  pub runs : ℕ

abbrev pub contents : System → Bytes → Option Bytes
contents system path = system.files path

abbrev same : Bytes → Bytes → Bool
same [] [] = true
same (x ∷ xs) (y ∷ ys) = x == y && same xs ys
same _ _ = false

same_inversion : (p q : Bytes) → same p q ≡ true → p ≡ q
same_inversion [] [] e = refl
same_inversion (x ∷ xs) (y ∷ ys) e =
    let first : x ≡ y = ground arith in
    ap₂ (λ a b. a ∷ b) first (same_inversion xs ys (ground arith))
same_inversion [] (y ∷ ys) e = absurd (ground arith)
same_inversion (x ∷ xs) [] e = absurd (ground arith)

same_refl : (p : Bytes) → same p p ≡ true
same_refl [] = refl
same_refl (x ∷ xs) = ground (arith, same_refl xs)

abbrev put : Bytes → Option Bytes → System → System
put path file system = record system {
  files = λ other. if same path other then file else system.files other;
}

put-same :
    (path : Bytes) (file : Option Bytes) (s : System) → contents (put path file s) path ≡ file
put-same path file s = rw (same_refl path) refl

put-other :
    (path other : Bytes) (file : Option Bytes) (s : System)
    → path ≢ other
    → contents (put path file s) other ≡ contents s other
put-other path other file s n = elim (Bool-cases (same path other)) [
  | inl equal ↦ absurd (n (same_inversion path other equal))
  | inr differs ↦ rw (differs) refl
]

-- The move of a file; one that is not there is error 2.
abbrev place : Option Bytes → Bytes → Bytes → System → Option ℕ × System
place none path final s = (some 2, s)
place (some file) path final s = (none, put final (some file) (put path none s))

-- Nothing but the move can fail.
abbrev pub fs : FileSystem System
fs = record {
  create_directories = λ path s. (0, s);
  open_stream = λ path s. (true, put path (some []) s);
  write_stream = λ path bytes s. (true, put path (some bytes) s);
  close_stream = λ path s. (true, s);
  remove = λ path s. put path none s;
  move_file = λ path final s. place (s.files path) path final s;
}

place-moved :
    (file : Option Bytes) (path final : Bytes) (s : System)
    → (place file path final s).0 ≡ none
    → contents (place file path final s).1 final ≡ file
place-moved none path final s e = absurd (ground arith)
place-moved (some file) path final s e = put-same final (some file) (put path none s)

place-unmoved :
    (file : Option Bytes) (path final : Bytes) (s : System) (error : ℕ)
    → (place file path final s).0 ≡ some error
    → (error ≢ 0) × (contents (place file path final s).1 final ≡ contents s final)
place-unmoved none path final s error e = (ground arith, refl)
place-unmoved (some file) path final s error e = absurd (ground arith)

pub fs-IsFileSystem : IsFileSystem fs contents
fs-IsFileSystem = record {
  create_keeps = λ directory path s. refl;
  open_keeps = λ path other s n. put-other path other (some []) s n;
  write_keeps = λ path other bytes s n. put-other path other (some bytes) s n;
  close_keeps = λ path other s n. refl;
  remove_keeps = λ path other s n. put-other path other none s n;
  flushed = λ path bytes s _ _ _. put-same path (some bytes) (put path (some []) s);
  moved = λ path final s. place-moved (s.files path) path final s;
  unmoved = λ path final s. place-unmoved (s.files path) path final s;
}

-- Paths in one directory, without extensions.
abbrev pub paths : PathOperations
paths = record {
  parent_path = λ path. [];
  filename = λ path. path;
  stem = λ path. path;
  extension = λ path. [];
  join = λ parent name. name;
}

pub paths-IsOrdinary : (path : Bytes) → IsOrdinary paths path
paths-IsOrdinary path = record { parts = sym (append-nil path); beside = refl }

-- A validator that runs the image without a fault.
abbrev pub validator : ArtifactValidator System
validator = record {
  validate = λ request s. (
    record {
      loader_mappable = true;
      exports_valid = true;
      completed = true;
      timed_out = false;
      exit_code = 0;
      native_error = 0;
    },
    record s { runs = s.runs + 1 },
  );
}

-- One file, at the final path of the request.
abbrev pub system : System
system = record { files = λ path. if same path (111 ∷ []) then some (1 ∷ []) else none; runs = 0 }

abbrev pub request : ArtifactPublicationRequest
request = record {
  final_path = 111 ∷ [];
  bytes = 77 ∷ 90 ∷ [];
  target = record {
    family = BinaryFamily.pe;
    image_class = BinaryClass.bits64;
    architecture = CpuArchitecture.x64;
    image_kind = ImageKind.executable;
    addressing = ImageAddressing.platform_default;
  };
  dependency_directory = [];
  validation_timeout_milliseconds = 3000;
  quality = ArtifactQuality.complete;
  warnings = [];
  retain_failed_output = false;
}
