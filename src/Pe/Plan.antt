-- ===== src/Pe/Plan.antt =====
-- upx-killer-engine/Application/PE/Preparation/PeExecutionPlanFactory.cpp.
pub mod Bases
use upx_killer.Common.{
  ℕ, Bool, true, false, ◌&&◌, ◌||◌, Option, none, some, List, [], ◌∷◌, ◌++◌, ◌==◌, length,
  if◌then◌else◌,
}
use upx_killer.Pe.Format.{PeFormat, PeImageKind, PeImageLayout}
use upx_killer.Pe.Capabilities.{PeBackendCapabilities, supports}

-- The array of bases with its count is the list of the bases in use: those behind `captureCount` are
-- zero and are not read.
pub record PeExecutionPlan : Type 0 where
  pub capture_bases : List ℕ
  pub output_base : ℕ
  pub validation_base : ℕ
  pub rebuild_relocations : Bool
  pub enable_dynamic_base : Bool
  pub enable_high_entropy_va : Bool

unfoldable pub holds_base : ℕ → List ℕ → Bool
holds_base candidate [] = false
holds_base candidate (b ∷ bs) = b == candidate || holds_base candidate bs

-- One round of the loop over the candidates, when there is room.
unfoldable pub add_base : ℕ → ℕ → List ℕ → List ℕ
add_base output_base candidate bases =
    if candidate == 0 || candidate == output_base
    then bases
    else if holds_base candidate bases
    then bases
    else bases ++ (candidate ∷ [])

unfoldable pub add_bases : ℕ → List ℕ → List ℕ → List ℕ
add_bases output_base [] bases = bases
add_bases output_base (candidate ∷ candidates) bases =
    if length bases == 3
    then bases
    else add_bases output_base candidates (add_base output_base candidate bases)

unfoldable pub fill_distinct_bases : ℕ → List ℕ → List ℕ
fill_distinct_bases output_base candidates = add_bases output_base candidates (output_base ∷ [])

abbrev is_pe64 : PeFormat → Bool
is_pe64 PeFormat.pe32 = false
is_pe64 PeFormat.pe64 = true

abbrev pub canonical_base : PeFormat → ℕ
canonical_base PeFormat.pe32 = 0x400000
canonical_base PeFormat.pe64 = 0x140000000

unfoldable pub capture_bases_of : PeFormat → PeImageKind → ℕ → List ℕ
capture_bases_of PeFormat.pe32 PeImageKind.dynamic_library output_base =
    0x10000000 ∷ 0x20000000 ∷ 0x28000000 ∷ []
capture_bases_of PeFormat.pe32 PeImageKind.executable output_base =
    fill_distinct_bases output_base (0x400000 ∷ 0x10000000 ∷ 0x20000000 ∷ 0x28000000 ∷ [])
capture_bases_of PeFormat.pe64 kind output_base =
    fill_distinct_bases output_base (0x140000000 ∷ 0x180000000 ∷ 0x1c0000000 ∷ 0x200000000 ∷ [])

abbrev validation_base_of : PeFormat → ℕ
validation_base_of PeFormat.pe32 = 0x30000000
validation_base_of PeFormat.pe64 = 0x240000000

-- The plan of an image whose relocations are kept out.
unfoldable pub fixed_plan : PeImageLayout → PeExecutionPlan
fixed_plan image = record {
  capture_bases = image.preferred_image_base ∷ [];
  output_base = image.preferred_image_base;
  validation_base = image.preferred_image_base;
  rebuild_relocations = false;
  enable_dynamic_base = false;
  enable_high_entropy_va = false;
}

-- The plan of an image whose relocations are rebuilt.
unfoldable pub moving_plan : PeImageLayout → PeExecutionPlan
moving_plan image =
    let dynamic = image.source_load_policy.dynamic_base in
    let output_base = if dynamic then canonical_base image.format else image.preferred_image_base in
    record {
      capture_bases = capture_bases_of image.format image.image_kind output_base;
      output_base = output_base;
      validation_base = validation_base_of image.format;
      rebuild_relocations = true;
      enable_dynamic_base = dynamic;
      enable_high_entropy_va =
          dynamic && is_pe64 image.format && image.source_load_policy.high_entropy_va;
    }

unfoldable pub create : PeImageLayout → PeBackendCapabilities → Option PeExecutionPlan
create image capabilities =
    let moving = moving_plan image in
    if supports capabilities image
    then (if image.source_load_policy.has_relocations
        then (if length moving.capture_bases == 3 then some moving else none)
        else some (fixed_plan image))
    else none
