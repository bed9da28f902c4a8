-- ===== src/Pe/Plan/Bases.antt =====
-- The bases of a PE execution plan.
use upx_killer.Common.{
  ℕ, ◌≡◌, ◌≢◌, ◌⊎◌, refl, arith, true, false, none, some, List, [], ◌∷◌, All, length, if◌then◌else◌,
  Bool-cases, inl, inr,
}
use upx_killer.Pe.Format.{PeFormat, PeImageKind, PeImageLayout}
use upx_killer.Pe.Capabilities.{PeBackendCapabilities, supports}
use upx_killer.Pe.Plan.{
  PeExecutionPlan, holds_base, add_base, add_bases, fill_distinct_bases, canonical_base,
  capture_bases_of, fixed_plan, moving_plan, create,
}

abbrev pub IsDistinct : List ℕ → Type 0
IsDistinct [] = Unit
IsDistinct (b ∷ bs) = All (λ c. b ≢ c) bs × IsDistinct bs

-- Three bases that differ in pairs, none of them zero: what the reconstruction of relocations asks of
-- its snapshots.
pub record AreBases (bases : List ℕ) : Type 0 where
  pub three : length bases ≡ 3
  pub distinct : IsDistinct bases
  pub mapped : All (λ b. b ≢ 0) bases

capture_bases_of-AreBases :
    (format : PeFormat) (kind : PeImageKind) (output_base : ℕ)
    → output_base ≢ 0
    → AreBases (capture_bases_of format kind output_base)
unfolding capture_bases_of fill_distinct_bases add_bases add_base holds_base
capture_bases_of-AreBases PeFormat.pe32 PeImageKind.dynamic_library output_base h = record {
  three = refl;
  distinct = ground arith;
  mapped = ground arith;
}
capture_bases_of-AreBases PeFormat.pe32 PeImageKind.executable output_base h = record {
  three = ground arith;
  distinct = ground arith;
  mapped = ground arith;
}
capture_bases_of-AreBases PeFormat.pe64 kind output_base h = record {
  three = ground arith;
  distinct = ground arith;
  mapped = ground arith;
}

-- What a plan promises: with relocations to rebuild, three usable bases to capture the image at; and
-- otherwise the preferred base alone. The output moves only when the relocations are rebuilt, and is
-- spread over the high addresses only when it moves and is a 64-bit image.
pub record IsPlan (image : PeImageLayout) (plan : PeExecutionPlan) : Type 0 where
  pub rebuilds : plan.rebuild_relocations ≡ image.source_load_policy.has_relocations
  pub moving : plan.rebuild_relocations ≡ true → AreBases plan.capture_bases
  pub fixed :
      plan.rebuild_relocations ≡ false
      → (plan.capture_bases ≡ image.preferred_image_base ∷ [])
        × (plan.validation_base ≡ image.preferred_image_base)
  pub output : plan.enable_dynamic_base ≡ false → plan.output_base ≡ image.preferred_image_base
  pub dynamic : plan.enable_dynamic_base ≡ true → plan.rebuild_relocations ≡ true
  pub spread :
      plan.enable_high_entropy_va ≡ true
      → (plan.enable_dynamic_base ≡ true) × (image.format ≡ PeFormat.pe64)

moving-AreBases :
    (image : PeImageLayout)
    → image.preferred_image_base ≢ 0
    → AreBases (moving_plan image).capture_bases
unfolding moving_plan
moving-AreBases image h =
    capture_bases_of-AreBases image.format image.image_kind
      (if image.source_load_policy.dynamic_base
        then canonical_base image.format
        else image.preferred_image_base)
      (ground arith)

moving_plan-IsPlan :
    (image : PeImageLayout)
    → image.preferred_image_base ≢ 0
    → image.source_load_policy.has_relocations ≡ true
    → IsPlan image (moving_plan image)
unfolding moving_plan
moving_plan-IsPlan image h r = record {
  rebuilds = ground arith;
  moving = λ _. moving-AreBases image h;
  fixed = λ e. absurd (ground arith);
  output = λ e. ground arith;
  dynamic = λ e. refl;
  spread = λ e. ground arith;
}

fixed_plan-IsPlan :
    (image : PeImageLayout)
    → image.source_load_policy.has_relocations ≡ false
    → IsPlan image (fixed_plan image)
unfolding fixed_plan
fixed_plan-IsPlan image r = record {
  rebuilds = ground arith;
  moving = λ e. absurd (ground arith);
  fixed = λ _. (refl, refl);
  output = λ _. refl;
  dynamic = λ e. absurd (ground arith);
  spread = λ e. absurd (ground arith);
}

-- An image with a preferred base that is not zero gets a plan exactly when the backend supports it, so
-- the check for three bases never refuses one. The plan of an image with relocations rebuilds them and
-- has three distinct capture bases that are not zero; without relocations its only base is the
-- preferred one. The output leaves the preferred base only when the dynamic base is enabled, that only
-- when relocations are rebuilt, and high entropy only for a 64-bit image with a dynamic base.
pub create-IsPlan :
    (image : PeImageLayout) (capabilities : PeBackendCapabilities)
    → image.preferred_image_base ≢ 0
    → ((supports capabilities image ≡ false) × (create image capabilities ≡ none))
      ⊎ ((supports capabilities image ≡ true)
          × ((plan : PeExecutionPlan) × (create image capabilities ≡ some plan)
              × IsPlan image plan))
unfolding create
create-IsPlan image capabilities h = elim (Bool-cases (supports capabilities image)) [
  | inr no_support ↦ inl (no_support, ground arith)
  | inl support ↦ elim (Bool-cases image.source_load_policy.has_relocations) [
    | inl has ↦ inr (
      support,
      (
        moving_plan image,
        ground (arith, (moving-AreBases image h).three),
        moving_plan-IsPlan image h has,
      ),
    )
    | inr without ↦ inr (support, (fixed_plan image, ground arith, fixed_plan-IsPlan image without))
  ]
]
