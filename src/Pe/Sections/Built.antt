-- ===== src/Pe/Sections/Built.antt =====
-- The sections that `Build` returns: their number, their order and what they cover.
use mathlib.Core.List.{reverse, reverse-cons}
use upx_killer.Common.{
  ℕ, ◌≤◌, ◌≡◌, refl, ap, subst, sym, ◌∙◌, arith, Bool, true, false, ◌||◌, List, [], ◌∷◌, length,
  length-append,
}
use upx_killer.Common.Results.{
  ok, step_inversion, reject_if_inversion, or_reject_inversion, ok-injective,
}
use upx_killer.Pe.Format.{PeSection, PeImageLayout}
use upx_killer.Pe.Directories.{WindowsDirectories}
use upx_killer.Pe.Headers.{WindowsHeaders}
use upx_killer.Pe.Parser.{is_power_of_two}
use upx_killer.Pe.Parser.Sections.{IsAscending}
use upx_killer.Pe.Sections.{SectionRole, AddressRange, SectionLayoutInput, SectionLayoutPlan}
use upx_killer.Pe.Sections.Ranges.{Evidence, add_regions, discover_code_ranges, discover_iat_ranges}
use upx_killer.Pe.Sections.Layout.{
  PlannedRange, classify, add_sections, no_counts, name_sections, is_bad_input, plan_ranges, build,
}
use upx_killer.Pe.Sections.Pages.{in_range, covers}
use upx_killer.Pe.Sections.Tiles.{source_covers, IsTiled, add_sections-IsTiled}
use upx_killer.Pe.Sections.Order.{
  reverse-AscendsTo, covers-reverse, AreInOrder, built_covers, length-name_sections,
  name_sections-AreInOrder, built_covers-name_sections,
}

or_none : (b : Bool) (x : ℕ) → (b || covers [] x) ≡ b
unfolding covers
or_none b x = ground arith

length-reverse : (ranges : List PlannedRange) → length (reverse ranges) ≡ length ranges
length-reverse [] = refl
length-reverse (planned ∷ ranges) =
    rw (reverse-cons planned ranges)
      (omega (arith, length-append (reverse ranges) (planned ∷ []), length-reverse ranges))

-- What a plan of ranges has come from.
pub record IsPlanned (h : WindowsHeaders) (d : WindowsDirectories) (source : PeImageLayout)
    (input : SectionLayoutInput) (planned : Evidence × List PlannedRange) : Type 0 where
  pub good : is_bad_input source input ≡ false
  pub found : Evidence
  pub placed : add_regions source.size_of_image input.memory_regions found ≡ ok planned.0
  pub added : add_sections d source planned.0 source.sections [] ≡ ok planned.1

pub is_aligned :
    (source : PeImageLayout) (input : SectionLayoutInput)
    → is_bad_input source input ≡ false
    → 1 ≤ source.section_alignment
unfolding is_bad_input is_power_of_two
is_aligned source input good = ground arith

module _ (h : WindowsHeaders) (d : WindowsDirectories) (source : PeImageLayout)
    (input : SectionLayoutInput) where
  pub plan_ranges-IsPlanned :
      (planned : Evidence × List PlannedRange)
      → plan_ranges h d source input ≡ ok planned
      → IsPlanned h d source input planned
  unfolding plan_ranges
  plan_ranges-IsPlanned planned e = reject_if_inversion _ _ _ planned e λ good e1.
      step_inversion (discover_code_ranges h d source input) _ planned e1 λ found _ e2.
        or_reject_inversion (discover_iat_ranges source input.imports) _ _ planned e2
          λ imports _ e3.
            let start = record found { import_addresses = imports } in
            step_inversion (add_regions source.size_of_image input.memory_regions start) _ planned
              e3
              λ evidence placed e4.
                step_inversion (add_sections d source evidence source.sections []) _ planned e4
                  λ ranges added e5.
                    subst (IsPlanned h d source input) (ok-injective _ planned e5)
                      (record { good = good; found = start; placed = placed; added = added })

  -- What a plan of sections has come from.
  pub record IsFrom (plan : SectionLayoutPlan) : Type 0 where
    pub planned : Evidence × List PlannedRange
    pub is_planned : IsPlanned h d source input planned
    pub some_range : 1 ≤ length planned.1
    pub few_ranges : length planned.1 ≤ 95
    pub sections_eq : plan.sections ≡ name_sections d no_counts (reverse planned.1)

  pub build-IsFrom : (plan : SectionLayoutPlan) → build h d source input ≡ ok plan → IsFrom plan
  unfolding build
  build-IsFrom plan e = step_inversion (plan_ranges h d source input) _ plan e λ planned p e1.
      reject_if_inversion _ _ _ plan e1 λ full e2. reject_if_inversion _ _ _ plan e2 λ few e3.
        record {
          planned = planned;
          is_planned = plan_ranges-IsPlanned planned p;
          some_range = ground arith;
          few_ranges = ground arith;
          sections_eq = ap (λ (p : SectionLayoutPlan). p.sections) (sym (ok-injective _ plan e3));
        }

  pub plan-IsTiled :
      (P : ℕ → SectionRole → Type 0) (planned : Evidence × List PlannedRange)
      → ((section : PeSection) (page : AddressRange) (x : ℕ)
          → in_range page x ≡ true
          → P x (classify d source planned.0 section page))
      → IsAscending 0 source.sections
      → IsPlanned h d source input planned
      → IsTiled P source source.sections [] planned.1
  plan-IsTiled P planned good ascending p =
      add_sections-IsTiled P d source planned.0 (is_aligned source input p.good) good
        source.sections [] planned.1 0 0 (omega arith) (omega arith) ascending tt tt p.added

  pub record IsBuilt (plan : SectionLayoutPlan) : Type 0 where
    pub count_low : 1 ≤ length plan.sections
    pub count_high : length plan.sections ≤ 95
    pub in_order : AreInOrder 0 plan.sections source.size_of_image
    pub covered : (x : ℕ) → built_covers plan.sections x ≡ source_covers source source.sections x

  -- For a source whose sections ascend and do not overlap, the sections that are built are 1 to 95, not
  -- empty, in ascending order, without overlap and inside the image, and an address lies in one of
  -- them exactly where it lies in a section of the source, cut off at the end of the image.
  pub build-IsBuilt :
      (plan : SectionLayoutPlan)
      → IsAscending 0 source.sections
      → build h d source input ≡ ok plan
      → IsBuilt plan
  build-IsBuilt plan ascending e =
      let from = build-IsFrom plan e in
      let ranges = from.planned.1 in
      let tiled =
        plan-IsTiled (λ _ _. Unit {0}) from.planned (λ _ _ _ _. tt) ascending from.is_planned in
      let order = reverse-AscendsTo source.size_of_image ranges tiled.descends in
      let count = length-reverse ranges in
      let size = length-name_sections d no_counts (reverse ranges) in
      let kept : IsBuilt (record plan { sections = name_sections d no_counts (reverse ranges) }) =
        record {
          count_low = omega (arith, count, size, from.some_range);
          count_high = omega (arith, count, size, from.few_ranges);
          in_order =
              name_sections-AreInOrder d no_counts 0 source.size_of_image (reverse ranges) order;
          covered = λ x.
              built_covers-name_sections d no_counts 0 source.size_of_image (reverse ranges) x order
              ∙ (covers-reverse ranges x
                  ∙ (tiled.covered x ∙ or_none (source_covers source source.sections x) x));
        } in
      subst (λ sections. IsBuilt (record plan { sections = sections })) (sym from.sections_eq) kept
