-- ===== src/Pe/Sections/Tiles.antt =====
-- The pages of every section of the source in the planned ranges.
use upx_killer.Common.{
  ℕ, ◌+◌, ◌-◌, ◌≤◌, ◌≡◌, refl, subst, arith, Bool, true, false, ◌&&◌, ◌||◌, List, [], ◌∷◌, ltb, leb,
}
use upx_killer.Common.Results.{ok, step_inversion, reject_if_inversion, ok-injective}
use upx_killer.Pe.Format.{PeSection, PeImageLayout}
use upx_killer.Pe.Directories.{WindowsDirectories}
use upx_killer.Pe.Parser.{virtual_extent}
use upx_killer.Pe.Parser.Sections.{IsAscending}
use upx_killer.Pe.Sections.{SectionRole, AddressRange}
use upx_killer.Pe.Sections.Ranges.{Evidence}
use upx_killer.Pe.Sections.Layout.{
  PlannedRange, classify, add_pages, add_sections, section_end, is_bad_section,
}
use upx_killer.Pe.Sections.Pages.{
  in_range, covers, Descends, Descends-mono, Respects, add_pages-IsPaged,
}

-- Whether an address lies in a section of the source, cut off at the end of the image.
unfoldable pub source_covers : PeImageLayout → List PeSection → ℕ → Bool
source_covers source [] x = false
source_covers source (section ∷ sections) x =
    (leb section.virtual_address x && ltb x (section_end source section))
    || source_covers source sections x

-- What the loop over the sections has made of the ranges.
pub record IsTiled (P : ℕ → SectionRole → Type 0) (source : PeImageLayout)
    (sections : List PeSection) (ranges all : List PlannedRange) : Type 0 where
  pub covered : (x : ℕ) → covers all x ≡ (source_covers source sections x || covers ranges x)
  pub descends : Descends source.size_of_image all
  pub respects : Respects P all

module _ (P : ℕ → SectionRole → Type 0) (d : WindowsDirectories) (source : PeImageLayout)
    (evidence : Evidence) where
  pub add_sections-IsTiled :
      1 ≤ source.section_alignment
      → ((section : PeSection) (page : AddressRange) (x : ℕ)
          → in_range page x ≡ true
          → P x (classify d source evidence section page))
      → (sections : List PeSection) (ranges all : List PlannedRange) (bound previous_end : ℕ)
      → bound ≤ source.size_of_image
      → bound ≤ previous_end
      → IsAscending previous_end sections
      → Descends bound ranges
      → Respects P ranges
      → add_sections d source evidence sections ranges ≡ ok all
      → IsTiled P source sections ranges all
  unfolding add_sections is_bad_section source_covers
  add_sections-IsTiled moves good [] ranges all bound previous_end low before a s r e =
      subst (IsTiled P source [] ranges) (ok-injective ranges all e) (record {
        covered = λ x. refl;
        descends = Descends-mono {a = bound} {b = source.size_of_image} ranges low s;
        respects = r;
      })
  add_sections-IsTiled moves good (section ∷ sections) ranges all bound previous_end low before a s
        r e =
      let start = section.virtual_address in
      let end = section_end source section in
      let role_of = classify d source evidence section in
      reject_if_inversion _ _ _ all e λ fits e1.
        step_inversion (add_pages role_of source.section_alignment (end - start) start end ranges) _
          all e1
          λ more paged e2.
            let starts : start ≤ end = ground arith in
            let inside : bound ≤ start = omega (arith, a.0) in
            let page =
              add_pages-IsPaged role_of source.section_alignment P moves (good section)
                (end - start) start end ranges more starts
                (Descends-mono {a = bound} {b = start} ranges inside s) r paged in
            let later =
              add_sections-IsTiled moves good sections more all end
                (section.virtual_address + virtual_extent section) (omega arith) (omega arith) a.1
                page.descends page.respects e2 in
            record {
              covered = λ x. ground (arith, later.covered x, page.covered x);
              descends = later.descends;
              respects = later.respects;
            }
