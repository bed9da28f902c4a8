-- ===== src/Pe/Sections/Total.antt =====
-- `Build` ends: none of its loops runs out of fuel.
use upx_killer.Common.{
  ℕ, ◌≤◌, ◌≡◌, ◌≢◌, refl, subst, sym, arith, IsU32, Bool, true, false, Option, none, some, List, [],
  ◌∷◌, ◌==◌, Bool-cases, inl, inr,
}
use upx_killer.Common.Results.{Result, ok, err, ◌>>=◌, reject_if, or_reject}
use upx_killer.Dumping.{CapturedImageRegion}
use upx_killer.Pe.Format.{PeSection, PeImageLayout}
use upx_killer.Pe.Directories.{WindowsDirectories}
use upx_killer.Pe.Headers.{WindowsHeaders}
use upx_killer.Pe.Sections.{Stop, SectionLayoutError, refused, unfinished, SectionLayoutInput}
use upx_killer.Pe.Sections.Tls.{TlsEvidence, tls_format}
use upx_killer.Pe.Sections.Scan.{
  discover_tls, broad_scan, or_else, embedded_evidence, runtime_evidence,
}
use upx_killer.Pe.Sections.Scan.Ends.{broad_scan_ends}
use upx_killer.Pe.Sections.Ranges.{Evidence, add_regions, add_region, discover_code_ranges}
use upx_killer.Pe.Sections.Layout.{PlannedRange, classify, add_sections, plan_ranges, build}
use upx_killer.Pe.Sections.Pages.{add_pages_ends}
use upx_killer.Pe.Sections.Built.{is_aligned}

-- The run ends: with a value, or with an error of the program.
abbrev pub Ends : {A : Type 0} → Result Stop A → Type 0
Ends (ok a) = Unit {0}
Ends (err (refused error)) = Unit {0}
Ends (err unfinished) = ⊥

module _ {A B : Type 0} where
  Ends-bind :
      (m : Result Stop A) (f : A → Result Stop B)
      → Ends m
      → ((a : A) → m ≡ ok a → Ends (f a))
      → Ends (m >>= f)
  Ends-bind (ok a) f h k = k a refl
  Ends-bind (err (refused error)) f h k = tt
  Ends-bind (err unfinished) f h k = elim h [ ]

  Ends-or_reject :
      (o : Option A) (error : SectionLayoutError) (f : A → Result Stop B)
      → ((a : A) → Ends (f a))
      → Ends (or_reject o (refused error) >>= f)
  unfolding or_reject
  Ends-or_reject none error f k = tt
  Ends-or_reject (some a) error f k = k a

module _ {B : Type 0} where
  Ends-reject_if :
      (c : Bool) (error : SectionLayoutError) (f : Unit {0} → Result Stop B)
      → (c ≡ false → Ends (f tt))
      → Ends (reject_if c (refused error) >>= f)
  unfolding reject_if
  Ends-reject_if true error f k = tt
  Ends-reject_if false error f k = k refl

Ends-ok : {A : Type 0} (m : Result Stop A) → (a : A) × (m ≡ ok a) → Ends m
Ends-ok m (a, e) = subst Ends (sym e) tt

Ends-or_else :
    (o : Option TlsEvidence) (later : Result Stop (Option TlsEvidence))
    → Ends later
    → Ends (or_else o later)
Ends-or_else none later h = h
Ends-or_else (some evidence) later h = tt

add_regions-Ends :
    (image_size : ℕ) (regions : List CapturedImageRegion) (evidence : Evidence)
    → Ends (add_regions image_size regions evidence)
unfolding add_regions
add_regions-Ends image_size [] evidence = tt
add_regions-Ends image_size (region ∷ regions) evidence =
    Ends-reject_if _ _ _ λ _. add_regions-Ends image_size regions (add_region region evidence)

module _ (d : WindowsDirectories) (source : PeImageLayout) where
  add_sections-Ends :
      (evidence : Evidence)
      → 1 ≤ source.section_alignment
      → (sections : List PeSection) (ranges : List PlannedRange)
      → Ends (add_sections d source evidence sections ranges)
  unfolding add_sections
  add_sections-Ends evidence moves [] ranges = tt
  add_sections-Ends evidence moves (section ∷ sections) ranges = Ends-reject_if _ _ _ λ _.
      Ends-bind _ _
        (Ends-ok _ (
          add_pages_ends (classify d source evidence section) source.section_alignment moves _ _ _ _
            (omega arith)))
        λ more _. add_sections-Ends evidence moves sections more

  module _ (h : WindowsHeaders) (input : SectionLayoutInput) (small : IsU32 source.size_of_image)
      (format : 8 ≤ (tls_format d source.format).size)
      (room : (tls_format d source.format).size ≤ source.size_of_image) where
    discover_tls-Ends : Ends (discover_tls h d source input)
    unfolding discover_tls
    discover_tls-Ends = elim (Bool-cases (input.oep == source.entry_point)) [
      | inl same ↦ rw same tt
      | inr moved ↦ rw moved (
          Ends-or_else (embedded_evidence h d source input) _ (
            Ends-or_else (runtime_evidence h d source input) _ (
              Ends-bind (broad_scan d source input) _
                (Ends-ok _ (broad_scan_ends d source input small format room)) λ best _. tt)))
    ]

    discover_code_ranges-Ends : Ends (discover_code_ranges h d source input)
    unfolding discover_code_ranges
    discover_code_ranges-Ends = Ends-or_reject _ _ _ λ exports. Ends-reject_if _ _ _ λ _.
        Ends-or_reject _ _ _
          λ end. Ends-bind (discover_tls h d source input) _ discover_tls-Ends λ tls _. tt

    plan_ranges-Ends : Ends (plan_ranges h d source input)
    unfolding plan_ranges
    plan_ranges-Ends = Ends-reject_if _ _ _ λ good.
        Ends-bind (discover_code_ranges h d source input) _ discover_code_ranges-Ends λ found _.
          Ends-or_reject _ _ _ λ imports.
            Ends-bind _ _ (add_regions-Ends source.size_of_image input.memory_regions _)
              λ evidence _.
                Ends-bind _ _
                  (add_sections-Ends evidence (is_aligned source input good) source.sections [])
                  λ ranges _. tt

    build-Ends : Ends (build h d source input)
    unfolding build
    build-Ends =
        Ends-bind (plan_ranges h d source input) _ plan_ranges-Ends
          λ planned _. Ends-reject_if _ _ _ λ _. Ends-reject_if _ _ _ λ _. tt

    -- For an image of 32 bits that has room for a TLS directory of at least eight bytes, none of the
    -- loops that build the sections runs out of its fuel.
    pub build-ne-unfinished : build h d source input ≢ err unfinished
    build-ne-unfinished e = subst Ends e build-Ends
