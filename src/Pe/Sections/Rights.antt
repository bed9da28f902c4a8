-- ===== src/Pe/Sections/Rights.antt =====
-- The rights of the captured memory in the sections that `Build` returns.
use mathlib.Core.List.{reverse, reverse-cons}
use upx_killer.Common.{
  ℕ, ◌+◌, ◌≡◌, ◌⊎◌, refl, ap, arith, Bool, true, false, ◌&&◌, List, [], ◌∷◌, ◌++◌, All, All-map,
  ltb, leb, if◌then◌else◌, Bool-cases, inl, inr,
}
use upx_killer.Common.Results.{ok}
use upx_killer.Dumping.{CapturedImageRegion}
use upx_killer.Pe.Format.{PeSection, PeImageLayout}
use upx_killer.Pe.Directories.{WindowsDirectories}
use upx_killer.Pe.Headers.{WindowsHeaders}
use upx_killer.Pe.Parser.Sections.{IsAscending}
use upx_killer.Pe.Sections.{
  SectionRole, AddressRange, RebuiltSection, SectionLayoutInput, SectionLayoutPlan, any_overlaps,
}
use upx_killer.Pe.Sections.Ranges.{Evidence, region_range}
use upx_killer.Pe.Sections.Layout.{
  PlannedRange, classify, characteristics_of, name_sections, no_counts, count_name, role_index,
  build,
}
use upx_killer.Pe.Sections.Pages.{in_range, Respects}
use upx_killer.Pe.Sections.Built.{build-IsFrom, plan-IsTiled}
use upx_killer.Pe.Sections.Recorded.{any_holds, any_overlaps_shared, IsRecorded, add_regions_record}

-- The roles of a page of a writable region, by whether the region is executable.
abbrev IsRoleFor : Bool → SectionRole → Type 0
IsRoleFor true role = role ≡ SectionRole.executable_writable
IsRoleFor false role = (role ≡ SectionRole.executable_writable) ⊎ (role ≡ SectionRole.writable_data)

abbrev IsRight : ℕ → SectionRole → CapturedImageRegion → Type 0
IsRight x role region =
    in_range (region_range region) x ≡ true
    → region.writable ≡ true
    → IsRoleFor region.executable role

classify-IsRoleFor :
    (d : WindowsDirectories) (source : PeImageLayout) (evidence : Evidence) (section : PeSection)
    (page : AddressRange) (x : ℕ) (executable : Bool)
    → in_range page x ≡ true
    → (if executable
        then any_holds evidence.executable_writable x
        else any_holds evidence.writable x)
      ≡ true
    → IsRoleFor executable (classify d source evidence section page)
unfolding classify
classify-IsRoleFor d source evidence section page x true inside h =
    let shared = any_overlaps_shared page evidence.executable_writable x inside h in rw shared refl
classify-IsRoleFor d source evidence section page x false inside h =
    let shared = any_overlaps_shared page evidence.writable x inside h in
    elim (Bool-cases (any_overlaps page evidence.executable_writable)) [
      | inl both ↦ rw both (inl refl)
      | inr written ↦ rw (written, shared) (inr refl)
    ]

Respects-append :
    (P : ℕ → SectionRole → Type 0) (xs ys : List PlannedRange)
    → Respects P xs
    → Respects P ys
    → Respects P (xs ++ ys)
Respects-append P [] ys h k = k
Respects-append P (planned ∷ xs) ys h k = (h.0, Respects-append P xs ys h.1 k)

Respects-reverse :
    (P : ℕ → SectionRole → Type 0) (ranges : List PlannedRange)
    → Respects P ranges
    → Respects P (reverse ranges)
Respects-reverse P [] h = tt
Respects-reverse P (planned ∷ ranges) h =
    rw (reverse-cons planned ranges)
      (Respects-append P (reverse ranges) (planned ∷ []) (Respects-reverse P ranges h.1) (h.0, tt))

abbrev pub in_section : RebuiltSection → ℕ → Bool
in_section section x =
    leb section.virtual_address x && ltb x (section.virtual_address + section.virtual_size)

-- The characteristics that a section over a writable region has.
abbrev pub HasRights : WindowsDirectories → Bool → ℕ → Type 0
HasRights d true characteristics =
    characteristics ≡ characteristics_of d SectionRole.executable_writable
HasRights d false characteristics =
    (characteristics ≡ characteristics_of d SectionRole.executable_writable)
    ⊎ (characteristics ≡ characteristics_of d SectionRole.writable_data)

characteristics_of-HasRights :
    (d : WindowsDirectories) (executable : Bool) (role : SectionRole)
    → IsRoleFor executable role
    → HasRights d executable (characteristics_of d role)
characteristics_of-HasRights d true role h = ap (characteristics_of d) h
characteristics_of-HasRights d false role (inl h) = inl (ap (characteristics_of d) h)
characteristics_of-HasRights d false role (inr h) = inr (ap (characteristics_of d) h)

-- The section has the rights of every writable region that it shares an address with.
abbrev pub KeepsRights : WindowsDirectories → List CapturedImageRegion → RebuiltSection → Type 0
KeepsRights d regions section =
    (x : ℕ)
    → in_section section x ≡ true
    → All
        (λ region.
          in_range (region_range region) x ≡ true
          → region.writable ≡ true
          → HasRights d region.executable section.characteristics)
        regions

name_sections-KeepsRights :
    (d : WindowsDirectories) (regions : List CapturedImageRegion) (counts : ℕ → ℕ)
    (ranges : List PlannedRange)
    → Respects (λ x role. All (IsRight x role) regions) ranges
    → All (KeepsRights d regions) (name_sections d counts ranges)
unfolding name_sections
name_sections-KeepsRights d regions counts [] r = tt
name_sections-KeepsRights d regions counts (planned ∷ ranges) r =
    let index = role_index planned.role in
    (
      λ x inside.
          All-map (IsRight x planned.role) _ regions
            (λ region right within writable.
              characteristics_of-HasRights d region.executable planned.role (right within writable))
            (r.0 x (ground arith)),
      name_sections-KeepsRights d regions (count_name counts index) ranges r.1,
    )

-- For a source whose sections ascend and do not overlap, every section that is built has the
-- characteristics of writable data, or of executable and writable memory, where it shares an address
-- with a captured region that is writable, and the latter where the region is executable too.
pub build-KeepsRights :
    (h : WindowsHeaders) (d : WindowsDirectories) (source : PeImageLayout)
    (input : SectionLayoutInput) (plan : SectionLayoutPlan)
    → IsAscending 0 source.sections
    → build h d source input ≡ ok plan
    → All (KeepsRights d input.memory_regions) plan.sections
build-KeepsRights h d source input plan ascending e =
    let from = build-IsFrom h d source input plan e in
    let regions = input.memory_regions in
    let evidence = from.planned.0 in
    let tiled =
      plan-IsTiled h d source input (λ x role. All (IsRight x role) regions) from.planned
        (λ section page x inside.
          All-map (IsRecorded evidence x) _ regions
            (λ region recorded within writable.
              classify-IsRoleFor d source evidence section page x region.executable inside
                (recorded within writable))
            (add_regions_record source.size_of_image regions from.is_planned.found evidence x
              from.is_planned.placed))
        ascending from.is_planned in
    rw from.sections_eq (
      name_sections-KeepsRights d regions no_counts (reverse from.planned.1)
        (Respects-reverse _ from.planned.1 tiled.respects))
