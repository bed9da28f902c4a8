-- ===== src/Pe/Sections/Recorded.antt =====
-- The writable regions of the captured memory in the ranges that the pages are classified by.
use upx_killer.Common.{
  ℕ, ◌≡◌, refl, subst, arith, Bool, true, false, ◌||◌, List, [], ◌∷◌, ◌++◌, All, if◌then◌else◌,
}
use upx_killer.Common.Results.{ok, reject_if_inversion, ok-injective}
use upx_killer.Dumping.{CapturedImageRegion}
use upx_killer.Pe.Sections.{AddressRange, overlaps, any_overlaps}
use upx_killer.Pe.Sections.Ranges.{Evidence, region_range, add_region, add_regions}
use upx_killer.Pe.Sections.Pages.{in_range}

-- Whether one of the ranges holds an address.
unfoldable pub any_holds : List AddressRange → ℕ → Bool
any_holds [] x = false
any_holds (range ∷ ranges) x = in_range range x || any_holds ranges x

pub any_overlaps_shared :
    (page : AddressRange) (ranges : List AddressRange) (x : ℕ)
    → in_range page x ≡ true
    → any_holds ranges x ≡ true
    → any_overlaps page ranges ≡ true
unfolding any_overlaps any_holds overlaps
any_overlaps_shared page [] x h k = absurd (ground arith)
any_overlaps_shared page (range ∷ ranges) x h k = ground (arith, any_overlaps_shared page ranges x)

any_holds-append :
    (xs ys : List AddressRange) (x : ℕ)
    → any_holds (xs ++ ys) x ≡ (any_holds xs x || any_holds ys x)
unfolding any_holds
any_holds-append [] ys x = refl
any_holds-append (range ∷ xs) ys x = ground (arith, any_holds-append xs ys x)

-- An address of a writable region is in the writable ranges, or in those that are executable too;
-- one of an executable region as well is in the latter.
abbrev pub IsRecorded : Evidence → ℕ → CapturedImageRegion → Type 0
IsRecorded evidence x region =
    in_range (region_range region) x ≡ true
    → region.writable ≡ true
    → (if region.executable
        then any_holds evidence.executable_writable x
        else any_holds evidence.writable x)
      ≡ true

-- Another region does not take away what is recorded.
add_region-IsRecorded :
    (region other : CapturedImageRegion) (evidence : Evidence) (x : ℕ)
    → IsRecorded evidence x other
    → IsRecorded (add_region region evidence) x other
unfolding add_region
add_region-IsRecorded region other evidence x h inside writable =
    let range = region_range region ∷ [] in
    ground (
      arith,
      any_holds-append evidence.executable_writable range x,
      any_holds-append evidence.writable range x,
      h inside writable,
    )

add_region-records :
    (region : CapturedImageRegion) (evidence : Evidence) (x : ℕ)
    → IsRecorded (add_region region evidence) x region
unfolding add_region any_holds
add_region-records region evidence x inside writable =
    let range = region_range region ∷ [] in
    ground (
      arith,
      any_holds-append evidence.executable_writable range x,
      any_holds-append evidence.writable range x,
    )

add_regions-IsRecorded :
    (image_size : ℕ) (regions : List CapturedImageRegion) (evidence last : Evidence) (x : ℕ)
    (other : CapturedImageRegion)
    → add_regions image_size regions evidence ≡ ok last
    → IsRecorded evidence x other
    → IsRecorded last x other
unfolding add_regions
add_regions-IsRecorded image_size [] evidence last x other e h =
    subst (λ v. IsRecorded v x other) (ok-injective evidence last e) h
add_regions-IsRecorded image_size (region ∷ regions) evidence last x other e h =
    reject_if_inversion _ _ _ last e λ _ e1.
      add_regions-IsRecorded image_size regions (add_region region evidence) last x other e1
        (add_region-IsRecorded region other evidence x h)

pub add_regions_record :
    (image_size : ℕ) (regions : List CapturedImageRegion) (evidence last : Evidence) (x : ℕ)
    → add_regions image_size regions evidence ≡ ok last
    → All (IsRecorded last x) regions
unfolding add_regions
add_regions_record image_size [] evidence last x e = tt
add_regions_record image_size (region ∷ regions) evidence last x e =
    reject_if_inversion _ _ _ last e λ _ e1. (
      add_regions-IsRecorded image_size regions (add_region region evidence) last x region e1
          (add_region-records region evidence x),
      add_regions_record image_size regions (add_region region evidence) last x e1,
    )
