-- ===== src/Pe/Parser/Sections.antt =====
-- The sections of an accepted PE image.
use upx_killer.Common.{
  ℕ, zero, suc, ◌+◌, ◌*◌, ◌≤◌, ◌≡◌, ◌≢◌, refl, ap, arith, List, [], ◌∷◌, Bytes, All, length, subst,
}
use upx_killer.Common.Results.{
  ok, step_inversion, reject_if_inversion, reject_if_passed, ok-injective,
}
use upx_killer.Pe.Headers.{WindowsHeaders}
use upx_killer.Pe.Format.{PeSection}
use upx_killer.Pe.Parser.{range_fits, section_at, virtual_extent, check_section, parse_sections}

-- A section lies inside the image, and what it has in the file lies inside the file.
pub record IsInside (file_size size_of_image : ℕ) (section : PeSection) : Type 0 where
  pub in_image : section.virtual_address + virtual_extent section ≤ size_of_image
  pub in_file : section.raw_size ≢ 0 → section.raw_offset + section.raw_size ≤ file_size

-- Every section starts where the one before it has ended, or later.
abbrev pub IsAscending : ℕ → List PeSection → Type 0
IsAscending previous_end [] = Unit
IsAscending previous_end (section ∷ sections) =
    (previous_end ≤ section.virtual_address)
    × IsAscending (section.virtual_address + virtual_extent section) sections

pub record AreSections (file_size size_of_image count previous_end : ℕ) (sections : List PeSection)
    : Type 0 where
  pub counted : length sections ≡ count
  pub inside : All (IsInside file_size size_of_image) sections
  pub ascending : IsAscending previous_end sections

check_section-IsInside :
    (file_size size_of_image previous_end : ℕ) (section : PeSection)
    → check_section file_size size_of_image previous_end section ≡ ok tt
    → IsInside file_size size_of_image section × (previous_end ≤ section.virtual_address)
unfolding check_section range_fits
check_section-IsInside file_size size_of_image previous_end section e =
    reject_if_inversion _ _ _ tt e λ placed e1.
      let stored = reject_if_passed _ _ e1 in
      (record { in_image = ground arith; in_file = λ n. ground arith }, ground arith)

pub parse_sections-AreSections :
    (h : WindowsHeaders) (bytes : Bytes) (table size_of_image rounds index previous_end : ℕ)
    (sections : List PeSection)
    → parse_sections h bytes table size_of_image rounds index previous_end ≡ ok sections
    → AreSections (length bytes) size_of_image rounds previous_end sections
unfolding parse_sections
parse_sections-AreSections h bytes table size_of_image zero index previous_end sections e =
    subst (AreSections (length bytes) size_of_image 0 previous_end) (ok-injective [] sections e)
      (record { counted = refl; inside = tt; ascending = tt })
parse_sections-AreSections h bytes table size_of_image (suc rounds) index previous_end sections e =
    let section = section_at h bytes (table + index * h.section_header_size) in
    reject_if_inversion _ _ _ sections e λ _ e1.
      step_inversion (check_section (length bytes) size_of_image previous_end section) _ sections e1
        λ _ checked e2.
          step_inversion
            (parse_sections h bytes table size_of_image rounds (index + 1)
              (section.virtual_address + virtual_extent section))
            _ sections e2
            λ later parsed e3.
              let good =
                check_section-IsInside (length bytes) size_of_image previous_end section checked in
              let rest =
                parse_sections-AreSections h bytes table size_of_image rounds (index + 1)
                  (section.virtual_address + virtual_extent section) later parsed in
              subst (AreSections (length bytes) size_of_image (suc rounds) previous_end)
                (ok-injective _ sections e3)
                (record {
                  counted = ap suc rest.counted;
                  inside = (good.0, rest.inside);
                  ascending = (good.1, rest.ascending);
                })
