-- ===== src/Pe/Parser/Accepted.antt =====
-- What `PeParser::Parse` guarantees of the layout that it returns.
use upx_killer.Common.{
  ℕ, zero, suc, ◌+◌, ◌-◌, ◌^◌, ◌≤◌, ◌<◌, ◌≡◌, ◌≢◌, refl, ap, arith, min, true, false, some, List,
  [], Bytes, All, leb, ◌==◌, length, length-append, length-replicate, replicate, subst, inl, inr,
  Bool-cases,
}
use upx_killer.Common.Results.{ok, step_inversion, reject_if_inversion, ok-injective}
use upx_killer.Pe.Headers.{WindowsHeaders, PeFormatTraits, field, pe_directory_count}
use upx_killer.Pe.Format.{PeSection, PeImageLayout}
use upx_killer.Pe.Capabilities.{PeBackendCapabilities, supports}
use upx_killer.Pe.Plan.{PeExecutionPlan, create}
use upx_killer.Pe.Plan.Bases.{IsPlan, create-IsPlan}
use upx_killer.Pe.Parser.{
  is_power_of_two, parse_sections, read_directories, directories_of, no_directory, layout_at,
  is_bad_header, parse_typed, parse_magic, parse,
}
use upx_killer.Pe.Parser.Sections.{IsInside, IsAscending, AreSections, parse_sections-AreSections}

-- The image is not empty and at most 1 GiB, holds its headers and its entry point, has a preferred
-- base, alignments that are powers of two in order, 1 to 96 sections that lie in the image and in the
-- file and do not overlap, and 16 directories.
pub record IsLayout (file_size : ℕ) (layout : PeImageLayout) : Type 0 where
  pub size_low : 1 ≤ layout.size_of_image
  pub size_high : layout.size_of_image ≤ 2 ^ 30
  pub headers : layout.size_of_headers ≤ layout.size_of_image
  pub entry : layout.entry_point < layout.size_of_image
  pub based : layout.preferred_image_base ≢ 0
  pub file_aligned : is_power_of_two layout.file_alignment ≡ true
  pub section_aligned : is_power_of_two layout.section_alignment ≡ true
  pub alignments : layout.file_alignment ≤ layout.section_alignment
  pub count_low : 1 ≤ length layout.sections
  pub count_high : length layout.sections ≤ 96
  pub inside : All (IsInside file_size layout.size_of_image) layout.sections
  pub ascending : IsAscending 0 layout.sections
  pub directory_count : length layout.directories ≡ pe_directory_count

length-read_directories :
    (bytes : Bytes) (table rounds : ℕ) → length (read_directories bytes table rounds) ≡ rounds
unfolding read_directories
length-read_directories bytes table zero = refl
length-read_directories bytes table (suc rounds) =
    ap suc (length-read_directories bytes (table + 8) rounds)

length-directories_of :
    (traits : PeFormatTraits) (bytes : Bytes) (optional : ℕ)
    → length (directories_of traits bytes optional) ≡ pe_directory_count
unfolding directories_of
length-directories_of traits bytes optional =
    let count = min (field 4 bytes (optional + traits.directory_count_offset)) pe_directory_count in
    let table = optional + traits.directory_offset in
    omega (
      arith,
      length-append (read_directories bytes table count)
          (replicate (pe_directory_count - count) no_directory),
      length-read_directories bytes table count,
      length-replicate (pe_directory_count - count) no_directory,
    )

module _ (h : WindowsHeaders) (traits : PeFormatTraits) (bytes : Bytes) (nt file optional : ℕ) where
  finished-IsLayout :
      (count : ℕ) (sections : List PeSection)
      → 1 ≤ count
      → count ≤ 96
      → is_bad_header (layout_at h traits bytes nt file optional []) ≡ false
      → AreSections
          (length bytes)
          (layout_at h traits bytes nt file optional []).size_of_image
          count
          0
          sections
      → leb
          (layout_at h traits bytes nt file optional []).size_of_image
          (layout_at h traits bytes nt file optional []).entry_point
        ≡ false
      → IsLayout (length bytes) (layout_at h traits bytes nt file optional sections)
  unfolding layout_at is_bad_header
  finished-IsLayout count sections low high good are entry = record {
    size_low = ground arith;
    size_high = ground arith;
    headers = ground arith;
    entry = ground arith;
    based = ground arith;
    file_aligned = ground arith;
    section_aligned = ground arith;
    alignments = ground arith;
    count_low = omega (arith, are.counted);
    count_high = omega (arith, are.counted);
    inside = are.inside;
    ascending = are.ascending;
    directory_count = length-directories_of traits bytes optional;
  }

  parse_typed-IsLayout :
      (layout : PeImageLayout)
      → 1 ≤ field 2 bytes (file + h.section_count_offset)
      → field 2 bytes (file + h.section_count_offset) ≤ 96
      → parse_typed h traits bytes nt file optional ≡ ok layout
      → IsLayout (length bytes) layout
  unfolding parse_typed
  parse_typed-IsLayout r low high e =
      let header = layout_at h traits bytes nt file optional [] in
      let count = field 2 bytes (file + h.section_count_offset) in
      let table = optional + field 2 bytes (file + h.optional_size_offset) in
      reject_if_inversion _ _ _ r e λ _ e1. reject_if_inversion _ _ _ r e1 λ _ e2.
        reject_if_inversion _ _ _ r e2 λ _ e3. reject_if_inversion _ _ _ r e3 λ _ e4.
          reject_if_inversion _ _ _ r e4 λ good e5. reject_if_inversion _ _ _ r e5 λ _ e6.
            step_inversion (parse_sections h bytes table header.size_of_image count 0 0) _ r e6
              λ sections parsed e7. reject_if_inversion _ _ _ r e7 λ entry e8.
                subst (IsLayout (length bytes)) (ok-injective _ r e8) (
                  finished-IsLayout count sections low high good
                    (parse_sections-AreSections h bytes table header.size_of_image count 0 0
                      sections parsed)
                    entry)

-- A PE file that is accepted has an image of 1 byte to 1 GiB that holds its headers and its entry
-- point, a preferred base, a file alignment and a section alignment that are powers of two in order,
-- 1 to 96 sections that lie in the image and in the file and do not overlap in the image, and 16
-- directories; this holds wherever the fields of the headers stand.
pub parse-IsLayout :
    (h : WindowsHeaders) (bytes : Bytes) (layout : PeImageLayout)
    → parse h bytes ≡ ok layout
    → IsLayout (length bytes) layout
unfolding parse parse_magic
parse-IsLayout h bytes r e =
    let nt = field 4 bytes h.dos_new_header_offset in
    let file = nt + 4 in
    let optional = nt + 4 + h.file_header_size in
    reject_if_inversion _ _ _ r e λ _ e1. reject_if_inversion _ _ _ r e1 λ _ e2.
      reject_if_inversion _ _ _ r e2 λ _ e3. reject_if_inversion _ _ _ r e3 λ _ e4.
        reject_if_inversion _ _ _ r e4 λ _ e5. reject_if_inversion _ _ _ r e5 λ counts e6.
          reject_if_inversion _ _ _ r e6 λ _ e7.
            elim (Bool-cases (field 2 bytes optional == h.pe32.optional_header_magic)) [
              | inl narrow ↦
                  parse_typed-IsLayout h h.pe32 bytes nt file optional r (ground arith)
                    (ground arith) (ground arith)
              | inr other ↦
                  elim (Bool-cases (field 2 bytes optional == h.pe64.optional_header_magic)) [
                    | inl wide ↦
                        parse_typed-IsLayout h h.pe64 bytes nt file optional r (ground arith)
                          (ground arith) (ground arith)
                    | inr neither ↦ absurd (ground arith)
                  ]
            ]

-- An accepted PE file whose kind of image the backend supports gets an execution plan, with the bases
-- and flags that `IsPlan` states; this holds wherever the fields of the headers stand.
pub parse-IsPlan :
    (h : WindowsHeaders) (bytes : Bytes) (layout : PeImageLayout)
    (capabilities : PeBackendCapabilities)
    → parse h bytes ≡ ok layout
    → supports capabilities layout ≡ true
    → (plan : PeExecutionPlan) × (create layout capabilities ≡ some plan) × IsPlan layout plan
parse-IsPlan h bytes layout capabilities e support =
    elim (create-IsPlan layout capabilities (parse-IsLayout h bytes layout e).based) [
      | inl refused ↦ absurd (ground (arith, refused.0))
      | inr made ↦ made.1
    ]
