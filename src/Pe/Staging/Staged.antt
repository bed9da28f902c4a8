-- ===== src/Pe/Staging/Staged.antt =====
-- What the staging of a file without source relocations changes in it.
use upx_killer.Common.{
  ℕ, ◌+◌, ◌-◌, ◌^◌, ◌≤◌, ◌<◌, ◌≡◌, ◌≢◌, ◌⊎◌, refl, sym, ap, ◌∙◌, arith, bit_and, bit_or, some, [],
  ◌∷◌, Bytes, List, ◌%◌, length, get_elem?, subst, inl, inr,
}
use upx_killer.Common.Results.{
  ok, step_inversion, reject_if_inversion, or_reject_inversion, ok-injective,
}
use upx_killer.Pe.Format.{PeImageLayout}
use upx_killer.Pe.Headers.{WindowsHeaders, PeFormatTraits, field}
use upx_killer.Pe.Rebasing.{le_bytes, splice, format_traits}
use upx_killer.Pe.Rebasing.Splices.{IsBeside}
use upx_killer.Pe.Rebasing.Rebased.{HasFields, field-sized, field-beside}
use upx_killer.Pe.Relocations.{SourceRelocationSlot, traits_of, address_fits}
use upx_killer.Pe.Staging.{
  NoSourceRelocationsImage, StubStatus, StubRebase, rebase_stub, place_headers, staging_slots,
  prepare_typed, prepare_staging,
}
use upx_killer.Pe.Staging.Fields.{HasBaseFirst, ArePlaced, place_headers-ArePlaced}
use upx_killer.Pe.Staging.Stub.{IsApplied, IsAddressed, rebase_stub-IsAddressed}

-- A position beside the two fields of the header.
pub record IsBesidePlacement (h : WindowsHeaders) (traits : PeFormatTraits) (optional i : ℕ)
    : Type 0 where
  pub base_beside : IsBeside (optional + traits.image_base_offset) traits.address_width i
  pub dll_beside : IsBeside (optional + h.dll_characteristics_offset) 2 i

module _ (h : WindowsHeaders) (traits : PeFormatTraits) (optional base : ℕ) (bytes : Bytes)
    (fields : HasFields h traits)
    (fits : optional + traits.optional_header_size ≤ length bytes) where
  abbrev at_base : ℕ
  at_base = optional + traits.image_base_offset

  abbrev at_dll : ℕ
  at_dll = optional + h.dll_characteristics_offset

  abbrev based : Bytes
  based = splice at_base (le_bytes traits.address_width base) bytes

  abbrev dll : ℕ
  dll = bit_and (field 2 based at_dll) (2 ^ 16 - 1 - bit_or h.dynamic_base h.high_entropy_va)

  base_fits : at_base + traits.address_width ≤ length bytes
  base_fits = omega (arith, fields.base_inside, fits)

  based_size : length based ≡ length bytes
  based_size = field-sized at_base traits.address_width base bytes base_fits

  dll_fits : at_dll + 2 ≤ length based
  dll_fits = omega (arith, fields.dll_inside, fits, based_size)

  length-place_headers : length (place_headers h traits optional base bytes) ≡ length bytes
  unfolding place_headers
  length-place_headers = field-sized at_dll 2 dll based dll_fits ∙ based_size

  place_headers-beside :
      (i : ℕ)
      → IsBesidePlacement h traits optional i
      → get_elem? (place_headers h traits optional base bytes) i ≡ get_elem? bytes i
  unfolding place_headers
  place_headers-beside i beside =
      field-beside at_dll 2 dll based dll_fits i beside.dll_beside
      ∙ field-beside at_base traits.address_width base bytes base_fits i beside.base_beside

-- The slots that are recorded, and what else has been changed in the staged bytes.
abbrev pub IsMarked : Bytes → PeImageLayout → ℕ → StubRebase → NoSourceRelocationsImage → Type 0
IsMarked placed layout base stub image =
    ((image.staging_only_slots ≡ []) × (image.bytes ≡ placed))
    ⊎ ((slot : SourceRelocationSlot) × (image.staging_only_slots ≡ slot ∷ [])
        × (image.bytes ≡ stub.staged)
        × (stub.patched_location ≡ some slot.location)
        × (slot.image_target ≡ stub.image_target)
        × IsApplied placed layout base stub)

-- For a source with a placement of its headers: the staged file has the size of the source and the base; the
-- placed headers hold the base and the characteristics without the two flags, and differ from the source
-- in those two fields only.
pub record IsStaged (h : WindowsHeaders) (source : Bytes) (layout : PeImageLayout) (base : ℕ)
    (image : NoSourceRelocationsImage) : Type 0 where
  pub based : image.required_base ≡ base
  pub aligned : base % 2 ^ 16 ≡ 0
  pub sized : length image.bytes ≡ length source
  pub placed : Bytes
  pub headers :
      ArePlaced h layout.format
        (layout.nt_header_offset + 4 + h.file_header_size)
        base
        source
        placed
  pub kept :
      (i : ℕ)
      → IsBesidePlacement h
          (format_traits h layout.format)
          (layout.nt_header_offset + 4 + h.file_header_size)
          i
      → get_elem? placed i ≡ get_elem? source i
  pub stub : StubRebase
  pub marked : IsMarked placed layout base stub image

unmarked :
    (stub : StubRebase) (slots : List SourceRelocationSlot)
    → stub.status ≢ StubStatus.applied
    → staging_slots stub ≡ ok slots
    → slots ≡ []
unfolding staging_slots
unmarked stub slots other e = ground arith

marked-sized :
    (placed : Bytes) (layout : PeImageLayout) (base : ℕ) (stub : StubRebase)
    (image : NoSourceRelocationsImage)
    → image.bytes ≡ stub.staged
    → IsMarked placed layout base stub image
    → length image.bytes ≡ length placed
marked-sized placed layout base stub image same (inl none_at) = ap length none_at.1
marked-sized placed layout base stub image same (inr (slot, _, _, _, _, done)) =
    ap length same ∙ done.sized

staging_slots-IsMarked :
    (placed : Bytes) (layout : PeImageLayout) (base : ℕ) (stub : StubRebase)
    (slots : List SourceRelocationSlot)
    → IsAddressed placed layout base stub
    → staging_slots stub ≡ ok slots
    → IsMarked placed layout base stub
        (record { bytes = stub.staged; required_base = base; staging_only_slots = slots })
unfolding staging_slots
staging_slots-IsMarked placed layout base stub slots (inl (is_applied, done)) e =
    or_reject_inversion _ _ _ slots (rw (is_applied, staging_slots) at e) λ location at e1.
      or_reject_inversion _ _ _ slots e1 λ target to e2. inr (
        record { location = location; image_target = some target },
        sym (ok-injective _ slots e2),
        refl,
        at,
        sym to,
        done,
      )
staging_slots-IsMarked placed layout base stub slots (inr (other, same)) e =
    inl (unmarked stub slots other e, same)

module _ (h : WindowsHeaders) (source : Bytes) (layout : PeImageLayout) (base : ℕ) where
  prepare_typed-IsStaged :
      (image : NoSourceRelocationsImage)
      → HasFields h (format_traits h layout.format)
      → HasBaseFirst h layout.format
      → base % 2 ^ 16 ≡ 0
      → prepare_typed h source layout base ≡ ok image
      → IsStaged h source layout base image
  unfolding prepare_typed address_fits
  prepare_typed-IsStaged image fields ordered aligned e =
      let traits = format_traits h layout.format in
      let optional = layout.nt_header_offset + 4 + h.file_header_size in
      let placed = place_headers h traits optional base source in
      let stub = rebase_stub placed layout base in
      reject_if_inversion _ _ _ image e λ inside e1.
        step_inversion (staging_slots stub) _ image e1 λ slots listed e2.
          let fits : optional + traits.optional_header_size ≤ length source =
            ground (arith, inside) in
          let small : base < 256 ^ (traits_of layout.format).pointer_size =
            ground (arith, inside) in
          let made : NoSourceRelocationsImage = record {
            bytes = stub.staged;
            required_base = base;
            staging_only_slots = slots;
          } in
          let marked =
            staging_slots-IsMarked placed layout base stub slots
              (rebase_stub-IsAddressed placed layout base) listed in
          subst (IsStaged h source layout base) (ok-injective made image e2) (record {
            based = refl;
            aligned = aligned;
            sized =
                marked-sized placed layout base stub made refl marked
                ∙ length-place_headers h traits optional base source fields fits;
            placed = placed;
            headers =
                place_headers-ArePlaced h layout.format optional base source fields ordered fits
                  small;
            kept = place_headers-beside h traits optional base source fields fits;
            stub = stub;
            marked = marked;
          })

  -- For headers whose fields lie in the optional header, the base before the characteristics: a file that is staged
  -- without source relocations has the size of its source, holds the base, a multiple of 65536, and the
  -- characteristics of the source without the flags of an image that may be moved, and is the source
  -- beside those two fields, but for the four bytes that address the stub, which are recorded as the
  -- one slot, if it is addressed at all.
  pub prepare_staging-IsStaged :
      (image : NoSourceRelocationsImage)
      → HasFields h (format_traits h layout.format)
      → HasBaseFirst h layout.format
      → prepare_staging h source layout base ≡ ok image
      → IsStaged h source layout base image
  unfolding prepare_staging
  prepare_staging-IsStaged image fields ordered e = reject_if_inversion _ _ _ image e λ sound e1.
      reject_if_inversion _ _ _ image e1
        λ _ e2. prepare_typed-IsStaged image fields ordered (ground (arith, sound)) e2
