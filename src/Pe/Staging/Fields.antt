-- ===== src/Pe/Staging/Fields.antt =====
-- The two fields of the header that the staging of a file without source relocations writes.
use upx_killer.Common.{
  ℕ, zero, suc, ◌+◌, ◌-◌, ◌/◌, ◌%◌, ◌^◌, ◌≤◌, ◌<◌, bit_and, bit_or, ◌≡◌, refl, ap, subst, ◌∙◌,
  arith, [], ◌∷◌, ◌++◌, Bytes, length, length-take, take-append_length, drop-append_length, take,
  drop,
}
use native.Mathlib.Nat.{pow-suc}
use upx_killer.Common.Reading.{le_value}
use upx_killer.Pe.Format.{PeFormat}
use upx_killer.Pe.Headers.{WindowsHeaders, PeFormatTraits, field}
use upx_killer.Pe.Relocations.{traits_of}
use upx_killer.Pe.Rebasing.{le_bytes, splice, format_traits}
use upx_killer.Pe.Rebasing.Splices.{length-le_bytes}
use upx_killer.Pe.Rebasing.Rebased.{HasFields, field-sized}
use upx_killer.Pe.Staging.{place_headers}

-- The base of an optional header has the width of an address, and stands before the characteristics.
pub record HasBaseFirst (h : WindowsHeaders) (format : PeFormat) : Type 0 where
  pub width : (format_traits h format).address_width ≡ (traits_of format).pointer_size
  pub first :
      (format_traits h format).image_base_offset + (format_traits h format).address_width
      ≤ h.dll_characteristics_offset

-- A number is read from the bytes that are made of it.
pub le_value-le_bytes : (width v : ℕ) → v < 256 ^ width → le_value (le_bytes width v) ≡ v
unfolding le_value le_bytes
le_value-le_bytes zero v small = omega arith
le_value-le_bytes (suc width) v small = omega (
  arith,
  pow-suc 256 width,
  small,
  le_value-le_bytes width (v / 256) (omega (arith, pow-suc 256 width, small)),
)

le_value-word : (v : ℕ) → le_value (le_bytes 2 v) ≡ v % 2 ^ 16
unfolding le_value le_bytes
le_value-word v = omega arith

drop-splice :
    (offset : ℕ) (new bytes : Bytes)
    → offset ≤ length bytes
    → drop offset (splice offset new bytes) ≡ new ++ drop (offset + length new) bytes
unfolding splice
drop-splice offset new bytes fits =
    let rest = new ++ drop (offset + length new) bytes in
    let size : length (take offset bytes) ≡ offset = omega (arith, length-take offset bytes) in
    subst (λ k. drop k (take offset bytes ++ rest) ≡ rest) size
      (drop-append_length (take offset bytes) rest)

-- A field that is written at its place, by its bytes.
pub field-written :
    (offset width v : ℕ) (bytes : Bytes)
    → offset + width ≤ length bytes
    → field width (splice offset (le_bytes width v) bytes) offset ≡ le_value (le_bytes width v)
unfolding field
field-written offset width v bytes fits =
    let new = le_bytes width v in
    let rest = drop (offset + length new) bytes in
    ap (λ l. le_value (take width l)) (drop-splice offset new bytes (omega arith))
    ∙ ap le_value (
        subst (λ k. take k (new ++ rest) ≡ new) (length-le_bytes width v)
          (take-append_length new rest))

-- What stands before a write is not changed.
take-splice :
    (offset k : ℕ) (new bytes : Bytes)
    → k ≤ offset
    → offset ≤ length bytes
    → take k (splice offset new bytes) ≡ take k bytes
unfolding splice
take-splice offset zero new bytes low fits = refl
take-splice zero (suc k) new bytes low fits = absurd (omega arith)
take-splice (suc offset) (suc k) new [] low fits = absurd (omega arith)
take-splice (suc offset) (suc k) new (b ∷ bytes) low fits =
    let next : suc offset + length new ≡ suc (offset + length new) = omega arith in
    rw (next) (ap (λ l. b ∷ l) (take-splice offset k new bytes (omega arith) (omega arith)))

before-splice :
    (offset width at : ℕ) (new bytes : Bytes)
    → at + width ≤ offset
    → offset ≤ length bytes
    → take width (drop at (splice offset new bytes)) ≡ take width (drop at bytes)
unfolding splice
before-splice offset width zero new bytes low fits =
    take-splice offset width new bytes (omega arith) fits
before-splice zero width (suc at) new bytes low fits = absurd (omega arith)
before-splice (suc offset) width (suc at) new [] low fits = absurd (omega arith)
before-splice (suc offset) width (suc at) new (b ∷ bytes) low fits =
    let next : suc offset + length new ≡ suc (offset + length new) = omega arith in
    rw (next) (before-splice offset width at new bytes (omega arith) (omega arith))

-- What stands behind a write is not changed.
drop-replaced :
    (new bytes : Bytes) (k : ℕ)
    → length new ≤ length bytes
    → length new ≤ k
    → drop k (new ++ drop (length new) bytes) ≡ drop k bytes
drop-replaced [] bytes k fits behind = refl
drop-replaced (x ∷ new) [] k fits behind = absurd (omega arith)
drop-replaced (x ∷ new) (b ∷ bytes) zero fits behind = absurd (omega arith)
drop-replaced (x ∷ new) (b ∷ bytes) (suc k) fits behind =
    drop-replaced new bytes k (omega arith) (omega arith)

behind-splice :
    (offset k : ℕ) (new bytes : Bytes)
    → offset + length new ≤ length bytes
    → offset + length new ≤ k
    → drop k (splice offset new bytes) ≡ drop k bytes
unfolding splice
behind-splice zero k new bytes fits behind =
    let all : 0 + length new ≡ length new = omega arith in
    rw (all) (drop-replaced new bytes k (omega arith) (omega arith))
behind-splice (suc offset) k new [] fits behind = absurd (omega arith)
behind-splice (suc offset) zero new (b ∷ bytes) fits behind = absurd (omega arith)
behind-splice (suc offset) (suc k) new (b ∷ bytes) fits behind =
    let next : suc offset + length new ≡ suc (offset + length new) = omega arith in
    rw (next) (behind-splice offset k new bytes (omega arith) (omega arith))

-- The headers of a staged file hold the base, and the characteristics of the source without the two flags of
-- an image that may be moved.
pub record ArePlaced (h : WindowsHeaders) (format : PeFormat) (optional base : ℕ)
    (source placed : Bytes) : Type 0 where
  pub base_field :
      field
        (format_traits h format).address_width
        placed
        (optional + (format_traits h format).image_base_offset)
      ≡ base
  pub dll_field :
      field 2 placed (optional + h.dll_characteristics_offset)
      ≡ bit_and
          (field 2 source (optional + h.dll_characteristics_offset))
          (2 ^ 16 - 1 - bit_or h.dynamic_base h.high_entropy_va)
        % 2 ^ 16

module _ (h : WindowsHeaders) (format : PeFormat) (optional base : ℕ) (bytes : Bytes)
    (fields : HasFields h (format_traits h format)) (ordered : HasBaseFirst h format)
    (fits : optional + (format_traits h format).optional_header_size ≤ length bytes)
    (small : base < 256 ^ (traits_of format).pointer_size) where
  abbrev traits : PeFormatTraits
  traits = format_traits h format

  abbrev at_base : ℕ
  at_base = optional + traits.image_base_offset

  abbrev at_dll : ℕ
  at_dll = optional + h.dll_characteristics_offset

  abbrev based : Bytes
  based = splice at_base (le_bytes traits.address_width base) bytes

  base_fits : at_base + traits.address_width ≤ length bytes
  base_fits = omega (arith, fields.base_inside, fits)

  dll_fits : at_dll + 2 ≤ length based
  dll_fits = omega (
    arith,
    fields.dll_inside,
    fits,
    field-sized at_base traits.address_width base bytes base_fits,
  )

  -- The base does not reach the characteristics.
  dll_unchanged : field 2 based at_dll ≡ field 2 bytes at_dll
  unfolding field
  dll_unchanged =
      let width = length-le_bytes traits.address_width base in
      ap (λ l. le_value (take 2 l))
        (behind-splice at_base at_dll (le_bytes traits.address_width base) bytes
          (omega (arith, width, base_fits)) (omega (arith, width, ordered.first)))

  pub place_headers-ArePlaced :
      ArePlaced h format optional base bytes (place_headers h traits optional base bytes)
  unfolding place_headers field
  place_headers-ArePlaced =
      let mask = 2 ^ 16 - 1 - bit_or h.dynamic_base h.high_entropy_va in
      let dll = bit_and (field 2 based at_dll) mask in
      let narrow : base < 256 ^ traits.address_width = rw (ordered.width) small in
      record {
        base_field =
            ap le_value (
              before-splice at_dll traits.address_width at_base (le_bytes 2 dll) based
                (omega (arith, ordered.first)) (omega (arith, dll_fits)))
            ∙ field-written at_base traits.address_width base bytes base_fits
            ∙ le_value-le_bytes traits.address_width base narrow;
        dll_field =
            field-written at_dll 2 dll based dll_fits
            ∙ le_value-word dll
            ∙ ap (λ v. bit_and v mask % 2 ^ 16) dll_unchanged;
      }
