-- ===== src/Pe/Rebasing/Moved.antt =====
-- The bytes of a PE file after the words of its slots have been moved.
use upx_killer.Common.{
  ℕ, ◌+◌, ◌-◌, ◌≤◌, ◌≡◌, inl, inr, refl, arith, some, Option, none, List, leb, ◌&&◌, if◌then◌else◌,
  [], ◌∷◌, ◌++◌, Bytes, ltb, length, get_elem?, Bool-cases,
}
use upx_killer.Common.Reading.{read}
use upx_killer.Pe.Format.{PeImageLayout}
use upx_killer.Pe.Relocations.{SourceRelocationSlot, traits_of}
use upx_killer.Pe.Rebasing.{rva_to_raw, le_bytes, write, evidence_of, moved}
use upx_killer.Pe.Rebasing.Splices.{
  IsBeside, length-le_bytes, splice-beside, splice-inside, write-inside,
}

-- The slot holds, in the source file, a word whose target in the image is recorded with it.
pub record IsEvidence (source : Bytes) (layout : PeImageLayout) (slot : SourceRelocationSlot)
    : Type 0 where
  pub raw : ℕ
  pub value : ℕ
  pub placed : rva_to_raw layout slot.location (traits_of layout.format).pointer_size ≡ some raw
  pub held : read (traits_of layout.format).pointer_size source raw ≡ some value
  pub targeted : slot.image_target ≡ evidence_of layout value

-- A position in the file that the word of a slot does not cover.
abbrev pub IsBesideSlot : PeImageLayout → ℕ → SourceRelocationSlot → Type 0
IsBesideSlot layout i slot =
    (raw : ℕ)
    → rva_to_raw layout slot.location (traits_of layout.format).pointer_size ≡ some raw
    → IsBeside raw (traits_of layout.format).pointer_size i

-- The byte at a position after the word of one slot has been moved over it, where `before` was.
abbrev pub moved_byte : Bytes → PeImageLayout → ℕ → ℕ → SourceRelocationSlot → Option ℕ → Option ℕ
moved_byte source layout base i slot before =
    let width = (traits_of layout.format).pointer_size in
    elim (rva_to_raw layout slot.location width) [
      | none ↦ before
      | some raw ↦ elim (read width source raw) [
        | none ↦ before
        | some value ↦
            if leb raw i && ltb i (raw + width)
            then get_elem? (le_bytes width (moved width layout base value)) (i - raw)
            else before
      ]
    ]

-- The byte at a position after the words of all slots have been moved, in order.
abbrev pub rebased_byte :
    Bytes → PeImageLayout → ℕ → ℕ → List SourceRelocationSlot → Option ℕ → Option ℕ
rebased_byte source layout base i [] before = before
rebased_byte source layout base i (slot ∷ slots) before =
    rebased_byte source layout base i slots (moved_byte source layout base i slot before)

pub rebased_byte-append :
    (source : Bytes) (layout : PeImageLayout) (base i : ℕ) (slots : List SourceRelocationSlot)
    (slot : SourceRelocationSlot) (before : Option ℕ)
    → rebased_byte source layout base i (slots ++ (slot ∷ [])) before
      ≡ moved_byte source layout base i slot (rebased_byte source layout base i slots before)
rebased_byte-append source layout base i [] slot before = refl
rebased_byte-append source layout base i (x ∷ slots) slot before =
    rebased_byte-append source layout base i slots slot (moved_byte source layout base i x before)

-- One write is the move of the word of its slot.
pub write-moved_byte :
    (source : Bytes) (layout : PeImageLayout) (base i raw value : ℕ) (slot : SourceRelocationSlot)
    (bytes new : Bytes)
    → rva_to_raw layout slot.location (traits_of layout.format).pointer_size ≡ some raw
    → read (traits_of layout.format).pointer_size source raw ≡ some value
    → write
        (traits_of layout.format).pointer_size
        bytes
        raw
        (moved (traits_of layout.format).pointer_size layout base value)
      ≡ some new
    → get_elem? new i ≡ moved_byte source layout base i slot (get_elem? bytes i)
write-moved_byte source layout base i raw value slot bytes new placed held wrote =
    let width = (traits_of layout.format).pointer_size in
    let word = le_bytes width (moved width layout base value) in
    let inside = write-inside width bytes raw (moved width layout base value) new wrote in
    let count = length-le_bytes width (moved width layout base value) in
    let fits : raw + length word ≤ length bytes = omega (arith, inside.0) in
    elim (Bool-cases (leb raw i && ltb i (raw + width))) [
      | inl covered ↦
          rw (moved_byte, placed, held, covered, inside.1)
            (splice-inside raw word bytes i fits (ground arith) (ground arith))
      | inr beside ↦
          rw (moved_byte, placed, held, beside, inside.1)
            (splice-beside raw word bytes i fits (ground arith))
    ]
