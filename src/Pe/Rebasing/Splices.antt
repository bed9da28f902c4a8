-- ===== src/Pe/Rebasing/Splices.antt =====
-- What a write over a part of the bytes keeps.
use upx_killer.Common.{
  ℕ, zero, suc, ◌+◌, ◌-◌, ◌<◌, ◌/◌, ◌≤◌, ◌<◌, ◌≡◌, ◌⊎◌, refl, ap, arith, some, [], ◌∷◌, ◌++◌, Bytes,
  length, length-append, length-take, length-drop, take, drop, get_elem?,
}
use upx_killer.Pe.Rebasing.{le_bytes, splice, write}

-- A position that a range of bytes does not cover.
abbrev pub IsBeside : ℕ → ℕ → ℕ → Type 0
IsBeside offset size i = (i < offset) ⊎ (offset + size ≤ i)

pub length-le_bytes : (width v : ℕ) → length (le_bytes width v) ≡ width
unfolding le_bytes
length-le_bytes zero v = refl
length-le_bytes (suc width) v = ap suc (length-le_bytes width (v / 256))

replaced-beside :
    (new bytes : Bytes) (i : ℕ)
    → length new ≤ length bytes
    → length new ≤ i
    → get_elem? (new ++ drop (length new) bytes) i ≡ get_elem? bytes i
replaced-beside [] bytes i fits behind = refl
replaced-beside (x ∷ new) [] i fits behind = absurd (omega arith)
replaced-beside (x ∷ new) (b ∷ bytes) zero fits behind = absurd (omega arith)
replaced-beside (x ∷ new) (b ∷ bytes) (suc i) fits behind =
    replaced-beside new bytes i (omega arith) (omega arith)

pub splice-beside :
    (offset : ℕ) (new bytes : Bytes) (i : ℕ)
    → offset + length new ≤ length bytes
    → IsBeside offset (length new) i
    → get_elem? (splice offset new bytes) i ≡ get_elem? bytes i
unfolding splice
splice-beside zero new bytes i fits beside =
    let all : 0 + length new ≡ length new = omega arith in
    rw (all) (replaced-beside new bytes i (omega arith) (ground (arith, beside)))
splice-beside (suc offset) new [] i fits beside = absurd (omega arith)
splice-beside (suc offset) new (b ∷ bytes) zero fits beside = refl
splice-beside (suc offset) new (b ∷ bytes) (suc i) fits beside =
    let next : suc offset + length new ≡ suc (offset + length new) = omega arith in
    rw (next) (splice-beside offset new bytes i (omega arith) (ground (arith, beside)))

get_elem?-append_inside :
    (new rest : Bytes) (i : ℕ) → i < length new → get_elem? (new ++ rest) i ≡ get_elem? new i
get_elem?-append_inside [] rest i h = absurd (omega arith)
get_elem?-append_inside (x ∷ new) rest zero h = refl
get_elem?-append_inside (x ∷ new) rest (suc i) h = get_elem?-append_inside new rest i (omega arith)

pub splice-inside :
    (offset : ℕ) (new bytes : Bytes) (i : ℕ)
    → offset + length new ≤ length bytes
    → offset ≤ i
    → i < offset + length new
    → get_elem? (splice offset new bytes) i ≡ get_elem? new (i - offset)
unfolding splice
splice-inside zero new bytes i fits low high =
    let same : i - 0 ≡ i = omega arith in
    rw (same) (get_elem?-append_inside new (drop (0 + length new) bytes) i (omega arith))
splice-inside (suc offset) new [] i fits low high = absurd (omega arith)
splice-inside (suc offset) new (b ∷ bytes) zero fits low high = absurd (omega arith)
splice-inside (suc offset) new (b ∷ bytes) (suc i) fits low high =
    let next : suc offset + length new ≡ suc (offset + length new) = omega arith in
    let back : suc i - suc offset ≡ i - offset = omega arith in
    rw (next, back) (splice-inside offset new bytes i (omega arith) (omega arith) (omega arith))

pub length-splice :
    (offset : ℕ) (new bytes : Bytes)
    → offset + length new ≤ length bytes
    → length (splice offset new bytes) ≡ length bytes
unfolding splice
length-splice offset new bytes fits = omega (
  arith,
  length-append (take offset bytes) (new ++ drop (offset + length new) bytes),
  length-append new (drop (offset + length new) bytes),
  length-take offset bytes,
  length-drop (offset + length new) bytes,
)

pub write-inside :
    (width : ℕ) (bytes : Bytes) (offset v : ℕ) (new : Bytes)
    → write width bytes offset v ≡ some new
    → (offset + width ≤ length bytes) × (new ≡ splice offset (le_bytes width v) bytes)
unfolding write
write-inside width bytes offset v new e = (ground arith, ground arith)
