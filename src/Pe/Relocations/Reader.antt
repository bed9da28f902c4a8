-- ===== src/Pe/Relocations/Reader.antt =====
-- A reader of relocation directories, and how it reads the parts of a block.
use upx_killer.Common.{
  ℕ, zero, suc, ◌+◌, ◌-◌, ◌*◌, ◌/◌, ◌%◌, ◌^◌, ◌≤◌, ◌<◌, ◌≡◌, refl, arith, IsU32, ◌||◌, Option, none,
  some, List, [], ◌∷◌, ◌++◌, Bytes, All, ltb, ◌==◌, ◌!=◌, length, length-append, take, drop,
  if◌then◌else◌,
}
use upx_killer.Common.Reading.{le_value}
use upx_killer.Pe.Relocations.{
  RelocationSlot, word_bytes, dword_bytes, page_of, entry_bytes, block_size, padding,
}

-- The locations of the entries of a block; an entry of type zero is padding.
unfoldable pub read_entries : ℕ → Bytes → List ℕ
read_entries page [] = []
read_entries page (a ∷ []) = []
read_entries page (a ∷ (b ∷ rest)) =
    let later = read_entries page rest in
    let entry = a + 256 * b in if entry / 4096 == 0 then later else (page + entry % 4096) ∷ later

abbrev pub join : List ℕ → Option (List ℕ) → Option (List ℕ)
join xs none = none
join xs (some ys) = some (xs ++ ys)

-- The locations that a directory names, block after block, as a loader reads them: `none` where a
-- block does not fit.
unfoldable pub read_directory : ℕ → Bytes → Option (List ℕ)
read_directory zero bytes = if length bytes == 0 then some [] else none
read_directory (suc fuel) bytes =
    let page = le_value (take 4 bytes) in
    let size = le_value (take 4 (drop 4 bytes)) in
    let body = take (size - 8) (drop 8 bytes) in
    let rest = read_directory fuel (drop (size - 8) (drop 8 bytes)) in
    if length bytes == 0
    then some []
    else if ltb (length bytes) 8 || ltb size 8 || ltb (length bytes) size || size % 2 != 0
    then none
    else join (read_entries page body) rest

abbrev pub locations : List RelocationSlot → List ℕ
locations [] = []
locations (slot ∷ slots) = slot.location ∷ locations slots

pub dword-value : (v : ℕ) (rest : Bytes) → IsU32 v → le_value (take 4 (dword_bytes v ++ rest)) ≡ v
unfolding dword_bytes le_value
dword-value v rest h = omega arith

pub dword-rest : (v : ℕ) (rest : Bytes) → drop 4 (dword_bytes v ++ rest) ≡ rest
unfolding dword_bytes
dword-rest v rest = refl

pub read-entry_bytes :
    (type page : ℕ) (run : List RelocationSlot) (rest : Bytes)
    → 1 ≤ type
    → type < 16
    → All (λ s. page_of s.location ≡ page) run
    → read_entries page (entry_bytes type page run ++ rest)
      ≡ locations run ++ read_entries page rest
unfolding read_entries entry_bytes word_bytes
read-entry_bytes type page [] rest low high h = refl
read-entry_bytes type page (slot ∷ run) rest low high h =
    ground (arith, read-entry_bytes type page run rest low high h.1, h.0)

pub read-padding : (page count : ℕ) → read_entries page (padding count) ≡ []
unfolding read_entries padding word_bytes
read-padding page count = ground arith

length-entry_bytes :
    (type page : ℕ) (run : List RelocationSlot)
    → length (entry_bytes type page run) ≡ 2 * length run
unfolding entry_bytes word_bytes
length-entry_bytes type page [] = omega arith
length-entry_bytes type page (slot ∷ run) = omega (arith, length-entry_bytes type page run)

-- The size of a block counts its header, its entries and its padding.
pub block_size-length :
    (type page : ℕ) (run : List RelocationSlot)
    → length run < 2 ^ 30
    → block_size (length run) ≡ 8 + length (entry_bytes type page run ++ padding (length run))
unfolding block_size padding word_bytes
block_size-length type page run h = ground (
  arith,
  length-append (entry_bytes type page run) (padding (length run)),
  length-entry_bytes type page run,
)

pub block_size-bounds :
    (count : ℕ) → count < 2 ^ 30 → (block_size count < 2 ^ 32) × (block_size count % 2 ≡ 0)
unfolding block_size
block_size-bounds count h = ground arith
