-- ===== src/Pe/Relocations/Directory.antt =====
-- The reader of directories reads back what `EncodeDirectory` writes.
use upx_killer.Common.{
  ℕ, zero, suc, ◌+◌, ◌-◌, ◌%◌, ◌^◌, ◌≤◌, ◌<◌, ◌≡◌, refl, ap, ◌∙◌, arith, IsU32, false, ◌||◌, some,
  List, [], ◌∷◌, ◌++◌, append_assoc, append-nil, Bytes, All, ltb, ◌==◌, ◌!=◌, length, length-append,
  take, drop, take-append_length, drop-append_length, Bool-cases, inl, inr,
}
use upx_killer.Common.Reading.{le_value}
use upx_killer.Pe.Relocations.{
  RelocationSlot, dword_bytes, page_of, take_page, drop_page, entry_bytes, block_size, padding,
  block_bytes, encode_blocks, encode_directory,
}
use upx_killer.Pe.Relocations.Reader.{
  read_entries, join, read_directory, locations, dword-value, dword-rest, read-entry_bytes,
  read-padding, block_size-length, block_size-bounds,
}

drop-dwords : (a b : ℕ) (rest : Bytes) → drop 8 (dword_bytes a ++ (dword_bytes b ++ rest)) ≡ rest
unfolding dword_bytes
drop-dwords a b rest = refl

length-dword_bytes : (v : ℕ) → length (dword_bytes v) ≡ 4
unfolding dword_bytes
length-dword_bytes v = refl

-- One block in front of the rest of a directory.
read-block :
    (fuel page size : ℕ) (body rest : Bytes)
    → IsU32 page
    → size < 2 ^ 32
    → size % 2 ≡ 0
    → size ≡ 8 + length body
    → read_directory (suc fuel) ((dword_bytes page ++ (dword_bytes size ++ body)) ++ rest)
      ≡ join (read_entries page body) (read_directory fuel rest)
unfolding read_directory
read-block fuel page size body rest small large even whole =
    let tail = body ++ rest in
    let bytes = dword_bytes page ++ (dword_bytes size ++ tail) in
    let shape : (dword_bytes page ++ (dword_bytes size ++ body)) ++ rest ≡ bytes =
      append_assoc (dword_bytes page) (dword_bytes size ++ body) rest
      ∙ ap (λ l. dword_bytes page ++ l) (append_assoc (dword_bytes size) body rest) in
    let first = dword-value page (dword_bytes size ++ tail) small in
    let second : le_value (take 4 (drop 4 bytes)) ≡ size =
      ap (λ l. le_value (take 4 l)) (dword-rest page (dword_bytes size ++ tail))
      ∙ dword-value size tail large in
    let behind : drop 8 bytes ≡ tail = drop-dwords page size tail in
    let count : length bytes ≡ 8 + (length body + length rest) = omega (
      arith,
      length-append (dword_bytes page) (dword_bytes size ++ tail),
      length-append (dword_bytes size) tail,
      length-append body rest,
      length-dword_bytes page,
      length-dword_bytes size,
    ) in
    let amount : size - 8 ≡ length body = omega arith in
    let not_empty : (length bytes == 0) ≡ false = ground arith in
    let fits : (ltb (length bytes) 8 || ltb size 8 || ltb (length bytes) size || size % 2 != 0)
        ≡ false =
      ground arith in
    ap (read_directory (suc fuel)) shape
    ∙ rw (
      read_directory,
      not_empty,
      second,
      fits,
      first,
      behind,
      amount,
      take-append_length body rest,
      drop-append_length body rest,
    )

take_page-All :
    (page : ℕ) (slots : List RelocationSlot)
    → All (λ s. page_of s.location ≡ page) (take_page page slots)
unfolding take_page
take_page-All page [] = tt
take_page-All page (slot ∷ slots) = elim (Bool-cases (page_of slot.location == page)) [
  | inl here ↦ rw (here) ((ground arith, take_page-All page slots))
  | inr elsewhere ↦ rw (elsewhere) tt
]

locations-pages :
    (page : ℕ) (slots : List RelocationSlot)
    → locations (take_page page slots) ++ locations (drop_page page slots) ≡ locations slots
unfolding take_page drop_page
locations-pages page [] = refl
locations-pages page (slot ∷ slots) = ground (arith, locations-pages page slots)

length-pages :
    (page : ℕ) (slots : List RelocationSlot)
    → length (take_page page slots) + length (drop_page page slots) ≡ length slots
unfolding take_page drop_page
length-pages page [] = omega arith
length-pages page (slot ∷ slots) = ground (arith, length-pages page slots)

drop_page-All :
    (page : ℕ) (slots : List RelocationSlot)
    → All (λ s. IsU32 s.location) slots
    → All (λ s. IsU32 s.location) (drop_page page slots)
unfolding drop_page
drop_page-All page [] h = tt
drop_page-All page (slot ∷ slots) h = elim (Bool-cases (page_of slot.location == page)) [
  | inl here ↦ rw (here) (drop_page-All page slots h.1)
  | inr elsewhere ↦ rw (elsewhere) h
]

locations-block :
    (type : ℕ) (slot : RelocationSlot) (slots : List RelocationSlot)
    → 1 ≤ type
    → type < 16
    → read_entries (page_of slot.location) (
        entry_bytes type (page_of slot.location) (slot ∷ take_page (page_of slot.location) slots)
        ++ padding (length (slot ∷ take_page (page_of slot.location) slots)))
      ≡ locations (slot ∷ take_page (page_of slot.location) slots)
locations-block type slot slots low high =
    let page = page_of slot.location in
    let run = slot ∷ take_page page slots in
    read-entry_bytes type page run (padding (length run)) low high (refl, take_page-All page slots)
    ∙ rw (read-padding page (length run), append-nil)

read_none : (fuel : ℕ) → read_directory fuel [] ≡ some []
unfolding read_directory
read_none zero = refl
read_none (suc fuel) = refl

encode_blocks-read :
    (type fuel : ℕ) (slots : List RelocationSlot)
    → 1 ≤ type
    → type < 16
    → All (λ s. IsU32 s.location) slots
    → length slots < 2 ^ 30
    → length slots ≤ fuel
    → read_directory fuel (encode_blocks type fuel slots) ≡ some (locations slots)
unfolding encode_blocks block_bytes
encode_blocks-read type zero [] low high h bound enough = read_none zero
encode_blocks-read type zero (slot ∷ slots) low high h bound enough = absurd (omega arith)
encode_blocks-read type (suc fuel) [] low high h bound enough = read_none (suc fuel)
encode_blocks-read type (suc fuel) (slot ∷ slots) low high h bound enough =
    let page = page_of slot.location in
    let run = slot ∷ take_page page slots in
    let parts = length-pages page slots in
    let short : length run < 2 ^ 30 = omega arith in
    let size = block_size-bounds (length run) short in
    let rest =
      encode_blocks-read type fuel (drop_page page slots) low high (drop_page-All page slots h.1)
        (omega arith) (omega arith) in
    read-block fuel page (block_size (length run))
      (entry_bytes type page run ++ padding (length run))
      (encode_blocks type fuel (drop_page page slots)) (omega (arith, h.0)) size.0 size.1
      (block_size-length type page run short)
    ∙ rw (rest, locations-block type slot slots low high, locations-pages page slots)

-- The directory that is written for the slots of a relocation type names exactly their locations in
-- order, when the locations are 32-bit values and there are fewer than 2^30 of them, which any image
-- allows: whatever pages they lie on, each block of the directory is whole and padded.
pub encode_directory-read :
    (type : ℕ) (slots : List RelocationSlot)
    → 1 ≤ type
    → type < 16
    → All (λ s. IsU32 s.location) slots
    → length slots < 2 ^ 30
    → read_directory (length slots) (encode_directory type slots) ≡ some (locations slots)
unfolding encode_directory
encode_directory-read type slots low high h bound =
    encode_blocks-read type (length slots) slots low high h bound (omega arith)
