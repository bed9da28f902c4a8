-- ===== src/Dumping/Contents.antt =====
-- The bytes that the regions of a dump hold, and the bytes after one round of the loop.
use upx_killer.Common.{
  ℕ, zero, suc, ◌+◌, ◌≡◌, sym, ap, ◌∙◌, arith, List, [], ◌∷◌, ◌++◌, append_assoc, append-nil, Bytes,
  length, take, drop, replicate, length-append, length-replicate, length-take, length-drop,
  take-append_length, drop-append_length, if◌then◌else◌, Bool-cases, inl, inr, subst,
}
use upx_killer.Dumping.{
  RemoteMemoryReader, CapturedImageRegion, CapturedImage, add64, put, store, region_of, capture,
}

abbrev pub zeros : ℕ → Bytes
zeros n = replicate n 0

length-zeros : (n : ℕ) → length (zeros n) ≡ n
length-zeros n = length-replicate n 0

-- The bytes that belong to a region: what the reader writes over zeros, or zeros.
abbrev pub content : RemoteMemoryReader → ℕ → CapturedImageRegion → Bytes
content reader base region =
    if region.readable
    then put region.size (reader.read_memory (add64 base region.offset) region.size).written
        (zeros region.size)
    else zeros region.size

abbrev pub contents : RemoteMemoryReader → ℕ → List CapturedImageRegion → Bytes
contents reader base [] = []
contents reader base (region ∷ regions) = content reader base region ++ contents reader base regions

-- The regions lie one behind the other from the first offset to the last.
abbrev pub IsTiling : ℕ → List CapturedImageRegion → ℕ → Type 0
IsTiling first [] last = first ≡ last
IsTiling first (region ∷ regions) last =
    (region.offset ≡ first) × IsTiling (first + region.size) regions last

-- The access rights of a region are those that the reader reports for its address.
abbrev pub IsReported : RemoteMemoryReader → ℕ → CapturedImageRegion → Type 0
IsReported reader base r = region_of r.offset r.size (reader.query (add64 base r.offset)) ≡ r

pub contents-append :
    (reader : RemoteMemoryReader) (base : ℕ) (xs : List CapturedImageRegion)
    (y : CapturedImageRegion)
    → contents reader base (xs ++ (y ∷ [])) ≡ contents reader base xs ++ content reader base y
contents-append reader base [] y = simp (append-nil)
contents-append reader base (x ∷ xs) y = rw (contents-append reader base xs y, append_assoc)

pub IsTiling-append :
    (first middle : ℕ) (xs : List CapturedImageRegion) (y : CapturedImageRegion)
    → IsTiling first xs middle
    → y.offset ≡ middle
    → IsTiling first (xs ++ (y ∷ [])) (middle + y.size)
IsTiling-append first middle [] y h e = (e ∙ sym h, ap (λ n. n + y.size) h)
IsTiling-append first middle (x ∷ xs) y h e =
    (h.0, IsTiling-append (first + x.size) middle xs y h.1 e)

zeros-add : (a b : ℕ) → zeros (a + b) ≡ zeros a ++ zeros b
zeros-add zero b = let e : 0 + b ≡ b = omega arith in ap zeros e
zeros-add (suc a) b =
    let e : suc a + b ≡ suc (a + b) = omega arith in ap zeros e ∙ ap (λ l. 0 ∷ l) (zeros-add a b)

take_front : (n : ℕ) (xs ys : Bytes) → length xs ≡ n → take n (xs ++ ys) ≡ xs
take_front n xs ys e = subst (λ k. take k (xs ++ ys) ≡ xs) e (take-append_length xs ys)

drop_front : (n : ℕ) (xs ys : Bytes) → length xs ≡ n → drop n (xs ++ ys) ≡ ys
drop_front n xs ys e = subst (λ k. drop k (xs ++ ys) ≡ ys) e (drop-append_length xs ys)

store-zeros :
    (offset : ℕ) (front written : Bytes) (size rest : ℕ)
    → length front ≡ offset
    → store offset size written (front ++ zeros (size + rest))
      ≡ (front ++ put size written (zeros size)) ++ zeros rest
unfolding store
store-zeros offset front written size rest e = rw (
  take_front offset front (zeros (size + rest)) e,
  drop_front offset front (zeros (size + rest)) e,
  zeros-add size rest,
  take_front size (zeros size) (zeros rest) (length-zeros size),
  drop_front size (zeros size) (zeros rest) (length-zeros size),
  append_assoc,
)

length-put : (size : ℕ) (written : Bytes) → length (put size written (zeros size)) ≡ size
unfolding put
length-put size written = omega (
  arith,
  length-take size (written ++ drop (length written) (zeros size)),
  length-append written (drop (length written) (zeros size)),
  length-drop (length written) (zeros size),
  length-zeros size,
)

pub length-content :
    (reader : RemoteMemoryReader) (base : ℕ) (r : CapturedImageRegion)
    → length (content reader base r) ≡ r.size
length-content reader base r = elim (Bool-cases r.readable) [
  | inl granted ↦
      rw (granted) (length-put r.size (reader.read_memory (add64 base r.offset) r.size).written)
  | inr denied ↦ rw (denied) (length-zeros r.size)
]

pub capture-bytes :
    (reader : RemoteMemoryReader) (base offset chunk rest : ℕ) (image : CapturedImage)
    → length (contents reader base image.regions) ≡ offset
    → image.bytes ≡ contents reader base image.regions ++ zeros (chunk + rest)
    → (capture reader
        (add64 base offset)
        offset
        chunk
        (reader.query (add64 base offset))
        image).bytes
      ≡ contents reader base
          (image.regions ++ (region_of offset chunk (reader.query (add64 base offset)) ∷ []))
        ++ zeros rest
unfolding capture
capture-bytes reader base offset chunk rest image e f =
    elim (Bool-cases (reader.query (add64 base offset)).readable) [
      | inl granted ↦
          rw (granted, f, contents-append)
            (store-zeros offset (contents reader base image.regions) _ chunk rest e)
      | inr denied ↦ rw (denied, f, contents-append, zeros-add, append_assoc)
    ]
