-- ===== src/Protocol/Wire/Loops.antt =====
-- The loops over the items of a collection.
use upx_killer.Common.{
  ℕ, zero, suc, ◌≡◌, refl, arith, Option, some, List, [], ◌∷◌, ◌++◌, Bytes, IsByte, length, All,
  append_assoc, inl, inr, Option-cases,
}
use upx_killer.Protocol.Wire.{Get, get_each, put_each}
use upx_killer.Protocol.Wire.Laws.{Inverse, All-rest}

-- A loop over the items of a collection reads back what the loop over them wrote.
module _ {A : Type 0} (put : A → Option Bytes) (get : Get A) (P : A → Type 0)
    (inverse : Inverse put get P) where
  pub each_decode_encode :
      (xs : List A) (bytes rest : Bytes)
      → All P xs
      → put_each put xs ≡ some bytes
      → get_each get (length xs) (bytes ++ rest) ≡ some (xs, rest)
  unfolding put_each get_each
  each_decode_encode [] bytes rest h e = ground arith
  each_decode_encode (x ∷ xs) bytes rest h e = elim (Option-cases (put x)) [
    | inl refused ↦ ground arith
    | inr (front, p) ↦ elim (Option-cases (put_each put xs)) [
      | inl refused ↦ ground arith
      | inr (back, q) ↦ ground (
        arith,
        append_assoc front back rest,
        inverse.decode_encode x front (back ++ rest) h.0 p,
        each_decode_encode xs back rest h.1 q,
      )
    ]
  ]

  each_join :
      (x : A) (ys : List A) (count : ℕ) (bytes mid rest : Bytes)
      → ((used : Bytes) × (put x ≡ some used) × (bytes ≡ used ++ mid) × P x)
      → ((used : Bytes) × (put_each put ys ≡ some used)
          × (mid ≡ used ++ rest)
          × (length ys ≡ count)
          × All P ys)
      → (used : Bytes) × (put_each put (x ∷ ys) ≡ some used)
        × (bytes ≡ used ++ rest)
        × (length (x ∷ ys) ≡ suc count)
        × All P (x ∷ ys)
  unfolding put_each
  each_join x ys count bytes mid rest (front, px, sx, hx) (back, py, sy, n, hy) = (
    front ++ back,
    ground arith,
    ground (arith, append_assoc front back rest),
    omega arith,
    (hx, hy),
  )

  pub each_encode_decode :
      (count : ℕ) (bytes rest : Bytes) (xs : List A)
      → All IsByte bytes
      → get_each get count bytes ≡ some (xs, rest)
      → (used : Bytes) × (put_each put xs ≡ some used)
        × (bytes ≡ used ++ rest)
        × (length xs ≡ count)
        × All P xs
  unfolding put_each get_each
  each_encode_decode zero bytes rest [] h e = ([], refl, ground arith, refl, tt)
  each_encode_decode zero bytes rest (x ∷ xs) h e = absurd (ground arith)
  each_encode_decode (suc count) bytes rest [] h e = absurd (ground arith)
  each_encode_decode (suc count) bytes rest (x ∷ xs) h e = elim (Option-cases (get bytes)) [
    | inl stuck ↦ absurd (ground arith)
    | inr ((x', mid), p) ↦
        let first = inverse.encode_decode bytes mid x h (ground arith) in
        each_join x xs count bytes mid rest first (
          each_encode_decode count mid rest xs (All-rest bytes first.0 mid h first.2)
            (ground arith))
  ]
