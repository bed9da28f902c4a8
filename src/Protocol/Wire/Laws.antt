-- ===== src/Protocol/Wire/Laws.antt =====
-- The wire values round trip in both directions.
use upx_killer.Common.{
  ℕ, ◌+◌, ◌*◌, ◌/◌, ◌%◌, ◌^◌, ◌≤◌, ◌<◌, ◌≡◌, refl, arith, Option, none, some, ◌∷◌, ◌++◌, ◌⊎◌,
  Bool-cases, Bytes, IsByte, IsU32, IsU64, ltb, length, All, append_assoc, inl, inr, Option-cases,
  take-append_length, drop-append_length, length-append, length-take, take-append-drop,
  All-append_right,
}
use upx_killer.Protocol.Wire.{
  Get, put_u32, put_u64, get_u32, get_u64, put_string, get_string, maximum_string_size,
}

pub get_u32-put_u32 :
    (v : ℕ) (rest : Bytes) → IsU32 v → get_u32 (put_u32 v ++ rest) ≡ some (v, rest)
unfolding get_u32 put_u32
get_u32-put_u32 v rest h = ground arith

word_split : (v : ℕ) → v ≡ v % 2 ^ 32 + v / 2 ^ 32 * 2 ^ 32
word_split v = omega arith

get_u64-put_u64 : (v : ℕ) (rest : Bytes) → IsU64 v → get_u64 (put_u64 v ++ rest) ≡ some (v, rest)
unfolding get_u64 put_u64
get_u64-put_u64 v rest h = ground arith

put_u32-get_u32 :
    (bytes rest : Bytes) (v : ℕ)
    → All IsByte bytes
    → get_u32 bytes ≡ some (v, rest)
    → (bytes ≡ put_u32 v ++ rest) × IsU32 v
unfolding get_u32 put_u32
put_u32-get_u32 (a ∷ b ∷ c ∷ d ∷ bs) rest v h e = ground arith
put_u32-get_u32 _ rest v h e = cc

put_u64-get_u64 :
    (bytes rest : Bytes) (v : ℕ)
    → All IsByte bytes
    → get_u64 bytes ≡ some (v, rest)
    → (bytes ≡ put_u64 v ++ rest) × IsU64 v
unfolding get_u64 put_u64
put_u64-get_u64 (a ∷ b ∷ c ∷ d ∷ e ∷ f ∷ g ∷ h ∷ bs) rest v p q = ground arith
put_u64-get_u64 _ rest v h e = cc

pub length-put_u64 : (v : ℕ) → length (put_u64 v) ≡ 8
unfolding put_u64
length-put_u64 v = refl

-- When a string can be written, and what is written.
pub put_string-cases :
    (s : Bytes)
    → ((length s ≤ maximum_string_size) × (put_string s ≡ some (put_u32 (length s) ++ s)))
      ⊎ ((maximum_string_size < length s) × (put_string s ≡ none))
unfolding put_string
put_string-cases s = elim (Bool-cases (ltb maximum_string_size (length s))) [
  | inl long ↦ inr (ground arith, ground arith)
  | inr short ↦ inl (ground arith, ground arith)
]

-- What makes a `Put` and a `Get` function a pair: each reads back or rebuilds what the other made.
-- `P` is the range of the values that the wire can hold.
pub record Inverse {A : Type 0} (put : A → Option Bytes) (get : Get A) (P : A → Type 0)
    : Type 0 where
  pub decode_encode :
      (x : A) (bytes rest : Bytes) → P x → put x ≡ some bytes → get (bytes ++ rest) ≡ some (x, rest)
  pub encode_decode :
      (bytes rest : Bytes) (x : A)
      → All IsByte bytes
      → get bytes ≡ some (x, rest)
      → (used : Bytes) × (put x ≡ some used) × (bytes ≡ used ++ rest) × P x

pub length-put_u32 : (v : ℕ) → length (put_u32 v) ≡ 4
unfolding put_u32
length-put_u32 v = refl

string_decode_encode :
    (x bytes rest : Bytes) → put_string x ≡ some bytes → get_string (bytes ++ rest) ≡ some (x, rest)
unfolding put_string get_string
string_decode_encode x bytes rest e = ground (
  arith,
  append_assoc (put_u32 (length x)) x rest,
  get_u32-put_u32 (length x) (x ++ rest),
  take-append_length x rest,
  drop-append_length x rest,
  length-append x rest,
)

string_encode_decode :
    (bytes rest x : Bytes)
    → All IsByte bytes
    → get_string bytes ≡ some (x, rest)
    → (used : Bytes) × (put_string x ≡ some used) × (bytes ≡ used ++ rest)
unfolding put_string get_string
string_encode_decode bytes rest x h e = elim (Option-cases (get_u32 bytes)) [
  | inl stuck ↦ ground arith
  | inr ((size, tail), r) ↦ (
    put_u32 (length x) ++ x,
    ground (arith, length-take size tail),
    ground (
      arith,
      length-take size tail,
      put_u32-get_u32 bytes tail size h r,
      take-append-drop size tail,
      append_assoc (put_u32 (length x)) x rest,
    ),
  )
]

pub All-rest : (bytes used rest : Bytes) → All IsByte bytes → bytes ≡ used ++ rest → All IsByte rest
All-rest bytes used rest h e = All-append_right IsByte used rest (rw e at h)

pub IsU32-Inverse : Inverse (λ v. some (put_u32 v)) get_u32 IsU32
IsU32-Inverse = record {
  decode_encode = λ x bytes rest h e. ground (arith, get_u32-put_u32 x rest h);
  encode_decode =
      λ bytes rest x h e. let (q, r) = put_u32-get_u32 bytes rest x h e in (put_u32 x, refl, q, r);
}

pub IsU64-Inverse : Inverse (λ v. some (put_u64 v)) get_u64 IsU64
IsU64-Inverse = record {
  decode_encode = λ x bytes rest h e. ground (arith, get_u64-put_u64 x rest h);
  encode_decode =
      λ bytes rest x h e. let (q, r) = put_u64-get_u64 bytes rest x h e in (put_u64 x, refl, q, r);
}

pub string-Inverse : Inverse put_string get_string (λ _. Unit {0})
string-Inverse = record {
  decode_encode = λ x bytes rest h e. string_decode_encode x bytes rest e;
  encode_decode = λ bytes rest x h e.
      let (used, q, r) = string_encode_decode bytes rest x h e in (used, q, r, tt);
}
