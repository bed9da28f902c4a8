-- ===== src/Protocol/Wire/Chains.antt =====
-- Chains of writes and of reads, one link at a time.
use upx_killer.Common.{
  ℕ, ◌≡◌, refl, arith, Option, none, some, [], ◌∷◌, ◌++◌, Bool, true, false, Bytes, IsByte, IsU32,
  IsU64, All, append_assoc, inl, inr, Option-cases,
}
use upx_killer.Protocol.Wire.{
  Get, ◌>>=◌, ◌⊕◌, or_fail, fail_if, at_end, put_u32, put_u64, get_u32, get_u64,
}
use upx_killer.Protocol.Wire.Laws.{Inverse, IsU32-Inverse, IsU64-Inverse, All-rest}

-- What a successful chain of decoders has done, one link at a time.
module _ {A B R : Type 0} (put : A → Option Bytes) (get : Get A) {P : A → Type 0} where
  pub bind_inversion :
      Inverse put get P
      → (f : A → Get B) (bytes rest : Bytes) (b : B) → All IsByte bytes
      → (get >>= f) bytes ≡ some (b, rest)
      → ((x : A) (mid used : Bytes)
          → put x ≡ some used
          → bytes ≡ used ++ mid
          → P x
          → All IsByte mid
          → f x mid ≡ some (b, rest)
          → R)
      → R
  bind_inversion inverse f bytes rest b h e k = elim (Option-cases (get bytes)) [
    | inl stuck ↦ absurd (ground arith)
    | inr ((x, mid), r) ↦
        let (used, p, s, q) = inverse.encode_decode bytes mid x h r in
        k x mid used p s q (All-rest bytes used mid h s) (ground arith)
  ]

pub u32_inversion :
    {B R : Type 0} (f : ℕ → Get B) (bytes rest : Bytes) (b : B)
    → All IsByte bytes
    → (get_u32 >>= f) bytes ≡ some (b, rest)
    → ((v : ℕ) (mid : Bytes)
        → bytes ≡ put_u32 v ++ mid
        → IsU32 v
        → All IsByte mid
        → f v mid ≡ some (b, rest)
        → R)
    → R
u32_inversion f bytes rest b h e k =
    bind_inversion (λ v. some (put_u32 v)) get_u32 IsU32-Inverse f bytes rest b h e
      λ v mid used p s range h' e'. k v mid (ground arith) range h' e'

pub u64_inversion :
    {B R : Type 0} (f : ℕ → Get B) (bytes rest : Bytes) (b : B)
    → All IsByte bytes
    → (get_u64 >>= f) bytes ≡ some (b, rest)
    → ((v : ℕ) (mid : Bytes)
        → bytes ≡ put_u64 v ++ mid
        → IsU64 v
        → All IsByte mid
        → f v mid ≡ some (b, rest)
        → R)
    → R
u64_inversion f bytes rest b h e k =
    bind_inversion (λ v. some (put_u64 v)) get_u64 IsU64-Inverse f bytes rest b h e
      λ v mid used p s range h' e'. k v mid (ground arith) range h' e'

-- What a decoder makes of a chain of writes, one link at a time.
module _ {A B : Type 0} (put : A → Option Bytes) (get : Get A) {P : A → Type 0} where
  pub read_back :
      Inverse put get P
      → (f : A → Get B) (x : A) (k : Option Bytes) (bytes rest : Bytes) {out : Option (B × Bytes)}
      → P x
      → (put x ⊕ k) ≡ some bytes
      → ((back : Bytes) → k ≡ some back → f x (back ++ rest) ≡ out)
      → (get >>= f) (bytes ++ rest) ≡ out
  read_back inverse f x k bytes rest {out} h e next = split (put x) k refl refl e
    where
      split :
          (o k' : Option Bytes)
          → put x ≡ o
          → k ≡ k'
          → (o ⊕ k') ≡ some bytes
          → (get >>= f) (bytes ++ rest) ≡ out
      split none k' p q e' = absurd (ground arith)
      split (some front) none p q e' = absurd (ground arith)
      split (some front) (some back) p q e' =
          let read : get (front ++ (back ++ rest)) ≡ some (x, back ++ rest) =
            inverse.decode_encode x front (back ++ rest) h p in
          let same : bytes ++ rest ≡ front ++ (back ++ rest) =
            ground (arith, append_assoc front back rest) in
          rw (same, ◌>>=◌, read) (next back q)

-- The last write of a chain.
module _ {A B : Type 0} (put : A → Option Bytes) (get : Get A) {P : A → Type 0} where
  pub read_last :
      Inverse put get P
      → (f : A → Get B) (x : A) (bytes rest : Bytes) {out : Option (B × Bytes)} → P x
      → put x ≡ some bytes
      → f x rest ≡ out
      → (get >>= f) (bytes ++ rest) ≡ out
  read_last inverse f x bytes rest h e next =
      rw (◌>>=◌, inverse.decode_encode x bytes rest h e) next

pub or_fail_inversion :
    {A B R : Type 0} (o : Option A) (f : A → Get B) (bytes rest : Bytes) (b : B)
    → (or_fail o >>= f) bytes ≡ some (b, rest)
    → ((x : A) → o ≡ some x → f x bytes ≡ some (b, rest) → R)
    → R
unfolding or_fail
or_fail_inversion none f bytes rest b e k = absurd (ground arith)
or_fail_inversion (some x) f bytes rest b e k = k x refl e

pub fail_if_passes :
    {B : Type 0} (c : Bool) (f : Unit {0} → Get B) (bytes : Bytes)
    → c ≡ false
    → (fail_if c >>= f) bytes ≡ f tt bytes
unfolding fail_if
fail_if_passes true f bytes h = absurd (ground arith)
fail_if_passes false f bytes h = refl

pub or_fail_passes :
    {A B : Type 0} (o : Option A) (f : A → Get B) (bytes : Bytes) {x : A}
    → o ≡ some x
    → (or_fail o >>= f) bytes ≡ f x bytes
unfolding or_fail
or_fail_passes none f bytes h = absurd (ground arith)
or_fail_passes (some y) f bytes h = ground arith

pub fail_if_inversion :
    {B R : Type 0} (c : Bool) (f : Unit {0} → Get B) (bytes rest : Bytes) (b : B)
    → (fail_if c >>= f) bytes ≡ some (b, rest)
    → (c ≡ false → f tt bytes ≡ some (b, rest) → R)
    → R
unfolding fail_if
fail_if_inversion true f bytes rest b e k = absurd (ground arith)
fail_if_inversion false f bytes rest b e k = k refl e

pub at_end_inversion :
    {B R : Type 0} (f : Unit {0} → Get B) (bytes rest : Bytes) (b : B)
    → (at_end >>= f) bytes ≡ some (b, rest)
    → (bytes ≡ [] → f tt [] ≡ some (b, rest) → R)
    → R
unfolding at_end
at_end_inversion f [] rest b e k = k refl e
at_end_inversion f (x ∷ xs) rest b e k = absurd (ground arith)
