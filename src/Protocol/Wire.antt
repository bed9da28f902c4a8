-- ===== src/Protocol/Wire.antt =====
-- EngineHostCodec.cpp, PutU32 to GetString. A `Put` function returns the bytes that the call
-- appends. A `Get` function takes the part of the payload from `offset` on, and returns the value
-- with the part from the advanced `offset` on; so `offset != payload.size()` reads "the rest is not
-- empty". Bytes are below 256, so `|=` of shifted bytes is a sum.
pub mod Laws
pub mod Chains
pub mod Loops
use upx_killer.Common.{
  ℕ, zero, suc, ◌+◌, ◌*◌, ◌/◌, ◌%◌, ◌^◌, Bool, true, false, ◌||◌, Option, none, some, List, [], ◌∷◌,
  ◌++◌, Bytes, ltb, length, take, drop, if◌then◌else◌,
}

abbrev pub maximum_string_size : ℕ
maximum_string_size = 128 * 2 ^ 10

abbrev pub maximum_collection_size : ℕ
maximum_collection_size = 4096

-- A decoder, with the position in its input as state; `none` is the source's `false`.
abbrev pub Get : Type 0 → Type 0
Get A = Bytes → Option (A × Bytes)

infixl 5 ◌>>=◌ ◌>>◌
abbrev pub ◌>>=◌ : {A B : Type 0} → Get A → (A → Get B) → Get B
◌>>=◌ m f bytes = elim (m bytes) [ none ↦ none | some (a, rest) ↦ f a rest ]

abbrev pub ◌>>◌ : {A B : Type 0} → Get A → Get B → Get B
m >> k = m >>= λ _. k

abbrev pub pure : {A : Type 0} → A → Get A
pure a rest = some (a, rest)

-- `return false` if the test holds.
unfoldable pub fail_if : Bool → Get (Unit {0})
fail_if c rest = if c then none else some (tt, rest)

unfoldable pub or_fail : {A : Type 0} → Option A → Get A
or_fail none rest = none
or_fail (some a) rest = some (a, rest)

-- `if (offset != payload.size()) return std::nullopt`
unfoldable pub at_end : Get (Unit {0})
at_end [] = some (tt, [])
at_end (_ ∷ _) = none

abbrev byte_at : ℕ → ℕ → ℕ
byte_at value shift = value / 2 ^ shift % 256

unfoldable pub put_u32 : ℕ → Bytes
put_u32 value = byte_at value 0 ∷ byte_at value 8 ∷ byte_at value 16 ∷ byte_at value 24 ∷ []

pub put_u64 : ℕ → Bytes
put_u64 value =
    byte_at value 0
    ∷ byte_at value 8
    ∷ byte_at value 16
    ∷ byte_at value 24
    ∷ byte_at value 32
    ∷ byte_at value 40
    ∷ byte_at value 48
    ∷ byte_at value 56
    ∷ []

unfoldable pub get_u32 : Get ℕ
get_u32 (a ∷ b ∷ c ∷ d ∷ rest) = some (a + b * 2 ^ 8 + c * 2 ^ 16 + d * 2 ^ 24, rest)
get_u32 _ = none

pub get_u64 : Get ℕ
get_u64 (a ∷ b ∷ c ∷ d ∷ e ∷ f ∷ g ∷ h ∷ rest) = some (
  a + b * 2 ^ 8 + c * 2 ^ 16 + d * 2 ^ 24 + e * 2 ^ 32 + f * 2 ^ 40 + g * 2 ^ 48 + h * 2 ^ 56,
  rest,
)
get_u64 _ = none

unfoldable pub put_string : Bytes → Option Bytes
put_string value =
    if ltb maximum_string_size (length value) then none else some (put_u32 (length value) ++ value)

unfoldable pub get_string : Get Bytes
get_string = do
  size ← get_u32
  λ rest.
      if ltb maximum_string_size size || ltb (length rest) size
      then none
      else some (take size rest, drop size rest)

-- `for (i = 0; i < count; ++i) { if (!get(item)) return nullopt; items.push_back(item); }`
pub get_each : {A : Type 0} → Get A → ℕ → Get (List A)
get_each get zero = pure []
get_each get (suc count) = do x ← get; xs ← get_each get count; pure (x ∷ xs)

-- Two writes, one after the other; `none` is the source's `return false`, after which nothing is used.
infixr 66 ◌⊕◌
abbrev pub ◌⊕◌ : Option Bytes → Option Bytes → Option Bytes
none ⊕ k = none
some front ⊕ none = none
some front ⊕ some back = some (front ++ back)

-- `for (auto const& item : items) if (!put(item)) return false;`
pub put_each : {A : Type 0} → (A → Option Bytes) → List A → Option Bytes
put_each put [] = some []
put_each put (x ∷ xs) = put x ⊕ put_each put xs
