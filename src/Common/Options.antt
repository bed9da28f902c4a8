-- ===== src/Common/Options.antt =====
-- Chains of steps that return `std::nullopt` where they fail.
use mathlib.Core.Path.{◌≡◌, refl}
use mathlib.Core.Bool.{Bool, true, false}
use mathlib.Core.Option.{Option, none, some}
use native.Mathlib.Omega.{arith}

infixl 5 ◌>>=◌ ◌>>◌
abbrev pub ◌>>=◌ : {A B : Type 0} → Option A → (A → Option B) → Option B
none >>= f = none
some a >>= f = f a

abbrev pub ◌>>◌ : {B : Type 0} → Option (Unit {0}) → Option B → Option B
m >> k = m >>= λ _. k

-- `if (condition) return std::nullopt;`
unfoldable pub none_if : Bool → Option (Unit {0})
none_if true = none
none_if false = some tt

module _ {B R : Type 0} where
  pub option_inversion :
      {A : Type 0} (m : Option A) (f : A → Option B) (b : B)
      → (m >>= f) ≡ some b
      → ((a : A) → m ≡ some a → f a ≡ some b → R)
      → R
  option_inversion none f b e k = absurd (ground arith)
  option_inversion (some a) f b e k = k a refl e

  pub none_if_inversion :
      (c : Bool) (f : Unit {0} → Option B) (b : B)
      → (none_if c >>= f) ≡ some b
      → (c ≡ false → f tt ≡ some b → R)
      → R
  unfolding none_if
  none_if_inversion true f b e k = absurd (ground arith)
  none_if_inversion false f b e k = k refl e

pub some-injective : {A : Type 0} (a b : A) → Path (Option A) (some a) (some b) → a ≡ b
some-injective a b e = ground arith
