-- ===== src/Common/Results.antt =====
-- Fallible code: a value or an error, chains of steps, and what a successful chain has done.
use mathlib.Core.Path.{◌≡◌, refl}
use mathlib.Core.Bool.{Bool, true, false}
use mathlib.Core.Option.{Option, none, some}
use mathlib.Core.Logic.{◌⊎◌, inl, inr}
use native.Mathlib.Omega.{arith}

pub data Result (E A : Type 0) : Type 0 where
  ok : A → Result E A
  err : E → Result E A

infixl 5 ◌>>=◌ ◌>>◌
abbrev pub ◌>>=◌ : {E A B : Type 0} → Result E A → (A → Result E B) → Result E B
ok a >>= f = f a
err e >>= f = err e

abbrev pub ◌>>◌ : {E B : Type 0} → Result E (Unit {0}) → Result E B → Result E B
m >> k = m >>= λ _. k

-- `if (condition) return error;`
unfoldable pub reject_if : {E : Type 0} → Bool → E → Result E (Unit {0})
reject_if true e = err e
reject_if false e = ok tt

-- `if (!value) return error;`
unfoldable pub or_reject : {E A : Type 0} → Option A → E → Result E A
or_reject none e = err e
or_reject (some a) e = ok a

module _ {E B R : Type 0} where
  pub step_inversion :
      {A : Type 0} (m : Result E A) (f : A → Result E B) (b : B)
      → (m >>= f) ≡ ok b
      → ((a : A) → m ≡ ok a → f a ≡ ok b → R)
      → R
  step_inversion (ok a) f b e k = k a refl e
  step_inversion (err x) f b e k = absurd (ground arith)

  pub reject_if_inversion :
      (c : Bool) (x : E) (f : Unit {0} → Result E B) (b : B)
      → (reject_if c x >>= f) ≡ ok b
      → (c ≡ false → f tt ≡ ok b → R)
      → R
  unfolding reject_if
  reject_if_inversion true x f b e k = absurd (ground arith)
  reject_if_inversion false x f b e k = k refl e

  pub or_reject_inversion :
      {A : Type 0} (o : Option A) (x : E) (f : A → Result E B) (b : B)
      → (or_reject o x >>= f) ≡ ok b
      → ((a : A) → o ≡ some a → f a ≡ ok b → R)
      → R
  unfolding or_reject
  or_reject_inversion none x f b e k = absurd (ground arith)
  or_reject_inversion (some a) x f b e k = k a refl e

module _ {E B : Type 0} where
  pub reject_if_passes :
      (c : Bool) (x : E) (f : Unit {0} → Result E B) → c ≡ false → (reject_if c x >>= f) ≡ f tt
  unfolding reject_if
  reject_if_passes true x f h = absurd (ground arith)
  reject_if_passes false x f h = refl

  pub or_reject_passes :
      {A : Type 0} (o : Option A) (x : E) (f : A → Result E B) {a : A}
      → o ≡ some a
      → (or_reject o x >>= f) ≡ f a
  unfolding or_reject
  or_reject_passes none x f h = absurd (ground arith)
  or_reject_passes (some y) x f h = ground arith

pub ok-injective : {E A : Type 0} (a b : A) → Path (Result E A) (ok a) (ok b) → a ≡ b
ok-injective a b e = ground arith

pub reject_if-false : {E : Type 0} (x : E) → reject_if false x ≡ ok tt
unfolding reject_if
reject_if-false x = refl

pub reject_if_passed : {E : Type 0} (c : Bool) (x : E) → reject_if c x ≡ ok tt → c ≡ false
unfolding reject_if
reject_if_passed true x h = absurd (ground arith)
reject_if_passed false x h = refl

pub Result-cases :
    {E A : Type 0} (m : Result E A)
    → ((a : A) × Path (Result E A) m (ok a)) ⊎ ((x : E) × Path (Result E A) m (err x))
Result-cases (ok a) = inl (a, refl)
Result-cases (err x) = inr (x, refl)

-- Every error that a chain may end with satisfies `P`.
abbrev pub FailsWith : {E A : Type 0} → (E → Type 0) → Result E A → Type 0
FailsWith P (ok a) = Unit {0}
FailsWith P (err x) = P x

module _ {E B : Type 0} (P : E → Type 0) where
  pub reject_if-FailsWith :
      (c : Bool) (x : E) (f : Unit {0} → Result E B)
      → P x
      → FailsWith P (f tt)
      → FailsWith P (reject_if c x >>= f)
  unfolding reject_if
  reject_if-FailsWith true x f p later = p
  reject_if-FailsWith false x f p later = later

  pub or_reject-FailsWith :
      {A : Type 0} (o : Option A) (x : E) (f : A → Result E B)
      → P x
      → ((a : A) → FailsWith P (f a))
      → FailsWith P (or_reject o x >>= f)
  unfolding or_reject
  or_reject-FailsWith none x f p later = p
  or_reject-FailsWith (some a) x f p later = later a
