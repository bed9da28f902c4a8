-- ===== src/Breakpoints/Lookup.antt =====
-- Looking up in a list of breakpoints after one is added or erased.
use upx_killer.Common.{
  ℕ, suc, length, ◌≡◌, ◌≢◌, refl, sym, ap, ◌∙◌, arith, none, some, List, [], ◌∷◌, ◌++◌, ◌==◌,
  Bool-cases, inl, inr,
}
use upx_killer.Breakpoints.{back, Breakpoint, find_breakpoint, erase_breakpoint}

-- No address has two breakpoints.
abbrev pub IsDistinct : List Breakpoint → Type 0
IsDistinct [] = Unit
IsDistinct (b ∷ bs) = (find_breakpoint b.address bs ≡ none) × IsDistinct bs

pub find-erase_other :
    (a c : ℕ) (bs : List Breakpoint)
    → a ≢ c
    → find_breakpoint a (erase_breakpoint c bs) ≡ find_breakpoint a bs
unfolding find_breakpoint erase_breakpoint
find-erase_other a c [] n = refl
find-erase_other a c (b ∷ bs) n = ground (arith, find-erase_other a c bs n)

pub find-erase_same :
    (c : ℕ) (bs : List Breakpoint)
    → IsDistinct bs
    → find_breakpoint c (erase_breakpoint c bs) ≡ none
unfolding find_breakpoint erase_breakpoint
find-erase_same c [] h = refl
find-erase_same c (b ∷ bs) h = elim (Bool-cases (b.address == c)) [
  | inl here ↦
      let same : b.address ≡ c = ground arith in
      rw (here) (ap (λ a. find_breakpoint a bs) (sym same) ∙ h.0)
  | inr elsewhere ↦ rw (elsewhere, elsewhere) (find-erase_same c bs h.1)
]

pub erase-IsDistinct :
    (c : ℕ) (bs : List Breakpoint) → IsDistinct bs → IsDistinct (erase_breakpoint c bs)
unfolding erase_breakpoint
erase-IsDistinct c [] h = tt
erase-IsDistinct c (b ∷ bs) h = elim (Bool-cases (b.address == c)) [
  | inl here ↦ rw (here) (h.1)
  | inr elsewhere ↦
      let apart : b.address ≢ c = λ e. ground arith in
      rw (elsewhere) (find-erase_other b.address c bs apart ∙ h.0, erase-IsDistinct c bs h.1)
]

pub find-append_other :
    (a : ℕ) (bs : List Breakpoint) (b : Breakpoint)
    → b.address ≢ a
    → find_breakpoint a (bs ++ (b ∷ [])) ≡ find_breakpoint a bs
unfolding find_breakpoint
find-append_other a [] b n = ground arith
find-append_other a (c ∷ bs) b n = ground (arith, find-append_other a bs b n)

pub find-append_same :
    (bs : List Breakpoint) (b : Breakpoint)
    → find_breakpoint b.address bs ≡ none
    → find_breakpoint b.address (bs ++ (b ∷ [])) ≡ some b
unfolding find_breakpoint
find-append_same [] b n = ground arith
find-append_same (c ∷ bs) b n = ground (arith, find-append_same bs b)

pub append-IsDistinct :
    (bs : List Breakpoint) (b : Breakpoint)
    → IsDistinct bs
    → find_breakpoint b.address bs ≡ none
    → IsDistinct (bs ++ (b ∷ []))
unfolding find_breakpoint
append-IsDistinct [] b h n = (refl, tt)
append-IsDistinct (c ∷ bs) b h n = elim (Bool-cases (c.address == b.address)) [
  | inl same ↦ absurd (ground arith)
  | inr other ↦ (
    find-append_other c.address bs b (λ e. ground arith) ∙ h.0,
    append-IsDistinct bs b h.1 (ground arith),
  )
]

pub erase-append :
    (bs : List Breakpoint) (b : Breakpoint)
    → find_breakpoint b.address bs ≡ none
    → erase_breakpoint b.address (bs ++ (b ∷ [])) ≡ bs
unfolding find_breakpoint erase_breakpoint
erase-append [] b n = ground arith
erase-append (c ∷ bs) b n = ground (arith, erase-append bs b)

pub length-erase :
    (c : ℕ) (bs : List Breakpoint) (b : Breakpoint)
    → find_breakpoint c bs ≡ some b
    → length bs ≡ suc (length (erase_breakpoint c bs))
unfolding find_breakpoint erase_breakpoint
length-erase c [] b e = absurd (ground arith)
length-erase c (x ∷ bs) b e = ground (arith, length-erase c bs b)

-- The address of the last breakpoint is found.
pub back-found :
    (bs : List Breakpoint) (b : Breakpoint)
    → back bs ≡ some b
    → (c : Breakpoint) × (find_breakpoint b.address bs ≡ some c)
unfolding find_breakpoint back
back-found [] b e = absurd (ground arith)
back-found (x ∷ []) b e = (x, ground arith)
back-found (x ∷ (y ∷ bs)) b e = elim (Bool-cases (x.address == b.address)) [
  | inl here ↦ (x, rw (here))
  | inr elsewhere ↦ let later = back-found (y ∷ bs) b e in (later.0, rw (elsewhere) (later.1))
]
