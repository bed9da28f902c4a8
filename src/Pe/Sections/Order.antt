-- ===== src/Pe/Sections/Order.antt =====
-- The ranges in the order of the vector, and the sections that are made of them.
use mathlib.Core.List.{reverse, reverse-cons}
use upx_killer.Common.{
  ℕ, suc, ◌+◌, ◌-◌, ◌≤◌, ◌<◌, ◌≡◌, refl, ap, arith, Bool, false, ◌&&◌, ◌||◌, List, [], ◌∷◌, ◌++◌,
  length, ltb, leb,
}
use upx_killer.Pe.Directories.{WindowsDirectories}
use upx_killer.Pe.Sections.{RebuiltSection}
use upx_killer.Pe.Sections.Layout.{PlannedRange, role_index, count_name, name_sections}
use upx_killer.Pe.Sections.Pages.{covers, Descends}

-- The planned ranges, in the order of the vector, from one address to another.
abbrev pub AscendsTo : ℕ → List PlannedRange → ℕ → Type 0
AscendsTo low [] high = low ≤ high
AscendsTo low (planned ∷ ranges) high =
    (low ≤ planned.range.begin)
    × (planned.range.begin < planned.range.end)
    × AscendsTo planned.range.end ranges high

AscendsTo-append :
    (low middle high : ℕ) (xs ys : List PlannedRange)
    → AscendsTo low xs middle
    → AscendsTo middle ys high
    → AscendsTo low (xs ++ ys) high
AscendsTo-append low middle high [] [] h k = omega arith
AscendsTo-append low middle high [] (y ∷ ys) h k = (omega arith, k.1, k.2)
AscendsTo-append low middle high (x ∷ xs) ys h k =
    (h.0, h.1, AscendsTo-append x.range.end middle high xs ys h.2 k)

pub reverse-AscendsTo :
    (bound : ℕ) (ranges : List PlannedRange)
    → Descends bound ranges
    → AscendsTo 0 (reverse ranges) bound
reverse-AscendsTo bound [] s = omega arith
reverse-AscendsTo bound (planned ∷ ranges) s = rw (reverse-cons planned ranges) (
    AscendsTo-append 0 planned.range.begin bound (reverse ranges) (planned ∷ [])
      (reverse-AscendsTo planned.range.begin ranges s.2) (omega arith, s.0, s.1))

covers-append :
    (xs ys : List PlannedRange) (x : ℕ) → covers (xs ++ ys) x ≡ (covers ys x || covers xs x)
unfolding covers
covers-append [] ys x = ground arith
covers-append (planned ∷ xs) ys x = ground (arith, covers-append xs ys x)

pub covers-reverse :
    (ranges : List PlannedRange) (x : ℕ) → covers (reverse ranges) x ≡ covers ranges x
unfolding covers
covers-reverse [] x = refl
covers-reverse (planned ∷ ranges) x =
    rw (reverse-cons planned ranges)
      (ground (arith, covers-append (reverse ranges) (planned ∷ []) x, covers-reverse ranges x))

-- The same of the sections that are built.
abbrev pub AreInOrder : ℕ → List RebuiltSection → ℕ → Type 0
AreInOrder low [] high = low ≤ high
AreInOrder low (section ∷ sections) high =
    (low ≤ section.virtual_address)
    × (1 ≤ section.virtual_size)
    × AreInOrder (section.virtual_address + section.virtual_size) sections high

unfoldable pub built_covers : List RebuiltSection → ℕ → Bool
built_covers [] x = false
built_covers (section ∷ sections) x =
    (leb section.virtual_address x && ltb x (section.virtual_address + section.virtual_size))
    || built_covers sections x

module _ (d : WindowsDirectories) where
  pub length-name_sections :
      (counts : ℕ → ℕ) (ranges : List PlannedRange)
      → length (name_sections d counts ranges) ≡ length ranges
  unfolding name_sections
  length-name_sections counts [] = refl
  length-name_sections counts (planned ∷ ranges) =
      ap suc (length-name_sections (count_name counts (role_index planned.role)) ranges)

  pub name_sections-AreInOrder :
      (counts : ℕ → ℕ) (low high : ℕ) (ranges : List PlannedRange)
      → AscendsTo low ranges high
      → AreInOrder low (name_sections d counts ranges) high
  unfolding name_sections
  name_sections-AreInOrder counts low high [] s = s
  name_sections-AreInOrder counts low high (planned ∷ ranges) s =
      let end : planned.range.begin + (planned.range.end - planned.range.begin)
          ≡ planned.range.end =
        omega (arith, s.1) in
      (
        s.0,
        omega (arith, s.1),
        rw end (
            name_sections-AreInOrder (count_name counts (role_index planned.role)) planned.range.end
              high ranges s.2),
      )

  pub built_covers-name_sections :
      (counts : ℕ → ℕ) (low high : ℕ) (ranges : List PlannedRange) (x : ℕ)
      → AscendsTo low ranges high
      → built_covers (name_sections d counts ranges) x ≡ covers ranges x
  unfolding name_sections built_covers covers
  built_covers-name_sections counts low high [] x s = refl
  built_covers-name_sections counts low high (planned ∷ ranges) x s =
      let end : planned.range.begin + (planned.range.end - planned.range.begin)
          ≡ planned.range.end =
        omega (arith, s.1) in
      let counts' = count_name counts (role_index planned.role) in
      let later = built_covers-name_sections counts' planned.range.end high ranges x s.2 in
      rw (end, later) refl
