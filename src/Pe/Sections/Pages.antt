-- ===== src/Pe/Sections/Pages.antt =====
-- The pages of the source's sections in the planned ranges: what the ranges cover, and their order.
use upx_killer.Common.{
  ℕ, zero, suc, ◌+◌, ◌≤◌, ◌<◌, ◌≡◌, refl, ap, subst, sym, ◌∙◌, arith, min, Bool, true, false, ◌&&◌,
  ◌||◌, List, [], ◌∷◌, ltb, leb, ◌==◌, ==→eq, if◌then◌else◌, Bool-cases, inl, inr,
}
use upx_killer.Common.Results.{ok}
use upx_killer.Pe.Sections.{SectionRole, AddressRange}
use upx_killer.Pe.Sections.Layout.{PlannedRange, role_index, add_page, add_pages}

-- Whether an address lies in a range.
abbrev pub in_range : AddressRange → ℕ → Bool
in_range range x = leb range.begin x && ltb x range.end

unfoldable pub covers : List PlannedRange → ℕ → Bool
covers [] x = false
covers (planned ∷ ranges) x = in_range planned.range x || covers ranges x

-- The ranges are not empty, and each one, from the last to the first, ends before the one behind it.
abbrev pub Descends : ℕ → List PlannedRange → Type 0
Descends bound [] = Unit
Descends bound (planned ∷ ranges) =
    (planned.range.begin < planned.range.end)
    × (planned.range.end ≤ bound)
    × Descends planned.range.begin ranges

pub Descends-mono :
    {a b : ℕ} (ranges : List PlannedRange) → a ≤ b → Descends a ranges → Descends b ranges
Descends-mono [] h s = tt
Descends-mono (planned ∷ ranges) h s = (s.0, omega arith, s.2)

-- Every address of every range has what `P` says of its role.
abbrev pub Respects : (ℕ → SectionRole → Type 0) → List PlannedRange → Type 0
Respects P [] = Unit
Respects P (planned ∷ ranges) =
    ((x : ℕ) → in_range planned.range x ≡ true → P x planned.role) × Respects P ranges

abbrev role_at : ℕ → SectionRole
role_at n =
    if n == 0
    then SectionRole.text
    else if n == 1
    then SectionRole.read_only_data
    else if n == 2
    then SectionRole.writable_data
    else if n == 3
    then SectionRole.exception_data
    else if n == 4
    then SectionRole.resource_data
    else if n == 5
    then SectionRole.import_address_table
    else SectionRole.executable_writable

role_at-index : (role : SectionRole) → role_at (role_index role) ≡ role
role_at-index SectionRole.text = refl
role_at-index SectionRole.read_only_data = refl
role_at-index SectionRole.writable_data = refl
role_at-index SectionRole.exception_data = refl
role_at-index SectionRole.resource_data = refl
role_at-index SectionRole.import_address_table = refl
role_at-index SectionRole.executable_writable = refl

pub role_of_index : (a b : SectionRole) → role_index a ≡ role_index b → a ≡ b
role_of_index a b e = sym (role_at-index a) ∙ (ap role_at e ∙ role_at-index b)

add_page-Descends :
    (page : AddressRange) (role : SectionRole) (ranges : List PlannedRange)
    → page.begin < page.end
    → Descends page.begin ranges
    → Descends page.end (add_page page role ranges)
unfolding add_page
add_page-Descends page role [] full s = (full, omega arith, tt)
add_page-Descends page role (last ∷ ranges) full s = ground arith

covers-add_page :
    (page : AddressRange) (role : SectionRole) (ranges : List PlannedRange) (x : ℕ)
    → page.begin < page.end
    → Descends page.begin ranges
    → covers (add_page page role ranges) x ≡ (in_range page x || covers ranges x)
unfolding add_page covers
covers-add_page page role [] x full s = refl
covers-add_page page role (last ∷ ranges) x full s = ground arith

add_page-Respects :
    (P : ℕ → SectionRole → Type 0) (page : AddressRange) (role : SectionRole)
    (ranges : List PlannedRange)
    → page.begin < page.end
    → Descends page.begin ranges
    → ((x : ℕ) → in_range page x ≡ true → P x role)
    → Respects P ranges
    → Respects P (add_page page role ranges)
unfolding add_page
add_page-Respects P page role [] full s h r = (h, tt)
add_page-Respects P page role (last ∷ ranges) full s h r =
    elim (Bool-cases (role_index last.role == role_index role)) [
      | inl same ↦
          let role_eq = role_of_index last.role role (==→eq _ _ same) in
          elim (Bool-cases (last.range.end == page.begin)) [
            | inl meets ↦
                rw (same, meets)
                  (
                    (λ x inside. elim (Bool-cases (ltb x last.range.end)) [
                      | inl before ↦ r.0 x (ground arith)
                      | inr beyond ↦ subst (P x) (sym role_eq) (h x (ground arith))
                    ]),
                    r.1,
                  )
            | inr apart ↦ rw (same, apart) (h, r)
          ]
      | inr differs ↦ rw differs (h, r)
    ]

module _ (role_of : AddressRange → SectionRole) (alignment : ℕ) where
  -- Enough fuel takes the loop to its end.
  pub add_pages_ends :
      1 ≤ alignment
      → (fuel cursor end : ℕ) (ranges : List PlannedRange) → end ≤ cursor + fuel
      → (all : List PlannedRange) × (add_pages role_of alignment fuel cursor end ranges ≡ ok all)
  unfolding add_pages
  add_pages_ends moves zero cursor end ranges enough = (ranges, ground arith)
  add_pages_ends moves (suc fuel) cursor end ranges enough = elim (Bool-cases (ltb cursor end)) [
    | inl more ↦
        let page_end = min (cursor + alignment) end in
        let page : AddressRange = record { begin = cursor; end = page_end } in
        let reaches : end ≤ page_end + fuel = ground arith in
        rw more
          (add_pages_ends moves fuel page_end end (add_page page (role_of page) ranges) reaches)
    | inr past ↦ (ranges, rw past)
  ]

  -- What the loop over `[cursor, end)` has made of the ranges, where `P` holds of every page's role.
  pub record IsPaged (P : ℕ → SectionRole → Type 0) (cursor end : ℕ)
      (ranges all : List PlannedRange) : Type 0 where
    pub covered : (x : ℕ) → covers all x ≡ ((leb cursor x && ltb x end) || covers ranges x)
    pub descends : Descends end all
    pub respects : Respects P all

  stopped-IsPaged :
      (P : ℕ → SectionRole → Type 0) (cursor end : ℕ) (ranges all : List PlannedRange)
      → cursor ≤ end
      → ltb cursor end ≡ false
      → Descends cursor ranges
      → Respects P ranges
      → ranges ≡ all
      → IsPaged P cursor end ranges all
  stopped-IsPaged P cursor end ranges all low past s r same =
      subst (IsPaged P cursor end ranges) same (record {
        covered = λ x. ground arith;
        descends = Descends-mono {a = cursor} {b = end} ranges low s;
        respects = r;
      })

  pub add_pages-IsPaged :
      (P : ℕ → SectionRole → Type 0)
      → 1 ≤ alignment
      → ((page : AddressRange) (x : ℕ) → in_range page x ≡ true → P x (role_of page))
      → (fuel cursor end : ℕ) (ranges all : List PlannedRange) → cursor ≤ end
      → Descends cursor ranges
      → Respects P ranges
      → add_pages role_of alignment fuel cursor end ranges ≡ ok all
      → IsPaged P cursor end ranges all
  unfolding add_pages
  add_pages-IsPaged P moves good zero cursor end ranges all low s r e =
      elim (Bool-cases (ltb cursor end)) [
        | inl more ↦ absurd (ground arith)
        | inr past ↦ stopped-IsPaged P cursor end ranges all low past s r (ground arith)
      ]
  add_pages-IsPaged P moves good (suc fuel) cursor end ranges all low s r e =
      elim (Bool-cases (ltb cursor end)) [
        | inl more ↦
            let page_end = min (cursor + alignment) end in
            let page : AddressRange = record { begin = cursor; end = page_end } in
            let full : cursor < page_end = ground arith in
            let later =
              add_pages-IsPaged P moves good fuel page_end end (add_page page (role_of page) ranges)
                all (omega arith) (add_page-Descends page (role_of page) ranges full s)
                (add_page-Respects P page (role_of page) ranges full s (good page) r)
                (rw more at e) in
            record {
              covered = λ x.
                  ground
                    (arith, later.covered x, covers-add_page page (role_of page) ranges x full s);
              descends = later.descends;
              respects = later.respects;
            }
        | inr past ↦ stopped-IsPaged P cursor end ranges all low past s r (ground arith)
      ]
