-- ===== src/Pe/Sections/Names.antt =====
-- The names of the rebuilt sections.
use upx_killer.Common.{
  ℕ, ◌-◌, ◌≡◌, ap, subst, sym, ◌∙◌, arith, min, Option, some, none, Bytes, ◌==◌, get_elem?,
  if◌then◌else◌,
}
use upx_killer.Pe.Sections.{SectionRole}
use upx_killer.Pe.Sections.Layout.{base_name, make_name, role_index}
use upx_killer.Pe.Sections.Pages.{role_of_index}

abbrev byte_or_zero : Option ℕ → ℕ
byte_or_zero none = 0
byte_or_zero (some b) = b

abbrev byte_of : Bytes → ℕ → ℕ
byte_of name i = byte_or_zero (get_elem? name i)

-- A reader of names: the role by the letters, and the digit behind them.
index_of : Bytes → ℕ
index_of name =
    let letter = byte_of name 1 in
    if letter == b't'
    then (if byte_of name 5 == b'w' then 6 else 0)
    else if letter == b'd'
    then 2
    else if letter == b'p'
    then 3
    else if letter == b'i'
    then 5
    else if byte_of name 2 == b'd'
    then 1
    else 4

abbrev digit_place : SectionRole → ℕ
digit_place SectionRole.text = 5
digit_place SectionRole.read_only_data = 6
digit_place SectionRole.writable_data = 5
digit_place SectionRole.exception_data = 6
digit_place SectionRole.resource_data = 5
digit_place SectionRole.import_address_table = 4
digit_place SectionRole.executable_writable = 6

index_of-make_name : (role : SectionRole) (i : ℕ) → index_of (make_name role i) ≡ role_index role
unfolding index_of make_name base_name
index_of-make_name SectionRole.text i = ground arith
index_of-make_name SectionRole.read_only_data i = ground arith
index_of-make_name SectionRole.writable_data i = ground arith
index_of-make_name SectionRole.exception_data i = ground arith
index_of-make_name SectionRole.resource_data i = ground arith
index_of-make_name SectionRole.import_address_table i = ground arith
index_of-make_name SectionRole.executable_writable i = ground arith

digit-make_name :
    (role : SectionRole) (i : ℕ) → byte_of (make_name role i) (digit_place role) - b'0' ≡ min i 9
unfolding make_name base_name
digit-make_name SectionRole.text i = ground arith
digit-make_name SectionRole.read_only_data i = ground arith
digit-make_name SectionRole.writable_data i = ground arith
digit-make_name SectionRole.exception_data i = ground arith
digit-make_name SectionRole.resource_data i = ground arith
digit-make_name SectionRole.import_address_table i = ground arith
digit-make_name SectionRole.executable_writable i = ground arith

-- Two sections have the same name only if they have the same role, and the same number among the
-- sections of that role up to nine.
pub make_name_injective :
    (a b : SectionRole) (i j : ℕ) → make_name a i ≡ make_name b j → (a ≡ b) × (min i 9 ≡ min j 9)
make_name_injective a b i j e =
    let indices = sym (index_of-make_name a i) ∙ (ap index_of e ∙ index_of-make_name b j) in
    let same = role_of_index a b indices in
    let named : make_name a i ≡ make_name a j =
      subst (λ r. make_name a i ≡ make_name r j) (sym same) e in
    (
      same,
      sym (digit-make_name a i)
          ∙ (ap (λ (name : Bytes). byte_of name (digit_place a) - b'0') named
              ∙ digit-make_name a j),
    )
