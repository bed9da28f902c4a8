-- ===== src/Pe/Tests.antt =====
-- A small PE file: a 64-bit executable with one section and relocations, under the headers of
-- <Windows.h>.
use upx_killer.Common.{
  ◌≡◌, ◌≢◌, ◌⊎◌, refl, arith, Bool, true, false, ◌||◌, if◌then◌else◌, none, some, List, [], ◌∷◌,
  length,
}
use upx_killer.Common.Reading.{le_value}
use upx_killer.Common.Results.{ok, reject_if}
use upx_killer.Contracts.Targets.{TargetDescriptor}
use upx_killer.Pe.Headers.{is_readable, field}
use upx_killer.Pe.Samples.{headers, program, program_layout, program_target, program_capabilities}
use upx_killer.Pe.Capabilities.{
  Sort, is_before, is_same_target, is_member, new_capabilities, supports, supports_target, describe,
}
use upx_killer.Pe.Capabilities.Supported.{new_capabilities-supports}
use upx_killer.Pe.Plan.{PeExecutionPlan, create}
use upx_killer.Pe.Plan.Bases.{IsPlan, create-IsPlan}
use upx_killer.Pe.Parser.{
  parse, parse_magic, parse_typed, layout_at, is_bad_header, parse_sections, check_section,
  section_at, read_directories, directories_of, is_power_of_two, range_fits,
}
use upx_killer.Pe.Parser.Accepted.{IsLayout, parse-IsLayout, parse-IsPlan}

program_parses : parse headers program ≡ ok program_layout
unfolding parse parse_magic parse_typed layout_at is_bad_header parse_sections check_section
    section_at read_directories directories_of is_power_of_two range_fits is_readable field le_value
    reject_if
program_parses = refl

parse-IsLayout_example : IsLayout (length program) program_layout
parse-IsLayout_example = parse-IsLayout headers program program_layout program_parses

program_supported : supports program_capabilities program_layout ≡ true
unfolding supports supports_target describe is_member is_same_target
program_supported = refl

parse-IsPlan_example :
    (plan : PeExecutionPlan) × (create program_layout program_capabilities ≡ some plan)
    × IsPlan program_layout plan
parse-IsPlan_example =
    parse-IsPlan headers program program_layout program_capabilities program_parses
      program_supported

based : program_layout.preferred_image_base ≢ 0
based = ground arith

create-IsPlan_example :
    ((supports program_capabilities program_layout ≡ false)
      × (create program_layout program_capabilities ≡ none))
    ⊎ ((supports program_capabilities program_layout ≡ true)
        × ((plan : PeExecutionPlan) × (create program_layout program_capabilities ≡ some plan)
            × IsPlan program_layout plan))
create-IsPlan_example = create-IsPlan program_layout program_capabilities based

-- A sort by insertion, as an instance of `std::sort`.
abbrev insert :
    (TargetDescriptor → TargetDescriptor → Bool)
    → TargetDescriptor
    → List TargetDescriptor
    → List TargetDescriptor
insert before x [] = x ∷ []
insert before x (y ∷ ys) =
    let later = y ∷ insert before x ys in if before y x then later else x ∷ (y ∷ ys)

abbrev insertion_sort : Sort
insertion_sort before [] = []
insertion_sort before (x ∷ xs) = insert before x (insertion_sort before xs)

insert_keeps :
    (x : TargetDescriptor) (ts : List TargetDescriptor) (t : TargetDescriptor)
    → is_member t (insert is_before x ts) ≡ is_same_target x t || is_member t ts
unfolding is_member
insert_keeps x [] t = refl
insert_keeps x (y ∷ ys) t = ground (arith, insert_keeps x ys t)

insertion_sort_keeps :
    (ts : List TargetDescriptor) (t : TargetDescriptor)
    → is_member t (insertion_sort is_before ts) ≡ is_member t ts
unfolding is_member
insertion_sort_keeps [] t = refl
insertion_sort_keeps (x ∷ xs) t =
    ground (arith, insert_keeps x (insertion_sort is_before xs) t, insertion_sort_keeps xs t)

new_capabilities-supports_example :
    supports_target
      (new_capabilities insertion_sort (program_target ∷ program_target ∷ []))
      program_target
    ≡ is_member program_target (program_target ∷ program_target ∷ [])
new_capabilities-supports_example =
    new_capabilities-supports insertion_sort (program_target ∷ program_target ∷ []) program_target
      insertion_sort_keeps
