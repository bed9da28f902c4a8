-- ===== src/Pe/Capabilities/Supported.antt =====
-- Sorting and dropping repeated neighbours keeps what a PE backend supports.
use upx_killer.Common.{◌≡◌, refl, ◌∙◌, true, ◌||◌, List, [], ◌∷◌, arith, Bool-cases, inl, inr}
use upx_killer.Contracts.Targets.{TargetDescriptor}
use upx_killer.Pe.Capabilities.{
  Sort, is_same_target, is_before, unique_after, unique, new_capabilities, is_member,
  supports_target,
}

-- Equal targets are the same in every test.
is_same_target_trans :
    (a b target : TargetDescriptor)
    → is_same_target a b ≡ true
    → is_same_target a target ≡ is_same_target b target
unfolding is_same_target
is_same_target_trans a b target e = ground arith

is_member-unique_after :
    (target kept : TargetDescriptor) (ts : List TargetDescriptor)
    → is_same_target kept target || is_member target (unique_after kept ts)
      ≡ is_same_target kept target || is_member target ts
unfolding is_member unique_after
is_member-unique_after target kept [] = refl
is_member-unique_after target kept (t ∷ ts) = elim (Bool-cases (is_same_target kept t)) [
  | inl same ↦
      ground (arith, is_member-unique_after target kept ts, is_same_target_trans kept t target same)
  | inr other ↦ ground (arith, is_member-unique_after target t ts)
]

is_member-unique :
    (target : TargetDescriptor) (ts : List TargetDescriptor)
    → is_member target (unique ts) ≡ is_member target ts
unfolding is_member unique
is_member-unique target [] = refl
is_member-unique target (t ∷ ts) = is_member-unique_after target t ts

-- A backend supports exactly the targets that it was made with, whatever the sorting, as long as it
-- neither loses nor adds a target.
pub new_capabilities-supports :
    (sort : Sort) (targets : List TargetDescriptor) (target : TargetDescriptor)
    → ((ts : List TargetDescriptor) (t : TargetDescriptor)
        → is_member t (sort is_before ts) ≡ is_member t ts)
    → supports_target (new_capabilities sort targets) target ≡ is_member target targets
unfolding new_capabilities supports_target
new_capabilities-supports sort targets target keeps =
    is_member-unique target (sort is_before targets) ∙ keeps targets target
