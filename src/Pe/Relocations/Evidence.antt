-- ===== src/Pe/Relocations/Evidence.antt =====
-- The snapshots that `RelocationReconstructor::Reconstruct` accepts.
use upx_killer.Common.{ℕ, ◌≤◌, ◌≡◌, ◌≢◌, arith, false, List, [], ◌∷◌, ◌++◌, All, length}
use upx_killer.Common.Results.{ok, reject_if_inversion}
use upx_killer.Pe.Relocations.{LoadedImageSnapshot}
use upx_killer.Pe.Relocations.Reconstruct.{has_base, check_snapshots}

-- A snapshot was taken at a base and holds the whole image.
pub record IsUsable (size_of_image : ℕ) (snapshot : LoadedImageSnapshot) : Type 0 where
  pub based : snapshot.loaded_base ≢ 0
  pub whole : size_of_image ≤ length snapshot.bytes

-- No snapshot was taken at the base of one before it.
abbrev pub AreDistinct : List LoadedImageSnapshot → List LoadedImageSnapshot → Type 0
AreDistinct earlier [] = Unit
AreDistinct earlier (snapshot ∷ snapshots) =
    All (λ e. e.loaded_base ≢ snapshot.loaded_base) earlier
    × AreDistinct (earlier ++ (snapshot ∷ [])) snapshots

has_base-All :
    (base : ℕ) (snapshots : List LoadedImageSnapshot)
    → has_base base snapshots ≡ false
    → All (λ e. e.loaded_base ≢ base) snapshots
unfolding has_base
has_base-All base [] e = tt
has_base-All base (s ∷ snapshots) e =
    ((λ same. ground arith), has_base-All base snapshots (ground arith))

pub check_snapshots-AreDistinct :
    (size_of_image : ℕ) (earlier snapshots : List LoadedImageSnapshot)
    → check_snapshots size_of_image earlier snapshots ≡ ok tt
    → All (IsUsable size_of_image) snapshots × AreDistinct earlier snapshots
unfolding check_snapshots
check_snapshots-AreDistinct size_of_image earlier [] e = (tt, tt)
check_snapshots-AreDistinct size_of_image earlier (s ∷ snapshots) e =
    reject_if_inversion _ _ _ tt e λ usable e1. reject_if_inversion _ _ _ tt e1 λ fresh e2.
      let later = check_snapshots-AreDistinct size_of_image (earlier ++ (s ∷ [])) snapshots e2 in
      (
        (record { based = ground arith; whole = ground arith }, later.0),
        (has_base-All s.loaded_base earlier fresh, later.1),
      )
