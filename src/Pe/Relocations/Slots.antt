-- ===== src/Pe/Relocations/Slots.antt =====
-- What the slots of a reconstructed relocation plan are.
use upx_killer.Common.{ℕ, ◌+◌, ◌-◌, ◌≤◌, ◌<◌, ◌≡◌, arith, none, some, List, [], ◌∷◌, ◌++◌, All}
use upx_killer.Pe.Headers.{field}
use upx_killer.Pe.Relocations.{LoadedImageSnapshot, RelocationSlot}
use upx_killer.Pe.Relocations.Reconstruct.{common_target, last_end}

-- A snapshot holds, at an address of the image, a pointer to a target in the image.
abbrev PointsTo : ℕ → ℕ → ℕ → LoadedImageSnapshot → Type 0
PointsTo pointer_size rva target snapshot =
    field pointer_size snapshot.bytes rva ≡ snapshot.loaded_base + target

-- A slot lies between the headers and the end of the image, its target lies in the image, and every
-- snapshot, at its own base, points from the one to the other.
pub record IsSlot (pointer_size first size_of_image : ℕ) (snapshots : List LoadedImageSnapshot)
    (slot : RelocationSlot) : Type 0 where
  pub above : first ≤ slot.location
  pub below : slot.location + pointer_size ≤ size_of_image
  pub target : slot.image_target < size_of_image
  pub agreed : All (PointsTo pointer_size slot.location slot.image_target) snapshots

-- The slots ascend and no two of them share a byte.
abbrev pub IsSpaced : ℕ → ℕ → List RelocationSlot → Type 0
IsSpaced pointer_size first [] = Unit
IsSpaced pointer_size first (slot ∷ slots) =
    (first ≤ slot.location) × IsSpaced pointer_size (slot.location + pointer_size) slots

common_target-agreed :
    (pointer_size size_of_image rva : ℕ) (snapshots : List LoadedImageSnapshot) (before target : ℕ)
    → before < size_of_image
    → common_target pointer_size size_of_image rva snapshots (some before) ≡ some target
    → (before ≡ target)
      × (target < size_of_image)
      × All (PointsTo pointer_size rva target) snapshots
unfolding common_target
common_target-agreed pointer_size size_of_image rva [] before target h e =
    (ground arith, ground arith, tt)
common_target-agreed pointer_size size_of_image rva (s ∷ snapshots) before target h e =
    let relative = field pointer_size s.bytes rva - s.loaded_base in
    let later =
      common_target-agreed pointer_size size_of_image rva snapshots relative target (ground arith)
        (ground arith) in
    (ground (arith, later.0), later.1, (ground (arith, later.0), later.2))

pub common_target-found :
    (pointer_size size_of_image rva : ℕ) (snapshots : List LoadedImageSnapshot) (target : ℕ)
    → common_target pointer_size size_of_image rva snapshots none ≡ some target
    → (target < size_of_image) × All (PointsTo pointer_size rva target) snapshots
unfolding common_target
common_target-found pointer_size size_of_image rva [] target e = absurd (ground arith)
common_target-found pointer_size size_of_image rva (s ∷ snapshots) target e =
    let relative = field pointer_size s.bytes rva - s.loaded_base in
    let later =
      common_target-agreed pointer_size size_of_image rva snapshots relative target (ground arith)
        (ground arith) in
    (later.1, (ground (arith, later.0), later.2))

last_end-le :
    (pointer_size first : ℕ) (slot : RelocationSlot) (slots : List RelocationSlot)
    → IsSpaced pointer_size first (slot ∷ slots)
    → slot.location + pointer_size ≤ last_end pointer_size (slot ∷ slots)
unfolding last_end
last_end-le pointer_size first slot [] h = omega arith
last_end-le pointer_size first slot (next ∷ slots) h =
    omega (arith, last_end-le pointer_size (slot.location + pointer_size) next slots h.1, h.1.0)

pub IsSpaced-append :
    (pointer_size first : ℕ) (slots : List RelocationSlot) (slot : RelocationSlot)
    → IsSpaced pointer_size first slots
    → first ≤ slot.location
    → last_end pointer_size slots ≤ slot.location
    → IsSpaced pointer_size first (slots ++ (slot ∷ []))
unfolding last_end
IsSpaced-append pointer_size first [] slot h low end = (low, tt)
IsSpaced-append pointer_size first (x ∷ []) slot h low end = (h.0, (omega arith, tt))
IsSpaced-append pointer_size first (x ∷ (y ∷ slots)) slot h low end = (
  h.0,
  IsSpaced-append pointer_size (x.location + pointer_size) (y ∷ slots) slot h.1
      (omega (arith, last_end-le pointer_size (x.location + pointer_size) y slots h.1, h.1.0)) end,
)
