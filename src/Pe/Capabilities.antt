-- ===== src/Pe/Capabilities.antt =====
-- upx-killer-engine/Application/PE/Capabilities/PeBackendCapabilities.cpp. `std::sort` is a parameter:
-- the order of targets that differ in their addressing alone is its own.
pub mod Supported
use upx_killer.Common.{
  ℕ, ◌==◌, Bool, true, false, ◌&&◌, ◌||◌, List, [], ◌∷◌, Bytes, ltb, ◌!=◌, if◌then◌else◌,
}
use upx_killer.Contracts.Targets.{
  BinaryFamily, BinaryClass, CpuArchitecture, ImageKind, ImageAddressing, TargetDescriptor,
  BackendManifest,
}
use upx_killer.Pe.Format.{PeFormat, PeImageKind, PeImageLayout}

-- The numbers that the enumerations stand for, which `<` and `==` compare.
abbrev family_rank : BinaryFamily → ℕ
family_rank BinaryFamily.pe = 0
family_rank BinaryFamily.elf = 1

abbrev class_rank : BinaryClass → ℕ
class_rank BinaryClass.bits32 = 0
class_rank BinaryClass.bits64 = 1

abbrev architecture_rank : CpuArchitecture → ℕ
architecture_rank CpuArchitecture.x86 = 0
architecture_rank CpuArchitecture.x64 = 1

abbrev kind_rank : ImageKind → ℕ
kind_rank ImageKind.executable = 0
kind_rank ImageKind.shared_library = 1

abbrev addressing_rank : ImageAddressing → ℕ
addressing_rank ImageAddressing.platform_default = 0
addressing_rank ImageAddressing.fixed_address = 1
addressing_rank ImageAddressing.position_independent = 2

-- `operator==` of the descriptor, which is the default one.
unfoldable pub is_same_target : TargetDescriptor → TargetDescriptor → Bool
is_same_target a b =
    family_rank a.family == family_rank b.family
    && class_rank a.image_class == class_rank b.image_class
    && architecture_rank a.architecture == architecture_rank b.architecture
    && kind_rank a.image_kind == kind_rank b.image_kind
    && addressing_rank a.addressing == addressing_rank b.addressing

-- The order that the constructor sorts by.
unfoldable pub is_before : TargetDescriptor → TargetDescriptor → Bool
is_before left right =
    if family_rank left.family != family_rank right.family
    then ltb (family_rank left.family) (family_rank right.family)
    else if class_rank left.image_class != class_rank right.image_class
    then ltb (class_rank left.image_class) (class_rank right.image_class)
    else if architecture_rank left.architecture != architecture_rank right.architecture
    then ltb (architecture_rank left.architecture) (architecture_rank right.architecture)
    else ltb (kind_rank left.image_kind) (kind_rank right.image_kind)

-- `std::unique` behind a kept element: an element equal to the last one kept goes.
unfoldable pub unique_after : TargetDescriptor → List TargetDescriptor → List TargetDescriptor
unique_after kept [] = []
unique_after kept (target ∷ targets) =
    let same = unique_after kept targets in
    let other = target ∷ unique_after target targets in
    if is_same_target kept target then same else other

unfoldable pub unique : List TargetDescriptor → List TargetDescriptor
unique [] = []
unique (target ∷ targets) = target ∷ unique_after target targets

-- The class holds the sorted targets without repeated neighbours.
pub record PeBackendCapabilities : Type 0 where
  pub supported_targets : List TargetDescriptor

abbrev pub Sort : Type 0
Sort = (TargetDescriptor → TargetDescriptor → Bool) → List TargetDescriptor → List TargetDescriptor

unfoldable pub new_capabilities : Sort → List TargetDescriptor → PeBackendCapabilities
new_capabilities sort targets = record { supported_targets = unique (sort is_before targets) }

-- `std::find(...) != end()`.
unfoldable pub is_member : TargetDescriptor → List TargetDescriptor → Bool
is_member target [] = false
is_member target (t ∷ ts) = is_same_target t target || is_member target ts

unfoldable pub supports_target : PeBackendCapabilities → TargetDescriptor → Bool
supports_target capabilities target = is_member target capabilities.supported_targets

unfoldable pub describe : PeImageLayout → TargetDescriptor
describe layout = record {
  family = BinaryFamily.pe;
  image_class = elim layout.format [
    | PeFormat.pe32 ↦ BinaryClass.bits32
    | PeFormat.pe64 ↦ BinaryClass.bits64
  ];
  architecture = elim layout.format [
    | PeFormat.pe32 ↦ CpuArchitecture.x86
    | PeFormat.pe64 ↦ CpuArchitecture.x64
  ];
  image_kind = elim layout.image_kind [
    | PeImageKind.executable ↦ ImageKind.executable
    | PeImageKind.dynamic_library ↦ ImageKind.shared_library
  ];
  addressing = ImageAddressing.platform_default;
}

unfoldable pub supports : PeBackendCapabilities → PeImageLayout → Bool
supports capabilities layout = supports_target capabilities (describe layout)

unfoldable pub manifest : PeBackendCapabilities → Bytes → BackendManifest
manifest capabilities backend_id = record {
  backend_id = backend_id;
  capabilities = capabilities.supported_targets;
}
