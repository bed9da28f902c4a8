-- ===== src/Protocol/Enums/Laws.antt =====
-- Each enumeration's decoder is the inverse of its encoder, and the codes fit a `uint32_t`.
use upx_killer.Common.{ℕ, ◌≡◌, refl, some, arith, IsU32}
use upx_killer.Contracts.Targets.{
  BinaryFamily, BinaryClass, CpuArchitecture, ImageKind, ImageAddressing,
}
use upx_killer.Contracts.Jobs.{
  ArtifactQuality, EntryPointAddressKind, JobOutcome, ErrorCategory, JobStage,
}
use upx_killer.Protocol.Enums.{
  encode_family, decode_family, encode_class, decode_class, encode_architecture,
  decode_architecture, encode_kind, decode_kind, encode_addressing, decode_addressing,
  encode_entry_kind, decode_entry_kind, encode_stage, decode_stage, encode_outcome, decode_outcome,
  encode_category, decode_category, encode_quality, decode_quality,
}

pub decode_family-encode_family :
    (x : BinaryFamily) → (decode_family (encode_family x) ≡ some x) × IsU32 (encode_family x)
unfolding decode_family encode_family
decode_family-encode_family BinaryFamily.pe = (refl, omega arith)
decode_family-encode_family BinaryFamily.elf = (refl, omega arith)

pub encode_family-decode_family :
    (wire : ℕ) (x : BinaryFamily) → decode_family wire ≡ some x → wire ≡ encode_family x
unfolding decode_family encode_family
encode_family-decode_family wire BinaryFamily.pe e = ground arith
encode_family-decode_family wire BinaryFamily.elf e = ground arith

pub decode_class-encode_class :
    (x : BinaryClass) → (decode_class (encode_class x) ≡ some x) × IsU32 (encode_class x)
unfolding decode_class encode_class
decode_class-encode_class BinaryClass.bits32 = (refl, omega arith)
decode_class-encode_class BinaryClass.bits64 = (refl, omega arith)

pub encode_class-decode_class :
    (wire : ℕ) (x : BinaryClass) → decode_class wire ≡ some x → wire ≡ encode_class x
unfolding decode_class encode_class
encode_class-decode_class wire BinaryClass.bits32 e = ground arith
encode_class-decode_class wire BinaryClass.bits64 e = ground arith

pub decode_architecture-encode_architecture :
    (x : CpuArchitecture)
    → (decode_architecture (encode_architecture x) ≡ some x) × IsU32 (encode_architecture x)
unfolding decode_architecture encode_architecture
decode_architecture-encode_architecture CpuArchitecture.x86 = (refl, omega arith)
decode_architecture-encode_architecture CpuArchitecture.x64 = (refl, omega arith)

pub encode_architecture-decode_architecture :
    (wire : ℕ) (x : CpuArchitecture)
    → decode_architecture wire ≡ some x
    → wire ≡ encode_architecture x
unfolding decode_architecture encode_architecture
encode_architecture-decode_architecture wire CpuArchitecture.x86 e = ground arith
encode_architecture-decode_architecture wire CpuArchitecture.x64 e = ground arith

pub decode_kind-encode_kind :
    (x : ImageKind) → (decode_kind (encode_kind x) ≡ some x) × IsU32 (encode_kind x)
unfolding decode_kind encode_kind
decode_kind-encode_kind ImageKind.executable = (refl, omega arith)
decode_kind-encode_kind ImageKind.shared_library = (refl, omega arith)

pub encode_kind-decode_kind :
    (wire : ℕ) (x : ImageKind) → decode_kind wire ≡ some x → wire ≡ encode_kind x
unfolding decode_kind encode_kind
encode_kind-decode_kind wire ImageKind.executable e = ground arith
encode_kind-decode_kind wire ImageKind.shared_library e = ground arith

pub decode_addressing-encode_addressing :
    (x : ImageAddressing)
    → (decode_addressing (encode_addressing x) ≡ some x) × IsU32 (encode_addressing x)
unfolding decode_addressing encode_addressing
decode_addressing-encode_addressing ImageAddressing.platform_default = (refl, omega arith)
decode_addressing-encode_addressing ImageAddressing.fixed_address = (refl, omega arith)
decode_addressing-encode_addressing ImageAddressing.position_independent = (refl, omega arith)

pub encode_addressing-decode_addressing :
    (wire : ℕ) (x : ImageAddressing) → decode_addressing wire ≡ some x → wire ≡ encode_addressing x
unfolding decode_addressing encode_addressing
encode_addressing-decode_addressing wire ImageAddressing.platform_default e = ground arith
encode_addressing-decode_addressing wire ImageAddressing.fixed_address e = ground arith
encode_addressing-decode_addressing wire ImageAddressing.position_independent e = ground arith

pub decode_entry_kind-encode_entry_kind :
    (x : EntryPointAddressKind)
    → (decode_entry_kind (encode_entry_kind x) ≡ some x) × IsU32 (encode_entry_kind x)
unfolding decode_entry_kind encode_entry_kind
decode_entry_kind-encode_entry_kind EntryPointAddressKind.relative_virtual_address =
    (refl, omega arith)
decode_entry_kind-encode_entry_kind EntryPointAddressKind.virtual_address = (refl, omega arith)
decode_entry_kind-encode_entry_kind EntryPointAddressKind.file_offset = (refl, omega arith)

pub encode_entry_kind-decode_entry_kind :
    (wire : ℕ) (x : EntryPointAddressKind)
    → decode_entry_kind wire ≡ some x
    → wire ≡ encode_entry_kind x
unfolding decode_entry_kind encode_entry_kind
encode_entry_kind-decode_entry_kind wire EntryPointAddressKind.relative_virtual_address e =
    ground arith
encode_entry_kind-decode_entry_kind wire EntryPointAddressKind.virtual_address e = ground arith
encode_entry_kind-decode_entry_kind wire EntryPointAddressKind.file_offset e = ground arith

pub decode_stage-encode_stage :
    (x : JobStage) → (decode_stage (encode_stage x) ≡ some x) × IsU32 (encode_stage x)
unfolding decode_stage encode_stage
decode_stage-encode_stage JobStage.validating_target = (refl, omega arith)
decode_stage-encode_stage JobStage.discovering_entry_point = (refl, omega arith)
decode_stage-encode_stage JobStage.loading_target = (refl, omega arith)
decode_stage-encode_stage JobStage.capturing_image = (refl, omega arith)
decode_stage-encode_stage JobStage.rebuilding_imports = (refl, omega arith)
decode_stage-encode_stage JobStage.capturing_relocations = (refl, omega arith)
decode_stage-encode_stage JobStage.rebuilding_image = (refl, omega arith)
decode_stage-encode_stage JobStage.validating_artifact = (refl, omega arith)
decode_stage-encode_stage JobStage.completed = (refl, omega arith)

pub encode_stage-decode_stage :
    (wire : ℕ) (x : JobStage) → decode_stage wire ≡ some x → wire ≡ encode_stage x
unfolding decode_stage encode_stage
encode_stage-decode_stage wire JobStage.validating_target e = ground arith
encode_stage-decode_stage wire JobStage.discovering_entry_point e = ground arith
encode_stage-decode_stage wire JobStage.loading_target e = ground arith
encode_stage-decode_stage wire JobStage.capturing_image e = ground arith
encode_stage-decode_stage wire JobStage.rebuilding_imports e = ground arith
encode_stage-decode_stage wire JobStage.capturing_relocations e = ground arith
encode_stage-decode_stage wire JobStage.rebuilding_image e = ground arith
encode_stage-decode_stage wire JobStage.validating_artifact e = ground arith
encode_stage-decode_stage wire JobStage.completed e = ground arith

pub decode_outcome-encode_outcome :
    (x : JobOutcome) → (decode_outcome (encode_outcome x) ≡ some x) × IsU32 (encode_outcome x)
unfolding decode_outcome encode_outcome
decode_outcome-encode_outcome JobOutcome.completed = (refl, omega arith)
decode_outcome-encode_outcome JobOutcome.partial = (refl, omega arith)
decode_outcome-encode_outcome JobOutcome.unsupported_target = (refl, omega arith)
decode_outcome-encode_outcome JobOutcome.cancelled = (refl, omega arith)
decode_outcome-encode_outcome JobOutcome.timed_out = (refl, omega arith)
decode_outcome-encode_outcome JobOutcome.failed = (refl, omega arith)

pub encode_outcome-decode_outcome :
    (wire : ℕ) (x : JobOutcome) → decode_outcome wire ≡ some x → wire ≡ encode_outcome x
unfolding decode_outcome encode_outcome
encode_outcome-decode_outcome wire JobOutcome.completed e = ground arith
encode_outcome-decode_outcome wire JobOutcome.partial e = ground arith
encode_outcome-decode_outcome wire JobOutcome.unsupported_target e = ground arith
encode_outcome-decode_outcome wire JobOutcome.cancelled e = ground arith
encode_outcome-decode_outcome wire JobOutcome.timed_out e = ground arith
encode_outcome-decode_outcome wire JobOutcome.failed e = ground arith

pub decode_category-encode_category :
    (x : ErrorCategory) → (decode_category (encode_category x) ≡ some x) × IsU32 (encode_category x)
unfolding decode_category encode_category
decode_category-encode_category ErrorCategory.no_error = (refl, omega arith)
decode_category-encode_category ErrorCategory.invalid_request = (refl, omega arith)
decode_category-encode_category ErrorCategory.unsupported_target = (refl, omega arith)
decode_category-encode_category ErrorCategory.configuration = (refl, omega arith)
decode_category-encode_category ErrorCategory.input = (refl, omega arith)
decode_category-encode_category ErrorCategory.execution = (refl, omega arith)
decode_category-encode_category ErrorCategory.reconstruction = (refl, omega arith)
decode_category-encode_category ErrorCategory.validation = (refl, omega arith)
decode_category-encode_category ErrorCategory.storage = (refl, omega arith)
decode_category-encode_category ErrorCategory.protocol = (refl, omega arith)
decode_category-encode_category ErrorCategory.cancelled = (refl, omega arith)
decode_category-encode_category ErrorCategory.timed_out = (refl, omega arith)
decode_category-encode_category ErrorCategory.internal = (refl, omega arith)

pub encode_category-decode_category :
    (wire : ℕ) (x : ErrorCategory) → decode_category wire ≡ some x → wire ≡ encode_category x
unfolding decode_category encode_category
encode_category-decode_category wire ErrorCategory.no_error e = ground arith
encode_category-decode_category wire ErrorCategory.invalid_request e = ground arith
encode_category-decode_category wire ErrorCategory.unsupported_target e = ground arith
encode_category-decode_category wire ErrorCategory.configuration e = ground arith
encode_category-decode_category wire ErrorCategory.input e = ground arith
encode_category-decode_category wire ErrorCategory.execution e = ground arith
encode_category-decode_category wire ErrorCategory.reconstruction e = ground arith
encode_category-decode_category wire ErrorCategory.validation e = ground arith
encode_category-decode_category wire ErrorCategory.storage e = ground arith
encode_category-decode_category wire ErrorCategory.protocol e = ground arith
encode_category-decode_category wire ErrorCategory.cancelled e = ground arith
encode_category-decode_category wire ErrorCategory.timed_out e = ground arith
encode_category-decode_category wire ErrorCategory.internal e = ground arith

pub decode_quality-encode_quality :
    (x : ArtifactQuality) → (decode_quality (encode_quality x) ≡ some x) × IsU32 (encode_quality x)
unfolding decode_quality encode_quality
decode_quality-encode_quality ArtifactQuality.partial = (refl, omega arith)
decode_quality-encode_quality ArtifactQuality.complete = (refl, omega arith)

pub encode_quality-decode_quality :
    (wire : ℕ) (x : ArtifactQuality) → decode_quality wire ≡ some x → wire ≡ encode_quality x
unfolding decode_quality encode_quality
encode_quality-decode_quality wire ArtifactQuality.partial e = ground arith
encode_quality-decode_quality wire ArtifactQuality.complete e = ground arith
