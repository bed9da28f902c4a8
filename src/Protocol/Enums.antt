-- ===== src/Protocol/Enums.antt =====
-- EngineHostCodec.cpp, EncodeFamily to DecodeQuality: the enumerations on the wire.
pub mod Laws
use upx_killer.Common.{ℕ, Option, none, some, ◌==◌, if◌then◌else◌}
use upx_killer.Contracts.Targets.{
  BinaryFamily, BinaryClass, CpuArchitecture, ImageKind, ImageAddressing,
}
use upx_killer.Contracts.Jobs.{
  ArtifactQuality, EntryPointAddressKind, JobOutcome, ErrorCategory, JobStage,
}

pub encode_family : BinaryFamily → ℕ
encode_family BinaryFamily.pe = 0x10
encode_family BinaryFamily.elf = 0x20

pub encode_class : BinaryClass → ℕ
encode_class BinaryClass.bits32 = 0x32
encode_class BinaryClass.bits64 = 0x64

pub encode_architecture : CpuArchitecture → ℕ
encode_architecture CpuArchitecture.x86 = 0x86
encode_architecture CpuArchitecture.x64 = 0x8664

pub encode_kind : ImageKind → ℕ
encode_kind ImageKind.executable = 0x01
encode_kind ImageKind.shared_library = 0x02

pub encode_addressing : ImageAddressing → ℕ
encode_addressing ImageAddressing.platform_default = 0x00
encode_addressing ImageAddressing.fixed_address = 0x11
encode_addressing ImageAddressing.position_independent = 0x12

-- The chains of tests in DecodeDescriptor, one for each field.
pub decode_family : ℕ → Option BinaryFamily
decode_family wire =
    if wire == 0x10
    then some BinaryFamily.pe
    else if wire == 0x20
    then some BinaryFamily.elf
    else none

pub decode_class : ℕ → Option BinaryClass
decode_class wire =
    if wire == 0x32
    then some BinaryClass.bits32
    else if wire == 0x64
    then some BinaryClass.bits64
    else none

pub decode_architecture : ℕ → Option CpuArchitecture
decode_architecture wire =
    if wire == 0x86
    then some CpuArchitecture.x86
    else if wire == 0x8664
    then some CpuArchitecture.x64
    else none

pub decode_kind : ℕ → Option ImageKind
decode_kind wire =
    if wire == 0x01
    then some ImageKind.executable
    else if wire == 0x02
    then some ImageKind.shared_library
    else none

pub decode_addressing : ℕ → Option ImageAddressing
decode_addressing wire =
    if wire == 0x00
    then some ImageAddressing.platform_default
    else if wire == 0x11
    then some ImageAddressing.fixed_address
    else if wire == 0x12
    then some ImageAddressing.position_independent
    else none

pub encode_entry_kind : EntryPointAddressKind → ℕ
encode_entry_kind EntryPointAddressKind.relative_virtual_address = 0x11
encode_entry_kind EntryPointAddressKind.virtual_address = 0x12
encode_entry_kind EntryPointAddressKind.file_offset = 0x13

pub decode_entry_kind : ℕ → Option EntryPointAddressKind
decode_entry_kind wire =
    if wire == 0x11
    then some EntryPointAddressKind.relative_virtual_address
    else if wire == 0x12
    then some EntryPointAddressKind.virtual_address
    else if wire == 0x13
    then some EntryPointAddressKind.file_offset
    else none

unfoldable pub encode_stage : JobStage → ℕ
encode_stage JobStage.validating_target = 0x101
encode_stage JobStage.discovering_entry_point = 0x102
encode_stage JobStage.loading_target = 0x103
encode_stage JobStage.capturing_image = 0x104
encode_stage JobStage.rebuilding_imports = 0x105
encode_stage JobStage.capturing_relocations = 0x106
encode_stage JobStage.rebuilding_image = 0x107
encode_stage JobStage.validating_artifact = 0x108
encode_stage JobStage.completed = 0x109

unfoldable pub decode_stage : ℕ → Option JobStage
decode_stage wire =
    if wire == 0x101
    then some JobStage.validating_target
    else if wire == 0x102
    then some JobStage.discovering_entry_point
    else if wire == 0x103
    then some JobStage.loading_target
    else if wire == 0x104
    then some JobStage.capturing_image
    else if wire == 0x105
    then some JobStage.rebuilding_imports
    else if wire == 0x106
    then some JobStage.capturing_relocations
    else if wire == 0x107
    then some JobStage.rebuilding_image
    else if wire == 0x108
    then some JobStage.validating_artifact
    else if wire == 0x109
    then some JobStage.completed
    else none

pub encode_outcome : JobOutcome → ℕ
encode_outcome JobOutcome.completed = 0x201
encode_outcome JobOutcome.partial = 0x202
encode_outcome JobOutcome.unsupported_target = 0x203
encode_outcome JobOutcome.cancelled = 0x204
encode_outcome JobOutcome.timed_out = 0x205
encode_outcome JobOutcome.failed = 0x206

pub decode_outcome : ℕ → Option JobOutcome
decode_outcome wire =
    if wire == 0x201
    then some JobOutcome.completed
    else if wire == 0x202
    then some JobOutcome.partial
    else if wire == 0x203
    then some JobOutcome.unsupported_target
    else if wire == 0x204
    then some JobOutcome.cancelled
    else if wire == 0x205
    then some JobOutcome.timed_out
    else if wire == 0x206
    then some JobOutcome.failed
    else none

pub encode_category : ErrorCategory → ℕ
encode_category ErrorCategory.no_error = 0x301
encode_category ErrorCategory.invalid_request = 0x302
encode_category ErrorCategory.unsupported_target = 0x303
encode_category ErrorCategory.configuration = 0x304
encode_category ErrorCategory.input = 0x305
encode_category ErrorCategory.execution = 0x306
encode_category ErrorCategory.reconstruction = 0x307
encode_category ErrorCategory.validation = 0x308
encode_category ErrorCategory.storage = 0x309
encode_category ErrorCategory.protocol = 0x30a
encode_category ErrorCategory.cancelled = 0x30b
encode_category ErrorCategory.timed_out = 0x30c
encode_category ErrorCategory.internal = 0x30d

pub decode_category : ℕ → Option ErrorCategory
decode_category wire =
    if wire == 0x301
    then some ErrorCategory.no_error
    else if wire == 0x302
    then some ErrorCategory.invalid_request
    else if wire == 0x303
    then some ErrorCategory.unsupported_target
    else if wire == 0x304
    then some ErrorCategory.configuration
    else if wire == 0x305
    then some ErrorCategory.input
    else if wire == 0x306
    then some ErrorCategory.execution
    else if wire == 0x307
    then some ErrorCategory.reconstruction
    else if wire == 0x308
    then some ErrorCategory.validation
    else if wire == 0x309
    then some ErrorCategory.storage
    else if wire == 0x30a
    then some ErrorCategory.protocol
    else if wire == 0x30b
    then some ErrorCategory.cancelled
    else if wire == 0x30c
    then some ErrorCategory.timed_out
    else if wire == 0x30d
    then some ErrorCategory.internal
    else none

pub encode_quality : ArtifactQuality → ℕ
encode_quality ArtifactQuality.complete = 0x401
encode_quality ArtifactQuality.partial = 0x402

pub decode_quality : ℕ → Option ArtifactQuality
decode_quality wire =
    if wire == 0x401
    then some ArtifactQuality.complete
    else if wire == 0x402
    then some ArtifactQuality.partial
    else none
