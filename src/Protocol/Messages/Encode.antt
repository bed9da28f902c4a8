-- ===== src/Protocol/Messages/Encode.antt =====
-- EngineHostCodec.cpp, EncodePayload: one function for each alternative of the message. The result
-- is the payload, or `none` where the source returns false.
use upx_killer.Common.{
  ℕ, Bool, true, false, Option, none, some, List, Bytes, ltb, length, if◌then◌else◌,
}
use upx_killer.Contracts.Targets.{BackendManifest}
use upx_killer.Contracts.Jobs.{
  JobArtifact, EntryPointHint, UnpackJobRequest, ProgressEvent, JobResult,
}
use upx_killer.Protocol.Enums.{
  encode_entry_kind, encode_stage, encode_outcome, encode_category, encode_quality,
}
use upx_killer.Protocol.Wire.{◌⊕◌, put_u32, put_u64, put_string, put_each, maximum_collection_size}
use upx_killer.Protocol.Messages.Descriptor.{put_descriptor}

-- `condition ? 1u : 0u`
abbrev pub flag : Bool → ℕ
flag true = 1
flag false = 0

-- `PutU32(payload, …)` and `PutU64(payload, …)`, which cannot fail.
abbrev pub write_u32 : ℕ → Option Bytes
write_u32 v = some (put_u32 v)

abbrev pub write_u64 : ℕ → Option Bytes
write_u64 v = some (put_u64 v)

-- The loops `for (auto const& capability : …)` and `for (auto const& warning : …)` with the count
-- that stands before them.
unfoldable pub put_collection : {A : Type 0} → (A → Option Bytes) → List A → Option Bytes
put_collection put items =
    if ltb maximum_collection_size (length items)
    then none
    else write_u32 (length items) ⊕ put_each put items

unfoldable pub put_manifest : BackendManifest → Option Bytes
put_manifest manifest =
    put_string manifest.backend_id
    ⊕ put_collection (λ capability. some (put_descriptor capability)) manifest.capabilities

unfoldable pub encode_capabilities : List BackendManifest → Option Bytes
encode_capabilities manifests = put_collection put_manifest manifests

abbrev pub has_entry : Option EntryPointHint → ℕ
has_entry none = 0
has_entry (some hint) = 1

abbrev pub entry_kind_code : Option EntryPointHint → ℕ
entry_kind_code none = 0
entry_kind_code (some hint) = encode_entry_kind hint.kind

abbrev pub entry_value : Option EntryPointHint → ℕ
entry_value none = 0
entry_value (some hint) = hint.value

unfoldable pub encode_execute : UnpackJobRequest → Option Bytes
encode_execute request =
    put_string request.target_path
    ⊕ put_string request.output_path
    ⊕ write_u32 (has_entry request.entry_point)
    ⊕ write_u32 (entry_kind_code request.entry_point)
    ⊕ write_u64 (entry_value request.entry_point)
    ⊕ write_u32 request.timeout_milliseconds
    ⊕ write_u64 request.maximum_image_size
    ⊕ write_u32 (flag request.retain_failed_output)

unfoldable pub encode_progress : ProgressEvent → Option Bytes
encode_progress event = write_u32 (encode_stage event.stage) ⊕ put_string event.detail_code

unfoldable pub put_artifact : JobArtifact → Option Bytes
put_artifact artifact =
    put_string artifact.path
    ⊕ write_u32 (encode_quality artifact.quality)
    ⊕ write_u32 (flag artifact.loader_verified)
    ⊕ put_collection put_string artifact.warnings

-- From `PutU32(payload, value.result.artifact ? 1u : 0u)` on.
unfoldable pub put_optional_artifact : Option JobArtifact → Option Bytes
put_optional_artifact none = write_u32 0
put_optional_artifact (some artifact) = write_u32 1 ⊕ put_artifact artifact

unfoldable pub encode_result : JobResult → Option Bytes
encode_result result =
    write_u32 (encode_outcome result.outcome)
    ⊕ write_u32 (encode_category result.category)
    ⊕ put_string result.detail_code
    ⊕ write_u32 result.native_code
    ⊕ put_optional_artifact result.artifact
