-- ===== src/Protocol/Messages/Decode.antt =====
-- EngineHostCodec.cpp, DecodePayload: one decoder for each message type. Each takes the payload, and
-- `at_end` is the test `offset != payload.size()`.
use upx_killer.Common.{ℕ, ◌||◌, Option, none, some, List, ltb, ◌!=◌, if◌then◌else◌}
use upx_killer.Contracts.Targets.{BackendManifest}
use upx_killer.Contracts.Jobs.{
  JobArtifact, EntryPointAddressKind, EntryPointHint, UnpackJobRequest, ProgressEvent, JobResult,
}
use upx_killer.Protocol.Enums.{
  decode_entry_kind, decode_stage, decode_outcome, decode_category, decode_quality,
}
use upx_killer.Protocol.Wire.{
  Get, ◌>>=◌, ◌>>◌, pure, fail_if, or_fail, at_end, get_u32, get_u64, get_string, get_each,
  maximum_collection_size,
}
use upx_killer.Protocol.Messages.Descriptor.{decode_descriptor}

unfoldable pub get_collection : {A : Type 0} → Get A → Get (List A)
get_collection get = do
  count ← get_u32
  fail_if (ltb maximum_collection_size count)
  get_each get count

unfoldable pub decode_manifest : Get BackendManifest
decode_manifest = do
  backend_id ← get_string
  capabilities ← get_collection decode_descriptor
  pure (record { backend_id = backend_id; capabilities = capabilities })

unfoldable pub decode_capabilities : Get (List BackendManifest)
decode_capabilities = do manifests ← get_collection decode_manifest; at_end; pure manifests

abbrev pub hint_of : ℕ → Option EntryPointAddressKind → Option (Option EntryPointHint)
hint_of value none = none
hint_of value (some kind) = some (some (record { kind = kind; value = value }))

-- `if (hasEntry) … else if (entryKind != 0 || entryValue != 0) return std::nullopt;`
unfoldable pub decode_entry : ℕ → ℕ → ℕ → Option (Option EntryPointHint)
decode_entry has kind value =
    if has != 0
    then hint_of value (decode_entry_kind kind)
    else if kind != 0 || value != 0
    then none
    else some none

unfoldable pub decode_execute : Get UnpackJobRequest
decode_execute = do
  target ← get_string
  output ← get_string
  has ← get_u32
  fail_if (ltb 1 has)
  kind ← get_u32
  value ← get_u64
  timeout ← get_u32
  maximum ← get_u64
  retain ← get_u32
  fail_if (ltb 1 retain)
  at_end
  entry ← or_fail (decode_entry has kind value)
  pure (record {
    target_path = target;
    output_path = output;
    entry_point = entry;
    timeout_milliseconds = timeout;
    maximum_image_size = maximum;
    retain_failed_output = retain != 0;
  })

unfoldable pub decode_progress : Get ProgressEvent
decode_progress = do
  code ← get_u32
  stage ← or_fail (decode_stage code)
  detail ← get_string
  at_end
  pure (record { stage = stage; detail_code = detail })

unfoldable pub decode_artifact : Get JobArtifact
decode_artifact = do
  path ← get_string
  code ← get_u32
  quality ← or_fail (decode_quality code)
  verified ← get_u32
  fail_if (ltb 1 verified)
  warnings ← get_collection get_string
  pure (record {
    path = path;
    quality = quality;
    loader_verified = verified != 0;
    warnings = warnings;
  })

-- `if (hasArtifact) { … message.result.artifact = std::move(artifact); }`
unfoldable pub decode_optional_artifact : Get (Option JobArtifact)
decode_optional_artifact = do
  has ← get_u32
  fail_if (ltb 1 has)
  if has != 0 then (decode_artifact >>= λ artifact. pure (some artifact)) else pure none

unfoldable pub decode_result : Get JobResult
decode_result = do
  outcome_code ← get_u32
  outcome ← or_fail (decode_outcome outcome_code)
  category_code ← get_u32
  category ← or_fail (decode_category category_code)
  detail ← get_string
  native ← get_u32
  artifact ← decode_optional_artifact
  at_end
  pure (record {
    outcome = outcome;
    category = category;
    detail_code = detail;
    artifact = artifact;
    native_code = native;
  })
