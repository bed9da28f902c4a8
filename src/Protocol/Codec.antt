-- ===== src/Protocol/Codec.antt =====
-- EngineHostCodec.h and EngineHostCodec.cpp, Encode to DecodePayload.
pub mod Header
pub mod RoundTrip
pub mod Limits
use upx_killer.Common.{
  ℕ, ◌*◌, ◌^◌, Bool, true, false, ◌||◌, Option, none, some, List, [], ◌∷◌, ◌++◌, Bytes, ltb, ◌==◌,
  ◌!=◌, length, if◌then◌else◌,
}
use upx_killer.Protocol.Wire.{Get, ◌>>=◌, ◌>>◌, pure, fail_if, put_u32, get_u32}
use upx_killer.Protocol.Messages.{EngineHostMessage}
use upx_killer.Protocol.Messages.Encode.{
  encode_capabilities, encode_execute, encode_progress, encode_result,
}
use upx_killer.Protocol.Messages.Decode.{
  decode_capabilities, decode_execute, decode_progress, decode_result,
}

abbrev query_capabilities_type : ℕ
query_capabilities_type = 0x1001

abbrev capabilities_type : ℕ
capabilities_type = 0x1002

abbrev pub execute_job_type : ℕ
execute_job_type = 0x2001

abbrev pub progress_type : ℕ
progress_type = 0x2002

abbrev result_type : ℕ
result_type = 0x2003

abbrev pub protocol_version : ℕ
protocol_version = 7

abbrev pub protocol_magic : ℕ
protocol_magic = 0x4b585055

abbrev pub maximum_frame_size : ℕ
maximum_frame_size = 2 ^ 20

abbrev pub frame_header_size : ℕ
frame_header_size = 16

pub record FrameHeader : Type 0 where
  pub message_type : ℕ
  pub payload_size : ℕ

-- The message type that `std::visit` sets.
unfoldable pub message_type : EngineHostMessage → ℕ
message_type EngineHostMessage.query_capabilities = query_capabilities_type
message_type (EngineHostMessage.capabilities manifests) = capabilities_type
message_type (EngineHostMessage.execute_job request) = execute_job_type
message_type (EngineHostMessage.progress event) = progress_type
message_type (EngineHostMessage.result r) = result_type

unfoldable pub encode_payload : EngineHostMessage → Option Bytes
encode_payload EngineHostMessage.query_capabilities = some []
encode_payload (EngineHostMessage.capabilities manifests) = encode_capabilities manifests
encode_payload (EngineHostMessage.execute_job request) = encode_execute request
encode_payload (EngineHostMessage.progress event) = encode_progress event
encode_payload (EngineHostMessage.result r) = encode_result r

unfoldable pub frame : ℕ → Bytes → Bytes
frame type payload =
    put_u32 protocol_magic
    ++ (put_u32 protocol_version ++ (put_u32 type ++ (put_u32 (length payload) ++ payload)))

unfoldable pub encode : EngineHostMessage → Option Bytes
encode message = elim (encode_payload message) [
  | none ↦ none
  | some payload ↦
      if ltb maximum_frame_size (length payload)
      then none
      else some (frame (message_type message) payload)
]

unfoldable pub read_header : Get FrameHeader
read_header = do
  magic ← get_u32
  version ← get_u32
  type ← get_u32
  size ← get_u32
  fail_if (magic != protocol_magic)
  fail_if (version != protocol_version)
  fail_if (ltb maximum_frame_size size)
  pure (record { message_type = type; payload_size = size })

-- The value of a decoder that has checked for the end of its input itself.
abbrev pub value_of : {A : Type 0} → Option (A × Bytes) → Option A
value_of none = none
value_of (some (a, rest)) = some a

unfoldable pub decode_header : Bytes → Option FrameHeader
decode_header header =
    if length header != frame_header_size then none else value_of (read_header header)

abbrev pub map_value :
    {A : Type 0} → (A → EngineHostMessage) → Option (A × Bytes) → Option EngineHostMessage
map_value wrap none = none
map_value wrap (some (a, rest)) = some (wrap a)

-- The chain of `if (header.messageType == …)`.
unfoldable pub decode_message : ℕ → Bytes → Option EngineHostMessage
decode_message type payload =
    if type == query_capabilities_type
    then if length payload == 0 then some EngineHostMessage.query_capabilities else none
    else if type == capabilities_type
    then map_value EngineHostMessage.capabilities (decode_capabilities payload)
    else if type == execute_job_type
    then map_value EngineHostMessage.execute_job (decode_execute payload)
    else if type == progress_type
    then map_value EngineHostMessage.progress (decode_progress payload)
    else if type == result_type
    then map_value EngineHostMessage.result (decode_result payload)
    else none

unfoldable pub decode_payload : FrameHeader → Bytes → Option EngineHostMessage
decode_payload header payload =
    if length payload != header.payload_size
    then none
    else decode_message header.message_type payload
