-- ===== src/Protocol/Codec/RoundTrip.antt =====
-- Frames decode to the messages that they encode, and nothing else decodes.
use upx_killer.Common.{
  ℕ, ◌+◌, ◌≤◌, ◌≡◌, ◌∙◌, arith, false, some, List, [], ◌∷◌, Bytes, IsByte, IsU32, All, ltb, length,
  take, drop, append-nil, Option-cases, Bool-cases, inl, inr, take-append-drop, All-take, All-drop,
}
use upx_killer.Protocol.Wire.{◌>>=◌, at_end}
use upx_killer.Protocol.Wire.Chains.{bind_inversion, at_end_inversion}
use upx_killer.Contracts.Targets.{BackendManifest}
use upx_killer.Protocol.Messages.{EngineHostMessage}
use upx_killer.Protocol.Messages.Encode.{encode_capabilities, put_manifest}
use upx_killer.Protocol.Messages.Decode.{
  decode_capabilities, decode_execute, decode_progress, decode_result, get_collection,
  decode_manifest,
}
use upx_killer.Protocol.Messages.Collections.{collection-Inverse, manifest-Inverse, All-Unit}
use upx_killer.Protocol.Messages.Execute.{IsRequest, execute_decode_encode, execute_encode_decode}
use upx_killer.Protocol.Messages.Report.{progress_decode_encode, progress_encode_decode}
use upx_killer.Protocol.Messages.Outcome.{result_decode_encode, result_encode_decode}
use upx_killer.Protocol.Codec.Header.{
  take-frame, drop-frame, length-frame, decode_header-prefix, prefix-decode_header, frame-prefix,
}
use upx_killer.Protocol.Codec.{
  FrameHeader, message_type, encode_payload, frame, encode, map_value, decode_header,
  decode_message, decode_payload, maximum_frame_size, frame_header_size,
}

-- The ranges of the C++ fields of a message.
abbrev pub IsMessage : EngineHostMessage → Type 0
IsMessage EngineHostMessage.query_capabilities = Unit
IsMessage (EngineHostMessage.capabilities manifests) = Unit
IsMessage (EngineHostMessage.execute_job request) = IsRequest request
IsMessage (EngineHostMessage.progress event) = Unit
IsMessage (EngineHostMessage.result r) = IsU32 r.native_code

capabilities_decode_encode :
    (ms : List BackendManifest) (bytes : Bytes)
    → encode_capabilities ms ≡ some bytes
    → decode_capabilities bytes ≡ some (ms, [])
unfolding encode_capabilities decode_capabilities at_end
capabilities_decode_encode ms bytes e =
    let inverse = collection-Inverse put_manifest decode_manifest manifest-Inverse in
    let whole : get_collection decode_manifest bytes ≡ some (ms, []) =
      rw append-nil at (inverse.decode_encode ms bytes [] (All-Unit ms) e) in
    rw (◌>>=◌, whole)

capabilities_encode_decode :
    (bytes rest : Bytes) (ms : List BackendManifest)
    → All IsByte bytes
    → decode_capabilities bytes ≡ some (ms, rest)
    → encode_capabilities ms ≡ some bytes
unfolding encode_capabilities decode_capabilities
capabilities_encode_decode bytes rest ms h e =
    bind_inversion _ _ (collection-Inverse put_manifest decode_manifest manifest-Inverse) _ bytes
      rest ms h e
      λ ms' m1 f1 p1 s1 _ h1 e1. at_end_inversion _ m1 rest ms e1 λ end e2. cc (append-nil f1)

message_decode_encode :
    (m : EngineHostMessage) (bytes : Bytes)
    → IsMessage m
    → encode_payload m ≡ some bytes
    → decode_message (message_type m) bytes ≡ some m
unfolding encode_payload decode_message message_type
message_decode_encode EngineHostMessage.query_capabilities bytes h e = ground arith
message_decode_encode (EngineHostMessage.capabilities ms) bytes h e =
    rw (capabilities_decode_encode ms bytes e, map_value)
message_decode_encode (EngineHostMessage.execute_job r) bytes h e =
    rw (execute_decode_encode r bytes h e, map_value)
message_decode_encode (EngineHostMessage.progress event) bytes h e =
    rw (progress_decode_encode event bytes e, map_value)
message_decode_encode (EngineHostMessage.result r) bytes h e =
    rw (result_decode_encode r bytes h e, map_value)

IsMessage-encode_decode :
    (type : ℕ) (bytes : Bytes) (m : EngineHostMessage)
    → All IsByte bytes
    → decode_message type bytes ≡ some m
    → (encode_payload m ≡ some bytes) × (message_type m ≡ type) × IsMessage m
unfolding encode_payload decode_message message_type
IsMessage-encode_decode type [] EngineHostMessage.query_capabilities h e = ground arith
IsMessage-encode_decode type (b ∷ bs) EngineHostMessage.query_capabilities h e =
    absurd (ground arith)
IsMessage-encode_decode type bytes (EngineHostMessage.capabilities ms) h e =
    elim (Option-cases (decode_capabilities bytes)) [
      | inl refused ↦ absurd (ground arith)
      | inr ((x, rest), p) ↦ ground (arith, capabilities_encode_decode bytes rest ms h)
    ]
IsMessage-encode_decode type bytes (EngineHostMessage.execute_job r) h e =
    elim (Option-cases (decode_execute bytes)) [
      | inl refused ↦ absurd (ground arith)
      | inr ((x, rest), p) ↦ ground (arith, execute_encode_decode bytes rest r h)
    ]
IsMessage-encode_decode type bytes (EngineHostMessage.progress event) h e =
    elim (Option-cases (decode_progress bytes)) [
      | inl refused ↦ absurd (ground arith)
      | inr ((x, rest), p) ↦ ground (arith, progress_encode_decode bytes rest event h)
    ]
IsMessage-encode_decode type bytes (EngineHostMessage.result r) h e =
    elim (Option-cases (decode_result bytes)) [
      | inl refused ↦ absurd (ground arith)
      | inr ((x, rest), p) ↦ ground (arith, result_encode_decode bytes rest r h)
    ]

message_type-IsU32 : (m : EngineHostMessage) → IsU32 (message_type m)
unfolding message_type
message_type-IsU32 m = ground arith

abbrev Decodes : EngineHostMessage → Bytes → Type 0
Decodes m bytes =
    (header : FrameHeader) × (decode_header (take frame_header_size bytes) ≡ some header)
    × (header.payload_size + frame_header_size ≡ length bytes)
    × (decode_payload header (drop frame_header_size bytes) ≡ some m)

frame-Decodes :
    (m : EngineHostMessage) (payload : Bytes)
    → IsMessage m
    → encode_payload m ≡ some payload
    → length payload ≤ maximum_frame_size
    → Decodes m (frame (message_type m) payload)
unfolding decode_payload
frame-Decodes m payload h e k = (
  record { message_type = message_type m; payload_size = length payload },
  rw (take-frame (message_type m) payload)
      (decode_header-prefix (message_type m) payload (message_type-IsU32 m) k),
  omega (arith, length-frame (message_type m) payload),
  rw (drop-frame (message_type m) payload) (ground (arith, message_decode_encode m payload h e)),
)

-- Every message that encodes comes back from its frame: the first sixteen bytes decode to a header
-- that gives the size of the rest, and the rest decodes under that header to the message.
pub decode-encode :
    (m : EngineHostMessage) (bytes : Bytes)
    → IsMessage m
    → encode m ≡ some bytes
    → (header : FrameHeader) × (decode_header (take frame_header_size bytes) ≡ some header)
      × (header.payload_size + frame_header_size ≡ length bytes)
      × (decode_payload header (drop frame_header_size bytes) ≡ some m)
unfolding encode
decode-encode m bytes h e = elim (Option-cases (encode_payload m)) [
  | inl refused ↦ absurd (ground arith)
  | inr (payload, p) ↦ elim (Bool-cases (ltb maximum_frame_size (length payload))) [
    | inl large ↦ absurd (ground arith)
    | inr small ↦
        let same : frame (message_type m) payload ≡ bytes = ground arith in
        rw (← same) (frame-Decodes m payload h p (ground arith))
  ]
]

-- On bytes, whatever is accepted as a frame is the frame that the encoder writes for the decoded
-- message: the decoder takes no second form, and the decoded fields are in their ranges.
pub encode-decode :
    (bytes : Bytes) (header : FrameHeader) (m : EngineHostMessage)
    → All IsByte bytes
    → decode_header (take frame_header_size bytes) ≡ some header
    → decode_payload header (drop frame_header_size bytes) ≡ some m
    → (encode m ≡ some bytes) × IsMessage m
unfolding encode decode_payload
encode-decode bytes header m h e k =
    let payload = drop frame_header_size bytes in
    let (whole, small) =
      prefix-decode_header (take frame_header_size bytes) header
        (All-take IsByte frame_header_size bytes h) e in
    let size : length payload ≡ header.payload_size = ground arith in
    let (encoded, type, range) =
      IsMessage-encode_decode header.message_type payload m
        (All-drop IsByte frame_header_size bytes h) (ground arith) in
    let same : frame (message_type m) payload ≡ bytes =
      frame-prefix (message_type m) payload
      ∙ cc (whole, take-append-drop frame_header_size bytes) in
    let fits : ltb maximum_frame_size (length payload) ≡ false = ground arith in
    (rw (encode, encoded, fits, same), range)
