-- ===== src/Protocol/Tests.antt =====
-- Runs of the codec of EngineHostCodec.cpp.
use upx_killer.Common.{
  ◌+◌, ◌≤◌, ◌<◌, ◌≡◌, ◌⊎◌, refl, arith, none, some, [], ◌∷◌, Bytes, codes, take, drop, length, All,
  IsByte, true,
}
use upx_killer.Contracts.Jobs.{JobStage, UnpackJobRequest, EntryPointAddressKind}
use upx_killer.Protocol.Enums.{encode_stage, decode_stage}
use upx_killer.Protocol.Wire.{
  put_u32, get_u32, fail_if, or_fail, at_end, put_string, get_string, maximum_string_size,
}
use upx_killer.Protocol.Messages.{EngineHostMessage}
use upx_killer.Protocol.Messages.Encode.{encode_progress}
use upx_killer.Protocol.Messages.Decode.{decode_progress}
use upx_killer.Protocol.Codec.{
  FrameHeader, encode, encode_payload, frame, message_type, decode_header, decode_payload,
  decode_message, frame_header_size, maximum_frame_size, progress_type, read_header,
}
use upx_killer.Protocol.Codec.RoundTrip.{IsMessage, decode-encode, encode-decode}
use upx_killer.Protocol.Codec.Limits.{encode_bounds, encode_execute_total}

abbrev dumping : EngineHostMessage
dumping =
    EngineHostMessage.progress
      (record { stage = JobStage.capturing_image; detail_code = codes "dump" })

abbrev dumping_frame : Bytes
dumping_frame =
    85 ∷ 80 ∷ 88 ∷ 75 ∷ 7 ∷ 0 ∷ 0 ∷ 0 ∷ 2 ∷ 32 ∷ 0 ∷ 0 ∷ 12 ∷ 0 ∷ 0 ∷ 0 ∷ 4 ∷ 1 ∷ 0 ∷ 0 ∷ 4 ∷ 0 ∷ 0
    ∷ 0 ∷ 100 ∷ 117 ∷ 109 ∷ 112 ∷ []

dumping_encodes : encode dumping ≡ some dumping_frame
unfolding encode encode_payload encode_progress frame message_type put_u32 put_string encode_stage
dumping_encodes = refl

abbrev dumping_header : FrameHeader
dumping_header = record { message_type = progress_type; payload_size = 12 }

dumping_header_decodes : decode_header (take frame_header_size dumping_frame) ≡ some dumping_header
unfolding decode_header read_header get_u32 fail_if
dumping_header_decodes = refl

dumping_payload_decodes :
    decode_payload dumping_header (drop frame_header_size dumping_frame) ≡ some dumping
unfolding decode_payload decode_message decode_progress get_string get_u32 decode_stage or_fail
    at_end
dumping_payload_decodes = refl

dumping_frame-IsByte : All IsByte dumping_frame
dumping_frame-IsByte = ground arith

abbrev request : UnpackJobRequest
request = record {
  target_path = codes "in.exe";
  output_path = codes "out.exe";
  entry_point = some (record { kind = EntryPointAddressKind.virtual_address; value = 0x401000 });
  timeout_milliseconds = 60000;
  maximum_image_size = 0x40000000;
  retain_failed_output = true;
}

decode-encode_example :
    (header : FrameHeader) × (decode_header (take frame_header_size dumping_frame) ≡ some header)
    × (header.payload_size + frame_header_size ≡ length dumping_frame)
    × (decode_payload header (drop frame_header_size dumping_frame) ≡ some dumping)
decode-encode_example = decode-encode dumping dumping_frame tt dumping_encodes

encode-decode_example : (encode dumping ≡ some dumping_frame) × IsMessage dumping
encode-decode_example =
    encode-decode dumping_frame dumping_header dumping dumping_frame-IsByte dumping_header_decodes
      dumping_payload_decodes

encode_bounds_example :
    (frame_header_size ≤ length dumping_frame)
    × (length dumping_frame ≤ frame_header_size + maximum_frame_size)
encode_bounds_example = encode_bounds dumping dumping_frame dumping_encodes

encode_execute_total_example :
    ((length request.target_path ≤ maximum_string_size)
      × (length request.output_path ≤ maximum_string_size)
      × (bytes : Bytes) × (encode (EngineHostMessage.execute_job request) ≡ some bytes)
      × (length bytes ≡ 56 + (length request.target_path + length request.output_path)))
    ⊎ (((maximum_string_size < length request.target_path)
          ⊎ (maximum_string_size < length request.output_path))
        × (encode (EngineHostMessage.execute_job request) ≡ none))
encode_execute_total_example = encode_execute_total request
