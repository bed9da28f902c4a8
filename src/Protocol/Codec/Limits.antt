-- ===== src/Protocol/Codec/Limits.antt =====
-- Which messages have a frame, and how long it is.
use upx_killer.Common.{
  ◌+◌, ◌≤◌, ◌<◌, ◌≡◌, ◌⊎◌, arith, none, some, ◌++◌, Bytes, length, Option-cases, inl, inr,
  length-append,
}
use upx_killer.Contracts.Jobs.{UnpackJobRequest}
use upx_killer.Protocol.Wire.{put_u32, put_u64, maximum_string_size}
use upx_killer.Protocol.Wire.Laws.{length-put_u32, length-put_u64, put_string-cases}
use upx_killer.Protocol.Messages.{EngineHostMessage}
use upx_killer.Protocol.Messages.Encode.{
  encode_execute, flag, has_entry, entry_kind_code, entry_value,
}
use upx_killer.Protocol.Codec.{
  encode, encode_payload, frame, message_type, maximum_frame_size, frame_header_size,
  execute_job_type,
}
use upx_killer.Protocol.Codec.Header.{length-frame}

-- A frame holds its header, and a payload of at most 1 MiB.
pub encode_bounds :
    (m : EngineHostMessage) (bytes : Bytes)
    → encode m ≡ some bytes
    → (frame_header_size ≤ length bytes) × (length bytes ≤ frame_header_size + maximum_frame_size)
unfolding encode
encode_bounds m bytes e = elim (Option-cases (encode_payload m)) [
  | inl refused ↦ absurd (ground arith)
  | inr (payload, p) ↦ ground (arith, length-frame (message_type m) payload)
]

-- What `encode` answers for a payload of known length.
encode_of_payload :
    (m : EngineHostMessage) (payload : Bytes)
    → encode_payload m ≡ some payload
    → length payload ≤ maximum_frame_size
    → encode m ≡ some (frame (message_type m) payload)
unfolding encode
encode_of_payload m payload e h = ground arith

encode_refused : (m : EngineHostMessage) → encode_payload m ≡ none → encode m ≡ none
unfolding encode
encode_refused m e = ground arith

abbrev execute_payload : UnpackJobRequest → Bytes
execute_payload r =
    (put_u32 (length r.target_path) ++ r.target_path)
    ++ ((put_u32 (length r.output_path) ++ r.output_path)
        ++ (put_u32 (has_entry r.entry_point)
            ++ (put_u32 (entry_kind_code r.entry_point)
                ++ (put_u64 (entry_value r.entry_point)
                    ++ (put_u32 r.timeout_milliseconds
                        ++ (put_u64 r.maximum_image_size
                            ++ put_u32 (flag r.retain_failed_output)))))))

length-execute_payload :
    (r : UnpackJobRequest)
    → length (execute_payload r) ≡ 40 + (length r.target_path + length r.output_path)
length-execute_payload r = simp (length-append, length-put_u32, length-put_u64) (omega arith)

-- The frame of a job request: it exists exactly when neither path has more than 128 KiB, and then
-- it is 56 bytes longer than the paths. The limit of a frame is never what refuses a request.
pub encode_execute_total :
    (r : UnpackJobRequest)
    → ((length r.target_path ≤ maximum_string_size)
        × (length r.output_path ≤ maximum_string_size)
        × (bytes : Bytes) × (encode (EngineHostMessage.execute_job r) ≡ some bytes)
        × (length bytes ≡ 56 + (length r.target_path + length r.output_path)))
      ⊎ (((maximum_string_size < length r.target_path)
            ⊎ (maximum_string_size < length r.output_path))
          × (encode (EngineHostMessage.execute_job r) ≡ none))
unfolding message_type
encode_execute_total r = elim (put_string-cases r.target_path) [
  | inr (long, p) ↦ inr (
    inl long,
    encode_refused (EngineHostMessage.execute_job r) (unfold encode_payload encode_execute in rw p),
  )
  | inl (short, p) ↦ elim (put_string-cases r.output_path) [
    | inr (long, q) ↦ inr (
      inr long,
      encode_refused (EngineHostMessage.execute_job r)
          (unfold encode_payload encode_execute in rw (p, q)),
    )
    | inl (short', q) ↦ inl (
      short,
      short',
      frame execute_job_type (execute_payload r),
      encode_of_payload (EngineHostMessage.execute_job r) (execute_payload r)
          (unfold encode_payload encode_execute in rw (p, q))
          (omega (arith, length-execute_payload r)),
      omega (arith, length-frame execute_job_type (execute_payload r), length-execute_payload r),
    )
  ]
]
