-- ===== src/Protocol/Codec/Header.antt =====
-- The sixteen bytes before a payload.
use upx_killer.Common.{
  ℕ, ◌+◌, ◌≤◌, ◌≡◌, ap, arith, false, some, [], ◌∷◌, ◌++◌, Bytes, IsByte, IsU32, All, ltb, length,
  take, drop, append-nil, append_assoc, Option-cases, inl, inr, length-append, !=-false→eq,
  take-append_length, drop-append_length,
}
use upx_killer.Protocol.Wire.{◌>>=◌, put_u32, get_u32, fail_if}
use upx_killer.Protocol.Wire.Laws.{get_u32-put_u32, length-put_u32}
use upx_killer.Protocol.Wire.Chains.{u32_inversion, fail_if_inversion}
use upx_killer.Protocol.Codec.{
  FrameHeader, frame, read_header, value_of, decode_header, maximum_frame_size, protocol_magic,
  protocol_version,
}

length_words :
    (a b c d : ℕ) (rest : Bytes)
    → length (put_u32 a ++ (put_u32 b ++ (put_u32 c ++ (put_u32 d ++ rest)))) ≡ 16 + length rest
length_words a b c d rest = omega (
  arith,
  length-append (put_u32 a) (put_u32 b ++ (put_u32 c ++ (put_u32 d ++ rest))),
  length-append (put_u32 b) (put_u32 c ++ (put_u32 d ++ rest)),
  length-append (put_u32 c) (put_u32 d ++ rest),
  length-append (put_u32 d) rest,
  length-put_u32 a,
  length-put_u32 b,
  length-put_u32 c,
  length-put_u32 d,
)

pub length-frame : (type : ℕ) (payload : Bytes) → length (frame type payload) ≡ 16 + length payload
unfolding frame
length-frame type payload = length_words _ _ _ _ payload

-- The header of a frame, and what is left of the frame behind it.
abbrev prefix : ℕ → Bytes → Bytes
prefix type payload =
    put_u32 protocol_magic
    ++ (put_u32 protocol_version ++ (put_u32 type ++ put_u32 (length payload)))

pub frame-prefix :
    (type : ℕ) (payload : Bytes) → frame type payload ≡ prefix type payload ++ payload
unfolding frame
frame-prefix type payload = simp append_assoc

length-prefix : (type : ℕ) (payload : Bytes) → length (prefix type payload) ≡ 16
length-prefix type payload = omega (
  arith,
  length-append (prefix type payload) payload,
  ap length (frame-prefix type payload),
  length-frame type payload,
)

pub take-frame : (type : ℕ) (payload : Bytes) → take 16 (frame type payload) ≡ prefix type payload
take-frame type payload =
    rw (frame-prefix type payload)
      (rw (← length-prefix type payload) (take-append_length (prefix type payload) payload))

pub drop-frame : (type : ℕ) (payload : Bytes) → drop 16 (frame type payload) ≡ payload
drop-frame type payload =
    rw (frame-prefix type payload)
      (rw (← length-prefix type payload) (drop-append_length (prefix type payload) payload))

get_u32_last : (v : ℕ) → IsU32 v → get_u32 (put_u32 v) ≡ some (v, [])
get_u32_last v h = rw append-nil at (get_u32-put_u32 v [] h)

read_header-prefix :
    (type : ℕ) (payload : Bytes)
    → IsU32 type
    → length payload ≤ maximum_frame_size
    → read_header (prefix type payload)
      ≡ some (record { message_type = type; payload_size = length payload }, [])
unfolding read_header fail_if
read_header-prefix type payload h k =
    let small : ltb maximum_frame_size (length payload) ≡ false = ground arith in
    simp (
      ◌>>=◌,
      get_u32-put_u32 protocol_magic _ (omega arith),
      get_u32-put_u32 protocol_version _ (omega arith),
      get_u32-put_u32 type _ h,
      get_u32_last (length payload) (omega arith),
      small,
    )

pub decode_header-prefix :
    (type : ℕ) (payload : Bytes)
    → IsU32 type
    → length payload ≤ maximum_frame_size
    → decode_header (prefix type payload)
      ≡ some (record { message_type = type; payload_size = length payload })
unfolding decode_header
decode_header-prefix type payload h k =
    rw (length-prefix type payload, read_header-prefix type payload h k, value_of)

prefix-read_header :
    (bytes rest : Bytes) (header : FrameHeader)
    → All IsByte bytes
    → read_header bytes ≡ some (header, rest)
    → (bytes
        ≡ put_u32 protocol_magic
          ++ (put_u32 protocol_version
              ++ (put_u32 header.message_type ++ (put_u32 header.payload_size ++ rest))))
      × (header.payload_size ≤ maximum_frame_size)
unfolding read_header
prefix-read_header bytes rest r h e = u32_inversion _ bytes rest r h e λ magic m1 s1 b1 h1 e1.
    u32_inversion _ m1 rest r h1 e1 λ version m2 s2 b2 h2 e2.
      u32_inversion _ m2 rest r h2 e2 λ type m3 s3 b3 h3 e3.
        u32_inversion _ m3 rest r h3 e3 λ size m4 s4 b4 h4 e4.
          fail_if_inversion _ _ m4 rest r e4 λ magic_eq e5.
            fail_if_inversion _ _ m4 rest r e5 λ version_eq e6.
              fail_if_inversion _ _ m4 rest r e6 λ size_le e7. (
                cc (
                  !=-false→eq magic protocol_magic magic_eq,
                  !=-false→eq version protocol_version version_eq,
                ),
                ground arith,
              )

pub prefix-decode_header :
    (bytes : Bytes) (header : FrameHeader)
    → All IsByte bytes
    → decode_header bytes ≡ some header
    → (bytes
        ≡ put_u32 protocol_magic
          ++ (put_u32 protocol_version
              ++ (put_u32 header.message_type ++ put_u32 header.payload_size)))
      × (header.payload_size ≤ maximum_frame_size)
unfolding decode_header
prefix-decode_header bytes header h e = elim (Option-cases (read_header bytes)) [
  | inl refused ↦ absurd (ground arith)
  | inr ((header', []), p) ↦
      let (whole, small) = prefix-read_header bytes [] header' h p in
      let same : header' ≡ header = ground arith in
      (rw (← same) (rw append-nil at whole), rw (← same) small)
  | inr ((header', b ∷ bs), p) ↦
      let whole = (prefix-read_header bytes (b ∷ bs) header' h p).0 in
      absurd (
        ground (
          arith,
          ap length whole,
          length_words protocol_magic protocol_version header'.message_type header'.payload_size
              (b ∷ bs),
        ))
]
