-- ===== src/Protocol/Messages/Execute.antt =====
-- The job request on the wire: reading back and rebuilding.
use upx_killer.Common.{
  ℕ, ◌≡◌, refl, ◌∙◌, arith, Bool, true, false, Option, none, some, [], Bytes, IsByte, IsU32, IsU64,
  All, ltb, ◌!=◌, append-nil, inl, inr, ◌++◌, Option-cases,
}
use upx_killer.Contracts.Jobs.{EntryPointHint, UnpackJobRequest}
use upx_killer.Protocol.Wire.{at_end, put_u32, get_u32, put_u64, get_u64, put_string, get_string}
use upx_killer.Protocol.Wire.Laws.{IsU32-Inverse, IsU64-Inverse, string-Inverse}
use upx_killer.Protocol.Wire.Chains.{
  read_back, read_last, u32_inversion, u64_inversion, bind_inversion, fail_if_inversion,
  at_end_inversion, fail_if_passes, or_fail_inversion, or_fail_passes,
}
use upx_killer.Protocol.Enums.{decode_entry_kind}
use upx_killer.Protocol.Enums.Laws.{
  decode_entry_kind-encode_entry_kind, encode_entry_kind-decode_entry_kind,
}
use upx_killer.Protocol.Messages.Encode.{
  flag, has_entry, entry_kind_code, entry_value, encode_execute, write_u32, write_u64,
}
use upx_killer.Protocol.Messages.Decode.{decode_entry, decode_execute, hint_of}

-- The ranges of the C++ fields.
pub record IsRequest (r : UnpackJobRequest) : Type 0 where
  pub entry_range : IsU64 (entry_value r.entry_point)
  pub timeout_range : IsU32 r.timeout_milliseconds
  pub maximum_range : IsU64 r.maximum_image_size

entry_decode_encode :
    (entry : Option EntryPointHint)
    → decode_entry (has_entry entry) (entry_kind_code entry) (entry_value entry) ≡ some entry
unfolding decode_entry
entry_decode_encode none = refl
entry_decode_encode (some hint) =
    rw ((decode_entry_kind-encode_entry_kind hint.kind).0, hint_of) refl

entry_kind_range : (entry : Option EntryPointHint) → IsU32 (entry_kind_code entry)
entry_kind_range none = omega arith
entry_kind_range (some hint) = (decode_entry_kind-encode_entry_kind hint.kind).1

entry_encode_decode :
    (has kind value : ℕ) (entry : Option EntryPointHint)
    → ltb 1 has ≡ false
    → decode_entry has kind value ≡ some entry
    → (has ≡ has_entry entry) × (kind ≡ entry_kind_code entry) × (value ≡ entry_value entry)
unfolding decode_entry
entry_encode_decode has kind value none small e = elim (Option-cases (decode_entry_kind kind)) [
  | inl unknown ↦ ground arith
  | inr (k, p) ↦ ground arith
]
entry_encode_decode has kind value (some hint) small e =
    elim (Option-cases (decode_entry_kind kind)) [
      | inl unknown ↦ absurd (ground arith)
      | inr (k, p) ↦ ground (arith, encode_entry_kind-decode_entry_kind kind k p)
    ]

flag_range : (b : Bool) → IsU32 (flag b)
flag_range b = ground arith

has_entry_range : (entry : Option EntryPointHint) → IsU32 (has_entry entry)
has_entry_range none = omega arith
has_entry_range (some hint) = omega arith

flag_bit : (b : Bool) → (flag b != 0) ≡ b
flag_bit true = refl
flag_bit false = refl

flag_small : (b : Bool) → ltb 1 (flag b) ≡ false
flag_small b = ground arith

has_entry_small : (entry : Option EntryPointHint) → ltb 1 (has_entry entry) ≡ false
has_entry_small none = refl
has_entry_small (some hint) = refl

execute_reads_back :
    (r : UnpackJobRequest) (bytes : Bytes)
    → IsRequest r
    → encode_execute r ≡ some bytes
    → decode_execute (bytes ++ []) ≡ some (r, [])
unfolding encode_execute decode_execute at_end
execute_reads_back r bytes h e =
    read_back put_string get_string string-Inverse _ r.target_path _ bytes [] tt e λ b1 q1.
      read_back put_string get_string string-Inverse _ r.output_path _ b1 [] tt q1 λ b2 q2.
        read_back write_u32 get_u32 IsU32-Inverse _ (has_entry r.entry_point) _ b2 []
          (has_entry_range r.entry_point) q2
          λ b3 q3.
            fail_if_passes _ _ (b3 ++ []) (has_entry_small r.entry_point)
            ∙ read_back write_u32 get_u32 IsU32-Inverse _ (entry_kind_code r.entry_point) _ b3 []
                (entry_kind_range r.entry_point) q3
                λ b4 q4.
                  read_back write_u64 get_u64 IsU64-Inverse _ (entry_value r.entry_point) _ b4 []
                    h.entry_range q4
                    λ b5 q5.
                      read_back write_u32 get_u32 IsU32-Inverse _ r.timeout_milliseconds _ b5 []
                        h.timeout_range q5
                        λ b6 q6.
                          read_back write_u64 get_u64 IsU64-Inverse _ r.maximum_image_size _ b6 []
                            h.maximum_range q6
                            λ b7 q7.
                              read_last write_u32 get_u32 IsU32-Inverse _
                                (flag r.retain_failed_output) b7 []
                                (flag_range r.retain_failed_output) q7
                                (fail_if_passes _ _ [] (flag_small r.retain_failed_output)
                                  ∙ or_fail_passes _ _ [] (entry_decode_encode r.entry_point)
                                  ∙ rw (flag_bit r.retain_failed_output))

-- A request that was encoded is read back whole.
pub execute_decode_encode :
    (r : UnpackJobRequest) (bytes : Bytes)
    → IsRequest r
    → encode_execute r ≡ some bytes
    → decode_execute bytes ≡ some (r, [])
execute_decode_encode r bytes h e = rw append-nil at (execute_reads_back r bytes h e)

flag-bit : (n : ℕ) → ltb 1 n ≡ false → n ≡ flag (n != 0)
flag-bit n h = ground arith

encode_execute_lem :
    (r : UnpackJobRequest) (target output : Bytes)
    → put_string r.target_path ≡ some target
    → put_string r.output_path ≡ some output
    → encode_execute r
      ≡ some (
          target
          ++ (output
              ++ (put_u32 (has_entry r.entry_point)
                  ++ (put_u32 (entry_kind_code r.entry_point)
                      ++ (put_u64 (entry_value r.entry_point)
                          ++ (put_u32 r.timeout_milliseconds
                              ++ (put_u64 r.maximum_image_size
                                  ++ put_u32 (flag r.retain_failed_output))))))))
unfolding encode_execute
encode_execute_lem r target output p q = rw (p, q)

-- Only the encoder's own output is accepted as a request.
pub execute_encode_decode :
    (bytes rest : Bytes) (r : UnpackJobRequest)
    → All IsByte bytes
    → decode_execute bytes ≡ some (r, rest)
    → (encode_execute r ≡ some bytes) × (rest ≡ []) × IsRequest r
unfolding decode_execute
execute_encode_decode bytes rest r h e =
    bind_inversion put_string get_string string-Inverse _ bytes rest r h e
      λ target m1 f1 p1 s1 _ h1 e1.
        bind_inversion put_string get_string string-Inverse _ m1 rest r h1 e1
          λ output m2 f2 p2 s2 _ h2 e2. u32_inversion _ m2 rest r h2 e2 λ has m3 s3 b3 h3 e3.
            fail_if_inversion _ _ m3 rest r e3 λ small e4.
              u32_inversion _ m3 rest r h3 e4 λ kind m5 s5 b5 h5 e5.
                u64_inversion _ m5 rest r h5 e5 λ value m6 s6 b6 h6 e6.
                  u32_inversion _ m6 rest r h6 e6 λ timeout m7 s7 b7 h7 e7.
                    u64_inversion _ m7 rest r h7 e7 λ maximum m8 s8 b8 h8 e8.
                      u32_inversion _ m8 rest r h8 e8 λ retain m9 s9 b9 h9 e9.
                        fail_if_inversion _ _ m9 rest r e9 λ small' e10.
                          at_end_inversion _ m9 rest r e10 λ end e11.
                            or_fail_inversion _ _ [] rest r e11 λ entry q e12.
                              let (has_eq, kind_eq, value_eq) =
                                entry_encode_decode has kind value entry small q in
                              (
                                cc (
                                  encode_execute_lem r f1 f2 (cc) (cc),
                                  append-nil (put_u32 retain),
                                  flag-bit retain small',
                                ),
                                cc,
                                record {
                                  entry_range = ground arith;
                                  timeout_range = ground arith;
                                  maximum_range = ground arith;
                                },
                              )
