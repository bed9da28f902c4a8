-- ===== src/Protocol/Messages/Outcome.antt =====
-- Results on the wire: reading back and rebuilding.
use upx_killer.Common.{
  ◌≡◌, refl, ◌∙◌, arith, Option, none, some, [], ◌++◌, Bytes, IsByte, IsU32, All, append-nil,
  append_assoc, Option-cases, inl, inr,
}
use upx_killer.Contracts.Jobs.{JobArtifact, JobResult}
use upx_killer.Protocol.Wire.{at_end, put_u32, get_u32, put_string, get_string}
use upx_killer.Protocol.Wire.Laws.{Inverse, IsU32-Inverse, string-Inverse}
use upx_killer.Protocol.Wire.Chains.{
  read_back, read_last, u32_inversion, bind_inversion, fail_if_inversion, fail_if_passes,
  or_fail_inversion, or_fail_passes, at_end_inversion,
}
use upx_killer.Protocol.Enums.{encode_outcome, encode_category}
use upx_killer.Protocol.Enums.Laws.{
  decode_outcome-encode_outcome, encode_outcome-decode_outcome, decode_category-encode_category,
  encode_category-decode_category,
}
use upx_killer.Protocol.Messages.Report.{artifact-Inverse}
use upx_killer.Protocol.Messages.Encode.{
  put_artifact, put_optional_artifact, encode_result, write_u32,
}
use upx_killer.Protocol.Messages.Decode.{decode_artifact, decode_optional_artifact, decode_result}

optional_decode_encode :
    (a : Option JobArtifact) (bytes rest : Bytes)
    → put_optional_artifact a ≡ some bytes
    → decode_optional_artifact (bytes ++ rest) ≡ some (a, rest)
unfolding put_optional_artifact decode_optional_artifact
optional_decode_encode none bytes rest e =
    read_last write_u32 get_u32 IsU32-Inverse _ 0 bytes rest (omega arith) e
      (fail_if_passes _ _ rest refl ∙ refl)
optional_decode_encode (some a) bytes rest e =
    read_back write_u32 get_u32 IsU32-Inverse _ 1 _ bytes rest (omega arith) e λ b1 q1.
      fail_if_passes _ _ (b1 ++ rest) refl
      ∙ read_last put_artifact decode_artifact artifact-Inverse _ a b1 rest tt q1 refl

optional_encode_decode :
    (bytes rest : Bytes) (a : Option JobArtifact)
    → All IsByte bytes
    → decode_optional_artifact bytes ≡ some (a, rest)
    → (used : Bytes) × (put_optional_artifact a ≡ some used) × (bytes ≡ used ++ rest) × Unit {0}
unfolding put_optional_artifact decode_optional_artifact
optional_encode_decode bytes rest none h e =
    u32_inversion _ bytes rest none h e λ has m1 s1 b1 h1 e1.
      fail_if_inversion _ _ m1 rest none e1 λ small e2. elim (Option-cases (decode_artifact m1)) [
        | inl stuck ↦ (put_u32 0, refl, ground arith, tt)
        | inr ((x, mid), p) ↦ (put_u32 0, refl, ground arith, tt)
      ]
optional_encode_decode bytes rest (some a) h e =
    u32_inversion _ bytes rest (some a) h e λ has m1 s1 b1 h1 e1.
      fail_if_inversion _ _ m1 rest (some a) e1 λ small e2.
        elim (Option-cases (decode_artifact m1)) [
          | inl stuck ↦ absurd (ground arith)
          | inr ((x, mid), p) ↦
              let (used, q, s, _) = artifact-Inverse.encode_decode m1 rest a h1 (ground arith) in
              (
                put_u32 1 ++ used,
                ground arith,
                ground (arith, append_assoc (put_u32 1) used rest),
                tt,
              )
        ]

optional-Inverse : Inverse put_optional_artifact decode_optional_artifact (λ _. Unit {0})
optional-Inverse = record {
  decode_encode = λ a bytes rest h e. optional_decode_encode a bytes rest e;
  encode_decode = optional_encode_decode;
}

result_reads_back :
    (r : JobResult) (bytes : Bytes)
    → IsU32 r.native_code
    → encode_result r ≡ some bytes
    → decode_result (bytes ++ []) ≡ some (r, [])
unfolding encode_result decode_result at_end
result_reads_back r bytes range e =
    let (outcome, outcome_range) = decode_outcome-encode_outcome r.outcome in
    let (category, category_range) = decode_category-encode_category r.category in
    read_back write_u32 get_u32 IsU32-Inverse _ (encode_outcome r.outcome) _ bytes [] outcome_range
      e
      λ b1 q1.
        or_fail_passes _ _ (b1 ++ []) outcome
        ∙ read_back write_u32 get_u32 IsU32-Inverse _ (encode_category r.category) _ b1 []
            category_range q1
            λ b2 q2.
              or_fail_passes _ _ (b2 ++ []) category
              ∙ read_back put_string get_string string-Inverse _ r.detail_code _ b2 [] tt q2
                  λ b3 q3.
                    read_back write_u32 get_u32 IsU32-Inverse _ r.native_code _ b3 [] range q3
                      λ b4 q4.
                        read_last put_optional_artifact decode_optional_artifact optional-Inverse _
                          r.artifact b4 [] tt q4 refl

-- A result that was encoded is read back whole.
pub result_decode_encode :
    (r : JobResult) (bytes : Bytes)
    → IsU32 r.native_code
    → encode_result r ≡ some bytes
    → decode_result bytes ≡ some (r, [])
result_decode_encode r bytes range e = rw append-nil at (result_reads_back r bytes range e)

encode_result_lem :
    (r : JobResult) (detail artifact : Bytes)
    → put_string r.detail_code ≡ some detail
    → put_optional_artifact r.artifact ≡ some artifact
    → encode_result r
      ≡ some (
          put_u32 (encode_outcome r.outcome)
          ++ (put_u32 (encode_category r.category)
              ++ (detail ++ (put_u32 r.native_code ++ artifact))))
unfolding encode_result
encode_result_lem r detail artifact p q = rw (p, q)

-- Only the encoder's own output is accepted as a result.
pub result_encode_decode :
    (bytes rest : Bytes) (r : JobResult)
    → All IsByte bytes
    → decode_result bytes ≡ some (r, rest)
    → (encode_result r ≡ some bytes) × (rest ≡ []) × IsU32 r.native_code
unfolding decode_result
result_encode_decode bytes rest r h e =
    u32_inversion _ bytes rest r h e λ outcome_code m1 s1 b1 h1 e1.
      or_fail_inversion _ _ m1 rest r e1 λ outcome q e2.
        u32_inversion _ m1 rest r h1 e2 λ category_code m2 s2 b2 h2 e3.
          or_fail_inversion _ _ m2 rest r e3 λ category q' e4.
            bind_inversion put_string get_string string-Inverse _ m2 rest r h2 e4
              λ detail m3 f3 p3 s3 _ h3 e5. u32_inversion _ m3 rest r h3 e5 λ native m4 s4 b4 h4 e6.
                bind_inversion put_optional_artifact decode_optional_artifact optional-Inverse _ m4
                  rest r h4 e6
                  λ artifact m5 f5 p5 s5 _ h5 e7. at_end_inversion _ m5 rest r e7 λ end e8. (
                    cc (
                      encode_result_lem r f3 f5 (cc) (cc),
                      encode_outcome-decode_outcome outcome_code outcome q,
                      encode_category-decode_category category_code category q',
                      append-nil f5,
                    ),
                    cc,
                    ground arith,
                  )
