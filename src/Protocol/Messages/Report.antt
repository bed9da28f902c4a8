-- ===== src/Protocol/Messages/Report.antt =====
-- Progress events and results on the wire: reading back and rebuilding.
use upx_killer.Common.{
  ℕ, ◌≡◌, refl, ◌∙◌, arith, Bool, true, false, some, [], ◌++◌, Bytes, IsByte, IsU32, All, ltb, ◌!=◌,
  append-nil, append_assoc,
}
use upx_killer.Contracts.Jobs.{JobArtifact, ProgressEvent}
use upx_killer.Protocol.Wire.{at_end, put_u32, get_u32, put_string, get_string}
use upx_killer.Protocol.Wire.Laws.{Inverse, IsU32-Inverse, string-Inverse}
use upx_killer.Protocol.Wire.Chains.{
  read_back, read_last, u32_inversion, bind_inversion, fail_if_inversion, fail_if_passes,
  or_fail_inversion, or_fail_passes, at_end_inversion,
}
use upx_killer.Protocol.Enums.{encode_stage, encode_quality}
use upx_killer.Protocol.Enums.Laws.{
  decode_stage-encode_stage, encode_stage-decode_stage, decode_quality-encode_quality,
  encode_quality-decode_quality,
}
use upx_killer.Protocol.Messages.Collections.{collection-Inverse, All-Unit}
use upx_killer.Protocol.Messages.Encode.{
  flag, encode_progress, put_collection, put_artifact, write_u32,
}
use upx_killer.Protocol.Messages.Decode.{decode_progress, get_collection, decode_artifact}

progress_reads_back :
    (event : ProgressEvent) (bytes : Bytes)
    → encode_progress event ≡ some bytes
    → decode_progress (bytes ++ []) ≡ some (event, [])
unfolding encode_progress decode_progress at_end
progress_reads_back event bytes e =
    let (stage, range) = decode_stage-encode_stage event.stage in
    read_back write_u32 get_u32 IsU32-Inverse _ (encode_stage event.stage) _ bytes [] range e
      λ b1 q1.
        or_fail_passes _ _ (b1 ++ []) stage
        ∙ read_last put_string get_string string-Inverse _ event.detail_code b1 [] tt q1 refl

-- A progress event that was encoded is read back whole.
pub progress_decode_encode :
    (event : ProgressEvent) (bytes : Bytes)
    → encode_progress event ≡ some bytes
    → decode_progress bytes ≡ some (event, [])
progress_decode_encode event bytes e = rw append-nil at (progress_reads_back event bytes e)

encode_progress_lem :
    (event : ProgressEvent) (detail : Bytes)
    → put_string event.detail_code ≡ some detail
    → encode_progress event ≡ some (put_u32 (encode_stage event.stage) ++ detail)
unfolding encode_progress
encode_progress_lem event detail p = rw p

-- Only the encoder's own output is accepted as a progress event.
pub progress_encode_decode :
    (bytes rest : Bytes) (event : ProgressEvent)
    → All IsByte bytes
    → decode_progress bytes ≡ some (event, rest)
    → (encode_progress event ≡ some bytes) × (rest ≡ [])
unfolding decode_progress
progress_encode_decode bytes rest event h e =
    u32_inversion _ bytes rest event h e λ code m1 s1 b1 h1 e1.
      or_fail_inversion _ _ m1 rest event e1 λ stage q e2.
        bind_inversion put_string get_string string-Inverse _ m1 rest event h1 e2
          λ detail m3 f3 p3 s3 _ h3 e3. at_end_inversion _ m3 rest event e3 λ end e4. (
            cc (
              encode_progress_lem event f3 (cc),
              encode_stage-decode_stage code stage q,
              append-nil f3,
            ),
            cc,
          )

flag_bit : (b : Bool) → (flag b != 0) ≡ b
flag_bit true = refl
flag_bit false = refl

flag_facts : (b : Bool) → IsU32 (flag b) × (ltb 1 (flag b) ≡ false)
flag_facts true = (omega arith, refl)
flag_facts false = (omega arith, refl)

flag-bit : (n : ℕ) → ltb 1 n ≡ false → n ≡ flag (n != 0)
flag-bit n h = ground arith

artifact_decode_encode :
    (a : JobArtifact) (bytes rest : Bytes)
    → put_artifact a ≡ some bytes
    → decode_artifact (bytes ++ rest) ≡ some (a, rest)
unfolding put_artifact decode_artifact
artifact_decode_encode a bytes rest e =
    let (quality, range) = decode_quality-encode_quality a.quality in
    let (verified, small) = flag_facts a.loader_verified in
    read_back put_string get_string string-Inverse _ a.path _ bytes rest tt e λ b1 q1.
      read_back write_u32 get_u32 IsU32-Inverse _ (encode_quality a.quality) _ b1 rest range q1
        λ b2 q2.
          or_fail_passes _ _ (b2 ++ rest) quality
          ∙ read_back write_u32 get_u32 IsU32-Inverse _ (flag a.loader_verified) _ b2 rest verified
              q2
              λ b3 q3.
                fail_if_passes _ _ (b3 ++ rest) small
                ∙ read_last (put_collection put_string) (get_collection get_string)
                    (collection-Inverse put_string get_string string-Inverse) _ a.warnings b3 rest
                    (All-Unit a.warnings) q3 (rw (flag_bit a.loader_verified))

put_artifact_lem :
    (a : JobArtifact) (path warnings : Bytes)
    → put_string a.path ≡ some path
    → put_collection put_string a.warnings ≡ some warnings
    → put_artifact a
      ≡ some (
          path
          ++ (put_u32 (encode_quality a.quality) ++ (put_u32 (flag a.loader_verified) ++ warnings)))
unfolding put_artifact
put_artifact_lem a path warnings p q = rw (p, q)

artifact_encode_decode :
    (bytes rest : Bytes) (a : JobArtifact)
    → All IsByte bytes
    → decode_artifact bytes ≡ some (a, rest)
    → (used : Bytes) × (put_artifact a ≡ some used) × (bytes ≡ used ++ rest) × Unit {0}
unfolding decode_artifact
artifact_encode_decode bytes rest a h e =
    bind_inversion put_string get_string string-Inverse _ bytes rest a h e
      λ path m1 f1 p1 s1 _ h1 e1. u32_inversion _ m1 rest a h1 e1 λ code m2 s2 b2 h2 e2.
        or_fail_inversion _ _ m2 rest a e2 λ quality q e3.
          u32_inversion _ m2 rest a h2 e3 λ verified m4 s4 b4 h4 e4.
            fail_if_inversion _ _ m4 rest a e4 λ small e5.
              bind_inversion (put_collection put_string) (get_collection get_string)
                (collection-Inverse put_string get_string string-Inverse) _ m4 rest a h4 e5
                λ warnings m6 f6 p6 s6 _ h6 e6. (
                  f1 ++ (put_u32 code ++ (put_u32 verified ++ f6)),
                  cc (
                    put_artifact_lem a f1 f6 (cc) (cc),
                    encode_quality-decode_quality code quality q,
                    flag-bit verified small,
                  ),
                  simp append_assoc (cc),
                  tt,
                )

pub artifact-Inverse : Inverse put_artifact decode_artifact (λ _. Unit {0})
artifact-Inverse = record {
  decode_encode = λ a bytes rest h e. artifact_decode_encode a bytes rest e;
  encode_decode = artifact_encode_decode;
}
