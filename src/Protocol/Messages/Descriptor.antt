-- ===== src/Protocol/Messages/Descriptor.antt =====
-- EngineHostCodec.cpp, PutDescriptor and DecodeDescriptor.
use upx_killer.Common.{◌≡◌, some, ◌++◌, append_assoc, Bytes, IsByte, All}
use upx_killer.Contracts.Targets.{TargetDescriptor}
use upx_killer.Protocol.Enums.{
  encode_family, encode_class, encode_architecture, encode_kind, encode_addressing, decode_family,
  decode_class, decode_architecture, decode_kind, decode_addressing,
}
use upx_killer.Protocol.Enums.Laws.{
  decode_family-encode_family, decode_class-encode_class, decode_architecture-encode_architecture,
  decode_kind-encode_kind, decode_addressing-encode_addressing, encode_family-decode_family,
  encode_class-decode_class, encode_architecture-decode_architecture, encode_kind-decode_kind,
  encode_addressing-decode_addressing,
}
use upx_killer.Protocol.Wire.{Get, ◌>>=◌, pure, or_fail, put_u32, get_u32}
use upx_killer.Protocol.Wire.Laws.{get_u32-put_u32}
use upx_killer.Protocol.Wire.Chains.{u32_inversion, or_fail_inversion}

unfoldable pub put_descriptor : TargetDescriptor → Bytes
put_descriptor d =
    put_u32 (encode_family d.family)
    ++ (put_u32 (encode_class d.image_class)
        ++ (put_u32 (encode_architecture d.architecture)
            ++ (put_u32 (encode_kind d.image_kind) ++ put_u32 (encode_addressing d.addressing))))

unfoldable pub decode_descriptor : Get TargetDescriptor
decode_descriptor = do
  family_code ← get_u32
  class_code ← get_u32
  architecture_code ← get_u32
  kind_code ← get_u32
  addressing_code ← get_u32
  family ← or_fail (decode_family family_code)
  image_class ← or_fail (decode_class class_code)
  architecture ← or_fail (decode_architecture architecture_code)
  image_kind ← or_fail (decode_kind kind_code)
  addressing ← or_fail (decode_addressing addressing_code)
  pure (record {
    family = family;
    image_class = image_class;
    architecture = architecture;
    image_kind = image_kind;
    addressing = addressing;
  })

pub descriptor_decode_encode :
    (d : TargetDescriptor) (rest : Bytes)
    → decode_descriptor (put_descriptor d ++ rest) ≡ some (d, rest)
unfolding decode_descriptor put_descriptor or_fail
descriptor_decode_encode d rest =
    let (f, f') = decode_family-encode_family d.family in
    let (c, c') = decode_class-encode_class d.image_class in
    let (a, a') = decode_architecture-encode_architecture d.architecture in
    let (k, k') = decode_kind-encode_kind d.image_kind in
    let (m, m') = decode_addressing-encode_addressing d.addressing in
    simp (
      append_assoc,
      ◌>>=◌,
      get_u32-put_u32 _ _ f',
      get_u32-put_u32 _ _ c',
      get_u32-put_u32 _ _ a',
      get_u32-put_u32 _ _ k',
      get_u32-put_u32 _ _ m',
      f,
      c,
      a,
      k,
      m,
    )

pub descriptor_encode_decode :
    (bytes rest : Bytes) (d : TargetDescriptor)
    → All IsByte bytes
    → decode_descriptor bytes ≡ some (d, rest)
    → bytes ≡ put_descriptor d ++ rest
unfolding decode_descriptor put_descriptor
descriptor_encode_decode bytes rest d h e = u32_inversion _ bytes rest d h e λ v1 r1 s1 b1 h1 e1.
    u32_inversion _ r1 rest d h1 e1 λ v2 r2 s2 b2 h2 e2.
      u32_inversion _ r2 rest d h2 e2 λ v3 r3 s3 b3 h3 e3.
        u32_inversion _ r3 rest d h3 e3 λ v4 r4 s4 b4 h4 e4.
          u32_inversion _ r4 rest d h4 e4 λ v5 r5 s5 b5 h5 e5.
            or_fail_inversion _ _ r5 rest d e5 λ f fe x1.
              or_fail_inversion _ _ r5 rest d x1 λ c ce x2.
                or_fail_inversion _ _ r5 rest d x2 λ a ae x3.
                  or_fail_inversion _ _ r5 rest d x3 λ k ke x4.
                    or_fail_inversion _ _ r5 rest d x4 λ m me x5. simp append_assoc (
                      cc (
                        encode_family-decode_family v1 f fe,
                        encode_class-decode_class v2 c ce,
                        encode_architecture-decode_architecture v3 a ae,
                        encode_kind-decode_kind v4 k ke,
                        encode_addressing-decode_addressing v5 m me,
                      ))
