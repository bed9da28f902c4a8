-- ===== src/Protocol/Messages/Collections.antt =====
-- Counted collections, descriptors and manifests on the wire: reading back and rebuilding.
use upx_killer.Common.{
  ◌≤◌, ◌≡◌, refl, ◌∙◌, arith, Option, some, List, Bytes, IsByte, All, ltb, length, [], ◌∷◌,
  Bool-cases, inl, inr, append_assoc, ◌++◌,
}
use upx_killer.Contracts.Targets.{BackendManifest}
use upx_killer.Protocol.Wire.{
  Get, ◌⊕◌, put_u32, get_u32, put_each, get_each, put_string, get_string, maximum_collection_size,
}
use upx_killer.Protocol.Wire.Laws.{Inverse, IsU32-Inverse, string-Inverse}
use upx_killer.Protocol.Wire.Chains.{
  read_back, u32_inversion, bind_inversion, fail_if_inversion, fail_if_passes,
}
use upx_killer.Protocol.Wire.Loops.{each_decode_encode, each_encode_decode}
use upx_killer.Protocol.Messages.Descriptor.{
  put_descriptor, decode_descriptor, descriptor_decode_encode, descriptor_encode_decode,
}
use upx_killer.Protocol.Messages.Encode.{put_collection, put_manifest, write_u32}
use upx_killer.Protocol.Messages.Decode.{get_collection, decode_manifest}

module _ {A : Type 0} (put : A → Option Bytes) (get : Get A) {P : A → Type 0}
    (inverse : Inverse put get P) where
  counted_decode_encode :
      (xs : List A) (bytes rest : Bytes)
      → length xs ≤ maximum_collection_size
      → All P xs
      → (write_u32 (length xs) ⊕ put_each put xs) ≡ some bytes
      → get_collection get (bytes ++ rest) ≡ some (xs, rest)
  unfolding get_collection
  counted_decode_encode xs bytes rest small h e =
      read_back write_u32 get_u32 IsU32-Inverse _ (length xs) (put_each put xs) bytes rest
        (omega arith) e
        λ back q.
          fail_if_passes (ltb maximum_collection_size (length xs)) (λ _. get_each get (length xs)) _
            (ground arith)
          ∙ each_decode_encode put get P inverse xs back rest h (rw q)

  collection_decode_encode :
      (xs : List A) (bytes rest : Bytes)
      → All P xs
      → put_collection put xs ≡ some bytes
      → get_collection get (bytes ++ rest) ≡ some (xs, rest)
  unfolding put_collection
  collection_decode_encode xs bytes rest h e =
      elim (Bool-cases (ltb maximum_collection_size (length xs))) [
        | inl many ↦ absurd (ground arith)
        | inr few ↦ counted_decode_encode xs bytes rest (ground arith) h (ground arith)
      ]

  collection_encode_decode :
      (bytes rest : Bytes) (xs : List A)
      → All IsByte bytes
      → get_collection get bytes ≡ some (xs, rest)
      → (used : Bytes) × (put_collection put xs ≡ some used) × (bytes ≡ used ++ rest) × All P xs
  unfolding get_collection put_collection
  collection_encode_decode bytes rest xs h e =
      u32_inversion _ bytes rest xs h e λ count mid s range hm e1.
        fail_if_inversion (ltb maximum_collection_size count) (λ _. get_each get count) mid rest xs
          e1
          λ few e2.
            let (used, p, q, n, ps) =
              each_encode_decode put get P inverse count mid rest xs hm e2 in
            (
              put_u32 count ++ used,
              ground arith,
              ground (arith, append_assoc (put_u32 count) used rest),
              ps,
            )

  pub collection-Inverse : Inverse (put_collection put) (get_collection get) (All P)
  collection-Inverse = record {
    decode_encode = collection_decode_encode;
    encode_decode = collection_encode_decode;
  }

descriptor-Inverse :
    Inverse (λ capability. some (put_descriptor capability)) decode_descriptor (λ _. Unit {0})
descriptor-Inverse = record {
  decode_encode = λ d bytes rest h e. ground (arith, descriptor_decode_encode d rest);
  encode_decode =
      λ bytes rest d h e. (put_descriptor d, refl, descriptor_encode_decode bytes rest d h e, tt);
}

-- A range without content holds of every item.
pub All-Unit : {A : Type 0} (xs : List A) → All (λ _. Unit {0}) xs
All-Unit [] = tt
All-Unit (x ∷ xs) = (tt, All-Unit xs)

manifest_decode_encode :
    (m : BackendManifest) (bytes rest : Bytes)
    → put_manifest m ≡ some bytes
    → decode_manifest (bytes ++ rest) ≡ some (m, rest)
unfolding put_manifest decode_manifest
manifest_decode_encode m bytes rest e =
    read_back put_string get_string string-Inverse _ m.backend_id _ bytes rest tt e λ back q.
      let inverse = collection-Inverse _ _ descriptor-Inverse in
      ground (arith, inverse.decode_encode m.capabilities back rest (All-Unit m.capabilities) q)

manifest_encode_decode :
    (bytes rest : Bytes) (m : BackendManifest)
    → All IsByte bytes
    → decode_manifest bytes ≡ some (m, rest)
    → (used : Bytes) × (put_manifest m ≡ some used) × (bytes ≡ used ++ rest) × Unit {0}
unfolding put_manifest decode_manifest
manifest_encode_decode bytes rest m h e =
    bind_inversion put_string get_string string-Inverse _ bytes rest m h e
      λ name mid front p s _ hm e1.
        bind_inversion _ _ (collection-Inverse _ _ descriptor-Inverse) _ mid rest m hm e1
          λ capabilities last back p' s' _ hl e2.
            (front ++ back, ground arith, ground (arith, append_assoc front back last), tt)

pub manifest-Inverse : Inverse put_manifest decode_manifest (λ _. Unit {0})
manifest-Inverse = record {
  decode_encode = λ m bytes rest h e. manifest_decode_encode m bytes rest e;
  encode_decode = manifest_encode_decode;
}
