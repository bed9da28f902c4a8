-- ===== src/Dumping/Total.antt =====
-- The loop of `ProcessImageDumper::Dump` ends.
use upx_killer.Common.{
  ℕ, zero, suc, ◌+◌, ◌-◌, ◌^◌, ◌≤◌, ◌<◌, ◌≡◌, arith, ltb, ◌==◌, ◌!=◌, ◌||◌, false, some, IsU64, [],
  replicate, Bool-cases, inl, inr,
}
use upx_killer.Common.Results.{Result, ok, err}
use upx_killer.Pe.Format.{PeImageLayout}
use upx_killer.Dumping.{
  MemoryRegion, RemoteMemoryReader, CapturedImage, LoadedImage, DumpError, add64, is_elsewhere,
  chunk_of, capture, dump_from, dump,
}

-- The numbers that the reader answers with are 64-bit values.
pub record IsQuery (region : MemoryRegion) : Type 0 where
  pub base_range : IsU64 region.base
  pub size_range : IsU64 region.size

-- A region that holds the address has at least one byte left there, also where its end wraps around.
chunk_of-positive :
    (remaining current : ℕ) (region : MemoryRegion)
    → IsQuery region
    → IsU64 current
    → 0 < remaining
    → is_elsewhere current region ≡ false
    → 0 < chunk_of remaining current region
unfolding chunk_of is_elsewhere
chunk_of-positive remaining current region q c r e =
    let b = q.base_range in let s = q.size_range in ground arith

dump_from_total :
    (reader : RemoteMemoryReader) (loaded : LoadedImage) (fuel offset : ℕ) (image : CapturedImage)
    → ((a : ℕ) → IsQuery (reader.query a))
    → loaded.size ≤ offset + fuel
    → (r : Result DumpError CapturedImage) × (dump_from reader loaded fuel offset image ≡ some r)
unfolding dump_from
dump_from_total reader loaded zero offset image q enough = (ok image, ground arith)
dump_from_total reader loaded (suc fuel) offset image q enough =
    let current = add64 loaded.base offset in
    let region = reader.query current in
    let chunk = chunk_of (loaded.size - offset) current region in
    elim (Bool-cases (ltb offset loaded.size)) [
      | inr ended ↦ (ok image, rw (ended))
      | inl going ↦ elim (Bool-cases (is_elsewhere current region)) [
        | inl out ↦ (err DumpError.read_failed, rw (going, out))
        | inr inside ↦
            let moved =
              chunk_of-positive (loaded.size - offset) current region (q current) (omega arith)
                (ground arith) inside in
            let rest =
              dump_from_total reader loaded fuel (offset + chunk)
                (capture reader current offset chunk region image) q (omega arith) in
            (rest.0, rw (going, inside) (rest.1))
      ]
    ]

-- `Dump` ends with an image or an error for every image and limit, whatever regions the reader
-- reports, when its answers are 64-bit values: also where the addresses or the end of a region wrap
-- around.
pub dump_total :
    (reader : RemoteMemoryReader) (loaded : LoadedImage) (layout : PeImageLayout) (limit : ℕ)
    → ((a : ℕ) → IsQuery (reader.query a))
    → (r : Result DumpError CapturedImage) × (dump reader loaded layout limit ≡ some r)
unfolding dump
dump_total reader loaded layout limit q =
    elim (Bool-cases (
      loaded.size != layout.size_of_image
      || loaded.size == 0
      || ltb limit loaded.size
      || ltb (2 ^ 64 - 1) loaded.size)) [
        | inl bad ↦ (err DumpError.invalid_image, rw (bad))
        | inr good ↦
            let rest =
              dump_from_total reader loaded loaded.size 0
                (record {
                  loaded_address = loaded.base;
                  bytes = replicate loaded.size 0;
                  regions = [];
                  warnings = [];
                })
                q (omega arith) in
            (rest.0, rw (good) (rest.1))
      ]
