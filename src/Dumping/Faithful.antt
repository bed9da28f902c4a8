-- ===== src/Dumping/Faithful.antt =====
-- The image that `ProcessImageDumper::Dump` returns, region by region.
use upx_killer.Common.{ℕ, ◌-◌, ◌≤◌, ◌≡◌, ◌++◌, All, length}
use upx_killer.Dumping.{RemoteMemoryReader, CapturedImage, LoadedImage}
use upx_killer.Dumping.Contents.{zeros, contents, IsTiling, IsReported}

-- The invariant of the loop at an offset.
record IsPartial (reader : RemoteMemoryReader) (loaded : LoadedImage) (offset : ℕ)
    (image : CapturedImage) : Type 0 where
  inside : offset ≤ loaded.size
  placed : image.loaded_address ≡ loaded.base
  tiled : IsTiling 0 image.regions offset
  reported : All (IsReported reader loaded.base) image.regions
  captured : length (contents reader loaded.base image.regions) ≡ offset
  filled : image.bytes ≡ contents reader loaded.base image.regions ++ zeros (loaded.size - offset)

-- A dump of an image: where it was loaded; its regions lie one behind the other from its first byte
-- to its last, each with the rights that the reader reports there; and its bytes are those of the
-- regions in order, read where a region is readable and zero elsewhere.
pub record IsFaithful (reader : RemoteMemoryReader) (loaded : LoadedImage) (image : CapturedImage)
    : Type 0 where
  pub placed : image.loaded_address ≡ loaded.base
  pub tiled : IsTiling 0 image.regions loaded.size
  pub reported : All (IsReported reader loaded.base) image.regions
  pub sized : length image.bytes ≡ loaded.size
  pub captured : image.bytes ≡ contents reader loaded.base image.regions
