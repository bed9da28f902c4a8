-- ===== src/Dumping.antt =====
-- upx-killer-engine/Core/Dumping and the image of Core/Images/CapturedImage.h. The reader of the
-- remote memory is a parameter. The allocations are taken to succeed and the reader not to throw, so
-- the handler behind `catch (...)` is not reached.
mod Tests
pub mod Contents
pub mod Faithful
pub mod Total
use upx_killer.Common.{
  ℕ, zero, suc, ◌+◌, ◌-◌, ◌%◌, ◌^◌, min, Bool, true, false, ◌||◌, Option, none, some, List, [], ◌∷◌,
  ◌++◌, Bytes, codes, ltb, leb, ◌==◌, ◌!=◌, length, take, drop, replicate, if◌then◌else◌,
}
use upx_killer.Common.Results.{Result, ok, err}
use upx_killer.Pe.Format.{PeImageLayout}

pub record MemoryRegion : Type 0 where
  pub base : ℕ
  pub size : ℕ
  pub readable : Bool
  pub writable : Bool
  pub executable : Bool

-- What one `Read` has done: the number that it returns, and the bytes that it has put at the front
-- of the destination.
pub record MemoryRead : Type 0 where
  pub count : ℕ
  pub written : Bytes

pub record RemoteMemoryReader : Type 0 where
  pub query : ℕ → MemoryRegion
  pub read_memory : ℕ → ℕ → MemoryRead

pub record CapturedImageRegion : Type 0 where
  pub offset : ℕ
  pub size : ℕ
  pub readable : Bool
  pub writable : Bool
  pub executable : Bool

pub record CapturedImage : Type 0 where
  pub loaded_address : ℕ
  pub bytes : Bytes
  pub regions : List CapturedImageRegion
  pub warnings : List Bytes

pub record LoadedImage : Type 0 where
  pub base : ℕ
  pub size : ℕ

pub data DumpError : Type 0 where
  invalid_image read_failed : DumpError

abbrev pub add64 : ℕ → ℕ → ℕ
add64 a b = (a + b) % 2 ^ 64

abbrev pub sub64 : ℕ → ℕ → ℕ
sub64 a b = (a + (2 ^ 64 - b)) % 2 ^ 64

-- The destination of `size` bytes after the reader has put `written` at its front; a span ends where
-- it ends.
unfoldable pub put : ℕ → Bytes → Bytes → Bytes
put size written destination = take size (written ++ drop (length written) destination)

-- The bytes after a `Read` into `subspan(offset, size)`.
unfoldable pub store : ℕ → ℕ → Bytes → Bytes → Bytes
store offset size written bytes =
    take offset bytes
    ++ put size written (take size (drop offset bytes))
    ++ drop size (drop offset bytes)

abbrev pub zero_filled : Bytes
zero_filled = codes "UnreadableMemoryRegionZeroFilled"

abbrev partly_filled : Bytes
partly_filled = codes "PartialMemoryReadZeroFilled"

abbrev pub region_of : ℕ → ℕ → MemoryRegion → CapturedImageRegion
region_of offset size region = record {
  offset = offset;
  size = size;
  readable = region.readable;
  writable = region.writable;
  executable = region.executable;
}

-- The test of a region that does not hold the address.
unfoldable pub is_elsewhere : ℕ → MemoryRegion → Bool
is_elsewhere current region =
    region.size == 0 || ltb current region.base || leb region.size (current - region.base)

unfoldable pub chunk_of : ℕ → ℕ → MemoryRegion → ℕ
chunk_of remaining current region = min remaining (sub64 (add64 region.base region.size) current)

-- The image after one round over a region that holds the address.
unfoldable pub capture :
    RemoteMemoryReader → ℕ → ℕ → ℕ → MemoryRegion → CapturedImage → CapturedImage
capture reader current offset chunk region image =
    let regions = image.regions ++ (region_of offset chunk region ∷ []) in
    let done = reader.read_memory current chunk in
    let partial = if ltb done.count chunk then partly_filled ∷ [] else [] in
    let missing = if done.count == 0 then zero_filled ∷ [] else [] in
    if region.readable
    then record image {
      bytes = store offset chunk done.written image.bytes;
      regions = regions;
      warnings = image.warnings ++ partial ++ missing;
    }
    else record image { regions = regions; warnings = image.warnings ++ (zero_filled ∷ []) }

-- `while (offset < loadedImage.size)`; `none` is a loop that has not ended within the fuel.
unfoldable pub dump_from :
    RemoteMemoryReader
    → LoadedImage
    → ℕ
    → ℕ
    → CapturedImage
    → Option (Result DumpError CapturedImage)
dump_from reader loaded zero offset image = if ltb offset loaded.size then none else some (ok image)
dump_from reader loaded (suc fuel) offset image =
    let current = add64 loaded.base offset in
    let region = reader.query current in
    let chunk = chunk_of (loaded.size - offset) current region in
    let rest =
      dump_from reader loaded fuel (offset + chunk)
        (capture reader current offset chunk region image) in
    if ltb offset loaded.size
    then (if is_elsewhere current region then some (err read_failed) else rest)
    else some (ok image)

-- `Dump`, with a round of fuel for each byte.
unfoldable pub dump :
    RemoteMemoryReader → LoadedImage → PeImageLayout → ℕ → Option (Result DumpError CapturedImage)
dump reader loaded layout maximum_image_size =
    if loaded.size != layout.size_of_image
      || loaded.size == 0
      || ltb maximum_image_size loaded.size
      || ltb (2 ^ 64 - 1) loaded.size
    then some (err invalid_image)
    else dump_from reader loaded loaded.size 0 (record {
      loaded_address = loaded.base;
      bytes = replicate loaded.size 0;
      regions = [];
      warnings = [];
    })
