-- ===== src/Dumping/Tests.antt =====
-- A dump of five bytes over a readable and an unreadable region.
use upx_killer.Common.{ℕ, ◌≡◌, arith, true, false, some, [], ◌∷◌, ltb, take, if◌then◌else◌}
use upx_killer.Common.Results.{Result}
use upx_killer.Pe.Format.{PeFormat, PeImageKind, PeImageLayout}
use upx_killer.Dumping.{
  MemoryRegion, RemoteMemoryReader, CapturedImage, LoadedImage, DumpError, zero_filled, dump,
}
use upx_killer.Dumping.Total.{IsQuery, dump_total}

-- The first region ends at the address 1003.
abbrev region_at : ℕ → MemoryRegion
region_at address =
    if ltb address 1003
    then record { base = 0; size = 1003; readable = true; writable = false; executable = true }
    else record { base = 1003; size = 4096; readable = false; writable = false; executable = false }

abbrev reader : RemoteMemoryReader
reader = record {
  query = region_at;
  read_memory = λ address size. record { count = size; written = take size (1 ∷ 2 ∷ 3 ∷ 4 ∷ []) };
}

abbrev loaded : LoadedImage
loaded = record { base = 1000; size = 5 }

abbrev layout : PeImageLayout
layout = record {
  format = PeFormat.pe64;
  image_kind = PeImageKind.executable;
  source_load_policy = record {
    preferred_image_base = 1000;
    dynamic_base = false;
    high_entropy_va = false;
    has_relocations = false;
  };
  machine = 0;
  nt_header_offset = 0;
  preferred_image_base = 1000;
  entry_point = 0;
  size_of_image = 5;
  size_of_headers = 0;
  section_alignment = 1;
  file_alignment = 1;
  characteristics = 0;
  dll_characteristics = 0;
  directories = [];
  sections = [];
}

abbrev image : CapturedImage
image = record {
  loaded_address = 1000;
  bytes = 1 ∷ 2 ∷ 3 ∷ 0 ∷ 0 ∷ [];
  regions =
      record { offset = 0; size = 3; readable = true; writable = false; executable = true }
      ∷ record { offset = 3; size = 2; readable = false; writable = false; executable = false }
      ∷ [];
  warnings = zero_filled ∷ [];
}

region_at-IsQuery : (a : ℕ) → IsQuery (reader.query a)
region_at-IsQuery a = record { base_range = ground arith; size_range = ground arith }

dump_total_example :
    (r : Result DumpError CapturedImage) × (dump reader loaded layout 4096 ≡ some r)
dump_total_example = dump_total reader loaded layout 4096 region_at-IsQuery
