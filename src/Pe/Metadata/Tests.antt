-- ===== src/Pe/Metadata/Tests.antt =====
-- A dump with an original header at its start.
use upx_killer.Common.{◌-◌, ◌≡◌, ◌≢◌, refl, false, some, [], ◌∷◌, length, replicate}
use upx_killer.Common.Options.{none_if}
use upx_killer.Common.Reading.{le_value}
use upx_killer.Pe.Format.{PeFormat, PeImageKind, PeImageLayout}
use upx_killer.Pe.Headers.{field, is_readable}
use upx_killer.Pe.Samples.{headers, windows_directories, embedded_dump}
use upx_killer.Pe.Metadata.{
  EmbeddedOriginalPeHeader, directory_at, is_null_descriptor, count_descriptors, is_bad_imports,
  is_bad_tls, is_other_first, parse_optional, parse_embedded, candidate_at, find_from,
  nt_headers32_size, find_embedded,
}
use upx_killer.Pe.Metadata.Unique.{IsOnly, find_embedded-IsOnly}

abbrev packed : PeImageLayout
packed = record {
  format = PeFormat.pe32;
  image_kind = PeImageKind.executable;
  source_load_policy = record {
    preferred_image_base = 0x400000;
    dynamic_base = false;
    high_entropy_va = false;
    has_relocations = false;
  };
  machine = 0x14c;
  nt_header_offset = 0;
  preferred_image_base = 0x400000;
  entry_point = 0x5678;
  size_of_image = 0x8000;
  size_of_headers = 0x1000;
  section_alignment = 0x1000;
  file_alignment = 0x200;
  characteristics = 2;
  dll_characteristics = 0;
  directories = replicate 16 (record { address = 0; size = 0 });
  sections =
      record {
        name = [];
        virtual_address = 0x1000;
        virtual_size = 0x4000;
        raw_offset = 0;
        raw_size = 0;
        characteristics = 0xe0000080;
      }
      ∷ [];
}

abbrev original : EmbeddedOriginalPeHeader
original = record {
  metadata_offset = 288;
  first_rva = 0x1000;
  image_size = 336;
  import_descriptors = 1;
  tls_directory = record { address = 0; size = 0 };
}

finds : find_embedded headers windows_directories embedded_dump packed 0x1234 ≡ some original
unfolding find_embedded find_from candidate_at parse_embedded parse_optional is_other_first
    is_bad_tls is_bad_imports count_descriptors is_null_descriptor directory_at field is_readable
    le_value none_if
finds = refl

find_embedded-IsOnly_example :
    (packed.entry_point ≢ 0x1234)
    × IsOnly
        (candidate_at headers windows_directories embedded_dump packed 0x1234)
        0
        (length embedded_dump - nt_headers32_size headers)
        original
find_embedded-IsOnly_example =
    find_embedded-IsOnly headers windows_directories embedded_dump packed 0x1234 original finds
