-- ===== src/Pe/Discovery/Tests.antt =====
-- A packed file whose stub ends in a jump to the first section.
use upx_killer.Common.{◌≡◌, refl, false, [], ◌∷◌, Bytes, codes, replicate}
use upx_killer.Common.Reading.{le_value}
use upx_killer.Common.Results.{ok, reject_if, or_reject}
use upx_killer.Pe.Format.{PeFormat, PeImageKind, PeImageLayout}
use upx_killer.Pe.Headers.{field}
use upx_killer.Pe.Discovery.{
  OepTransferKind, OepDiscoveryPlan, is_executable, contains_rva, find_section, begins_with,
  has_marker, matches, is_executable_destination, jump_target, is_duplicate, append_direct_jump,
  try_transfer, search_tail, search_from, scan_stub, analyze_tail,
}
use upx_killer.Pe.Discovery.Locator.{
  has_name, has_sparse_destination, plan_for, raw_start_of, analyze,
}
use upx_killer.Pe.Discovery.Located.{IsLocated, analyze-IsLocated}

abbrev packed_bytes : Bytes
packed_bytes = 85 ∷ 80 ∷ 88 ∷ 33 ∷ 0 ∷ 0 ∷ 0 ∷ 0 ∷ 97 ∷ 233 ∷ 26 ∷ 254 ∷ 255 ∷ 255 ∷ 0 ∷ 0 ∷ []

abbrev packed_layout : PeImageLayout
packed_layout = record {
  format = PeFormat.pe32;
  image_kind = PeImageKind.executable;
  source_load_policy = record {
    preferred_image_base = 0x400000;
    dynamic_base = false;
    high_entropy_va = false;
    has_relocations = false;
  };
  machine = 0x14c;
  nt_header_offset = 0;
  preferred_image_base = 0x400000;
  entry_point = 0x200;
  size_of_image = 0x300;
  size_of_headers = 0x10;
  section_alignment = 0x10;
  file_alignment = 0x10;
  characteristics = 2;
  dll_characteristics = 0;
  directories = replicate 16 (record { address = 0; size = 0 });
  sections =
      record {
        name = codes "UPX0";
        virtual_address = 0x10;
        virtual_size = 0x100;
        raw_offset = 0;
        raw_size = 0;
        characteristics = 0xe0000080;
      }
      ∷ record {
        name = codes "UPX1";
        virtual_address = 0x200;
        virtual_size = 8;
        raw_offset = 8;
        raw_size = 8;
        characteristics = 0xe0000040;
      }
      ∷ [];
}

abbrev transfer_plan : OepDiscoveryPlan
transfer_plan = record {
  packed_entry_point = 0x200;
  stub_start = 0x200;
  stub_size = 8;
  candidates =
      record {
        kind = OepTransferKind.direct_jump;
        transfer = 0x201;
        target = 0x20;
        validation_target = 0x20;
      }
      ∷ [];
}

locates : analyze packed_bytes packed_layout ≡ ok transfer_plan
unfolding analyze analyze_tail scan_stub search_from search_tail try_transfer append_direct_jump
    is_duplicate jump_target is_executable_destination matches has_marker begins_with find_section
    contains_rva is_executable has_name has_sparse_destination plan_for raw_start_of field le_value
    reject_if or_reject
locates = refl

analyze-IsLocated_example : IsLocated packed_bytes packed_layout transfer_plan
analyze-IsLocated_example = analyze-IsLocated packed_bytes packed_layout transfer_plan locates
