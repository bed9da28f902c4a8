-- ===== src/Pe/Staging/Tests.antt =====
-- A 32-bit file without relocations whose stub starts with the known prologue, under small headers.
use upx_killer.Common.{◌≡◌, refl, arith, some, [], ◌∷◌, ◌++◌, replicate}
use upx_killer.Common.Reading.{le_value}
use upx_killer.Common.Results.{ok, reject_if, or_reject}
use upx_killer.Pe.Headers.{field}
use upx_killer.Pe.Samples.{small_headers, stub_file, stub_layout}
use upx_killer.Pe.Relocations.{address_fits}
use upx_killer.Pe.Rebasing.{section_raw, le_bytes, splice, format_traits}
use upx_killer.Pe.Rebasing.Rebased.{HasFields}
use upx_killer.Pe.Discovery.{contains_rva, find_section}
use upx_killer.Pe.Staging.{
  NoSourceRelocationsImage, raw_offset_for_rva, displaced, has_prologue, is_destination, check_stub,
  rebase_stub_at, rebase_stub, place_headers, staging_slots, prepare_typed, prepare_staging,
}
use upx_killer.Pe.Staging.Fields.{HasBaseFirst}
use upx_killer.Pe.Staging.Stub.{IsAddressed, rebase_stub-IsAddressed}
use upx_killer.Pe.Staging.Staged.{IsStaged, prepare_staging-IsStaged}

abbrev staged : NoSourceRelocationsImage
staged = record {
  bytes =
      replicate 4 0
      ++ (0 ∷ 0 ∷ 0 ∷ 16 ∷ 0 ∷ 0 ∷ 0 ∷ 0 ∷ 0 ∷ 0 ∷ 0 ∷ 0 ∷ 96 ∷ 190 ∷ 0 ∷ 0 ∷ 2 ∷ 16 ∷ 141 ∷ 190 ∷ 0
          ∷ 0 ∷ 255 ∷ 255 ∷ []);
  required_base = 0x10000000;
  staging_only_slots = record { location = 0x20002; image_target = some 0x20000 } ∷ [];
}

file_stages : prepare_staging small_headers stub_file stub_layout 0x10000000 ≡ ok staged
unfolding prepare_staging prepare_typed staging_slots place_headers rebase_stub rebase_stub_at
    check_stub is_destination has_prologue displaced raw_offset_for_rva find_section contains_rva
    section_raw le_bytes splice address_fits field le_value reject_if or_reject
file_stages = refl

small_headers-HasFields : HasFields small_headers (format_traits small_headers stub_layout.format)
small_headers-HasFields = record {
  base_inside = omega arith;
  dll_inside = omega arith;
  checksum_inside = omega arith;
}

small_headers-HasBaseFirst : HasBaseFirst small_headers stub_layout.format
small_headers-HasBaseFirst = record { width = refl; first = omega arith }

prepare_staging-IsStaged_example : IsStaged small_headers stub_file stub_layout 0x10000000 staged
prepare_staging-IsStaged_example =
    prepare_staging-IsStaged small_headers stub_file stub_layout 0x10000000 staged
      small_headers-HasFields small_headers-HasBaseFirst file_stages

rebase_stub-IsAddressed_example :
    IsAddressed stub_file stub_layout 0x10000000 (rebase_stub stub_file stub_layout 0x10000000)
rebase_stub-IsAddressed_example = rebase_stub-IsAddressed stub_file stub_layout 0x10000000
