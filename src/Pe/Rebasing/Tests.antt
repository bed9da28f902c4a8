-- ===== src/Pe/Rebasing/Tests.antt =====
-- A 32-bit file with one relocated word, under small headers.
use upx_killer.Common.{◌≡◌, refl, arith, true, false, some, [], ◌∷◌, ◌++◌, Bytes, replicate}
use upx_killer.Common.Reading.{read, le_value}
use upx_killer.Common.Results.{ok, reject_if, or_reject}
use upx_killer.Pe.Format.{PeFormat, PeImageKind, PeImageLayout}
use upx_killer.Pe.Headers.{field}
use upx_killer.Pe.Samples.{small_headers}
use upx_killer.Pe.Relocations.{address_fits}
use upx_killer.Pe.Rebasing.{
  RebasedFileImage, section_raw, rva_to_raw, le_bytes, splice, write, evidence_of, moved,
  rebase_slot, rebase_entry, rebase_entries, rebase_block, rebase_blocks, patch_headers,
  format_traits, rebase_typed, rebase,
}
use upx_killer.Pe.Rebasing.Rebased.{HasFields, IsRebased, rebase-IsRebased}

-- A file of 32 bytes: the headers, a directory of one block at 14, and the word at 26.
abbrev file : Bytes
file =
    replicate 4 0
    ++ (0 ∷ 0 ∷ 64 ∷ 0 ∷ 64 ∷ 0 ∷ 7 ∷ 0 ∷ 0 ∷ 0 ∷ 0 ∷ 0 ∷ 0 ∷ 0 ∷ 12 ∷ 0 ∷ 0 ∷ 0 ∷ 26 ∷ 48 ∷ 0 ∷ 0
        ∷ 8 ∷ 0 ∷ 64 ∷ 0 ∷ 0 ∷ 0 ∷ [])

abbrev layout : PeImageLayout
layout = record {
  format = PeFormat.pe32;
  image_kind = PeImageKind.executable;
  source_load_policy = record {
    preferred_image_base = 0x400000;
    dynamic_base = true;
    high_entropy_va = false;
    has_relocations = true;
  };
  machine = 0x14c;
  nt_header_offset = 0;
  preferred_image_base = 0x400000;
  entry_point = 0;
  size_of_image = 32;
  size_of_headers = 32;
  section_alignment = 1;
  file_alignment = 1;
  characteristics = 2;
  dll_characteristics = 0x40;
  directories = record { address = 14; size = 12 } ∷ [];
  sections = [];
}

abbrev rebased : RebasedFileImage
rebased = record {
  bytes =
      replicate 4 0
      ++ (0 ∷ 0 ∷ 0 ∷ 16 ∷ 0 ∷ 0 ∷ 0 ∷ 0 ∷ 0 ∷ 0 ∷ 0 ∷ 0 ∷ 0 ∷ 0 ∷ 12 ∷ 0 ∷ 0 ∷ 0 ∷ 26 ∷ 48 ∷ 0 ∷ 0
          ∷ 8 ∷ 0 ∷ 0 ∷ 16 ∷ 0 ∷ 0 ∷ []);
  required_base = 0x10000000;
  source_slots = record { location = 26; image_target = some 8 } ∷ [];
}

file_rebases : rebase small_headers file layout 0x10000000 ≡ ok rebased
unfolding rebase rebase_typed patch_headers rebase_blocks rebase_block rebase_entries rebase_entry
    rebase_slot moved evidence_of write splice le_bytes rva_to_raw section_raw address_fits field
    read le_value reject_if or_reject
file_rebases = refl

headers-HasFields : HasFields small_headers (format_traits small_headers layout.format)
headers-HasFields = record {
  base_inside = omega arith;
  dll_inside = omega arith;
  checksum_inside = omega arith;
}

rebase-IsRebased_example : IsRebased small_headers file layout 0x10000000 rebased
rebase-IsRebased_example =
    rebase-IsRebased small_headers file layout 0x10000000 rebased headers-HasFields file_rebases
