-- ===== src/Pe/Relocations/Tests.antt =====
-- A 32-bit image of 16 bytes in three places, with one pointer at 8.
use upx_killer.Common.{
  ℕ, ◌≤◌, ◌^◌, ◌≡◌, refl, arith, true, false, some, List, [], ◌∷◌, ◌++◌, replicate,
}
use upx_killer.Common.Reading.{le_value}
use upx_killer.Common.Results.{ok, reject_if}
use upx_killer.Pe.Headers.{field}
use upx_killer.Pe.Format.{PeFormat, PeImageKind, PeImageLayout}
use upx_killer.Pe.Relocations.{
  LoadedImageSnapshot, RelocationSlot, RelocationRebuildPlan, address_fits, word_bytes, dword_bytes,
  take_page, drop_page, entry_bytes, block_size, padding, block_bytes, encode_blocks,
  encode_directory,
}
use upx_killer.Pe.Relocations.Reconstruct.{
  is_packed_residue, common_target, last_end, add_slot, scan_slots, any_unfit, reconstruct_typed,
  has_base, check_snapshots, reconstruct,
}
use upx_killer.Pe.Relocations.Reader.{read_directory}
use upx_killer.Pe.Relocations.Directory.{encode_directory-read}
use upx_killer.Pe.Relocations.Rebuilt.{IsRebuilt, reconstruct-IsRebuilt}

abbrev snapshot : ℕ → ℕ → LoadedImageSnapshot
snapshot base high = record {
  loaded_base = base;
  bytes = replicate 8 0 ++ (12 ∷ 0 ∷ 0 ∷ high ∷ replicate 4 0);
}

abbrev snapshots : List LoadedImageSnapshot
snapshots = snapshot 0x10000000 16 ∷ snapshot 0x20000000 32 ∷ snapshot 0x28000000 40 ∷ []

abbrev layout : PeImageLayout
layout = record {
  format = PeFormat.pe32;
  image_kind = PeImageKind.dynamic_library;
  source_load_policy = record {
    preferred_image_base = 0x10000000;
    dynamic_base = true;
    high_entropy_va = false;
    has_relocations = true;
  };
  machine = 0x14c;
  nt_header_offset = 0;
  preferred_image_base = 0x10000000;
  entry_point = 8;
  size_of_image = 16;
  size_of_headers = 4;
  section_alignment = 1;
  file_alignment = 1;
  characteristics = 0x2000;
  dll_characteristics = 0x40;
  directories = [];
  sections = [];
}

abbrev slots : List RelocationSlot
slots = record { location = 8; image_target = 12 } ∷ []

abbrev plan : RelocationRebuildPlan
plan = record {
  preferred_image_base = 0x400000;
  enable_dynamic_base = true;
  enable_high_entropy_va = true;
  slots = slots;
  directory_bytes = 0 ∷ 0 ∷ 0 ∷ 0 ∷ 12 ∷ 0 ∷ 0 ∷ 0 ∷ 8 ∷ 48 ∷ 0 ∷ 0 ∷ [];
}

plan_made : reconstruct snapshots [] layout 0x400000 ≡ ok plan
unfolding reconstruct check_snapshots has_base reconstruct_typed any_unfit address_fits scan_slots
    add_slot common_target last_end is_packed_residue encode_directory encode_blocks block_bytes
    padding block_size entry_bytes take_page drop_page word_bytes dword_bytes field le_value
    reject_if
plan_made = refl

layout_small : layout.size_of_image ≤ 2 ^ 30
layout_small = omega arith

reconstruct-IsRebuilt_example : IsRebuilt snapshots layout 0x400000 plan
reconstruct-IsRebuilt_example =
    reconstruct-IsRebuilt snapshots [] layout 0x400000 plan layout_small plan_made

-- Three slots on two pages.
abbrev scattered : List RelocationSlot
scattered =
    record { location = 0x1008; image_target = 12 }
    ∷ record { location = 0x1010; image_target = 16 }
    ∷ record { location = 0x2ffc; image_target = 20 }
    ∷ []

encode_directory-read_example :
    read_directory 3 (encode_directory 3 scattered) ≡ some (0x1008 ∷ 0x1010 ∷ 0x2ffc ∷ [])
encode_directory-read_example =
    encode_directory-read 3 scattered (omega arith) (omega arith)
      (omega arith, (omega arith, (omega arith, tt))) (omega arith)
