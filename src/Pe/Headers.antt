-- ===== src/Pe/Headers.antt =====
-- The structures of <Windows.h> that the PE parser reads, and the traits of
-- upx-killer-engine/Core/PE/Format/PeFormatTraits.h. Where the fields stand, how wide an address is
-- and the constants are a parameter of the parser.
use upx_killer.Common.{ℕ, ◌-◌, Bool, not, ◌||◌, Bytes, ltb, length, take, drop}
use upx_killer.Common.Reading.{le_value}
use upx_killer.Pe.Format.{PeFormat}

-- `PeFormatTraits` with the optional header that it names.
pub record PeFormatTraits : Type 0 where
  pub format : PeFormat
  pub optional_header_magic : ℕ
  pub machine : ℕ
  pub address_width : ℕ
  pub optional_header_size : ℕ
  pub image_base_offset : ℕ
  pub directory_count_offset : ℕ
  pub directory_offset : ℕ

-- The sizes, field offsets and constants of <Windows.h>.
pub record WindowsHeaders : Type 0 where
  pub dos_header_size : ℕ
  pub dos_signature : ℕ
  pub dos_new_header_offset : ℕ
  pub nt_signature : ℕ
  pub file_header_size : ℕ
  pub machine_offset : ℕ
  pub section_count_offset : ℕ
  pub optional_size_offset : ℕ
  pub characteristics_offset : ℕ
  pub relocations_stripped : ℕ
  pub executable_image : ℕ
  pub dynamic_library : ℕ
  pub entry_point_offset : ℕ
  pub section_alignment_offset : ℕ
  pub file_alignment_offset : ℕ
  pub size_of_image_offset : ℕ
  pub size_of_headers_offset : ℕ
  pub checksum_offset : ℕ
  pub dll_characteristics_offset : ℕ
  pub dynamic_base : ℕ
  pub high_entropy_va : ℕ
  pub base_relocation_entry : ℕ
  pub section_header_size : ℕ
  pub virtual_size_offset : ℕ
  pub virtual_address_offset : ℕ
  pub raw_size_offset : ℕ
  pub raw_pointer_offset : ℕ
  pub section_characteristics_offset : ℕ
  pub pe32 : PeFormatTraits
  pub pe64 : PeFormatTraits

abbrev pub pe_directory_count : ℕ
pe_directory_count = 16

-- Whether `Read` of `size` bytes succeeds.
unfoldable pub is_readable : Bytes → ℕ → ℕ → Bool
is_readable bytes offset size = not (ltb (length bytes) offset || ltb (length bytes - offset) size)

-- A field of `width` bytes in a structure that has been read.
unfoldable pub field : ℕ → Bytes → ℕ → ℕ
field width bytes offset = le_value (take width (drop offset bytes))
