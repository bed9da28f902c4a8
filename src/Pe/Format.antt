-- ===== src/Pe/Format.antt =====
-- upx-killer-engine/Core/PE/Format/PeFormat.h and the layout of Core/PE/Parsing/PeParser.h. The
-- wrappers of one number (`RelativeVirtualAddress`, `FileOffset`, `LoadedAddress`) are that number.
use upx_killer.Common.{ℕ, Bool, List, Bytes}

pub data PeFormat : Type 0 where
  pe32 pe64 : PeFormat

pub data PeImageKind : Type 0 where
  executable dynamic_library : PeImageKind

pub record SourceLoadPolicy : Type 0 where
  pub preferred_image_base : ℕ
  pub dynamic_base : Bool
  pub high_entropy_va : Bool
  pub has_relocations : Bool

pub record PeDataDirectory : Type 0 where
  pub address : ℕ
  pub size : ℕ

pub record PeSection : Type 0 where
  pub name : Bytes
  pub virtual_address : ℕ
  pub virtual_size : ℕ
  pub raw_offset : ℕ
  pub raw_size : ℕ
  pub characteristics : ℕ

pub record PeImageLayout : Type 0 where
  pub format : PeFormat
  pub image_kind : PeImageKind
  pub source_load_policy : SourceLoadPolicy
  pub machine : ℕ
  pub nt_header_offset : ℕ
  pub preferred_image_base : ℕ
  pub entry_point : ℕ
  pub size_of_image : ℕ
  pub size_of_headers : ℕ
  pub section_alignment : ℕ
  pub file_alignment : ℕ
  pub characteristics : ℕ
  pub dll_characteristics : ℕ
  pub directories : List PeDataDirectory
  pub sections : List PeSection
