-- ===== src/Pe/Samples.antt =====
-- The headers of <Windows.h>, and what the tests of several parts build images of.
use upx_killer.Common.{ℕ, true, false, List, [], ◌∷◌, ◌++◌, Bytes, codes, replicate}
use upx_killer.Contracts.Targets.{
  TargetDescriptor, BinaryFamily, BinaryClass, CpuArchitecture, ImageKind, ImageAddressing,
}
use upx_killer.Pe.Format.{PeFormat, PeImageKind, PeDataDirectory, PeImageLayout}
use upx_killer.Pe.Headers.{WindowsHeaders, PeFormatTraits}
use upx_killer.Pe.Capabilities.{PeBackendCapabilities}
use upx_killer.Pe.Directories.{WindowsDirectories}

abbrev pub headers : WindowsHeaders
headers = record {
  dos_header_size = 64;
  dos_signature = 0x5a4d;
  dos_new_header_offset = 60;
  nt_signature = 0x4550;
  file_header_size = 20;
  machine_offset = 0;
  section_count_offset = 2;
  optional_size_offset = 16;
  characteristics_offset = 18;
  relocations_stripped = 1;
  executable_image = 2;
  dynamic_library = 0x2000;
  entry_point_offset = 16;
  section_alignment_offset = 32;
  file_alignment_offset = 36;
  size_of_image_offset = 56;
  size_of_headers_offset = 60;
  checksum_offset = 64;
  dll_characteristics_offset = 70;
  dynamic_base = 0x40;
  high_entropy_va = 0x20;
  base_relocation_entry = 5;
  section_header_size = 40;
  virtual_size_offset = 8;
  virtual_address_offset = 12;
  raw_size_offset = 16;
  raw_pointer_offset = 20;
  section_characteristics_offset = 36;
  pe32 = record {
    format = PeFormat.pe32;
    optional_header_magic = 0x10b;
    machine = 0x14c;
    address_width = 4;
    optional_header_size = 224;
    image_base_offset = 28;
    directory_count_offset = 92;
    directory_offset = 96;
  };
  pe64 = record {
    format = PeFormat.pe64;
    optional_header_magic = 0x20b;
    machine = 0x8664;
    address_width = 8;
    optional_header_size = 240;
    image_base_offset = 24;
    directory_count_offset = 108;
    directory_offset = 112;
  };
}

abbrev pub windows_directories : WindowsDirectories
windows_directories = record {
  export_entry = 0;
  import_entry = 1;
  resource_entry = 2;
  exception_entry = 3;
  tls_entry = 9;
  import_descriptor = record {
    size = 20;
    original_first_thunk_offset = 0;
    time_stamp_offset = 4;
    forwarder_chain_offset = 8;
    name_offset = 12;
    first_thunk_offset = 16;
  };
  tls32 = record {
    size = 24;
    raw_start_offset = 0;
    raw_end_offset = 4;
    index_offset = 8;
    callbacks_offset = 12;
    zero_fill_offset = 16;
    characteristics_offset = 20;
  };
  tls64 = record {
    size = 40;
    raw_start_offset = 0;
    raw_end_offset = 8;
    index_offset = 16;
    callbacks_offset = 24;
    zero_fill_offset = 32;
    characteristics_offset = 36;
  };
  runtime_function_size = 12;
  begin_address_offset = 0;
  end_address_offset = 4;
  align_mask = 0xf00000;
  content_code = 0x20;
  content_initialized_data = 0x40;
  mem_execute = 0x20000000;
  mem_read = 0x40000000;
  mem_write = 0x80000000;
}

-- A dump with an original 32-bit header at its start.
abbrev pub embedded_dump : Bytes
embedded_dump =
    80 ∷ 69 ∷ 0 ∷ 0 ∷ 76 ∷ 1 ∷ 1 ∷ 0 ∷ 0 ∷ 0 ∷ 0 ∷ 0 ∷ 0 ∷ 0 ∷ 0 ∷ 0 ∷ 0 ∷ 0 ∷ 0 ∷ 0 ∷ 224 ∷ 0 ∷ 0
    ∷ 0 ∷ 11 ∷ 1 ∷ 0 ∷ 0 ∷ 0 ∷ 0 ∷ 0 ∷ 0 ∷ 0 ∷ 0 ∷ 0 ∷ 0 ∷ 0 ∷ 0 ∷ 0 ∷ 0 ∷ 52 ∷ 18 ∷ 0 ∷ 0 ∷ 0 ∷ 0
    ∷ 0 ∷ 0 ∷ 0 ∷ 0 ∷ 0 ∷ 0 ∷ 0 ∷ 0 ∷ 0 ∷ 0 ∷ 0 ∷ 0 ∷ 0 ∷ 0 ∷ 0 ∷ 0 ∷ 0 ∷ 0 ∷ 0 ∷ 0 ∷ 0 ∷ 0 ∷ 0 ∷ 0
    ∷ 0 ∷ 0 ∷ 0 ∷ 0 ∷ 0 ∷ 0 ∷ 0 ∷ 0 ∷ 0 ∷ 0 ∷ 80 ∷ 1 ∷ 0 ∷ 0 ∷ 0 ∷ 0 ∷ 0 ∷ 0 ∷ 0 ∷ 0 ∷ 0 ∷ 0 ∷ 0 ∷ 0
    ∷ 0 ∷ 0 ∷ 0 ∷ 0 ∷ 0 ∷ 0 ∷ 0 ∷ 0 ∷ 0 ∷ 0 ∷ 0 ∷ 0 ∷ 0 ∷ 0 ∷ 0 ∷ 0 ∷ 0 ∷ 0 ∷ 0 ∷ 0 ∷ 0 ∷ 0 ∷ 16 ∷ 0
    ∷ 0 ∷ 0 ∷ 0 ∷ 0 ∷ 0 ∷ 0 ∷ 0 ∷ 0 ∷ 0 ∷ 0 ∷ 40 ∷ 1 ∷ 0 ∷ 0 ∷ 40 ∷ 0 ∷ 0 ∷ 0 ∷ 0 ∷ 0 ∷ 0 ∷ 0 ∷ 0
    ∷ 0 ∷ 0 ∷ 0 ∷ 0 ∷ 0 ∷ 0 ∷ 0 ∷ 0 ∷ 0 ∷ 0 ∷ 0 ∷ 0 ∷ 0 ∷ 0 ∷ 0 ∷ 0 ∷ 0 ∷ 0 ∷ 0 ∷ 0 ∷ 0 ∷ 0 ∷ 0 ∷ 0
    ∷ 0 ∷ 0 ∷ 0 ∷ 0 ∷ 0 ∷ 0 ∷ 0 ∷ 0 ∷ 0 ∷ 0 ∷ 0 ∷ 0 ∷ 0 ∷ 0 ∷ 0 ∷ 0 ∷ 0 ∷ 0 ∷ 0 ∷ 0 ∷ 0 ∷ 0 ∷ 0 ∷ 0
    ∷ 0 ∷ 0 ∷ 0 ∷ 0 ∷ 0 ∷ 0 ∷ 0 ∷ 0 ∷ 0 ∷ 0 ∷ 0 ∷ 0 ∷ 0 ∷ 0 ∷ 0 ∷ 0 ∷ 0 ∷ 0 ∷ 0 ∷ 0 ∷ 0 ∷ 0 ∷ 0 ∷ 0
    ∷ 0 ∷ 0 ∷ 0 ∷ 0 ∷ 0 ∷ 0 ∷ 0 ∷ 0 ∷ 0 ∷ 0 ∷ 0 ∷ 0 ∷ 0 ∷ 0 ∷ 0 ∷ 0 ∷ 0 ∷ 0 ∷ 0 ∷ 0 ∷ 0 ∷ 0 ∷ 0 ∷ 0
    ∷ 0 ∷ 0 ∷ 0 ∷ 0 ∷ 0 ∷ 0 ∷ 0 ∷ 0 ∷ 0 ∷ 0 ∷ 0 ∷ 0 ∷ 0 ∷ 0 ∷ 0 ∷ 0 ∷ 0 ∷ 0 ∷ 0 ∷ 0 ∷ 1 ∷ 0 ∷ 0 ∷ 0
    ∷ 16 ∷ 0 ∷ 0 ∷ 0 ∷ 0 ∷ 0 ∷ 0 ∷ 0 ∷ 0 ∷ 0 ∷ 0 ∷ 0 ∷ 0 ∷ 0 ∷ 0 ∷ 0 ∷ 0 ∷ 0 ∷ 0 ∷ 0 ∷ 0 ∷ 0 ∷ 0 ∷ 0
    ∷ 0 ∷ 0 ∷ 0 ∷ 0 ∷ 0 ∷ 0 ∷ 0 ∷ 0 ∷ 0 ∷ 0 ∷ 0 ∷ 0 ∷ 0 ∷ 0 ∷ 0 ∷ 0 ∷ 0 ∷ 0 ∷ 0 ∷ 0 ∷ 0 ∷ 0 ∷ 0
    ∷ 100 ∷ 0 ∷ 0 ∷ 0 ∷ 120 ∷ 0 ∷ 0 ∷ 0 ∷ 0 ∷ 0 ∷ 0 ∷ 0 ∷ 0 ∷ 0 ∷ 0 ∷ 0 ∷ 0 ∷ 0 ∷ 0 ∷ 0 ∷ 0 ∷ 0 ∷ 0
    ∷ 0 ∷ 0 ∷ 0 ∷ 0 ∷ 0 ∷ []

abbrev pub small_traits : PeFormatTraits
small_traits = record {
  format = PeFormat.pe32;
  optional_header_magic = 0x10b;
  machine = 0x14c;
  address_width = 4;
  optional_header_size = 10;
  image_base_offset = 0;
  directory_count_offset = 0;
  directory_offset = 0;
}

-- Headers whose optional header is the base, the characteristics and the checksum.
abbrev pub small_headers : WindowsHeaders
small_headers = record {
  dos_header_size = 0;
  dos_signature = 0;
  dos_new_header_offset = 0;
  nt_signature = 0;
  file_header_size = 0;
  machine_offset = 0;
  section_count_offset = 0;
  optional_size_offset = 0;
  characteristics_offset = 0;
  relocations_stripped = 1;
  executable_image = 2;
  dynamic_library = 0x2000;
  entry_point_offset = 0;
  section_alignment_offset = 0;
  file_alignment_offset = 0;
  size_of_image_offset = 0;
  size_of_headers_offset = 0;
  checksum_offset = 6;
  dll_characteristics_offset = 4;
  dynamic_base = 0x40;
  high_entropy_va = 0x20;
  base_relocation_entry = 0;
  section_header_size = 0;
  virtual_size_offset = 0;
  virtual_address_offset = 0;
  raw_size_offset = 0;
  raw_pointer_offset = 0;
  section_characteristics_offset = 0;
  pe32 = small_traits;
  pe64 = small_traits;
}

-- A small PE file: a 64-bit executable with one section and relocations.
abbrev pub program : Bytes
program =
    77 ∷ 90 ∷ 0 ∷ 0 ∷ 0 ∷ 0 ∷ 0 ∷ 0 ∷ 0 ∷ 0 ∷ 0 ∷ 0 ∷ 0 ∷ 0 ∷ 0 ∷ 0 ∷ 0 ∷ 0 ∷ 0 ∷ 0 ∷ 0 ∷ 0 ∷ 0 ∷ 0
    ∷ 0 ∷ 0 ∷ 0 ∷ 0 ∷ 0 ∷ 0 ∷ 0 ∷ 0 ∷ 0 ∷ 0 ∷ 0 ∷ 0 ∷ 0 ∷ 0 ∷ 0 ∷ 0 ∷ 0 ∷ 0 ∷ 0 ∷ 0 ∷ 0 ∷ 0 ∷ 0 ∷ 0
    ∷ 0 ∷ 0 ∷ 0 ∷ 0 ∷ 0 ∷ 0 ∷ 0 ∷ 0 ∷ 0 ∷ 0 ∷ 0 ∷ 0 ∷ 64 ∷ 0 ∷ 0 ∷ 0 ∷ 80 ∷ 69 ∷ 0 ∷ 0 ∷ 100 ∷ 134
    ∷ 1 ∷ 0 ∷ 0 ∷ 0 ∷ 0 ∷ 0 ∷ 0 ∷ 0 ∷ 0 ∷ 0 ∷ 0 ∷ 0 ∷ 0 ∷ 0 ∷ 240 ∷ 0 ∷ 34 ∷ 0 ∷ 11 ∷ 2 ∷ 0 ∷ 0 ∷ 0
    ∷ 0 ∷ 0 ∷ 0 ∷ 0 ∷ 0 ∷ 0 ∷ 0 ∷ 0 ∷ 0 ∷ 0 ∷ 0 ∷ 0 ∷ 16 ∷ 0 ∷ 0 ∷ 0 ∷ 16 ∷ 0 ∷ 0 ∷ 0 ∷ 0 ∷ 0 ∷ 64
    ∷ 1 ∷ 0 ∷ 0 ∷ 0 ∷ 0 ∷ 16 ∷ 0 ∷ 0 ∷ 0 ∷ 2 ∷ 0 ∷ 0 ∷ 0 ∷ 0 ∷ 0 ∷ 0 ∷ 0 ∷ 0 ∷ 0 ∷ 0 ∷ 0 ∷ 0 ∷ 0 ∷ 0
    ∷ 0 ∷ 0 ∷ 0 ∷ 0 ∷ 0 ∷ 32 ∷ 0 ∷ 0 ∷ 112 ∷ 1 ∷ 0 ∷ 0 ∷ 0 ∷ 0 ∷ 0 ∷ 0 ∷ 3 ∷ 0 ∷ 96 ∷ 0 ∷ 0 ∷ 0 ∷ 0
    ∷ 0 ∷ 0 ∷ 0 ∷ 0 ∷ 0 ∷ 0 ∷ 0 ∷ 0 ∷ 0 ∷ 0 ∷ 0 ∷ 0 ∷ 0 ∷ 0 ∷ 0 ∷ 0 ∷ 0 ∷ 0 ∷ 0 ∷ 0 ∷ 0 ∷ 0 ∷ 0 ∷ 0
    ∷ 0 ∷ 0 ∷ 0 ∷ 0 ∷ 0 ∷ 0 ∷ 0 ∷ 0 ∷ 0 ∷ 16 ∷ 0 ∷ 0 ∷ 0 ∷ 0 ∷ 0 ∷ 0 ∷ 0 ∷ 0 ∷ 0 ∷ 0 ∷ 0 ∷ 0 ∷ 0 ∷ 0
    ∷ 0 ∷ 0 ∷ 0 ∷ 0 ∷ 0 ∷ 0 ∷ 0 ∷ 0 ∷ 0 ∷ 0 ∷ 0 ∷ 0 ∷ 0 ∷ 0 ∷ 0 ∷ 0 ∷ 0 ∷ 0 ∷ 0 ∷ 0 ∷ 0 ∷ 0 ∷ 0 ∷ 0
    ∷ 0 ∷ 0 ∷ 0 ∷ 0 ∷ 0 ∷ 0 ∷ 24 ∷ 0 ∷ 0 ∷ 16 ∷ 0 ∷ 0 ∷ 0 ∷ 0 ∷ 0 ∷ 0 ∷ 0 ∷ 0 ∷ 0 ∷ 0 ∷ 0 ∷ 0 ∷ 0
    ∷ 0 ∷ 0 ∷ 0 ∷ 0 ∷ 0 ∷ 0 ∷ 0 ∷ 0 ∷ 0 ∷ 0 ∷ 0 ∷ 0 ∷ 0 ∷ 0 ∷ 0 ∷ 0 ∷ 0 ∷ 0 ∷ 0 ∷ 0 ∷ 0 ∷ 0 ∷ 0 ∷ 0
    ∷ 0 ∷ 0 ∷ 0 ∷ 0 ∷ 0 ∷ 0 ∷ 0 ∷ 0 ∷ 0 ∷ 0 ∷ 0 ∷ 0 ∷ 0 ∷ 0 ∷ 0 ∷ 0 ∷ 0 ∷ 0 ∷ 0 ∷ 0 ∷ 0 ∷ 0 ∷ 0 ∷ 0
    ∷ 0 ∷ 0 ∷ 0 ∷ 0 ∷ 0 ∷ 0 ∷ 0 ∷ 0 ∷ 0 ∷ 0 ∷ 0 ∷ 0 ∷ 0 ∷ 0 ∷ 0 ∷ 0 ∷ 0 ∷ 0 ∷ 0 ∷ 0 ∷ 0 ∷ 0 ∷ 46
    ∷ 116 ∷ 101 ∷ 120 ∷ 116 ∷ 0 ∷ 0 ∷ 0 ∷ 0 ∷ 16 ∷ 0 ∷ 0 ∷ 0 ∷ 16 ∷ 0 ∷ 0 ∷ 0 ∷ 0 ∷ 0 ∷ 0 ∷ 0 ∷ 0
    ∷ 0 ∷ 0 ∷ 0 ∷ 0 ∷ 0 ∷ 0 ∷ 0 ∷ 0 ∷ 0 ∷ 0 ∷ 0 ∷ 0 ∷ 0 ∷ 0 ∷ 32 ∷ 0 ∷ 0 ∷ 96 ∷ []

-- The same file without the policy of relocations: an empty block of them behind the headers.
abbrev pub fixed_program : Bytes
fixed_program =
    77 ∷ 90 ∷ 0 ∷ 0 ∷ 0 ∷ 0 ∷ 0 ∷ 0 ∷ 0 ∷ 0 ∷ 0 ∷ 0 ∷ 0 ∷ 0 ∷ 0 ∷ 0 ∷ 0 ∷ 0 ∷ 0 ∷ 0 ∷ 0 ∷ 0 ∷ 0 ∷ 0
    ∷ 0 ∷ 0 ∷ 0 ∷ 0 ∷ 0 ∷ 0 ∷ 0 ∷ 0 ∷ 0 ∷ 0 ∷ 0 ∷ 0 ∷ 0 ∷ 0 ∷ 0 ∷ 0 ∷ 0 ∷ 0 ∷ 0 ∷ 0 ∷ 0 ∷ 0 ∷ 0 ∷ 0
    ∷ 0 ∷ 0 ∷ 0 ∷ 0 ∷ 0 ∷ 0 ∷ 0 ∷ 0 ∷ 0 ∷ 0 ∷ 0 ∷ 0 ∷ 64 ∷ 0 ∷ 0 ∷ 0 ∷ 80 ∷ 69 ∷ 0 ∷ 0 ∷ 100 ∷ 134
    ∷ 1 ∷ 0 ∷ 0 ∷ 0 ∷ 0 ∷ 0 ∷ 0 ∷ 0 ∷ 0 ∷ 0 ∷ 0 ∷ 0 ∷ 0 ∷ 0 ∷ 240 ∷ 0 ∷ 35 ∷ 0 ∷ 11 ∷ 2 ∷ 0 ∷ 0 ∷ 0
    ∷ 0 ∷ 0 ∷ 0 ∷ 0 ∷ 0 ∷ 0 ∷ 0 ∷ 0 ∷ 0 ∷ 0 ∷ 0 ∷ 0 ∷ 16 ∷ 0 ∷ 0 ∷ 0 ∷ 16 ∷ 0 ∷ 0 ∷ 0 ∷ 0 ∷ 0 ∷ 64
    ∷ 1 ∷ 0 ∷ 0 ∷ 0 ∷ 0 ∷ 16 ∷ 0 ∷ 0 ∷ 0 ∷ 2 ∷ 0 ∷ 0 ∷ 0 ∷ 0 ∷ 0 ∷ 0 ∷ 0 ∷ 0 ∷ 0 ∷ 0 ∷ 0 ∷ 0 ∷ 0 ∷ 0
    ∷ 0 ∷ 0 ∷ 0 ∷ 0 ∷ 0 ∷ 32 ∷ 0 ∷ 0 ∷ 120 ∷ 1 ∷ 0 ∷ 0 ∷ 0 ∷ 0 ∷ 0 ∷ 0 ∷ 3 ∷ 0 ∷ 96 ∷ 0 ∷ 0 ∷ 0 ∷ 0
    ∷ 0 ∷ 0 ∷ 0 ∷ 0 ∷ 0 ∷ 0 ∷ 0 ∷ 0 ∷ 0 ∷ 0 ∷ 0 ∷ 0 ∷ 0 ∷ 0 ∷ 0 ∷ 0 ∷ 0 ∷ 0 ∷ 0 ∷ 0 ∷ 0 ∷ 0 ∷ 0 ∷ 0
    ∷ 0 ∷ 0 ∷ 0 ∷ 0 ∷ 0 ∷ 0 ∷ 0 ∷ 0 ∷ 0 ∷ 16 ∷ 0 ∷ 0 ∷ 0 ∷ 0 ∷ 0 ∷ 0 ∷ 0 ∷ 0 ∷ 0 ∷ 0 ∷ 0 ∷ 0 ∷ 0 ∷ 0
    ∷ 0 ∷ 0 ∷ 0 ∷ 0 ∷ 0 ∷ 0 ∷ 0 ∷ 0 ∷ 0 ∷ 0 ∷ 0 ∷ 0 ∷ 0 ∷ 0 ∷ 0 ∷ 0 ∷ 0 ∷ 0 ∷ 0 ∷ 0 ∷ 0 ∷ 0 ∷ 0 ∷ 0
    ∷ 0 ∷ 0 ∷ 0 ∷ 0 ∷ 0 ∷ 112 ∷ 1 ∷ 0 ∷ 0 ∷ 8 ∷ 0 ∷ 0 ∷ 0 ∷ 0 ∷ 0 ∷ 0 ∷ 0 ∷ 0 ∷ 0 ∷ 0 ∷ 0 ∷ 0 ∷ 0
    ∷ 0 ∷ 0 ∷ 0 ∷ 0 ∷ 0 ∷ 0 ∷ 0 ∷ 0 ∷ 0 ∷ 0 ∷ 0 ∷ 0 ∷ 0 ∷ 0 ∷ 0 ∷ 0 ∷ 0 ∷ 0 ∷ 0 ∷ 0 ∷ 0 ∷ 0 ∷ 0 ∷ 0
    ∷ 0 ∷ 0 ∷ 0 ∷ 0 ∷ 0 ∷ 0 ∷ 0 ∷ 0 ∷ 0 ∷ 0 ∷ 0 ∷ 0 ∷ 0 ∷ 0 ∷ 0 ∷ 0 ∷ 0 ∷ 0 ∷ 0 ∷ 0 ∷ 0 ∷ 0 ∷ 0 ∷ 0
    ∷ 0 ∷ 0 ∷ 0 ∷ 0 ∷ 0 ∷ 0 ∷ 0 ∷ 0 ∷ 0 ∷ 0 ∷ 0 ∷ 0 ∷ 0 ∷ 0 ∷ 0 ∷ 0 ∷ 0 ∷ 0 ∷ 0 ∷ 0 ∷ 0 ∷ 0 ∷ 46
    ∷ 116 ∷ 101 ∷ 120 ∷ 116 ∷ 0 ∷ 0 ∷ 0 ∷ 0 ∷ 16 ∷ 0 ∷ 0 ∷ 0 ∷ 16 ∷ 0 ∷ 0 ∷ 0 ∷ 0 ∷ 0 ∷ 0 ∷ 0 ∷ 0
    ∷ 0 ∷ 0 ∷ 0 ∷ 0 ∷ 0 ∷ 0 ∷ 0 ∷ 0 ∷ 0 ∷ 0 ∷ 0 ∷ 0 ∷ 0 ∷ 0 ∷ 32 ∷ 0 ∷ 0 ∷ 96 ∷ 0 ∷ 0 ∷ 0 ∷ 0 ∷ 8
    ∷ 0 ∷ 0 ∷ 0 ∷ []

abbrev pub no_directories : ℕ → List PeDataDirectory
no_directories n = replicate n (record { address = 0; size = 0 })

abbrev pub program_layout : PeImageLayout
program_layout = record {
  format = PeFormat.pe64;
  image_kind = PeImageKind.executable;
  source_load_policy = record {
    preferred_image_base = 0x140000000;
    dynamic_base = true;
    high_entropy_va = true;
    has_relocations = true;
  };
  machine = 0x8664;
  nt_header_offset = 64;
  preferred_image_base = 0x140000000;
  entry_point = 0x1000;
  size_of_image = 0x2000;
  size_of_headers = 0x170;
  section_alignment = 0x1000;
  file_alignment = 0x200;
  characteristics = 0x22;
  dll_characteristics = 0x60;
  directories = no_directories 5 ++ (record { address = 0x1800; size = 16 } ∷ no_directories 10);
  sections =
      record {
        name = 46 ∷ 116 ∷ 101 ∷ 120 ∷ 116 ∷ 0 ∷ 0 ∷ 0 ∷ [];
        virtual_address = 0x1000;
        virtual_size = 0x1000;
        raw_offset = 0;
        raw_size = 0;
        characteristics = 0x60000020;
      }
      ∷ [];
}

abbrev pub program_target : TargetDescriptor
program_target = record {
  family = BinaryFamily.pe;
  image_class = BinaryClass.bits64;
  architecture = CpuArchitecture.x64;
  image_kind = ImageKind.executable;
  addressing = ImageAddressing.platform_default;
}

abbrev pub program_capabilities : PeBackendCapabilities
program_capabilities = record { supported_targets = program_target ∷ [] }

-- A 32-bit file without relocations: the small headers, and a stub with the known prologue at 16.
abbrev pub stub_file : Bytes
stub_file =
    replicate 4 0
    ++ (0 ∷ 0 ∷ 64 ∷ 0 ∷ 64 ∷ 0 ∷ 0 ∷ 0 ∷ 0 ∷ 0 ∷ 0 ∷ 0 ∷ 96 ∷ 190 ∷ 0 ∷ 0 ∷ 66 ∷ 0 ∷ 141 ∷ 190 ∷ 0
        ∷ 0 ∷ 255 ∷ 255 ∷ [])

abbrev pub stub_layout : PeImageLayout
stub_layout = record {
  format = PeFormat.pe32;
  image_kind = PeImageKind.executable;
  source_load_policy = record {
    preferred_image_base = 0x400000;
    dynamic_base = true;
    high_entropy_va = false;
    has_relocations = false;
  };
  machine = 0x14c;
  nt_header_offset = 0;
  preferred_image_base = 0x400000;
  entry_point = 0x20000;
  size_of_image = 0x30000;
  size_of_headers = 16;
  section_alignment = 1;
  file_alignment = 1;
  characteristics = 2;
  dll_characteristics = 0x40;
  directories = record { address = 0; size = 0 } ∷ [];
  sections =
      record {
        name = codes "UPX0";
        virtual_address = 0x10000;
        virtual_size = 0x1000;
        raw_offset = 0;
        raw_size = 0;
        characteristics = 0xe0000080;
      }
      ∷ record {
        name = codes "UPX1";
        virtual_address = 0x20000;
        virtual_size = 12;
        raw_offset = 16;
        raw_size = 12;
        characteristics = 0xe0000040;
      }
      ∷ [];
}
