-- ===== src/Elf/Tests.antt =====
-- A small ELF file: an x86-64 executable with one loaded segment.
use upx_killer.Common.{◌≡◌, ◌≢◌, refl, arith, [], ◌∷◌, Bytes, length, All, IsByte}
use upx_killer.Common.Reading.{read, le_value}
use upx_killer.Common.Results.{ok, reject_if, or_reject}
use upx_killer.Elf.Format.{
  ElfClass, ElfMachine, ElfImageType, ElfImageLayout, find_elf_class_traits, elf32_traits,
  elf64_traits,
}
use upx_killer.Elf.Classifier.{complete_file, loaded_headers}
use upx_killer.Elf.Header.{
  find_traits, read_fields, check_fields, read_address, add_overflows, is_power_of_two,
}
use upx_killer.Elf.Parser.{
  read_program_header, is_bad_load, holds_entry, add_header, scan_headers, layout_of, image_type_of,
  parse,
}
use upx_killer.Elf.Parser.Accepted.{IsAccepted, parse-IsAccepted, parse-extents}

abbrev program : Bytes
program =
    127 ∷ 69 ∷ 76 ∷ 70 ∷ 2 ∷ 1 ∷ 1 ∷ 0 ∷ 0 ∷ 0 ∷ 0 ∷ 0 ∷ 0 ∷ 0 ∷ 0 ∷ 0 ∷ 2 ∷ 0 ∷ 62 ∷ 0 ∷ 1 ∷ 0 ∷ 0
    ∷ 0 ∷ 16 ∷ 0 ∷ 64 ∷ 0 ∷ 0 ∷ 0 ∷ 0 ∷ 0 ∷ 64 ∷ 0 ∷ 0 ∷ 0 ∷ 0 ∷ 0 ∷ 0 ∷ 0 ∷ 0 ∷ 0 ∷ 0 ∷ 0 ∷ 0 ∷ 0
    ∷ 0 ∷ 0 ∷ 0 ∷ 0 ∷ 0 ∷ 0 ∷ 64 ∷ 0 ∷ 56 ∷ 0 ∷ 1 ∷ 0 ∷ 64 ∷ 0 ∷ 0 ∷ 0 ∷ 0 ∷ 0 ∷ 1 ∷ 0 ∷ 0 ∷ 0 ∷ 5
    ∷ 0 ∷ 0 ∷ 0 ∷ 0 ∷ 0 ∷ 0 ∷ 0 ∷ 0 ∷ 0 ∷ 0 ∷ 0 ∷ 0 ∷ 0 ∷ 64 ∷ 0 ∷ 0 ∷ 0 ∷ 0 ∷ 0 ∷ 0 ∷ 0 ∷ 64 ∷ 0
    ∷ 0 ∷ 0 ∷ 0 ∷ 0 ∷ 120 ∷ 0 ∷ 0 ∷ 0 ∷ 0 ∷ 0 ∷ 0 ∷ 0 ∷ 0 ∷ 16 ∷ 0 ∷ 0 ∷ 0 ∷ 0 ∷ 0 ∷ 0 ∷ 0 ∷ 16 ∷ 0
    ∷ 0 ∷ 0 ∷ 0 ∷ 0 ∷ 0 ∷ []

abbrev program_layout : ElfImageLayout
program_layout = record {
  image_class = ElfClass.bits64;
  machine = ElfMachine.x64;
  image_type = ElfImageType.executable;
  entry_point = 0x400010;
  program_header_offset = 64;
  program_header_entry_size = 56;
  program_header_count = 1;
  section_header_offset = 0;
  section_header_entry_size = 64;
  section_header_count = 0;
  flags = 0;
  program_headers =
      record {
        type = 1;
        flags = 5;
        file_offset = 0;
        virtual_address = 0x400000;
        physical_address = 0x400000;
        file_size = 0x78;
        memory_size = 0x1000;
        alignment = 0x1000;
      }
      ∷ [];
}

program_parses : parse program complete_file ≡ ok program_layout
unfolding parse find_traits read_fields check_fields scan_headers layout_of image_type_of
    find_elf_class_traits elf32_traits elf64_traits read_program_header add_header read_address
    add_overflows is_power_of_two is_bad_load holds_entry read le_value reject_if or_reject
program_parses = refl

program-IsByte : All IsByte program
program-IsByte = ground arith

parse-IsAccepted_example : IsAccepted (length program) program_layout
parse-IsAccepted_example =
    parse-IsAccepted program complete_file program_layout program-IsByte program_parses

is_executable : ElfImageType.executable ≢ ElfImageType.shared_object
is_executable = ground arith

parse-extents_example : parse program loaded_headers ≡ ok program_layout
parse-extents_example = parse-extents program program_layout program_parses is_executable
