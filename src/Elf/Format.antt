-- ===== src/Elf/Format.antt =====
-- upx-killer-engine/Core/ELF/Format/ElfImage.h and Format/Internal/ElfClassTraits.h.
use upx_killer.Common.{ℕ, Bool, true, false, Option, none, some, List, ◌==◌, if◌then◌else◌}

pub data ElfClass : Type 0 where
  bits32 bits64 : ElfClass

pub data ElfMachine : Type 0 where
  x86 x64 : ElfMachine

pub data ElfImageType : Type 0 where
  executable position_independent_executable shared_object : ElfImageType

pub record ElfProgramHeader : Type 0 where
  pub type : ℕ
  pub flags : ℕ
  pub file_offset : ℕ
  pub virtual_address : ℕ
  pub physical_address : ℕ
  pub file_size : ℕ
  pub memory_size : ℕ
  pub alignment : ℕ

pub record ElfImageLayout : Type 0 where
  pub image_class : ElfClass
  pub machine : ElfMachine
  pub image_type : ElfImageType
  pub entry_point : ℕ
  pub program_header_offset : ℕ
  pub program_header_entry_size : ℕ
  pub program_header_count : ℕ
  pub section_header_offset : ℕ
  pub section_header_entry_size : ℕ
  pub section_header_count : ℕ
  pub flags : ℕ
  pub program_headers : List ElfProgramHeader

unfoldable pub is_executable_target : ElfImageLayout → Bool
is_executable_target layout = elim layout.image_type [
  | executable ↦ true
  | position_independent_executable ↦ true
  | shared_object ↦ false
]

-- The fields that the parser and the classifier read.
pub record ElfClassTraits : Type 0 where
  pub image_class : ElfClass
  pub machine : ElfMachine
  pub class_identifier : ℕ
  pub machine_identifier : ℕ
  pub address_width : ℕ
  pub header_size : ℕ
  pub program_header_size : ℕ
  pub section_header_size : ℕ
  pub entry_offset : ℕ
  pub program_header_offset_offset : ℕ
  pub section_header_offset_offset : ℕ
  pub flags_offset : ℕ
  pub header_size_offset : ℕ
  pub program_header_entry_size_offset : ℕ
  pub program_header_count_offset : ℕ
  pub section_header_entry_size_offset : ℕ
  pub section_header_count_offset : ℕ
  pub program_flags_offset : ℕ
  pub program_file_offset_offset : ℕ
  pub program_virtual_address_offset : ℕ
  pub program_physical_address_offset : ℕ
  pub program_file_size_offset : ℕ
  pub program_memory_size_offset : ℕ
  pub program_alignment_offset : ℕ
  pub dynamic_entry_size : ℕ

unfoldable pub elf32_traits : ElfClassTraits
elf32_traits = record {
  image_class = ElfClass.bits32;
  machine = ElfMachine.x86;
  class_identifier = 1;
  machine_identifier = 3;
  address_width = 4;
  header_size = 52;
  program_header_size = 32;
  section_header_size = 40;
  entry_offset = 24;
  program_header_offset_offset = 28;
  section_header_offset_offset = 32;
  flags_offset = 36;
  header_size_offset = 40;
  program_header_entry_size_offset = 42;
  program_header_count_offset = 44;
  section_header_entry_size_offset = 46;
  section_header_count_offset = 48;
  program_flags_offset = 24;
  program_file_offset_offset = 4;
  program_virtual_address_offset = 8;
  program_physical_address_offset = 12;
  program_file_size_offset = 16;
  program_memory_size_offset = 20;
  program_alignment_offset = 28;
  dynamic_entry_size = 8;
}

unfoldable pub elf64_traits : ElfClassTraits
elf64_traits = record {
  image_class = ElfClass.bits64;
  machine = ElfMachine.x64;
  class_identifier = 2;
  machine_identifier = 62;
  address_width = 8;
  header_size = 64;
  program_header_size = 56;
  section_header_size = 64;
  entry_offset = 24;
  program_header_offset_offset = 32;
  section_header_offset_offset = 40;
  flags_offset = 48;
  header_size_offset = 52;
  program_header_entry_size_offset = 54;
  program_header_count_offset = 56;
  section_header_entry_size_offset = 58;
  section_header_count_offset = 60;
  program_flags_offset = 4;
  program_file_offset_offset = 8;
  program_virtual_address_offset = 16;
  program_physical_address_offset = 24;
  program_file_size_offset = 32;
  program_memory_size_offset = 40;
  program_alignment_offset = 48;
  dynamic_entry_size = 16;
}

unfoldable pub find_elf_class_traits : ℕ → Option ElfClassTraits
unfolding elf32_traits elf64_traits
find_elf_class_traits class_identifier =
    if class_identifier == elf32_traits.class_identifier
    then some elf32_traits
    else if class_identifier == elf64_traits.class_identifier
    then some elf64_traits
    else none

unfoldable pub get_elf_class_traits : ElfClass → ElfClassTraits
get_elf_class_traits ElfClass.bits32 = elf32_traits
get_elf_class_traits ElfClass.bits64 = elf64_traits
