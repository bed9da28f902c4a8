-- ===== src/Elf/Header.antt =====
-- upx-killer-engine/Core/ELF/Parsing/ElfParser.cpp, up to the loop over the program headers. Offsets
-- are `size_t` and addresses `uint64_t`; where the code adds them it has checked that the sum fits.
use upx_killer.Common.{
  ℕ, ◌+◌, ◌-◌, ◌*◌, ◌^◌, bit_and, Bool, true, false, ◌&&◌, ◌||◌, Option, none, Bytes, ltb, ◌==◌,
  ◌!=◌, length, get_elem?, if◌then◌else◌,
}
use upx_killer.Common.Reading.{read}
use upx_killer.Common.Results.{Result, ok, ◌>>=◌, ◌>>◌, reject_if, or_reject}
use upx_killer.Elf.Format.{ElfClassTraits, find_elf_class_traits}
use upx_killer.Elf.Classifier.{ElfParseExtent, complete_file, loaded_headers, value_or_zero}

-- `ElfParseResult` holds a layout and the error `None`, or no layout and one of these.
pub data ElfParseError : Type 0 where
  truncated invalid_magic unsupported_class unsupported_endianness : ElfParseError
  unsupported_machine unsupported_type invalid_program_headers : ElfParseError
  invalid_section_headers invalid_load_segment invalid_entry_point : ElfParseError

abbrev pub executable_type : ℕ
executable_type = 2

abbrev pub dynamic_type : ℕ
dynamic_type = 3

abbrev pub load_program_header : ℕ
load_program_header = 1

abbrev pub executable_flag : ℕ
executable_flag = 1

abbrev pub maximum_program_headers : ℕ
maximum_program_headers = 128

unfoldable pub read_address : Bytes → ℕ → ℕ → Option ℕ
read_address bytes offset width =
    if width == 4 then read 4 bytes offset else if width == 8 then read 8 bytes offset else none

unfoldable pub add_overflows : ℕ → ℕ → Bool
add_overflows left right = ltb (2 ^ 64 - 1 - left) right

unfoldable pub is_power_of_two : ℕ → Bool
is_power_of_two value = value == 0 || bit_and value (value - 1) == 0

-- `bytes[index]`, where the code has checked that the byte is there.
abbrev pub byte : Bytes → ℕ → ℕ
byte bytes index = value_or_zero (get_elem? bytes index)

-- The values that `Parse` reads from the ELF header.
pub record HeaderFields : Type 0 where
  pub type : ℕ
  pub machine : ℕ
  pub version : ℕ
  pub entry : ℕ
  pub ph_offset : ℕ
  pub sh_offset : ℕ
  pub flags : ℕ
  pub header_size : ℕ
  pub ph_entry_size : ℕ
  pub ph_count : ℕ
  pub sh_entry_size : ℕ
  pub sh_count : ℕ

unfoldable pub find_traits : Bytes → Result ElfParseError ElfClassTraits
find_traits bytes = do
  reject_if (ltb (length bytes) 16) truncated
  reject_if
      (byte bytes 0 != 0x7f || byte bytes 1 != b'E' || byte bytes 2 != b'L' || byte bytes 3 != b'F')
      invalid_magic
  traits ← or_reject (find_elf_class_traits (byte bytes 4)) unsupported_class
  reject_if (byte bytes 5 != 1) unsupported_endianness
  reject_if (ltb (length bytes) traits.header_size) truncated
  ok traits

unfoldable pub read_fields : ElfClassTraits → Bytes → Result ElfParseError HeaderFields
read_fields traits bytes = do
  type ← or_reject (read 2 bytes 16) truncated
  machine ← or_reject (read 2 bytes 18) truncated
  version ← or_reject (read 4 bytes 20) truncated
  entry ← or_reject (read_address bytes traits.entry_offset traits.address_width) truncated
  ph_offset ←
      or_reject (read_address bytes traits.program_header_offset_offset traits.address_width)
        truncated
  sh_offset ←
      or_reject (read_address bytes traits.section_header_offset_offset traits.address_width)
        truncated
  flags ← or_reject (read 4 bytes traits.flags_offset) truncated
  header_size ← or_reject (read 2 bytes traits.header_size_offset) truncated
  ph_entry_size ← or_reject (read 2 bytes traits.program_header_entry_size_offset) truncated
  ph_count ← or_reject (read 2 bytes traits.program_header_count_offset) truncated
  sh_entry_size ← or_reject (read 2 bytes traits.section_header_entry_size_offset) truncated
  sh_count ← or_reject (read 2 bytes traits.section_header_count_offset) truncated
  ok (record {
    type = type;
    machine = machine;
    version = version;
    entry = entry;
    ph_offset = ph_offset;
    sh_offset = sh_offset;
    flags = flags;
    header_size = header_size;
    ph_entry_size = ph_entry_size;
    ph_count = ph_count;
    sh_entry_size = sh_entry_size;
    sh_count = sh_count;
  })

abbrev pub is_complete : ElfParseExtent → Bool
is_complete complete_file = true
is_complete loaded_headers = false

unfoldable pub check_fields :
    ElfClassTraits → ℕ → ElfParseExtent → HeaderFields → Result ElfParseError (Unit {0})
check_fields traits size extent f = do
  reject_if (f.machine != traits.machine_identifier) unsupported_machine
  reject_if (f.type != executable_type && f.type != dynamic_type) unsupported_type
  reject_if
      (f.version != 1
        || f.header_size != traits.header_size
        || f.ph_entry_size != traits.program_header_size
        || f.ph_count == 0
        || ltb maximum_program_headers f.ph_count)
      invalid_program_headers
  reject_if
      (add_overflows f.ph_offset (f.ph_entry_size * f.ph_count)
        || ltb size (f.ph_offset + f.ph_entry_size * f.ph_count))
      invalid_program_headers
  reject_if
      (is_complete extent
        && f.sh_count != 0
        && (f.sh_entry_size != traits.section_header_size
            || add_overflows f.sh_offset (f.sh_entry_size * f.sh_count)
            || ltb size (f.sh_offset + f.sh_entry_size * f.sh_count)))
      invalid_section_headers
