-- ===== src/Pe/Discovery.antt =====
-- upx-killer-engine/Core/PE/OepDiscovery: the locator and the analysis of tail transfers. A pointer to
-- a section of the layout is its position and the section. Nothing of the code throws but failed
-- allocations, so the handler behind `catch (...)` is not reached.
pub mod Locator
pub mod Candidates
pub mod Found
pub mod Located
mod Tests
use upx_killer.Common.{
  ℕ, zero, suc, ◌+◌, ◌-◌, ◌*◌, ◌^◌, min, bit_and, Bool, true, false, not, ◌&&◌, ◌||◌, Option, none,
  some, List, [], ◌∷◌, ◌++◌, Bytes, codes, ltb, leb, ◌==◌, ◌!=◌, length, take, drop, get_elem?,
  if◌then◌else◌,
}
use upx_killer.Common.Results.{Result, ok, err, ◌>>=◌, ◌>>◌, reject_if, or_reject}
use upx_killer.Pe.Format.{PeFormat, PeImageKind, PeSection, PeImageLayout}
use upx_killer.Pe.Headers.{field}
use upx_killer.Pe.Parser.{virtual_extent}

pub data OepDiscoveryError : Type 0 where
  unsupported_packer oep_not_found : OepDiscoveryError

pub data OepTransferKind : Type 0 where
  direct_jump dll_return : OepTransferKind

pub record OepTransferCandidate : Type 0 where
  pub kind : OepTransferKind
  pub transfer : ℕ
  pub target : ℕ
  pub validation_target : ℕ

pub record OepDiscoveryPlan : Type 0 where
  pub packed_entry_point : ℕ
  pub stub_start : ℕ
  pub stub_size : ℕ
  pub candidates : List OepTransferCandidate

abbrev pub maximum_oep_candidates : ℕ
maximum_oep_candidates = 32

abbrev pub maximum_tail_search : ℕ
maximum_tail_search = 128

abbrev pub image_scn_mem_execute : ℕ
image_scn_mem_execute = 0x20000000

unfoldable pub is_executable : PeSection → Bool
is_executable section = bit_and section.characteristics image_scn_mem_execute != 0

-- The sums have 64 bits and do not wrap.
unfoldable pub contains_rva : PeSection → ℕ → Bool
contains_rva section rva =
    leb section.virtual_address rva && ltb rva (section.virtual_address + virtual_extent section)

-- `std::find_if` over the sections, the first of which stands at `index`.
unfoldable pub find_section : ℕ → ℕ → List PeSection → Option (ℕ × PeSection)
find_section rva index [] = none
find_section rva index (section ∷ sections) =
    if contains_rva section rva
    then some (index, section)
    else find_section rva (index + 1) sections

-- `std::equal` of a pattern with the front of the bytes, which hold it.
unfoldable pub begins_with : Bytes → Bytes → Bool
begins_with [] bytes = true
begins_with (p ∷ pattern) [] = false
begins_with (p ∷ pattern) (b ∷ bytes) = b == p && begins_with pattern bytes

unfoldable pub has_marker : Bytes → Bytes → Bool
has_marker marker [] = begins_with marker []
has_marker marker (b ∷ bytes) = begins_with marker (b ∷ bytes) || has_marker marker bytes

-- `Matches`
unfoldable pub matches : Bytes → ℕ → ℕ → Bytes → Bool
matches bytes offset end pattern =
    leb offset end && leb (length pattern) (end - offset) && begins_with pattern (drop offset bytes)

abbrev pub register_restore : PeFormat → Bytes
register_restore PeFormat.pe32 = 0x61 ∷ []
register_restore PeFormat.pe64 = 0x5d ∷ 0x5f ∷ 0x5e ∷ 0x5b ∷ []

abbrev pub dll_return_pattern : PeFormat → Bytes
dll_return_pattern PeFormat.pe32 = 0x33 ∷ 0xc0 ∷ 0x40 ∷ 0xc2 ∷ 0x0c ∷ 0x00 ∷ []
dll_return_pattern PeFormat.pe64 = 0x6a ∷ 0x01 ∷ 0x58 ∷ 0xc3 ∷ []

-- `FindValidationTarget`; the sections are those from position `index` on.
unfoldable pub find_validation_target : ℕ → ℕ → List PeSection → Option ℕ
find_validation_target stub index [] = none
find_validation_target stub index (section ∷ sections) =
    if index == stub || section.virtual_size == 0 || not (is_executable section)
    then find_validation_target stub (index + 1) sections
    else some section.virtual_address

abbrev pub is_other_executable : ℕ → Option (ℕ × PeSection) → Bool
is_other_executable stub none = false
is_other_executable stub (some (index, section)) = index != stub && is_executable section

unfoldable pub is_executable_destination : PeImageLayout → ℕ → ℕ → Bool
is_executable_destination layout stub target =
    ltb target layout.size_of_image
    && is_other_executable stub (find_section target 0 layout.sections)

-- The target of a jump of five bytes, by the bits of its signed displacement; `none` is out of range.
unfoldable pub jump_target : ℕ → ℕ → Option ℕ
jump_target transfer displacement =
    let forward = transfer + 5 + displacement in
    if ltb displacement (2 ^ 31)
    then (if ltb forward (2 ^ 32) then some forward else none)
    else if ltb forward (2 ^ 32)
    then none
    else some (forward - 2 ^ 32)

unfoldable pub is_duplicate : ℕ → List OepTransferCandidate → Bool
is_duplicate transfer [] = false
is_duplicate transfer (candidate ∷ candidates) =
    candidate.transfer == transfer || is_duplicate transfer candidates

abbrev pub is_library : PeImageKind → Bool
is_library PeImageKind.executable = false
is_library PeImageKind.dynamic_library = true

module _ (bytes : Bytes) (layout : PeImageLayout) (stub : ℕ × PeSection) where
  -- The address of an offset of the file in the stub, of 64 bits.
  abbrev pub transfer_rva : ℕ → ℕ
  transfer_rva offset = stub.1.virtual_address + (offset - stub.1.raw_offset)

  abbrev add_return : Option ℕ → ℕ → List OepTransferCandidate → List OepTransferCandidate
  add_return none transfer candidates = candidates
  add_return (some validation) transfer candidates =
      if leb (2 ^ 32) transfer
      then candidates
      else candidates
        ++ (record {
          kind = OepTransferKind.dll_return;
          transfer = transfer;
          target = 0;
          validation_target = validation;
        }
            ∷ [])

  -- `AppendDllReturn`
  unfoldable pub append_dll_return : ℕ → List OepTransferCandidate → List OepTransferCandidate
  append_dll_return offset candidates =
      add_return (find_validation_target stub.0 0 layout.sections) (transfer_rva offset) candidates

  abbrev add_jump : Option ℕ → ℕ → List OepTransferCandidate → List OepTransferCandidate
  add_jump none transfer candidates = candidates
  add_jump (some target) transfer candidates =
      if not (is_executable_destination layout stub.0 target) || is_duplicate transfer candidates
      then candidates
      else candidates
        ++ (record {
          kind = OepTransferKind.direct_jump;
          transfer = transfer;
          target = target;
          validation_target = target;
        }
            ∷ [])

  -- `AppendDirectJump`
  unfoldable pub append_direct_jump : ℕ → List OepTransferCandidate → List OepTransferCandidate
  append_direct_jump offset candidates =
      let transfer = transfer_rva offset in
      if leb (2 ^ 32) transfer
      then candidates
      else add_jump (jump_target transfer (field 4 bytes (offset + 1))) transfer candidates

  -- The body of the inner loop.
  unfoldable pub try_transfer : ℕ → ℕ → List OepTransferCandidate → List OepTransferCandidate
  try_transfer search_end offset candidates =
      if is_library layout.image_kind
        && matches bytes offset search_end (dll_return_pattern layout.format)
      then append_dll_return (offset + 3) candidates
      else if begins_with (0xe9 ∷ []) (drop offset bytes) && leb (offset + 5) search_end
      then append_direct_jump offset candidates
      else candidates

  -- `rounds` rounds of the inner loop, which ends early once there are enough candidates.
  unfoldable pub search_tail : ℕ → ℕ → ℕ → List OepTransferCandidate → List OepTransferCandidate
  search_tail search_end zero offset candidates = candidates
  search_tail search_end (suc rounds) offset candidates =
      let rest =
        search_tail search_end rounds (offset + 1) (try_transfer search_end offset candidates) in
      if ltb (length candidates) maximum_oep_candidates then rest else candidates

  -- The body of the outer loop.
  unfoldable pub search_from : ℕ → ℕ → List OepTransferCandidate → List OepTransferCandidate
  search_from raw_end offset candidates =
      let restore = register_restore layout.format in
      let start = offset + length restore in
      let end = min raw_end (start + maximum_tail_search) in
      if begins_with restore (drop offset bytes)
      then search_tail end (end - start) start candidates
      else candidates

  -- The outer loop; it ends by its condition at `raw_end` at the latest.
  unfoldable pub scan_stub : ℕ → ℕ → ℕ → List OepTransferCandidate → List OepTransferCandidate
  scan_stub raw_end zero offset candidates = candidates
  scan_stub raw_end (suc rounds) offset candidates =
      let rest = scan_stub raw_end rounds (offset + 1) (search_from raw_end offset candidates) in
      if leb offset raw_end
        && leb (length (register_restore layout.format)) (raw_end - offset)
        && ltb (length candidates) maximum_oep_candidates
      then rest
      else candidates

  -- `UpxTailTransferAnalyzer::Analyze`
  unfoldable pub analyze_tail : ℕ → ℕ → List OepTransferCandidate
  analyze_tail raw_start raw_end = scan_stub raw_end (raw_end + 1 - raw_start) raw_start []
