-- ===== src/Pe/Discovery/Locator.antt =====
-- upx-killer-engine/Core/PE/OepDiscovery/UpxOepLocator.cpp from the names of the sections on: the tests for
-- the packer, and the plan. Nothing of the code throws but failed allocations, so the handler behind
-- `catch (...)` is not reached.
use upx_killer.Common.{
  ℕ, ◌+◌, ◌-◌, ◌*◌, ◌^◌, min, Bool, false, not, ◌&&◌, ◌||◌, List, [], ◌∷◌, Bytes, codes, ltb, ◌==◌,
  ◌!=◌, length,
}
use upx_killer.Common.Results.{Result, ok, ◌>>=◌, ◌>>◌, reject_if, or_reject}
use upx_killer.Pe.Format.{PeSection, PeImageLayout}
use upx_killer.Pe.Parser.{virtual_extent}
use upx_killer.Pe.Discovery.{
  OepDiscoveryError, OepDiscoveryPlan, OepTransferCandidate, analyze_tail, begins_with,
  find_section, has_marker, is_executable,
}

unfoldable pub has_name : Bytes → List PeSection → Bool
has_name expected [] = false
has_name expected (section ∷ sections) =
    begins_with expected section.name || has_name expected sections

-- Whether a section other than the stub is an executable destination without data of its own.
unfoldable pub has_sparse_destination : ℕ → ℕ → List PeSection → Bool
has_sparse_destination stub index [] = false
has_sparse_destination stub index (section ∷ sections) =
    (index != stub
      && is_executable section
      && section.virtual_size != 0
      && (section.raw_size == 0 || ltb (section.raw_size * 4) section.virtual_size))
    || has_sparse_destination stub (index + 1) sections

abbrev is_bad_stub : PeSection → Bool
is_bad_stub stub = stub.raw_size == 0 || not (is_executable stub)

abbrev is_empty : List OepTransferCandidate → Bool
is_empty candidates = length candidates == 0

unfoldable pub plan_for : PeImageLayout → PeSection → List OepTransferCandidate → OepDiscoveryPlan
plan_for layout stub candidates = record {
  packed_entry_point = layout.entry_point;
  stub_start = stub.virtual_address;
  stub_size = min (virtual_extent stub) (2 ^ 32 - 1);
  candidates = candidates;
}

unfoldable pub raw_start_of : PeImageLayout → PeSection → ℕ
raw_start_of layout stub = stub.raw_offset + (layout.entry_point - stub.virtual_address)

-- `UpxOepLocator::Analyze`
unfoldable pub analyze : Bytes → PeImageLayout → Result OepDiscoveryError OepDiscoveryPlan
analyze bytes layout = do
  stub ←
      or_reject (find_section layout.entry_point 0 layout.sections)
        OepDiscoveryError.unsupported_packer
  reject_if (is_bad_stub stub.1) OepDiscoveryError.unsupported_packer
  reject_if
      (not (has_marker (codes "UPX!") bytes)
        && not (has_name (codes "UPX0") layout.sections && has_name (codes "UPX1") layout.sections)
        && not (has_sparse_destination stub.0 0 layout.sections))
      OepDiscoveryError.unsupported_packer
  let raw_start = raw_start_of layout stub.1
  let raw_end = stub.1.raw_offset + stub.1.raw_size
  reject_if (ltb raw_end raw_start || ltb (length bytes) raw_end) OepDiscoveryError.oep_not_found
  let candidates = analyze_tail bytes layout stub raw_start raw_end
  reject_if (is_empty candidates) OepDiscoveryError.oep_not_found
  ok (plan_for layout stub.1 candidates)
