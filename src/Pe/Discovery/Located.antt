-- ===== src/Pe/Discovery/Located.antt =====
-- What the locator of the original entry point promises.
use upx_killer.Common.{
  ℕ, ◌+◌, ◌≤◌, ◌≡◌, refl, arith, min, true, some, [], Bytes, All, length, get_elem?, subst, ◌-◌,
  ◌^◌,
}
use upx_killer.Common.Results.{ok, reject_if_inversion, or_reject_inversion, ok-injective}
use upx_killer.Pe.Format.{PeSection, PeImageLayout}
use upx_killer.Pe.Parser.{virtual_extent}
use upx_killer.Pe.Discovery.{OepDiscoveryPlan, is_executable, contains_rva, analyze_tail}
use upx_killer.Pe.Discovery.Locator.{plan_for, raw_start_of, analyze}
use upx_killer.Pe.Discovery.Candidates.{IsCandidate, find_section_there}
use upx_killer.Pe.Discovery.Found.{Good, scan_stub-Good}

pub record IsLocated (bytes : Bytes) (layout : PeImageLayout) (plan : OepDiscoveryPlan)
    : Type 0 where
  pub index : ℕ
  pub stub : PeSection
  pub there : get_elem? layout.sections index ≡ some stub
  pub entry : contains_rva stub layout.entry_point ≡ true
  pub executable : is_executable stub ≡ true
  pub in_file : stub.raw_offset + stub.raw_size ≤ length bytes
  pub packed_entry : plan.packed_entry_point ≡ layout.entry_point
  pub start : plan.stub_start ≡ stub.virtual_address
  pub size : plan.stub_size ≡ min (virtual_extent stub) (2 ^ 32 - 1)
  pub count_low : 1 ≤ length plan.candidates
  pub count_high : length plan.candidates ≤ 32
  pub candidates :
      All
        (IsCandidate bytes layout
          (index, stub)
          (stub.raw_offset + (layout.entry_point - stub.virtual_address))
          (stub.raw_offset + stub.raw_size))
        plan.candidates

analyze_tail-Good :
    (bytes : Bytes) (layout : PeImageLayout) (stub : ℕ × PeSection) (raw_start raw_end : ℕ)
    → Good bytes layout stub raw_start raw_end (analyze_tail bytes layout stub raw_start raw_end)
unfolding analyze_tail
analyze_tail-Good bytes layout stub raw_start raw_end =
    scan_stub-Good bytes layout stub raw_start raw_end (raw_end + 1 - raw_start) raw_start []
      (omega arith) (tt, omega arith)

-- A plan for the original entry point names the section that holds the packed one, which is executable
-- and lies in the file, and 1 to 32 candidates. Each of them is a jump in that section, at or behind
-- the packed entry point, into another executable section of the layout and inside the image, or is
-- the return of a library there, at the fourth byte of the code that returns 1.
pub analyze-IsLocated :
    (bytes : Bytes) (layout : PeImageLayout) (plan : OepDiscoveryPlan)
    → analyze bytes layout ≡ ok plan
    → IsLocated bytes layout plan
unfolding analyze plan_for raw_start_of
analyze-IsLocated bytes layout plan e = or_reject_inversion _ _ _ plan e λ stub found e1.
    reject_if_inversion _ _ _ plan e1 λ good e2. reject_if_inversion _ _ _ plan e2 λ _ e3.
      reject_if_inversion _ _ _ plan e3 λ fits e4. reject_if_inversion _ _ _ plan e4 λ full e5.
        let place = find_section_there layout.entry_point 0 layout.sections stub.0 stub.1 found in
        let start = raw_start_of layout stub.1 in
        let end = stub.1.raw_offset + stub.1.raw_size in
        let found_all = analyze_tail-Good bytes layout stub start end in
        let at : place.0 ≡ stub.0 = omega (arith, place.1) in
        subst (IsLocated bytes layout) (ok-injective _ plan e5) (record {
          index = stub.0;
          stub = stub.1;
          there = subst (λ i. get_elem? layout.sections i ≡ some stub.1) at place.2;
          entry = place.3;
          executable = ground arith;
          in_file = ground arith;
          packed_entry = refl;
          start = refl;
          size = refl;
          count_low = ground arith;
          count_high = found_all.1;
          candidates = found_all.0;
        })
