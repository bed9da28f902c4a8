-- ===== src/Pe/Sections/Scan/Ends.antt =====
-- When the broad scan for a TLS directory ends.
use upx_killer.Common.{
  ℕ, zero, suc, ◌+◌, ◌-◌, ◌%◌, ◌^◌, ◌≤◌, ◌<◌, ◌≡◌, arith, IsU32, Option, inl, inr, leb, Bool-cases,
}
use upx_killer.Common.Results.{ok, err}
use upx_killer.Pe.Format.{PeFormat, PeImageLayout}
use upx_killer.Pe.Directories.{WindowsDirectories}
use upx_killer.Pe.Sections.{SectionLayoutInput, unfinished}
use upx_killer.Pe.Sections.Tls.{TlsEvidence, tls_format, pointer_size}
use upx_killer.Pe.Sections.Scan.{
  Best, no_best, consider_optional, candidate_at, scan, scan_bound, broad_scan,
}

pub pointer_size_bounds : (f : PeFormat) → (4 ≤ pointer_size f) × (pointer_size f ≤ 8)
pointer_size_bounds PeFormat.pe32 = omega arith
pointer_size_bounds PeFormat.pe64 = omega arith

module _ (candidate : ℕ → Option TlsEvidence) (width bound : ℕ) where
  scan_ends :
      1 ≤ width
      → bound + width < 2 ^ 32
      → (fuel rva : ℕ) (best : Best) → bound < rva + fuel
      → (last : Best) × (scan candidate width bound fuel rva best ≡ ok last)
  unfolding scan
  scan_ends moves small zero rva best enough = (best, ground arith)
  scan_ends moves small (suc fuel) rva best enough = elim (Bool-cases (leb rva bound)) [
    | inl more ↦
        let next = (rva + width) % 2 ^ 32 in
        let later = consider_optional best (candidate rva) in
        let reaches : bound < next + fuel = ground arith in
        rw more (scan_ends moves small fuel next later reaches)
    | inr past ↦ (best, rw past)
  ]

  scan_endless :
      2 ^ 32 ≤ bound
      → (fuel rva : ℕ) (best : Best) → rva < 2 ^ 32
      → scan candidate width bound fuel rva best ≡ err unfinished
  unfolding scan
  scan_endless wide zero rva best low = ground arith
  scan_endless wide (suc fuel) rva best low =
      let next = (rva + width) % 2 ^ 32 in
      let later = consider_optional best (candidate rva) in
      ground (arith, scan_endless wide fuel next later)

module _ (d : WindowsDirectories) (source : PeImageLayout) (input : SectionLayoutInput) where
  -- In an image of 32 bits that has room for a TLS directory of at least eight bytes, the broad scan
  -- ends within a round for each byte of the image.
  pub broad_scan_ends :
      IsU32 source.size_of_image
      → 8 ≤ (tls_format d source.format).size
      → (tls_format d source.format).size ≤ source.size_of_image
      → (best : Best) × (broad_scan d source input ≡ ok best)
  unfolding broad_scan
  broad_scan_ends small format room =
      let width = pointer_size_bounds source.format in
      let bound : scan_bound d source ≡ source.size_of_image - (tls_format d source.format).size =
        omega arith in
      scan_ends (candidate_at d source input) (pointer_size source.format) (scan_bound d source)
        (omega (arith, width)) (omega (arith, width, bound)) source.size_of_image 0 no_best
        (omega (arith, bound))

  -- In an image that is smaller than a TLS directory of less than 4 GiB the bound of the broad scan
  -- wraps around, and the loop does not end, whatever the number of its rounds.
  pub broad_scan_endless :
      (fuel : ℕ)
      → source.size_of_image < (tls_format d source.format).size
      → IsU32 (tls_format d source.format).size
      → scan
          (candidate_at d source input)
          (pointer_size source.format)
          (scan_bound d source)
          fuel
          0
          no_best
        ≡ err unfinished
  broad_scan_endless fuel small format =
      scan_endless (candidate_at d source input) (pointer_size source.format) (scan_bound d source)
        (omega arith) fuel 0 no_best (omega arith)
