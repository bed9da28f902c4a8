-- ===== src/Pe/Sections/Scan.antt =====
-- upx-killer-engine/Core/PE/Sections/SectionLayoutRebuilder.cpp: the broad scan for a TLS directory,
-- and the choice of where to look for one.
pub mod Winner
pub mod Settled
pub mod Unbeaten
pub mod Ends
use upx_killer.Common.{
  ℕ, zero, suc, ◌+◌, ◌%◌, ◌^◌, Bool, true, false, ◌||◌, Option, none, some, ltb, leb, ◌==◌, ◌!=◌,
  if◌then◌else◌,
}
use upx_killer.Common.Results.{Result, ok, err, ◌>>=◌}
use upx_killer.Dumping.{sub64}
use upx_killer.Pe.Format.{PeDataDirectory, PeImageLayout}
use upx_killer.Pe.Headers.{WindowsHeaders}
use upx_killer.Pe.Directories.{WindowsDirectories}
use upx_killer.Pe.Metadata.{EmbeddedOriginalPeHeader, find_embedded}
use upx_killer.Pe.Sections.{SectionLayoutInput, Stop, unfinished, source_directory}
use upx_killer.Pe.Sections.Tls.{
  TlsEvidence, tls_format, pointer_size, evidence_score, read_runtime_tls_directory,
  in_source_entry_section, validate_tls_directory,
}

-- The variables of the scan.
pub record Best : Type 0 where
  pub evidence : Option TlsEvidence
  pub score : ℕ
  pub tied : Bool

abbrev pub no_best : Best
no_best = record { evidence = none; score = 0; tied = false }

abbrev is_none : Option TlsEvidence → Bool
is_none none = true
is_none (some evidence) = false

-- A round whose candidate is valid.
unfoldable pub consider : Best → TlsEvidence → Best
consider best candidate =
    let score = evidence_score candidate in
    if is_none best.evidence || ltb best.score score
    then record { evidence = some candidate; score = score; tied = false }
    else if score == best.score
    then record best { tied = true }
    else best

-- The candidate at an address; `none` is a `continue`.
unfoldable pub candidate_at :
    WindowsDirectories → PeImageLayout → SectionLayoutInput → ℕ → Option TlsEvidence
candidate_at d source input rva =
    if in_source_entry_section source rva
    then none
    else validate_tls_directory d source input
        (record { address = rva; size = (tls_format d source.format).size }) true

unfoldable pub consider_optional : Best → Option TlsEvidence → Best
consider_optional best none = best
consider_optional best (some candidate) = consider best candidate

-- `for (rva = 0; rva <= bound; rva += Traits::PointerSize)`: the sum has 32 bits.
unfoldable pub scan : (ℕ → Option TlsEvidence) → ℕ → ℕ → ℕ → ℕ → Best → Result Stop Best
scan candidate width bound zero rva best = if leb rva bound then err unfinished else ok best
scan candidate width bound (suc fuel) rva best =
    let rest =
      scan candidate width bound fuel ((rva + width) % 2 ^ 32)
        (consider_optional best (candidate rva)) in
    if leb rva bound then rest else ok best

-- `source.sizeOfImage - sizeof(TlsDirectory)`, of 64 bits.
abbrev pub scan_bound : WindowsDirectories → PeImageLayout → ℕ
scan_bound d source = sub64 source.size_of_image (tls_format d source.format).size

-- The scan from the start of the image, with a round of fuel for each byte.
unfoldable pub broad_scan :
    WindowsDirectories → PeImageLayout → SectionLayoutInput → Result Stop Best
broad_scan d source input =
    scan (candidate_at d source input) (pointer_size source.format) (scan_bound d source)
      source.size_of_image 0 no_best

-- `if (tied) return std::nullopt;`
abbrev pub untied : Best → Option TlsEvidence
untied best = if best.tied then none else best.evidence

unfoldable pub embedded_evidence :
    WindowsHeaders → WindowsDirectories → PeImageLayout → SectionLayoutInput → Option TlsEvidence
embedded_evidence h d source input = elim (find_embedded h d input.loaded_image source input.oep) [
  | none ↦ none
  | some original ↦
      if original.tls_directory.address != 0
      then validate_tls_directory d source input original.tls_directory false
      else none
]

unfoldable pub runtime_evidence :
    WindowsHeaders → WindowsDirectories → PeImageLayout → SectionLayoutInput → Option TlsEvidence
runtime_evidence h d source input = elim (read_runtime_tls_directory h d input source) [
  | none ↦ none
  | some directory ↦
      if in_source_entry_section source directory.address
      then none
      else validate_tls_directory d source input directory false
]

-- `if (!evidence)`
abbrev pub or_else :
    Option TlsEvidence → Result Stop (Option TlsEvidence) → Result Stop (Option TlsEvidence)
or_else none later = later
or_else (some evidence) later = ok (some evidence)

-- `DiscoverTlsCodeRanges` up to the evidence.
unfoldable pub discover_tls :
    WindowsHeaders
    → WindowsDirectories
    → PeImageLayout
    → SectionLayoutInput
    → Result Stop (Option TlsEvidence)
discover_tls h d source input =
    if input.oep == source.entry_point
    then ok (validate_tls_directory d source input (source_directory source d.tls_entry) false)
    else or_else (embedded_evidence h d source input) (
        or_else (runtime_evidence h d source input)
          (broad_scan d source input >>= λ best. ok (untied best)))
