-- ===== src/Pe/Sections/Scan/Unbeaten.antt =====
-- The TLS directory that the broad scan settles on beats every other candidate.
use native.Mathlib.Nat.{mul-le-mul_right}
use upx_killer.Common.{
  ℕ, ◌-◌, ◌*◌, ◌≤◌, ◌<◌, ◌≡◌, ◌≢◌, subst, arith, false, Option, some, inl, inr, ltb, ltb-false→le,
  IsU32, Bool-cases,
}
use upx_killer.Common.Results.{ok}
use upx_killer.Pe.Format.{PeImageLayout}
use upx_killer.Pe.Directories.{WindowsDirectories}
use upx_killer.Pe.Sections.{SectionLayoutInput}
use upx_killer.Pe.Sections.Tls.{TlsEvidence, tls_format, pointer_size, evidence_score}
use upx_killer.Pe.Sections.Scan.{Best, no_best, candidate_at, scan, scan_bound, broad_scan, untied}
use upx_killer.Pe.Sections.Scan.Winner.{IsScanned}
use upx_killer.Pe.Sections.Scan.Ends.{pointer_size_bounds}
use upx_killer.Pe.Sections.Scan.Settled.{Seen, scan-Seen}

pub record IsWinner (candidate : ℕ → Option TlsEvidence) (width bound : ℕ) (evidence : TlsEvidence)
    : Type 0 where
  pub round : ℕ
  pub inside : round * width ≤ bound
  pub there : candidate (round * width) ≡ some evidence
  pub beats :
      (i : ℕ) (other : TlsEvidence)
      → i * width ≤ bound
      → i ≢ round
      → candidate (i * width) ≡ some other
      → evidence_score other < evidence_score evidence

no_best-IsScanned :
    (candidate : ℕ → Option TlsEvidence) (width : ℕ) → IsScanned candidate width 0 no_best
no_best-IsScanned candidate width = record {
  fresh = λ e i low. absurd (omega arith);
  leads = λ evidence e. absurd (ground arith);
}

-- An address up to the bound belongs to a round that has been made.
round_of : (width bound rounds i : ℕ) → bound < rounds * width → i * width ≤ bound → i < rounds
round_of width bound rounds i past low = elim (Bool-cases (ltb i rounds)) [
  | inl before ↦ ground arith
  | inr behind ↦
      absurd
        (omega (arith, mul-le-mul_right {m = rounds} {n = i} width (ltb-false→le i rounds behind)))
]

-- A scan that settles on some evidence has no tie.
untied-inversion :
    (best : Best) (evidence : TlsEvidence)
    → untied best ≡ some evidence
    → (best.tied ≡ false) × (best.evidence ≡ some evidence)
untied-inversion best evidence e = ground arith

Seen-IsWinner :
    (candidate : ℕ → Option TlsEvidence) (width bound : ℕ) (best : Best) (evidence : TlsEvidence)
    → Seen candidate width bound best
    → untied best ≡ some evidence
    → IsWinner candidate width bound evidence
Seen-IsWinner candidate width bound best evidence seen settled =
    let (alone, there) = untied-inversion best evidence settled in
    let leader = seen.scanned.leads evidence there in
    record {
      round = leader.round;
      inside = seen.inside leader.round leader.seen;
      there = leader.there;
      beats = λ i other low differs found.
          let before = round_of width bound seen.rounds i seen.past low in
          omega (arith, leader.scored, (leader.others i other before differs found).1 alone);
    }

-- In an image of 32 bits that has room for a TLS directory of at least eight bytes, the evidence that
-- the broad scan settles on is that of one of the scanned addresses, and that of every other scanned
-- address scores less.
pub broad_scan-IsWinner :
    (d : WindowsDirectories) (source : PeImageLayout) (input : SectionLayoutInput) (best : Best)
    (evidence : TlsEvidence)
    → IsU32 source.size_of_image
    → 8 ≤ (tls_format d source.format).size
    → (tls_format d source.format).size ≤ source.size_of_image
    → broad_scan d source input ≡ ok best
    → untied best ≡ some evidence
    → IsWinner
        (candidate_at d source input)
        (pointer_size source.format)
        (source.size_of_image - (tls_format d source.format).size)
        evidence
unfolding broad_scan
broad_scan-IsWinner d source input best evidence small format room e settled =
    let candidate = candidate_at d source input in
    let width = pointer_size source.format in
    let bound : scan_bound d source ≡ source.size_of_image - (tls_format d source.format).size =
      omega arith in
    let start : 0 ≡ 0 * width = omega arith in
    let started =
      subst
        (λ k. scan candidate width (scan_bound d source) source.size_of_image k no_best ≡ ok best)
        start e in
    let seen =
      scan-Seen candidate width (scan_bound d source)
        (omega (arith, bound, pointer_size_bounds source.format)) source.size_of_image 0 no_best
        best started (λ i low. absurd (omega arith)) (no_best-IsScanned candidate width) in
    subst (λ k. IsWinner candidate width k evidence) bound
      (Seen-IsWinner candidate width (scan_bound d source) best evidence seen settled)
