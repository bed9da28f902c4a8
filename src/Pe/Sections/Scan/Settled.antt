-- ===== src/Pe/Sections/Scan/Settled.antt =====
-- What the loop of the broad scan has seen when it ends.
use native.Mathlib.Nat.{suc-mul}
use upx_killer.Common.{
  ℕ, zero, suc, ◌+◌, ◌*◌, ◌%◌, ◌^◌, ◌≤◌, ◌<◌, ◌≡◌, sym, ap, subst, arith, true, false, Option, none,
  some, inl, inr, leb, ltb, ◌==◌, ==→eq, Bool-cases, Option-cases, tests,
}
use upx_killer.Common.Results.{ok}
use upx_killer.Pe.Sections.Tls.{TlsEvidence, evidence_score}
use upx_killer.Pe.Sections.Scan.{Best, consider, consider_optional, scan}
use upx_killer.Pe.Sections.Scan.Winner.{
  Leads-most, IsScanned, skip-IsScanned, replace-IsScanned, keep-IsScanned,
}

module _ (best : Best) (found : TlsEvidence) where
  consider_first :
      best.evidence ≡ none
      → consider best found
        ≡ record { evidence = some found; score = evidence_score found; tied = false }
  unfolding consider
  consider_first e = ground arith

  consider_more :
      best.score < evidence_score found
      → consider best found
        ≡ record { evidence = some found; score = evidence_score found; tied = false }
  unfolding consider
  consider_more e = ground arith

  consider_tie :
      (leader : TlsEvidence)
      → best.evidence ≡ some leader
      → evidence_score found ≡ best.score
      → consider best found ≡ record best { tied = true }
  unfolding consider
  consider_tie leader e same = ground arith

  consider_less :
      (leader : TlsEvidence)
      → best.evidence ≡ some leader
      → evidence_score found < best.score
      → consider best found ≡ record best { tied = best.tied }
  unfolding consider
  consider_less leader e less = ground arith

module _ (candidate : ℕ → Option TlsEvidence) (width : ℕ) where
  consider-IsScanned :
      (rounds : ℕ) (best : Best) (found : TlsEvidence)
      → candidate (rounds * width) ≡ some found
      → IsScanned candidate width rounds best
      → IsScanned candidate width (suc rounds) (consider best found)
  consider-IsScanned rounds best found here s = elim (Option-cases best.evidence) [
    | inl e ↦ subst (IsScanned candidate width (suc rounds)) (sym (consider_first best found e)) (
        replace-IsScanned candidate width rounds found here
          (λ i other low there. absurd (ground (arith, s.fresh e i low))))
    | inr (leader, e) ↦
        let l = s.leads leader e in
        elim (Bool-cases (ltb best.score (evidence_score found))) [
          | inl more ↦
              subst (IsScanned candidate width (suc rounds))
                (sym (consider_more best found (ground arith)))
                (replace-IsScanned candidate width rounds found here (λ i other low there.
                  omega (
                    tests,
                    more,
                    Leads-most candidate width rounds i best leader other l low there,
                  )))
          | inr most ↦ elim (Bool-cases (evidence_score found == best.score)) [
            | inl same ↦
                subst (IsScanned candidate width (suc rounds))
                  (sym (consider_tie best found leader e (ground arith)))
                  (keep-IsScanned candidate width rounds best true leader found e here
                    (ground arith) (λ wrong. absurd (ground arith)) s)
            | inr less ↦
                subst (IsScanned candidate width (suc rounds))
                  (sym (consider_less best found leader e (ground arith)))
                  (keep-IsScanned candidate width rounds best best.tied leader found e here
                    (ground arith) (λ t. (t, ground arith)) s)
          ]
        ]
  ]

  optional-IsScanned :
      (rounds : ℕ) (best : Best)
      → IsScanned candidate width rounds best
      → IsScanned candidate width (suc rounds) (consider_optional best (candidate (rounds * width)))
  unfolding consider_optional
  optional-IsScanned rounds best s = elim (Option-cases (candidate (rounds * width))) [
    | inl missing ↦ rw missing (skip-IsScanned candidate width rounds best missing s)
    | inr (found, here) ↦ rw here (consider-IsScanned rounds best found here s)
  ]

  -- A scan that ends has seen the addresses up to its bound, and no other.
  pub record Seen (bound : ℕ) (last : Best) : Type 0 where
    pub rounds : ℕ
    pub past : bound < rounds * width
    pub inside : (i : ℕ) → i < rounds → i * width ≤ bound
    pub scanned : IsScanned candidate width rounds last

  last-Seen :
      (bound rounds : ℕ) (best last : Best)
      → bound < rounds * width
      → ((i : ℕ) → i < rounds → i * width ≤ bound)
      → IsScanned candidate width rounds best
      → best ≡ last
      → Seen bound last
  last-Seen bound rounds best last past inside s same = record {
    rounds = rounds;
    past = past;
    inside = inside;
    scanned = subst (IsScanned candidate width rounds) same s;
  }

  pub scan-Seen :
      (bound : ℕ)
      → bound + width < 2 ^ 32
      → (fuel rounds : ℕ) (best last : Best)
      → scan candidate width bound fuel (rounds * width) best ≡ ok last
      → ((i : ℕ) → i < rounds → i * width ≤ bound)
      → IsScanned candidate width rounds best
      → Seen bound last
  unfolding scan
  scan-Seen bound small zero rounds best last e inside s =
      elim (Bool-cases (leb (rounds * width) bound)) [
        | inl more ↦ absurd (ground arith)
        | inr past ↦ last-Seen bound rounds best last (ground arith) inside s (ground arith)
      ]
  scan-Seen bound small (suc fuel) rounds best last e inside s =
      elim (Bool-cases (leb (rounds * width) bound)) [
        | inl more ↦
            let next : (rounds * width + width) % 2 ^ 32 ≡ suc rounds * width =
              omega (tests, more, suc-mul rounds width) in
            scan-Seen bound small fuel (suc rounds)
              (consider_optional best (candidate (rounds * width))) last (rw (more, next) at e)
              (λ i low. elim (Bool-cases (i == rounds)) [
                | inl same ↦ omega (tests, more, ap (λ (k : ℕ). k * width) (==→eq i rounds same))
                | inr before ↦ inside i (ground arith)
              ])
              (optional-IsScanned rounds best s)
        | inr past ↦ last-Seen bound rounds best last (ground arith) inside s (ground arith)
      ]
