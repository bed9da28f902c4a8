-- ===== src/Pe/Sections/Scan/Winner.antt =====
-- What the variables of the broad scan hold after some rounds.
use upx_killer.Common.{
  ℕ, suc, ◌*◌, ◌≤◌, ◌<◌, ◌≡◌, ◌≢◌, refl, sym, ◌∙◌, ◌⊎◌, Bool, ap, subst, arith, false, ◌==◌, Option,
  none, some, inl, inr, Bool-cases,
}
use upx_killer.Pe.Sections.Tls.{TlsEvidence, evidence_score}
use upx_killer.Pe.Sections.Scan.{Best}

module _ (candidate : ℕ → Option TlsEvidence) (width : ℕ) where
  -- `evidence` is a candidate of the first `rounds` addresses, and the others score no more than it.
  pub record Leads (rounds : ℕ) (best : Best) (evidence : TlsEvidence) : Type 0 where
    pub round : ℕ
    pub seen : round < rounds
    pub there : candidate (round * width) ≡ some evidence
    pub scored : best.score ≡ evidence_score evidence
    pub others :
        (i : ℕ) (other : TlsEvidence)
        → i < rounds
        → i ≢ round
        → candidate (i * width) ≡ some other
        → (evidence_score other ≤ best.score)
          × (best.tied ≡ false → evidence_score other < best.score)

  -- What the variables hold after `rounds` rounds.
  pub record IsScanned (rounds : ℕ) (best : Best) : Type 0 where
    pub fresh : best.evidence ≡ none → (i : ℕ) → i < rounds → candidate (i * width) ≡ none
    pub leads :
        (evidence : TlsEvidence) → best.evidence ≡ some evidence → Leads rounds best evidence

  pub Leads-most :
      (rounds i : ℕ) (best : Best) (evidence other : TlsEvidence)
      → Leads rounds best evidence
      → i < rounds
      → candidate (i * width) ≡ some other
      → evidence_score other ≤ best.score
  Leads-most rounds i best evidence other l low there = elim (Bool-cases (i == l.round)) [
    | inl same ↦
        let e : l.round ≡ i = ground arith in
        let kept = subst (λ k. candidate (k * width) ≡ some evidence) e l.there in
        let equal : evidence ≡ other = ground arith in
        omega (arith, ap evidence_score equal, l.scored)
    | inr differs ↦ (l.others i other low (ground arith) there).0
  ]

  -- A round before the last is one of the first; the last has the candidate that is at hand.
  in_rounds :
      (rounds i : ℕ) {a b : Option TlsEvidence}
      → i < suc rounds
      → candidate (rounds * width) ≡ a
      → candidate (i * width) ≡ b
      → (i < rounds) ⊎ ((i ≡ rounds) × (a ≡ b))
  in_rounds rounds i low here there = elim (Bool-cases (i == rounds)) [
    | inl same ↦
        let e : i ≡ rounds = ground arith in
        inr (e, sym here ∙ (ap (λ k. candidate (k * width)) (sym e) ∙ there))
    | inr differs ↦ inl (ground arith)
  ]

  skip-Leads :
      (rounds : ℕ) (best : Best) (evidence : TlsEvidence)
      → candidate (rounds * width) ≡ none
      → Leads rounds best evidence
      → Leads (suc rounds) best evidence
  skip-Leads rounds best evidence missing l = record {
    round = l.round;
    seen = omega (arith, l.seen);
    there = l.there;
    scored = l.scored;
    others = λ i other low differs e. elim (in_rounds rounds i low missing e) [
      | inl before ↦ l.others i other before differs e
      | inr (_, wrong) ↦ absurd (ground arith)
    ];
  }

  none-extends :
      (rounds : ℕ)
      → candidate (rounds * width) ≡ none
      → ((i : ℕ) → i < rounds → candidate (i * width) ≡ none)
      → (i : ℕ) → i < suc rounds
      → candidate (i * width) ≡ none
  none-extends rounds missing before i low = elim (Bool-cases (i == rounds)) [
    | inl same ↦
        let e : rounds ≡ i = ground arith in subst (λ k. candidate (k * width) ≡ none) e missing
    | inr differs ↦ before i (ground arith)
  ]

  pub skip-IsScanned :
      (rounds : ℕ) (best : Best)
      → candidate (rounds * width) ≡ none
      → IsScanned rounds best
      → IsScanned (suc rounds) best
  skip-IsScanned rounds best missing s = record {
    fresh = λ e. none-extends rounds missing (s.fresh e);
    leads = λ evidence e. skip-Leads rounds best evidence missing (s.leads evidence e);
  }

  -- The candidate of the last round leads, where it scores more than those before it.
  pub replace-IsScanned :
      (rounds : ℕ) (found : TlsEvidence)
      → candidate (rounds * width) ≡ some found
      → ((i : ℕ) (other : TlsEvidence)
          → i < rounds
          → candidate (i * width) ≡ some other
          → evidence_score other < evidence_score found)
      → IsScanned
          (suc rounds)
          (record { evidence = some found; score = evidence_score found; tied = false })
  replace-IsScanned rounds found here before = record {
    fresh = λ e. absurd (ground arith);
    leads = λ evidence e.
        let same : found ≡ evidence = ground arith in
        subst (Leads (suc rounds) _) same (record {
          round = rounds;
          seen = omega arith;
          there = here;
          scored = refl;
          others = λ i other low differs there. elim (in_rounds rounds i low here there) [
            | inl earlier ↦
                let less = before i other earlier there in (omega (arith, less), λ _. less)
            | inr (last, _) ↦ absurd (differs last)
          ];
        });
  }

  -- The leader stays, and a tie is recorded at least where the last candidate scores as much.
  pub keep-IsScanned :
      (rounds : ℕ) (best : Best) (tied : Bool) (leader found : TlsEvidence)
      → best.evidence ≡ some leader
      → candidate (rounds * width) ≡ some found
      → evidence_score found ≤ best.score
      → (tied ≡ false → (best.tied ≡ false) × (evidence_score found < best.score))
      → IsScanned rounds best
      → IsScanned (suc rounds) (record best { tied = tied })
  keep-IsScanned rounds best tied leader found led here most strict s = record {
    fresh = λ e. absurd (ground arith);
    leads = λ evidence e.
        let l = s.leads evidence e in
        record {
          round = l.round;
          seen = omega (arith, l.seen);
          there = l.there;
          scored = l.scored;
          others = λ i other low differs there. elim (in_rounds rounds i low here there) [
            | inl earlier ↦
                let less = l.others i other earlier differs there in
                (less.0, λ t. less.1 (strict t).0)
            | inr (_, same) ↦
                let e' : found ≡ other = ground arith in
                subst
                  (λ o.
                    (evidence_score o ≤ best.score)
                    × (tied ≡ false → evidence_score o < best.score))
                  e' (most, λ t. (strict t).1)
          ];
        };
  }
