-- ===== src/Pe/Metadata/Unique.antt =====
-- The embedded header that is found is the only one.
use upx_killer.Common.{
  ℕ, zero, suc, ◌+◌, ◌-◌, ◌≤◌, ◌<◌, ◌≡◌, ◌≢◌, ap, subst, ◌∙◌, arith, Option, none, some, Bytes,
  ◌==◌, length, inl, inr, Bool-cases, Option-cases,
}
use upx_killer.Pe.Format.{PeImageLayout}
use upx_killer.Pe.Headers.{WindowsHeaders}
use upx_killer.Pe.Directories.{WindowsDirectories}
use upx_killer.Pe.Metadata.{
  EmbeddedOriginalPeHeader, candidate_at, keep_single, find_from, nt_headers32_size, find_embedded,
}

-- `header` is the candidate at one of the `rounds` offsets from `start` on, and the others have none.
pub record IsOnly (candidate : ℕ → Option EmbeddedOriginalPeHeader) (start rounds : ℕ)
    (header : EmbeddedOriginalPeHeader) : Type 0 where
  pub offset : ℕ
  pub low : start ≤ offset
  pub high : offset < start + rounds
  pub there : candidate offset ≡ some header
  pub alone :
      (other : ℕ) → start ≤ other → other < start + rounds → other ≢ offset → candidate other ≡ none

module _ (candidate : ℕ → Option EmbeddedOriginalPeHeader) where
  -- What holds of an offset and of those behind it.
  none-step :
      (rounds start : ℕ)
      → candidate start ≡ none
      → ((other : ℕ) → start + 1 ≤ other → other < start + 1 + rounds → candidate other ≡ none)
      → (other : ℕ) → start ≤ other
      → other < start + suc rounds
      → candidate other ≡ none
  none-step rounds start here later other low high = elim (Bool-cases (other == start)) [
    | inl same ↦ let e : start ≡ other = ground arith in subst (λ k. candidate k ≡ none) e here
    | inr differs ↦ later other (ground arith) (omega arith)
  ]

  -- With a result at hand the loop keeps it only where it finds no other.
  find_from-none :
      (rounds start : ℕ) (found header : EmbeddedOriginalPeHeader)
      → find_from candidate rounds start (some found) ≡ some header
      → (found ≡ header)
        × ((other : ℕ) → start ≤ other → other < start + rounds → candidate other ≡ none)
  unfolding find_from
  find_from-none zero start found header e = (ground arith, λ other low high. absurd (omega arith))
  find_from-none (suc rounds) start found header e = elim (Option-cases (candidate start)) [
    | inl nothing ↦
        let later =
          find_from-none rounds (start + 1) found header (rw (keep_single, nothing) at e) in
        (later.0, none-step rounds start nothing later.1)
    | inr (second, there) ↦ absurd (ground arith)
  ]

  find_from-IsOnly :
      (rounds start : ℕ) (header : EmbeddedOriginalPeHeader)
      → find_from candidate rounds start none ≡ some header
      → IsOnly candidate start rounds header
  unfolding find_from
  find_from-IsOnly zero start header e = absurd (ground arith)
  find_from-IsOnly (suc rounds) start header e = elim (Option-cases (candidate start)) [
    | inl nothing ↦
        let later = find_from-IsOnly rounds (start + 1) header (rw (keep_single, nothing) at e) in
        record {
          offset = later.offset;
          low = omega (arith, later.low);
          high = omega (arith, later.high);
          there = later.there;
          alone = λ other low high differs. elim (Bool-cases (other == start)) [
            | inl same ↦
                let e : start ≡ other = ground arith in subst (λ k. candidate k ≡ none) e nothing
            | inr beyond ↦ later.alone other (ground arith) (omega arith) differs
          ];
        }
    | inr (first, there) ↦
        let later = find_from-none rounds (start + 1) first header (rw (keep_single, there) at e) in
        record {
          offset = start;
          low = omega arith;
          high = omega arith;
          there = there ∙ ap some later.0;
          alone = λ other low high differs. later.1 other (ground arith) (omega arith);
        }
  ]

-- The embedded header that is found is parsed at an offset that leaves room for the 32-bit headers,
-- no other such offset has a header that parses, and the recovered entry point is not that of the
-- source.
pub find_embedded-IsOnly :
    (h : WindowsHeaders) (d : WindowsDirectories) (dumped : Bytes) (source : PeImageLayout)
    (oep : ℕ) (header : EmbeddedOriginalPeHeader)
    → find_embedded h d dumped source oep ≡ some header
    → (source.entry_point ≢ oep)
      × IsOnly (candidate_at h d dumped source oep) 0 (length dumped - nt_headers32_size h) header
unfolding find_embedded
find_embedded-IsOnly h d dumped source oep header e =
    elim (Bool-cases (source.entry_point == oep)) [
      | inl same ↦ absurd (ground arith)
      | inr moved ↦
          let candidate = candidate_at h d dumped source oep in
          (ground arith, find_from-IsOnly candidate _ 0 header (ground arith))
    ]
