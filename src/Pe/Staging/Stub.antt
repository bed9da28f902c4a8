-- ===== src/Pe/Staging/Stub.antt =====
-- What the addressing of the stub of a PE32 file does to the staged bytes.
use upx_killer.Common.{
  ℕ, ◌+◌, ◌-◌, ◌^◌, ◌≤◌, ◌<◌, ◌≡◌, ◌≢◌, ◌⊎◌, refl, ◌∙◌, arith, true, some, Bytes, length, get_elem?,
  subst, inl, inr, Bool-cases, Option-cases, ltb, ◌||◌, ◌%◌,
}
use upx_killer.Common.Results.{
  ok, reject_if_inversion, or_reject_inversion, ok-injective, Result-cases, FailsWith,
  reject_if-FailsWith, or_reject-FailsWith,
}
use upx_killer.Pe.Format.{PeFormat, PeSection, PeImageLayout}
use upx_killer.Pe.Headers.{field}
use upx_killer.Pe.Rebasing.Splices.{IsBeside}
use upx_killer.Pe.Rebasing.Rebased.{field-sized, field-beside}
use upx_killer.Pe.Staging.Fields.{le_value-le_bytes, field-written}
use upx_killer.Pe.Discovery.{contains_rva}
use upx_killer.Pe.Discovery.Candidates.{find_section_there}
use upx_killer.Pe.Staging.{
  StubStatus, StubRebase, prologue_size, source_immediate_offset, raw_offset_for_rva,
  is_destination, check_stub, rebase_stub_at, rebase_stub,
}

PeFormat-cases : (f : PeFormat) → (f ≡ PeFormat.pe32) ⊎ (f ≡ PeFormat.pe64)
PeFormat-cases PeFormat.pe32 = inl refl
PeFormat-cases PeFormat.pe64 = inr refl

-- What the tests of the prologue guarantee of the packed section.
pub record IsStub (staged : Bytes) (layout : PeImageLayout) (base offset : ℕ) (packed : PeSection)
    : Type 0 where
  pub index : ℕ
  pub there : get_elem? layout.sections index ≡ some packed
  pub entry : contains_rva packed layout.entry_point ≡ true
  pub addressed :
      field 4 staged (offset + source_immediate_offset)
      ≡ layout.preferred_image_base + packed.virtual_address
  pub small : base + packed.virtual_address < 2 ^ 32
  pub other : ℕ
  pub destination : PeSection
  pub elsewhere : get_elem? layout.sections other ≡ some destination
  pub apart : other ≢ index
  pub sparse : destination.raw_size ≡ 0
  pub inside : destination.virtual_address < layout.size_of_image

module _ (staged : Bytes) (layout : PeImageLayout) (base offset : ℕ) where
  check_stub-IsStub :
      (packed : ℕ × PeSection)
      → check_stub staged layout base offset ≡ ok packed
      → IsStub staged layout base offset packed.1
  unfolding check_stub is_destination
  check_stub-IsStub r e = reject_if_inversion _ _ _ r e λ _ e1.
      or_reject_inversion _ _ _ r e1 λ packed found e2. reject_if_inversion _ _ _ r e2 λ _ e3.
        reject_if_inversion _ _ _ r e3 λ same e4. or_reject_inversion _ _ _ r e4 λ address _ e5.
          reject_if_inversion _ _ _ r e5 λ range e6.
            or_reject_inversion _ _ _ r e6 λ target reached e7.
              reject_if_inversion _ _ _ r e7 λ good e8. reject_if_inversion _ _ _ r e8 λ small e9.
                let place =
                  find_section_there layout.entry_point 0 layout.sections packed.0 packed.1 found in
                let goal =
                  find_section_there (address - layout.preferred_image_base) 0 layout.sections
                    target.0 target.1 reached in
                let at : place.0 ≡ packed.0 = omega (arith, place.1) in
                let to : goal.0 ≡ target.0 = omega (arith, goal.1) in
                subst (λ (p : ℕ × PeSection). IsStub staged layout base offset p.1)
                  (ok-injective packed r e9)
                  (record {
                    index = packed.0;
                    there = subst (λ i. get_elem? layout.sections i ≡ some packed.1) at place.2;
                    entry = place.3;
                    addressed = ground (arith, same);
                    small = ground (arith, small);
                    other = target.0;
                    destination = target.1;
                    elsewhere = subst (λ i. get_elem? layout.sections i ≡ some target.1) to goal.2;
                    apart = ground (arith, good);
                    sparse = ground (arith, good);
                    inside = ground (arith, good, range);
                  })

  check_stub-FailsWith :
      FailsWith (λ s. s ≢ StubStatus.applied) (check_stub staged layout base offset)
  unfolding check_stub
  check_stub-FailsWith =
      let P = λ (s : StubStatus). s ≢ StubStatus.applied in
      let skip : StubStatus.not_applicable ≢ StubStatus.applied = λ h. ground arith in
      let bad : StubStatus.invalid ≢ StubStatus.applied = λ h. ground arith in
      reject_if-FailsWith P _ _ _ skip (
        or_reject-FailsWith P _ _ _ bad λ packed. reject_if-FailsWith P _ _ _ bad (
          reject_if-FailsWith P _ _ _ bad (
            or_reject-FailsWith P _ _ _ bad λ address. reject_if-FailsWith P _ _ _ bad (
              or_reject-FailsWith P _ _ _ bad λ destination.
                reject_if-FailsWith P _ _ _ bad (reject_if-FailsWith P _ _ _ bad tt)))))

-- A stub whose address has been moved from the preferred base to the other one, in four bytes.
pub record IsApplied (staged : Bytes) (layout : PeImageLayout) (base : ℕ) (stub : StubRebase)
    : Type 0 where
  pub narrow : layout.format ≡ PeFormat.pe32
  pub offset : ℕ
  pub placed : raw_offset_for_rva layout layout.entry_point prologue_size ≡ some offset
  pub fits : offset + prologue_size ≤ length staged
  pub packed : PeSection
  pub found : IsStub staged layout base offset packed
  pub location :
      stub.patched_location ≡ some ((layout.entry_point + source_immediate_offset) % 2 ^ 32)
  pub target : stub.image_target ≡ some packed.virtual_address
  pub moved : field 4 stub.staged (offset + source_immediate_offset) ≡ base + packed.virtual_address
  pub sized : length stub.staged ≡ length staged
  pub kept :
      (i : ℕ)
      → IsBeside (offset + source_immediate_offset) 4 i
      → get_elem? stub.staged i ≡ get_elem? staged i

-- The two ends of the addressing.
abbrev pub IsAddressed : Bytes → PeImageLayout → ℕ → StubRebase → Type 0
IsAddressed staged layout base stub =
    ((stub.status ≡ StubStatus.applied) × IsApplied staged layout base stub)
    ⊎ ((stub.status ≢ StubStatus.applied) × (stub.staged ≡ staged))

module _ (staged : Bytes) (layout : PeImageLayout) (base : ℕ) where
  rebase_stub_at-IsAddressed :
      (offset : ℕ)
      → layout.format ≡ PeFormat.pe32
      → raw_offset_for_rva layout layout.entry_point prologue_size ≡ some offset
      → IsAddressed staged layout base (rebase_stub_at staged layout base offset)
  unfolding rebase_stub_at
  rebase_stub_at-IsAddressed offset narrow placed =
      elim (Bool-cases (ltb (length staged) offset || ltb (length staged - offset) prologue_size)) [
        | inl short ↦ rw (short, rebase_stub_at) (inr ((λ h. ground arith), refl))
        | inr long ↦ elim (Result-cases (check_stub staged layout base offset)) [
          | inr (status, failed) ↦
              let other : status ≢ StubStatus.applied =
                subst (FailsWith (λ s. s ≢ StubStatus.applied)) failed
                  (check_stub-FailsWith staged layout base offset) in
              rw (long, failed, rebase_stub_at) (inr (other, refl))
          | inl (packed, passed) ↦
              let found = check_stub-IsStub staged layout base offset packed passed in
              let at = offset + source_immediate_offset in
              let v = base + packed.1.virtual_address in
              let fits : offset + prologue_size ≤ length staged = ground (arith, long) in
              let inside : at + 4 ≤ length staged = omega (arith, fits) in
              rw (long, passed, rebase_stub_at)
                (inl (
                  refl,
                  record {
                    narrow = narrow;
                    offset = offset;
                    placed = placed;
                    fits = fits;
                    packed = packed.1;
                    found = found;
                    location = refl;
                    target = refl;
                    moved =
                        field-written at 4 v staged inside
                        ∙ le_value-le_bytes 4 v (omega (arith, found.small));
                    sized = field-sized at 4 v staged inside;
                    kept = λ i beside. field-beside at 4 v staged inside i beside;
                  },
                ))
        ]
      ]

  -- Where the stub of a PE32 file is addressed for another base, the immediate of its prologue held the
  -- address of the packed section, which holds the entry point, at the preferred base, and holds it at the other one
  -- afterwards; another section of the image without data of its own is there to unpack into. Only those four bytes
  -- change, and no byte where the stub is not addressed.
  pub rebase_stub-IsAddressed : IsAddressed staged layout base (rebase_stub staged layout base)
  unfolding rebase_stub
  rebase_stub-IsAddressed = elim (PeFormat-cases layout.format) [
    | inr wide ↦ simp (wide, rebase_stub) (inr ((λ h. ground arith), refl))
    | inl narrow ↦
        elim (Option-cases (raw_offset_for_rva layout layout.entry_point prologue_size)) [
          | inl missing ↦ simp (narrow, missing, rebase_stub) (inr ((λ h. ground arith), refl))
          | inr (offset, placed) ↦
              simp (narrow, placed, rebase_stub) (rebase_stub_at-IsAddressed offset narrow placed)
        ]
  ]
