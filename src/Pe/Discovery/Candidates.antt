-- ===== src/Pe/Discovery/Candidates.antt =====
-- The candidates for the transfer to the original entry point.
use upx_killer.Common.{
  ℕ, zero, suc, ◌+◌, ◌-◌, ◌^◌, ◌≤◌, ◌<◌, ◌≡◌, ◌≢◌, ◌⊎◌, refl, ap, subst, arith, true, not, ◌||◌,
  some, List, [], ◌∷◌, Bytes, get_elem?, drop, length, ◌==◌, Bool-cases, Option-cases, inl, inr,
}
use upx_killer.Pe.Format.{PeFormat, PeImageKind, PeSection, PeImageLayout}
use upx_killer.Pe.Headers.{field}
use upx_killer.Pe.Discovery.{
  OepTransferKind, OepTransferCandidate, is_executable, contains_rva, find_section, begins_with,
  find_validation_target, is_executable_destination, jump_target,
}

-- An executable section of the layout other than the stub.
pub record IsDestination (layout : PeImageLayout) (stub : ℕ) (section : PeSection) : Type 0 where
  pub index : ℕ
  pub there : get_elem? layout.sections index ≡ some section
  pub other : index ≢ stub
  pub executable : is_executable section ≡ true

-- The bytes from an offset on.
abbrev pub AreAt : Bytes → ℕ → List ℕ → Type 0
AreAt bytes offset [] = Unit {0}
AreAt bytes offset (x ∷ xs) = (get_elem? bytes offset ≡ some x) × AreAt bytes (suc offset) xs

-- `xor eax, eax; inc eax; ret 12` in 32 bits, `push 1; pop rax; ret` in 64 bits.
abbrev pub return_code : PeFormat → List ℕ
return_code PeFormat.pe32 = 0x33 ∷ 0xc0 ∷ 0x40 ∷ 0xc2 ∷ 0x0c ∷ 0x00 ∷ []
return_code PeFormat.pe64 = 0x6a ∷ 0x01 ∷ 0x58 ∷ 0xc3 ∷ []

module _ (bytes : Bytes) (layout : PeImageLayout) (stub : ℕ × PeSection)
    (raw_start raw_end : ℕ) where
  -- A jump of five bytes in the stub, to an address of the image in such a section.
  pub record IsJump (c : OepTransferCandidate) : Type 0 where
    pub offset : ℕ
    pub low : raw_start ≤ offset
    pub high : offset + 5 ≤ raw_end
    pub opcode : get_elem? bytes offset ≡ some 0xe9
    pub placed : c.transfer ≡ stub.1.virtual_address + (offset - stub.1.raw_offset)
    pub jumps : jump_target c.transfer (field 4 bytes (offset + 1)) ≡ some c.target
    pub validated : c.validation_target ≡ c.target
    pub inside : c.target < layout.size_of_image
    pub section : PeSection
    pub holds : contains_rva section c.target ≡ true
    pub destination : IsDestination layout stub.0 section

  -- A return of a library from its stub, behind three bytes that set the result to 1, to be validated
  -- at the start of such a section.
  pub record IsReturn (c : OepTransferCandidate) : Type 0 where
    pub library : layout.image_kind ≡ PeImageKind.dynamic_library
    pub offset : ℕ
    pub low : raw_start ≤ offset
    pub high : offset + length (return_code layout.format) ≤ raw_end
    pub code : AreAt bytes offset (return_code layout.format)
    pub placed : c.transfer ≡ stub.1.virtual_address + (offset + 3 - stub.1.raw_offset)
    pub no_target : c.target ≡ 0
    pub section : PeSection
    pub validated : c.validation_target ≡ section.virtual_address
    pub destination : IsDestination layout stub.0 section

  abbrev pub IsCandidate : OepTransferCandidate → Type 0
  IsCandidate c =
      (c.transfer < 2 ^ 32)
      × (((c.kind ≡ OepTransferKind.direct_jump) × IsJump c)
          ⊎ ((c.kind ≡ OepTransferKind.dll_return) × IsReturn c))

-- A section that is found stands behind those that have been passed, and holds the address.
pub find_section_there :
    (rva start : ℕ) (sections : List PeSection) (index : ℕ) (section : PeSection)
    → find_section rva start sections ≡ some (index, section)
    → (k : ℕ) × (index ≡ start + k)
      × (get_elem? sections k ≡ some section)
      × (contains_rva section rva ≡ true)
unfolding find_section
find_section_there rva start [] index section e = absurd (ground arith)
find_section_there rva start (s ∷ sections) index section e =
    elim (Bool-cases (contains_rva s rva)) [
      | inl here ↦
          let same : s ≡ section = ground arith in
          (0, ground arith, ap some same, subst (λ t. contains_rva t rva ≡ true) same here)
      | inr later ↦
          let rest = find_section_there rva (start + 1) sections index section (rw later at e) in
          (suc rest.0, omega (arith, rest.1), rest.2, rest.3)
    ]

pub find_validation_target_there :
    (stub start : ℕ) (sections : List PeSection) (address : ℕ)
    → find_validation_target stub start sections ≡ some address
    → (k : ℕ) × (section : PeSection) × (get_elem? sections k ≡ some section)
      × (start + k ≢ stub)
      × (is_executable section ≡ true)
      × (address ≡ section.virtual_address)
unfolding find_validation_target
find_validation_target_there stub start [] address e = absurd (ground arith)
find_validation_target_there stub start (s ∷ sections) address e =
    elim (Bool-cases ((start == stub) || (s.virtual_size == 0) || not (is_executable s))) [
      | inl skipped ↦
          let rest =
            find_validation_target_there stub (start + 1) sections address (rw skipped at e) in
          (suc rest.0, rest.1, rest.2, λ w. rest.3 (omega (arith, w)), rest.4, rest.5)
      | inr taken ↦ (0, s, refl, ground arith, ground arith, ground arith)
    ]

pub begins_with_opcode :
    (bytes : Bytes) (offset : ℕ)
    → begins_with (0xe9 ∷ []) (drop offset bytes) ≡ true
    → get_elem? bytes offset ≡ some 0xe9
unfolding begins_with
begins_with_opcode [] zero e = absurd (ground arith)
begins_with_opcode [] (suc offset) e = absurd (ground arith)
begins_with_opcode (b ∷ bytes) zero e = ground arith
begins_with_opcode (b ∷ bytes) (suc offset) e = begins_with_opcode bytes offset e

begins_with_first :
    (p : ℕ) (pattern bytes : Bytes) (offset : ℕ)
    → begins_with (p ∷ pattern) (drop offset bytes) ≡ true
    → (get_elem? bytes offset ≡ some p) × (begins_with pattern (drop (suc offset) bytes) ≡ true)
unfolding begins_with
begins_with_first p pattern [] zero e = absurd (ground arith)
begins_with_first p pattern [] (suc offset) e = absurd (ground arith)
begins_with_first p pattern (b ∷ bytes) zero e = (ground arith, ground arith)
begins_with_first p pattern (b ∷ bytes) (suc offset) e = begins_with_first p pattern bytes offset e

pub begins_with-AreAt :
    (pattern bytes : Bytes) (offset : ℕ)
    → begins_with pattern (drop offset bytes) ≡ true
    → AreAt bytes offset pattern
begins_with-AreAt [] bytes offset e = tt
begins_with-AreAt (p ∷ pattern) bytes offset e =
    let here = begins_with_first p pattern bytes offset e in
    (here.0, begins_with-AreAt pattern bytes (suc offset) here.1)

-- What an executable destination is.
pub IsDestination-there :
    (layout : PeImageLayout) (stub target : ℕ)
    → is_executable_destination layout stub target ≡ true
    → (target < layout.size_of_image)
      × (section : PeSection) × (contains_rva section target ≡ true)
      × IsDestination layout stub section
unfolding is_executable_destination
IsDestination-there layout stub target e =
    elim (Option-cases (find_section target 0 layout.sections)) [
      | inl missing ↦ absurd (ground (arith, missing))
      | inr ((index, section), found) ↦
          let place = find_section_there target 0 layout.sections index section found in
          let chosen = rw found at e in
          (
            ground arith,
            section,
            place.3,
            record {
              index = place.0;
              there = place.2;
              other = ground (arith, place.1);
              executable = ground arith;
            },
          )
    ]
