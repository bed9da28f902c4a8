-- ===== src/Pe/Discovery/Found.antt =====
-- Every candidate that the loops over the stub append is one, and there are at most 32.
use upx_killer.Common.{
  ℕ, zero, suc, ◌+◌, ◌-◌, ◌^◌, ◌≤◌, ◌<◌, ◌≡◌, refl, arith, min, true, not, ◌&&◌, ◌||◌, List, [],
  ◌∷◌, ◌++◌, Bytes, All, All-append, length, length-append, drop, ltb, leb, Bool-cases,
  Option-cases, inl, inr,
}
use upx_killer.Pe.Format.{PeFormat, PeImageKind, PeSection, PeImageLayout}
use upx_killer.Pe.Headers.{field}
use upx_killer.Pe.Discovery.{
  OepTransferCandidate, begins_with, matches, register_restore, dll_return_pattern,
  find_validation_target, is_duplicate, is_library, is_executable_destination, jump_target,
  transfer_rva, append_dll_return, append_direct_jump, try_transfer, search_tail, search_from,
  scan_stub,
}
use upx_killer.Pe.Discovery.Candidates.{
  IsCandidate, AreAt, return_code, begins_with-AreAt, find_validation_target_there,
  begins_with_opcode, IsDestination-there,
}

is_library-inversion :
    (kind : PeImageKind) → is_library kind ≡ true → kind ≡ PeImageKind.dynamic_library
is_library-inversion PeImageKind.executable e = absurd (ground arith)
is_library-inversion PeImageKind.dynamic_library e = refl

-- The pattern that the search looks for is the code of a return.
matches_return :
    (format : PeFormat) (bytes : Bytes) (offset end : ℕ)
    → matches bytes offset end (dll_return_pattern format) ≡ true
    → (offset + length (return_code format) ≤ end) × AreAt bytes offset (return_code format)
unfolding matches
matches_return PeFormat.pe32 bytes offset end e =
    (ground arith, begins_with-AreAt (return_code PeFormat.pe32) bytes offset (ground arith))
matches_return PeFormat.pe64 bytes offset end e =
    (ground arith, begins_with-AreAt (return_code PeFormat.pe64) bytes offset (ground arith))

module _ (bytes : Bytes) (layout : PeImageLayout) (stub : ℕ × PeSection)
    (raw_start raw_end : ℕ) where
  abbrev pub Good : List OepTransferCandidate → Type 0
  Good candidates =
      All (IsCandidate bytes layout stub raw_start raw_end) candidates × (length candidates ≤ 32)

  snoc-Good :
      (candidates : List OepTransferCandidate) (c : OepTransferCandidate)
      → length candidates < 32
      → IsCandidate bytes layout stub raw_start raw_end c
      → Good candidates
      → Good (candidates ++ (c ∷ []))
  snoc-Good candidates c room new g = (
    All-append (IsCandidate bytes layout stub raw_start raw_end) candidates (c ∷ []) g.0 (new, tt),
    omega (arith, length-append candidates (c ∷ [])),
  )

  append_dll_return-Good :
      (offset : ℕ) (candidates : List OepTransferCandidate)
      → layout.image_kind ≡ PeImageKind.dynamic_library
      → raw_start ≤ offset
      → offset + length (return_code layout.format) ≤ raw_end
      → AreAt bytes offset (return_code layout.format)
      → length candidates < 32
      → Good candidates
      → Good (append_dll_return bytes layout stub (offset + 3) candidates)
  unfolding append_dll_return
  append_dll_return-Good offset candidates library low high code room g =
      elim (Option-cases (find_validation_target stub.0 0 layout.sections)) [
        | inl missing ↦ rw missing g
        | inr (address, e) ↦
            let place = find_validation_target_there stub.0 0 layout.sections address e in
            elim (Bool-cases (leb (2 ^ 32) (transfer_rva bytes layout stub (offset + 3)))) [
              | inl wide ↦ rw (e, wide) g
              | inr fits ↦
                  rw (e, fits)
                    (snoc-Good candidates _ room
                      (
                        ground arith,
                        inr (
                          refl,
                          record {
                            library = library;
                            offset = offset;
                            low = low;
                            high = high;
                            code = code;
                            placed = refl;
                            no_target = refl;
                            section = place.1;
                            validated = place.5;
                            destination = record {
                              index = place.0;
                              there = place.2;
                              other = λ w. place.3 (omega (arith, w));
                              executable = place.4;
                            };
                          },
                        ),
                      )
                      g)
            ]
      ]

  append_direct_jump-Good :
      (offset : ℕ) (candidates : List OepTransferCandidate)
      → begins_with (0xe9 ∷ []) (drop offset bytes) ≡ true
      → raw_start ≤ offset
      → offset + 5 ≤ raw_end
      → length candidates < 32
      → Good candidates
      → Good (append_direct_jump bytes layout stub offset candidates)
  unfolding append_direct_jump
  append_direct_jump-Good offset candidates opcode low high room g =
      let transfer = transfer_rva bytes layout stub offset in
      let jump = jump_target transfer (field 4 bytes (offset + 1)) in
      elim (Bool-cases (leb (2 ^ 32) transfer)) [
        | inl wide ↦ rw wide g
        | inr fits ↦ elim (Option-cases jump) [
          | inl outside ↦ rw (fits, outside) g
          | inr (target, jumps) ↦
              elim (Bool-cases (
                not (is_executable_destination layout stub.0 target)
                || is_duplicate transfer candidates)) [
                  | inl refused ↦ rw (fits, jumps, refused) g
                  | inr taken ↦
                      let place = IsDestination-there layout stub.0 target (ground arith) in
                      rw (fits, jumps, taken)
                        (snoc-Good candidates _ room
                          (
                            ground arith,
                            inl (
                              refl,
                              record {
                                offset = offset;
                                low = low;
                                high = high;
                                opcode = begins_with_opcode bytes offset opcode;
                                placed = refl;
                                jumps = jumps;
                                validated = refl;
                                inside = place.0;
                                section = place.1;
                                holds = place.2;
                                destination = place.3;
                              },
                            ),
                          )
                          g)
                ]
        ]
      ]

  try_transfer-Good :
      (search_end offset : ℕ) (candidates : List OepTransferCandidate)
      → search_end ≤ raw_end
      → raw_start ≤ offset
      → length candidates < 32
      → Good candidates
      → Good (try_transfer bytes layout stub search_end offset candidates)
  unfolding try_transfer
  try_transfer-Good search_end offset candidates bound low room g =
      let pattern = dll_return_pattern layout.format in
      let return = is_library layout.image_kind && matches bytes offset search_end pattern in
      let jump = begins_with (0xe9 ∷ []) (drop offset bytes) && leb (offset + 5) search_end in
      elim (Bool-cases return) [
        | inl matched ↦
            let found = matches_return layout.format bytes offset search_end (ground arith) in
            rw matched (
              append_dll_return-Good offset candidates
                (is_library-inversion layout.image_kind (ground arith)) low (omega (arith, found.0))
                found.1 room g)
        | inr other ↦ elim (Bool-cases jump) [
          | inl jumps ↦
              rw (other, jumps)
                (append_direct_jump-Good offset candidates (ground arith) low (ground arith) room g)
          | inr nothing ↦ rw (other, nothing) g
        ]
      ]

  search_tail-Good :
      (search_end : ℕ)
      → search_end ≤ raw_end
      → (rounds offset : ℕ) (candidates : List OepTransferCandidate) → raw_start ≤ offset
      → Good candidates
      → Good (search_tail bytes layout stub search_end rounds offset candidates)
  unfolding search_tail
  search_tail-Good search_end bound zero offset candidates low g = g
  search_tail-Good search_end bound (suc rounds) offset candidates low g =
      elim (Bool-cases (ltb (length candidates) 32)) [
        | inl room ↦ rw room (
            search_tail-Good search_end bound rounds (offset + 1)
              (try_transfer bytes layout stub search_end offset candidates) (omega arith)
              (try_transfer-Good search_end offset candidates bound low (ground arith) g))
        | inr enough ↦ rw enough g
      ]

  search_from-Good :
      (offset : ℕ) (candidates : List OepTransferCandidate)
      → raw_start ≤ offset
      → Good candidates
      → Good (search_from bytes layout stub raw_end offset candidates)
  unfolding search_from
  search_from-Good offset candidates low g =
      let restore = register_restore layout.format in
      let start = offset + length restore in
      let end = min raw_end (start + 128) in
      elim (Bool-cases (begins_with restore (drop offset bytes))) [
        | inl restored ↦
            rw restored
              (search_tail-Good end (omega arith) (end - start) start candidates (omega arith) g)
        | inr other ↦ rw other g
      ]

  pub scan_stub-Good :
      (rounds offset : ℕ) (candidates : List OepTransferCandidate)
      → raw_start ≤ offset
      → Good candidates
      → Good (scan_stub bytes layout stub raw_end rounds offset candidates)
  unfolding scan_stub
  scan_stub-Good zero offset candidates low g = g
  scan_stub-Good (suc rounds) offset candidates low g =
      let more =
        leb offset raw_end
        && leb (length (register_restore layout.format)) (raw_end - offset)
        && ltb (length candidates) 32 in
      elim (Bool-cases more) [
        | inl goes ↦ rw goes (
            scan_stub-Good rounds (offset + 1)
              (search_from bytes layout stub raw_end offset candidates) (omega arith)
              (search_from-Good offset candidates low g))
        | inr ends ↦ rw ends g
      ]
