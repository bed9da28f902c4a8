-- ===== src/Pe/Rebasing/Confined.antt =====
-- What the walk over a relocation directory changes in a PE file, and the evidence that it keeps.
use upx_killer.Common.{
  ℕ, zero, suc, ◌+◌, ◌-◌, ◌/◌, ◌%◌, ◌^◌, ◌≤◌, ◌≡◌, inl, inr, refl, sym, ap, subst, ◌∙◌, arith, some,
  [], ◌∷◌, ◌++◌, Bytes, All, All-append, All-append_left, All-append_right, ltb, ◌==◌, ◌!=◌, length,
  get_elem?, Bool-cases,
}
use upx_killer.Common.Reading.{read}
use upx_killer.Common.Results.{
  Result, ok, step_inversion, reject_if_inversion, or_reject_inversion, ok-injective,
}
use upx_killer.Pe.Format.{PeDataDirectory, PeImageLayout}
use upx_killer.Pe.Relocations.{SourceRelocationSlot, traits_of}
use upx_killer.Pe.Rebasing.{
  RebasedFileImage, PeFileRebaseError, rva_to_raw, le_bytes, write, evidence_of, moved, rebase_slot,
  rebase_entry, rebase_entries, rebase_block, rebase_blocks,
}
use upx_killer.Pe.Rebasing.Splices.{
  IsBeside, length-le_bytes, splice-beside, length-splice, write-inside,
}
use upx_killer.Pe.Rebasing.Moved.{
  IsEvidence, IsBesideSlot, moved_byte, rebased_byte, rebased_byte-append, write-moved_byte,
}

-- The image while the directory is walked.
pub record IsConfined (source : Bytes) (layout : PeImageLayout) (base : ℕ)
    (image : RebasedFileImage) : Type 0 where
  pub sized : length image.bytes ≡ length source
  pub based : image.required_base ≡ base
  pub evidence : All (IsEvidence source layout) image.source_slots
  pub kept :
      (i : ℕ)
      → All (IsBesideSlot layout i) image.source_slots
      → get_elem? image.bytes i ≡ get_elem? source i
  pub exact :
      (i : ℕ)
      → get_elem? image.bytes i
        ≡ rebased_byte source layout base i image.source_slots (get_elem? source i)

module _ (source : Bytes) (layout : PeImageLayout) (base : ℕ) where
  -- One word moved and one slot recorded.
  moved-IsConfined :
      (slot raw value : ℕ) (image : RebasedFileImage) (bytes : Bytes)
      → rva_to_raw layout slot (traits_of layout.format).pointer_size ≡ some raw
      → read (traits_of layout.format).pointer_size source raw ≡ some value
      → write
          (traits_of layout.format).pointer_size
          image.bytes
          raw
          (moved (traits_of layout.format).pointer_size layout base value)
        ≡ some bytes
      → IsConfined source layout base image
      → IsConfined source layout base (record image {
        bytes = bytes;
        source_slots =
            image.source_slots
            ++ (record { location = slot; image_target = evidence_of layout value } ∷ []);
      })
  moved-IsConfined slot raw value image bytes placed held wrote inv =
      let width = (traits_of layout.format).pointer_size in
      let v = moved width layout base value in
      let added : SourceRelocationSlot = record {
        location = slot;
        image_target = evidence_of layout value;
      } in
      let inside = write-inside width image.bytes raw v bytes wrote in
      let count = length-le_bytes width v in
      let fits : raw + length (le_bytes width v) ≤ length image.bytes = omega (arith, inside.0) in
      record {
        sized =
            ap length inside.1 ∙ length-splice raw (le_bytes width v) image.bytes fits ∙ inv.sized;
        based = inv.based;
        evidence =
            All-append (IsEvidence source layout) image.source_slots (added ∷ []) inv.evidence (
              record { raw = raw; value = value; placed = placed; held = held; targeted = refl },
              tt,
            );
        kept = λ i beside.
            let earlier =
              All-append_left (IsBesideSlot layout i) image.source_slots (added ∷ []) beside in
            let own =
              All-append_right (IsBesideSlot layout i) image.source_slots (added ∷ []) beside in
            let apart : IsBeside raw (length (le_bytes width v)) i =
              subst (λ n. IsBeside raw n i) (sym count) (own.0 raw placed) in
            ap (λ l. get_elem? l i) inside.1
            ∙ splice-beside raw (le_bytes width v) image.bytes i fits apart
            ∙ inv.kept i earlier;
        exact = λ i.
            write-moved_byte source layout base i raw value added image.bytes bytes placed held
              wrote
            ∙ ap (moved_byte source layout base i added) (inv.exact i)
            ∙ sym (
                rebased_byte-append source layout base i image.source_slots added
                  (get_elem? source i));
      }

  rebase_slot-IsConfined :
      (slot : ℕ) (image next : RebasedFileImage)
      → IsConfined source layout base image
      → rebase_slot source layout base slot image ≡ ok next
      → IsConfined source layout base next
  unfolding rebase_slot
  rebase_slot-IsConfined slot image next inv e =
      let width = (traits_of layout.format).pointer_size in
      reject_if_inversion _ _ _ next e λ _ e1.
        or_reject_inversion (rva_to_raw layout slot width) _ _ next e1 λ raw placed e2.
          or_reject_inversion (read width source raw) _ _ next e2 λ value held e3.
            or_reject_inversion (write width image.bytes raw (moved width layout base value)) _ _
              next e3
              λ bytes wrote e4.
                subst (IsConfined source layout base) (ok-injective _ next e4)
                  (moved-IsConfined slot raw value image bytes placed held wrote inv)

  rebase_entry-IsConfined :
      (page entry : ℕ) (image next : RebasedFileImage)
      → IsConfined source layout base image
      → rebase_entry source layout base page entry image ≡ ok next
      → IsConfined source layout base next
  unfolding rebase_entry
  rebase_entry-IsConfined page entry image next inv e = elim (Bool-cases (entry / 4096 == 0)) [
    | inl padding ↦ subst (IsConfined source layout base) (ground arith) inv
    | inr used ↦ elim (Bool-cases (entry / 4096 != (traits_of layout.format).relocation_type)) [
      | inl foreign ↦ absurd (ground arith)
      | inr own ↦ rebase_slot-IsConfined (page + entry % 4096) image next inv (ground arith)
    ]
  ]

  rebase_entries-IsConfined :
      (page rounds rva : ℕ) (image done : RebasedFileImage)
      → IsConfined source layout base image
      → rebase_entries source layout base page rounds rva image ≡ ok done
      → IsConfined source layout base done
  unfolding rebase_entries
  rebase_entries-IsConfined page zero rva image done inv e =
      subst (IsConfined source layout base) (ok-injective image done e) inv
  rebase_entries-IsConfined page (suc rounds) rva image done inv e =
      or_reject_inversion (rva_to_raw layout (rva % 2 ^ 32) 2) _ _ done e λ raw _ e1.
        or_reject_inversion (read 2 source raw) _ _ done e1 λ entry _ e2.
          step_inversion (rebase_entry source layout base page entry image) _ done e2 λ next one e3.
            rebase_entries-IsConfined page rounds (rva + 2) next done
              (rebase_entry-IsConfined page entry image next inv one) e3

  -- A block that is accepted has at least eight bytes and ends inside the directory.
  rebase_block-IsConfined :
      (directory : PeDataDirectory) (consumed : ℕ) (image : RebasedFileImage)
      (done : ℕ × RebasedFileImage)
      → IsConfined source layout base image
      → rebase_block source layout base directory consumed image ≡ ok done
      → IsConfined source layout base done.1 × (8 ≤ done.0) × (done.0 ≤ directory.size - consumed)
  unfolding rebase_block
  rebase_block-IsConfined directory consumed image done inv e =
      let rva = directory.address + consumed in
      or_reject_inversion (rva_to_raw layout (rva % 2 ^ 32) 8) _ _ done e λ raw _ e1.
        or_reject_inversion (read 4 source raw) _ _ done e1 λ page _ e2.
          or_reject_inversion (read 4 source (raw + 4)) _ _ done e2 λ size _ e3.
            reject_if_inversion _ _ _ done e3 λ sound e4.
              step_inversion
                (rebase_entries source layout base page ((size - 8) / 2) (rva + 8) image) _ done e4
                λ next walked e5.
                  let same = ok-injective (size, next) done e5 in
                  subst
                    (λ d.
                      IsConfined source layout base d.1
                      × (8 ≤ d.0)
                      × (d.0 ≤ directory.size - consumed))
                    same
                    (
                      rebase_entries-IsConfined page ((size - 8) / 2) (rva + 8) image next inv
                          walked,
                      ground arith,
                      ground arith,
                    )

  -- With a round for each byte that is left, the walk ends at the end of the directory.
  pub rebase_blocks-IsConfined :
      (directory : PeDataDirectory) (fuel consumed : ℕ) (image : RebasedFileImage)
      (done : ℕ × RebasedFileImage)
      → consumed ≤ directory.size
      → directory.size ≤ consumed + fuel
      → IsConfined source layout base image
      → rebase_blocks source layout base directory fuel consumed image ≡ ok done
      → IsConfined source layout base done.1 × (done.0 ≡ directory.size)
  unfolding rebase_blocks
  rebase_blocks-IsConfined directory zero consumed image done low enough inv e =
      subst (λ d. IsConfined source layout base d.1 × (d.0 ≡ directory.size))
        (ok-injective (consumed, image) done e) (inv, omega arith)
  rebase_blocks-IsConfined directory (suc fuel) consumed image done low enough inv e =
      elim (Bool-cases (ltb consumed directory.size)) [
        | inr ended ↦
            let same : Path (Result PeFileRebaseError (ℕ × RebasedFileImage)) (ok (consumed, image))
                (ok done) =
              ground arith in
            subst (λ d. IsConfined source layout base d.1 × (d.0 ≡ directory.size))
              (ok-injective (consumed, image) done same) (inv, ground arith)
        | inl going ↦
            step_inversion (rebase_block source layout base directory consumed image)
              (λ d. rebase_blocks source layout base directory fuel (consumed + d.0) d.1) done
              (ground arith)
              λ next block later.
                let one = rebase_block-IsConfined directory consumed image next inv block in
                rebase_blocks-IsConfined directory fuel (consumed + next.0) next.1 done
                  (omega (arith, one.1, one.2)) (omega (arith, one.1, one.2)) one.0 later
      ]
