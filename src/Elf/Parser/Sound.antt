-- ===== src/Elf/Parser/Sound.antt =====
-- What an accepted ELF image is known to satisfy.
use upx_killer.Common.{
  ℕ, zero, suc, ◌+◌, ◌%◌, ◌^◌, ◌≤◌, ◌<◌, ◌≡◌, ◌≢◌, ◌⊎◌, inl, inr, arith, bit_and, true, false, some,
  List, [], ◌∷◌, ◌++◌, Bytes, IsByte, IsU64, All, All-append, ◌==◌, length, length-append, subst,
  if◌then◌else◌, Bool-cases,
}
use mathlib.Core.Path.{subst₂}
use upx_killer.Common.Reading.{read-lt}
use upx_killer.Common.Results.{ok, reject_if, step_inversion, or_reject_inversion}
use upx_killer.Elf.Format.{ElfProgramHeader, ElfClassTraits}
use upx_killer.Elf.Header.{HeaderFields, add_overflows, read_address, load_program_header}
use upx_killer.Elf.Parser.{
  Scan, read_program_header, is_bad_load, holds_entry, add_header, scan_headers,
}

-- Some element satisfies the predicate.
abbrev pub AnyOf {ℓ} : {A : Type ℓ} → (A → Type 0) → List A → Type 0
AnyOf P [] = ⊥
AnyOf P (x ∷ xs) = P x ⊎ AnyOf P xs

AnyOf-append_left {ℓ} :
    {A : Type ℓ} (P : A → Type 0) (xs ys : List A) → AnyOf P xs → AnyOf P (xs ++ ys)
AnyOf-append_left P [] ys h = absurd h
AnyOf-append_left P (x ∷ xs) ys (inl p) = inl p
AnyOf-append_left P (x ∷ xs) ys (inr h) = inr (AnyOf-append_left P xs ys h)

AnyOf-last {ℓ} :
    {A : Type ℓ} (P : A → Type 0) (xs : List A) (y : A) → P y → AnyOf P (xs ++ (y ∷ []))
AnyOf-last P [] y p = inl p
AnyOf-last P (x ∷ xs) y p = inr (AnyOf-last P xs y p)

-- The address fields of a program header are 64-bit values.
record IsRead (h : ElfProgramHeader) : Type 0 where
  pub offset_range : IsU64 h.file_offset
  pub address_range : IsU64 h.virtual_address

-- A segment that is loaded lies in the address space and in the file's offsets, has room for its
-- bytes, and is placed in memory as in the file modulo its alignment.
pub record IsLoadable (h : ElfProgramHeader) : Type 0 where
  pub room : h.file_size ≤ h.memory_size
  pub in_memory : h.virtual_address + h.memory_size < 2 ^ 64
  pub in_file : h.file_offset + h.file_size < 2 ^ 64
  pub aligned : 1 < h.alignment → h.virtual_address % h.alignment ≡ h.file_offset % h.alignment

abbrev pub IsLoad : ElfProgramHeader → Type 0
IsLoad h = h.type ≡ load_program_header

-- The entry point lies in a loaded segment that may be executed.
pub record HoldsEntry (entry : ℕ) (h : ElfProgramHeader) : Type 0 where
  pub is_load : IsLoad h
  pub is_code : bit_and h.flags 1 ≢ 0
  pub above : h.virtual_address ≤ entry
  pub below : entry < h.virtual_address + h.memory_size

read_address-IsU64 :
    (bytes : Bytes) (offset width v : ℕ)
    → All IsByte bytes
    → read_address bytes offset width ≡ some v
    → IsU64 v
unfolding read_address
read_address-IsU64 bytes offset width v h e =
    ground (arith, read-lt 4 bytes offset v h, read-lt 8 bytes offset v h)

read_program_header-IsRead :
    (traits : ElfClassTraits) (bytes : Bytes) (offset : ℕ) (header : ElfProgramHeader)
    → All IsByte bytes
    → read_program_header traits bytes offset ≡ ok header
    → IsRead header
unfolding read_program_header
read_program_header-IsRead traits bytes offset r h e = or_reject_inversion _ _ _ r e λ _ _ e1.
    or_reject_inversion _ _ _ r e1 λ _ _ e2. or_reject_inversion _ _ _ r e2 λ off p3 e3.
      or_reject_inversion _ _ _ r e3 λ va p4 e4. or_reject_inversion _ _ _ r e4 λ _ _ e5.
        or_reject_inversion _ _ _ r e5 λ _ _ e6. or_reject_inversion _ _ _ r e6 λ _ _ e7.
          or_reject_inversion _ _ _ r e7 λ _ _ e8. record {
            offset_range = ground (arith, read_address-IsU64 bytes _ _ off h p3);
            address_range = ground (arith, read_address-IsU64 bytes _ _ va h p4);
          }

is_bad_load-IsLoadable : (h : ElfProgramHeader) → IsRead h → is_bad_load h ≡ false → IsLoadable h
unfolding is_bad_load add_overflows
is_bad_load-IsLoadable h r e = ground arith

holds_entry-HoldsEntry :
    (entry : ℕ) (h : ElfProgramHeader) → IsLoad h → holds_entry entry h ≡ true → HoldsEntry entry h
unfolding holds_entry
holds_entry-HoldsEntry entry h l e = ground arith

-- The invariant of the loop after `index` headers.
pub record IsScan (entry index : ℕ) (scan : Scan) : Type 0 where
  pub counted : length scan.headers ≡ index
  pub loadable : All (λ h. IsLoad h → IsLoadable h) scan.headers
  pub load_seen : scan.has_load ≡ true → AnyOf IsLoad scan.headers
  pub entry_seen : scan.entry_is_executable ≡ true → AnyOf (HoldsEntry entry) scan.headers

length_last {ℓ} : {A : Type ℓ} (xs : List A) (y : A) → length (xs ++ (y ∷ [])) ≡ length xs + 1
length_last xs y = omega (arith, length-append xs (y ∷ []))

module _ (entry index : ℕ) (h : ElfProgramHeader) (range : IsRead h) (scan : Scan) where
  load-IsScan :
      IsScan entry index scan
      → IsLoad h
      → is_bad_load h ≡ false
      → IsScan entry (index + 1) (record {
        headers = scan.headers ++ (h ∷ []);
        entry_is_executable = if holds_entry entry h then true else scan.entry_is_executable;
        has_load = true;
      })
  load-IsScan inv load good = record {
    counted = omega (arith, length_last scan.headers h, inv.counted);
    loadable =
        All-append (λ g. IsLoad g → IsLoadable g) scan.headers (h ∷ []) inv.loadable
          ((λ _. is_bad_load-IsLoadable h range good), tt);
    load_seen = λ _. AnyOf-last IsLoad scan.headers h load;
    entry_seen = λ seen. elim (Bool-cases (holds_entry entry h)) [
      | inl here ↦
          AnyOf-last (HoldsEntry entry) scan.headers h (holds_entry-HoldsEntry entry h load here)
      | inr elsewhere ↦
          AnyOf-append_left (HoldsEntry entry) scan.headers (h ∷ []) (inv.entry_seen (ground arith))
    ];
  }

  other-IsScan :
      IsScan entry index scan
      → ¬ IsLoad h
      → IsScan entry (index + 1) (record scan { headers = scan.headers ++ (h ∷ []) })
  other-IsScan inv other = record {
    counted = omega (arith, length_last scan.headers h, inv.counted);
    loadable =
        All-append (λ g. IsLoad g → IsLoadable g) scan.headers (h ∷ []) inv.loadable
          ((λ load. absurd (other load)), tt);
    load_seen = λ seen. AnyOf-append_left IsLoad scan.headers (h ∷ []) (inv.load_seen seen);
    entry_seen =
        λ seen. AnyOf-append_left (HoldsEntry entry) scan.headers (h ∷ []) (inv.entry_seen seen);
  }

  add_header-IsScan :
      (next : Scan)
      → IsScan entry index scan
      → add_header entry h scan ≡ ok next
      → IsScan entry (index + 1) next
  unfolding add_header reject_if
  add_header-IsScan next inv e = elim (Bool-cases (h.type == load_program_header)) [
    | inl load ↦ elim (Bool-cases (is_bad_load h)) [
      | inl bad ↦ absurd (ground arith)
      | inr good ↦
          subst (IsScan entry (index + 1)) (ground arith) (load-IsScan inv (ground arith) good)
    ]
    | inr other ↦
        subst (IsScan entry (index + 1)) (ground arith) (other-IsScan inv (λ load. ground arith))
  ]

pub scan_headers-IsScan :
    (traits : ElfClassTraits) (bytes : Bytes) (f : HeaderFields) (rounds index last : ℕ)
    (scan done : Scan)
    → All IsByte bytes
    → index + rounds ≡ last
    → IsScan f.entry index scan
    → scan_headers traits bytes f rounds index scan ≡ ok done
    → IsScan f.entry last done
unfolding scan_headers
scan_headers-IsScan traits bytes f zero index last scan done h n inv e =
    subst₂ (λ i s. IsScan f.entry i s) (omega arith) (ground arith) inv
scan_headers-IsScan traits bytes f (suc rounds) index last scan done h n inv e =
    let left : (index + 1) + rounds ≡ last = omega arith in
    step_inversion _ _ done e λ header p e1. step_inversion _ _ done e1 λ next q e2.
      scan_headers-IsScan traits bytes f rounds (index + 1) last next done h left
        (add_header-IsScan f.entry index header
          (read_program_header-IsRead traits bytes _ header h p) scan next inv q)
        e2
