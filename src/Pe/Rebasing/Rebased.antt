-- ===== src/Pe/Rebasing/Rebased.antt =====
-- What `PeFileRebaser::Rebase` returns.
use upx_killer.Common.{
  ℕ, ◌+◌, ◌-◌, ◌^◌, bit_and, bit_or, ◌≤◌, ◌≡◌, refl, sym, subst, ◌∙◌, arith, [], Bytes, All, length,
  get_elem?,
}
use upx_killer.Common.Results.{ok, step_inversion, reject_if_inversion, ok-injective}
use upx_killer.Pe.Format.{PeImageLayout}
use upx_killer.Pe.Headers.{WindowsHeaders, PeFormatTraits, field}
use upx_killer.Pe.Rebasing.{
  RebasedFileImage, le_bytes, splice, rebase_blocks, patch_headers, rebase_typed, rebase,
}
use upx_killer.Pe.Parser.{directory_or_none}
use upx_killer.Pe.Rebasing.{format_traits}
use upx_killer.Pe.Rebasing.Splices.{IsBeside, length-le_bytes, splice-beside, length-splice}
use upx_killer.Pe.Rebasing.Moved.{IsEvidence, IsBesideSlot, rebased_byte}
use upx_killer.Pe.Rebasing.Confined.{IsConfined, rebase_blocks-IsConfined}

-- The fields that are written lie in the optional header.
pub record HasFields (h : WindowsHeaders) (traits : PeFormatTraits) : Type 0 where
  pub base_inside : traits.image_base_offset + traits.address_width ≤ traits.optional_header_size
  pub dll_inside : h.dll_characteristics_offset + 2 ≤ traits.optional_header_size
  pub checksum_inside : h.checksum_offset + 4 ≤ traits.optional_header_size

-- Where the optional header starts.
abbrev optional_of : WindowsHeaders → PeImageLayout → ℕ
optional_of h layout = layout.nt_header_offset + 4 + h.file_header_size

-- A position that is covered by none of the three fields.
pub record IsBesideFields (h : WindowsHeaders) (traits : PeFormatTraits) (optional i : ℕ)
    : Type 0 where
  pub base_beside : IsBeside (optional + traits.image_base_offset) traits.address_width i
  pub dll_beside : IsBeside (optional + h.dll_characteristics_offset) 2 i
  pub checksum_beside : IsBeside (optional + h.checksum_offset) 4 i

-- The rebased file has the size of the source; every recorded slot is a word of the source with its
-- target; a byte beside the slots and the three fields is the source's; and one beside the fields is
-- what moving the words of the slots in order makes of the source's.
pub record IsRebased (h : WindowsHeaders) (source : Bytes) (layout : PeImageLayout) (base : ℕ)
    (image : RebasedFileImage) : Type 0 where
  pub sized : length image.bytes ≡ length source
  pub based : image.required_base ≡ base
  pub evidence : All (IsEvidence source layout) image.source_slots
  pub kept :
      (i : ℕ)
      → All (IsBesideSlot layout i) image.source_slots
      → IsBesideFields h (format_traits h layout.format) (optional_of h layout) i
      → get_elem? image.bytes i ≡ get_elem? source i
  pub exact :
      (i : ℕ)
      → IsBesideFields h (format_traits h layout.format) (optional_of h layout) i
      → get_elem? image.bytes i
        ≡ rebased_byte source layout base i image.source_slots (get_elem? source i)

module _ (offset width v : ℕ) (bytes : Bytes) (fits : offset + width ≤ length bytes) where
  -- A field written at its place.
  pub field_fits : offset + length (le_bytes width v) ≤ length bytes
  field_fits = omega (arith, length-le_bytes width v, fits)

  pub field-sized : length (splice offset (le_bytes width v) bytes) ≡ length bytes
  field-sized = length-splice offset (le_bytes width v) bytes field_fits

  pub field-beside :
      (i : ℕ)
      → IsBeside offset width i
      → get_elem? (splice offset (le_bytes width v) bytes) i ≡ get_elem? bytes i
  field-beside i beside =
      splice-beside offset (le_bytes width v) bytes i field_fits
        (subst (λ n. IsBeside offset n i) (sym (length-le_bytes width v)) beside)

patch_headers-beside :
    (h : WindowsHeaders) (traits : PeFormatTraits) (optional base : ℕ) (image : RebasedFileImage)
    → HasFields h traits
    → optional + traits.optional_header_size ≤ length image.bytes
    → (length (patch_headers h traits optional base image).bytes ≡ length image.bytes)
      × ((i : ℕ)
          → IsBesideFields h traits optional i
          → get_elem? (patch_headers h traits optional base image).bytes i
            ≡ get_elem? image.bytes i)
unfolding patch_headers
patch_headers-beside h traits optional base image fields fits =
    let at_base = optional + traits.image_base_offset in
    let at_dll = optional + h.dll_characteristics_offset in
    let at_sum = optional + h.checksum_offset in
    let based = splice at_base (le_bytes traits.address_width base) image.bytes in
    let dll =
      bit_and (field 2 based at_dll) (2 ^ 16 - 1 - bit_or h.dynamic_base h.high_entropy_va) in
    let fixed = splice at_dll (le_bytes 2 dll) based in
    let base_fits : at_base + traits.address_width ≤ length image.bytes =
      omega (arith, fields.base_inside, fits) in
    let based_size = field-sized at_base traits.address_width base image.bytes base_fits in
    let dll_fits : at_dll + 2 ≤ length based = omega (arith, fields.dll_inside, fits, based_size) in
    let fixed_size = field-sized at_dll 2 dll based dll_fits in
    let sum_fits : at_sum + 4 ≤ length fixed =
      omega (arith, fields.checksum_inside, fits, based_size, fixed_size) in
    (
      field-sized at_sum 4 0 fixed sum_fits ∙ fixed_size ∙ based_size,
      λ i beside.
          field-beside at_sum 4 0 fixed sum_fits i beside.checksum_beside
          ∙ field-beside at_dll 2 dll based dll_fits i beside.dll_beside
          ∙ field-beside at_base traits.address_width base image.bytes base_fits i
              beside.base_beside,
    )

start-IsConfined :
    (source : Bytes) (layout : PeImageLayout) (base : ℕ)
    → IsConfined source layout base
        (record { bytes = source; required_base = base; source_slots = [] })
start-IsConfined source layout base = record {
  sized = refl;
  based = refl;
  evidence = tt;
  kept = λ i _. refl;
  exact = λ i. refl;
}

patched-IsRebased :
    (h : WindowsHeaders) (source : Bytes) (layout : PeImageLayout) (base : ℕ)
    (image : RebasedFileImage)
    → IsConfined source layout base image
    → (length
          (patch_headers h (format_traits h layout.format) (optional_of h layout) base image).bytes
        ≡ length image.bytes)
      × ((i : ℕ)
          → IsBesideFields h (format_traits h layout.format) (optional_of h layout) i
          → get_elem?
              (patch_headers h
                (format_traits h layout.format)
                (optional_of h layout)
                base
                image).bytes
              i
            ≡ get_elem? image.bytes i)
    → IsRebased h source layout base
        (patch_headers h (format_traits h layout.format) (optional_of h layout) base image)
unfolding patch_headers
patched-IsRebased h source layout base image inv patched = record {
  sized = patched.0 ∙ inv.sized;
  based = inv.based;
  evidence = inv.evidence;
  kept = λ i slots beside. patched.1 i beside ∙ inv.kept i slots;
  exact = λ i beside. patched.1 i beside ∙ inv.exact i;
}

rebase_typed-IsRebased :
    (h : WindowsHeaders) (source : Bytes) (layout : PeImageLayout) (base : ℕ)
    (image : RebasedFileImage)
    → HasFields h (format_traits h layout.format)
    → rebase_typed h source layout base ≡ ok image
    → IsRebased h source layout base image
unfolding rebase_typed
rebase_typed-IsRebased h source layout base image fields e =
    let traits = format_traits h layout.format in
    let optional = optional_of h layout in
    let directory = directory_or_none (get_elem? layout.directories h.base_relocation_entry) in
    let start : RebasedFileImage = record {
      bytes = source;
      required_base = base;
      source_slots = [];
    } in
    reject_if_inversion _ _ _ image e λ given e1. reject_if_inversion _ _ _ image e1 λ _ e2.
      step_inversion (rebase_blocks source layout base directory directory.size 0 start) _ image e2
        λ done walked e3. reject_if_inversion _ _ _ image e3 λ _ e4.
          let inv =
            (rebase_blocks-IsConfined source layout base directory directory.size 0 start done
              (omega arith) (omega arith) (start-IsConfined source layout base) walked).0 in
          let room : optional + traits.optional_header_size ≤ length done.1.bytes =
            ground (arith, inv.sized) in
          let patched = patch_headers-beside h traits optional base done.1 fields room in
          subst (IsRebased h source layout base) (ok-injective _ image e4)
            (patched-IsRebased h source layout base done.1 inv patched)

-- A PE file that is rebased keeps its size; beside the three fields of the header that are written,
-- its bytes are those of the source after the words of the recorded slots have been moved in order,
-- and what it records of each slot is in the source; for headers whose fields lie in the optional
-- header.
pub rebase-IsRebased :
    (h : WindowsHeaders) (source : Bytes) (layout : PeImageLayout) (base : ℕ)
    (image : RebasedFileImage)
    → HasFields h (format_traits h layout.format)
    → rebase h source layout base ≡ ok image
    → IsRebased h source layout base image
unfolding rebase
rebase-IsRebased h source layout base image fields e =
    reject_if_inversion _ _ _ image e
      λ _ e1. rebase_typed-IsRebased h source layout base image fields e1
