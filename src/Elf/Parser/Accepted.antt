-- ===== src/Elf/Parser/Accepted.antt =====
-- What `ElfParser::Parse` guarantees of the layout that it returns, and how the extent matters.
use upx_killer.Common.{
  ℕ, ◌+◌, ◌*◌, ◌≤◌, ◌≡◌, ◌≢◌, refl, ◌∙◌, arith, true, false, not, [], Bytes, IsByte, All, length,
  subst, ap, sym,
}
use upx_killer.Common.Results.{
  ok, ◌>>=◌, reject_if, or_reject, step_inversion, reject_if_inversion, ok-injective,
  reject_if_passes, reject_if-false,
}
use upx_killer.Elf.Format.{ElfImageType, ElfImageLayout, ElfClassTraits, is_executable_target}
use upx_killer.Elf.Classifier.{
  ElfParseExtent, complete_file, loaded_headers, classify_dynamic_image, has_soname,
}
use upx_killer.Elf.Header.{
  HeaderFields, find_traits, read_fields, check_fields, maximum_program_headers,
}
use upx_killer.Elf.Parser.{Scan, scan_headers, layout_of, image_type_of, parse}
use upx_killer.Elf.Parser.Sound.{AnyOf, IsLoadable, IsLoad, HoldsEntry, IsScan, scan_headers-IsScan}

-- The program headers are a table of 1 to 128 entries inside the file, read whole; the loaded
-- segments are well formed and there is one; and the entry point of an image that can be run is not
-- zero and lies in a loaded executable segment.
pub record IsAccepted (size : ℕ) (layout : ElfImageLayout) : Type 0 where
  pub count_low : 1 ≤ layout.program_header_count
  pub count_high : layout.program_header_count ≤ maximum_program_headers
  pub table :
      layout.program_header_offset + layout.program_header_entry_size * layout.program_header_count
      ≤ size
  pub counted : length layout.program_headers ≡ layout.program_header_count
  pub loadable : All (λ h. IsLoad h → IsLoadable h) layout.program_headers
  pub has_load : AnyOf IsLoad layout.program_headers
  pub entry :
      is_executable_target layout ≡ true
      → (layout.entry_point ≢ 0) × AnyOf (HoldsEntry layout.entry_point) layout.program_headers

record IsChecked (size : ℕ) (f : HeaderFields) : Type 0 where
  count_low : 1 ≤ f.ph_count
  count_high : f.ph_count ≤ maximum_program_headers
  table : f.ph_offset + f.ph_entry_size * f.ph_count ≤ size

check_fields-IsChecked :
    (traits : ElfClassTraits) (size : ℕ) (extent : ElfParseExtent) (f : HeaderFields)
    → check_fields traits size extent f ≡ ok tt
    → IsChecked size f
unfolding check_fields
check_fields-IsChecked traits size extent f e = reject_if_inversion _ _ _ tt e λ _ e1.
    reject_if_inversion _ _ _ tt e1 λ _ e2. reject_if_inversion _ _ _ tt e2 λ counts e3.
      reject_if_inversion _ _ _ tt e3 λ table e4. record {
        count_low = ground arith;
        count_high = ground arith;
        table = ground arith;
      }

-- The image types that can be run come from an entry point that is not zero and that the loop has
-- found in an executable segment.
image_type_of-entry :
    (traits : ElfClassTraits) (bytes : Bytes) (extent : ElfParseExtent) (f : HeaderFields)
    (scan : Scan) (t : ElfImageType)
    → image_type_of traits bytes extent f scan ≡ ok t
    → is_executable_target (layout_of traits f scan.headers t) ≡ true
    → (f.entry ≢ 0) × (scan.entry_is_executable ≡ true)
unfolding image_type_of is_executable_target layout_of reject_if or_reject classify_dynamic_image
image_type_of-entry traits bytes extent f scan ElfImageType.executable e runs = ground arith
image_type_of-entry traits bytes extent f scan ElfImageType.position_independent_executable e runs =
    ground arith
image_type_of-entry traits bytes extent f scan ElfImageType.shared_object e runs =
    absurd (ground arith)

start-IsScan :
    (entry : ℕ)
    → IsScan entry 0 (record { headers = []; entry_is_executable = false; has_load = false })
start-IsScan entry = record {
  counted = refl;
  loadable = tt;
  load_seen = λ h. absurd (ground arith);
  entry_seen = λ h. absurd (ground arith);
}

finished-IsAccepted :
    (traits : ElfClassTraits) (bytes : Bytes) (extent : ElfParseExtent) (f : HeaderFields)
    (scan : Scan) (t : ElfImageType)
    → IsChecked (length bytes) f
    → IsScan f.entry f.ph_count scan
    → not scan.has_load ≡ false
    → image_type_of traits bytes extent f scan ≡ ok t
    → IsAccepted (length bytes) (layout_of traits f scan.headers t)
unfolding layout_of
finished-IsAccepted traits bytes extent f scan t checked inv load e = record {
  count_low = checked.count_low;
  count_high = checked.count_high;
  table = checked.table;
  counted = inv.counted;
  loadable = inv.loadable;
  has_load = inv.load_seen (ground arith);
  entry = λ runs.
      let found = image_type_of-entry traits bytes extent f scan t e runs in
      (found.0, inv.entry_seen found.1);
}

-- An image that `parse` accepts, for either extent, has a table of 1 to 128 program headers inside
-- the file that is read whole; its loaded segments fit the address space and the file's offsets,
-- have room for their bytes, are placed modulo their alignment, and there is one; and when its type
-- can be run its entry point is not zero and lies in a loaded executable segment.
pub parse-IsAccepted :
    (bytes : Bytes) (extent : ElfParseExtent) (layout : ElfImageLayout)
    → All IsByte bytes
    → parse bytes extent ≡ ok layout
    → IsAccepted (length bytes) layout
unfolding parse
parse-IsAccepted bytes extent r h e = step_inversion (find_traits bytes) _ r e λ traits _ e1.
    step_inversion (read_fields traits bytes) _ r e1 λ f _ e2.
      step_inversion (check_fields traits (length bytes) extent f) _ r e2 λ _ checked e3.
        step_inversion (scan_headers traits bytes f f.ph_count 0 _) _ r e3 λ scan scanned e4.
          reject_if_inversion (not scan.has_load) _ _ r e4 λ load e5.
            step_inversion (image_type_of traits bytes extent f scan) _ r e5 λ t typed e6.
              subst (IsAccepted (length bytes)) (ok-injective _ r e6) (
                finished-IsAccepted traits bytes extent f scan t
                  (check_fields-IsChecked traits (length bytes) extent f checked)
                  (scan_headers-IsScan traits bytes f f.ph_count 0 f.ph_count _ scan h (omega arith)
                    (start-IsScan f.entry) scanned)
                  load typed)

check_fields-extent :
    (traits : ElfClassTraits) (size : ℕ) (f : HeaderFields)
    → check_fields traits size complete_file f ≡ ok tt
    → check_fields traits size loaded_headers f ≡ ok tt
unfolding check_fields
check_fields-extent traits size f e = reject_if_inversion _ _ _ tt e λ c1 e1.
    reject_if_inversion _ _ _ tt e1 λ c2 e2. reject_if_inversion _ _ _ tt e2 λ c3 e3.
      reject_if_inversion _ _ _ tt e3 λ c4 e4.
        reject_if_passes _ _ _ c1
        ∙ reject_if_passes _ _ _ c2
        ∙ reject_if_passes _ _ _ c3
        ∙ reject_if_passes _ _ _ c4
        ∙ reject_if-false _

image_type_of-extent :
    (traits : ElfClassTraits) (bytes : Bytes) (f : HeaderFields) (scan : Scan) (t : ElfImageType)
    → image_type_of traits bytes complete_file f scan ≡ ok t
    → t ≢ ElfImageType.shared_object
    → image_type_of traits bytes loaded_headers f scan ≡ ok t
unfolding image_type_of reject_if or_reject classify_dynamic_image has_soname
image_type_of-extent traits bytes f scan t e n = ground arith

-- A file that is accepted whole, and is not a shared object, is accepted with the same layout when
-- only its loaded headers are looked at.
pub parse-extents :
    (bytes : Bytes) (layout : ElfImageLayout)
    → parse bytes complete_file ≡ ok layout
    → layout.image_type ≢ ElfImageType.shared_object
    → parse bytes loaded_headers ≡ ok layout
unfolding parse layout_of
parse-extents bytes r e n = step_inversion (find_traits bytes) _ r e λ traits p1 e1.
    step_inversion (read_fields traits bytes) _ r e1 λ f p2 e2.
      step_inversion (check_fields traits (length bytes) complete_file f) _ r e2 λ _ p3 e3.
        step_inversion (scan_headers traits bytes f f.ph_count 0 _) _ r e3 λ scan p4 e4.
          reject_if_inversion (not scan.has_load) _ _ r e4 λ p5 e5.
            step_inversion (image_type_of traits bytes complete_file f scan) _ r e5 λ t p6 e6.
              let same : layout_of traits f scan.headers t ≡ r = ok-injective _ r e6 in
              let later =
                image_type_of-extent traits bytes f scan t p6
                  (λ h. n (ap (λ l. l.image_type) (sym same) ∙ h)) in
              let checked = check_fields-extent traits (length bytes) f p3 in
              rw (p1, ◌>>=◌, p2, checked, p4, p5, reject_if-false, later, same)
