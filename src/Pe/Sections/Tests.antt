-- ===== src/Pe/Sections/Tests.antt =====
-- Small images: one with a TLS directory in its data whose sections are rebuilt, and one that is
-- smaller than such a directory.
use upx_killer.Common.{
  ◌≡◌, ◌≢◌, refl, arith, min, true, false, none, some, List, [], ◌∷◌, Bytes, replicate, All, codes,
}
use upx_killer.Common.Results.{ok, err, reject_if, or_reject}
use upx_killer.Dumping.{CapturedImageRegion}
use upx_killer.Pe.Format.{PeFormat, PeImageKind, PeImageLayout}
use upx_killer.Pe.Samples.{headers, windows_directories}
use upx_killer.Pe.Metadata
use upx_killer.Common.Options.{none_if}
use upx_killer.Common.Reading.{le_value}
use upx_killer.Pe.Headers.{field, is_readable}
use upx_killer.Pe.Metadata.{
  count_descriptors, directory_at, find_embedded, find_from, is_bad_imports, is_bad_tls,
  is_null_descriptor, is_other_first, parse_embedded, parse_optional,
}
use upx_killer.Pe.Parser.{is_power_of_two}
use upx_killer.Pe.Sections.{
  align_down, any_overlaps, overlaps, page_range, is_valid_directory, align_up, SectionLayoutInput,
  SectionLayoutPlan, unfinished, SectionRole,
}
use upx_killer.Pe.Sections.Built.{IsBuilt, build-IsBuilt}
use upx_killer.Pe.Sections.Layout.{
  add_page, add_pages, add_sections, base_name, characteristics_of, classify, is_bad_section,
  is_read_only, make_name, meets_directory, name_sections, plan_ranges, is_bad_input, build,
}
use upx_killer.Pe.Sections.Names.{make_name_injective}
use upx_killer.Pe.Sections.Ranges.{
  add_region, extend_functions, module_range, module_ranges, discover_code_ranges, extend_exports,
  entry_extent, exception_extent, discover_iat_ranges, add_regions, is_region_outside,
}
use upx_killer.Pe.Sections.Rights.{KeepsRights, build-KeepsRights}
use upx_killer.Pe.Sections.Scan.{
  broad_scan, candidate_at, consider, consider_optional, embedded_evidence, runtime_evidence, scan,
  discover_tls, Best, no_best, scan_bound,
}
use upx_killer.Pe.Sections.Scan.Ends.{broad_scan_endless}
use upx_killer.Pe.Sections.Scan.Unbeaten.{IsWinner, broad_scan-IsWinner}
use upx_killer.Pe.Sections.Tls.{
  callback_pages, evidence_score, in_source_entry_section, is_empty, is_filled, raw_template,
  read_callbacks, read_runtime_tls_directory, tls_va_to_rva, validate_tls_directory, find_section,
  holds, TlsEvidence,
}
use upx_killer.Pe.Sections.Total.{build-ne-unfinished}

abbrev source : PeImageLayout
source = record {
  format = PeFormat.pe32;
  image_kind = PeImageKind.executable;
  source_load_policy = record {
    preferred_image_base = 0x400000;
    dynamic_base = false;
    high_entropy_va = false;
    has_relocations = false;
  };
  machine = 0x14c;
  nt_header_offset = 0;
  preferred_image_base = 0x400000;
  entry_point = 20;
  size_of_image = 64;
  size_of_headers = 16;
  section_alignment = 16;
  file_alignment = 16;
  characteristics = 2;
  dll_characteristics = 0;
  directories = replicate 16 (record { address = 0; size = 0 });
  sections =
      record {
        name = codes "UPX0";
        virtual_address = 16;
        virtual_size = 30;
        raw_offset = 0;
        raw_size = 0;
        characteristics = 0xe0000080;
      }
      ∷ record {
        name = codes "UPX1";
        virtual_address = 48;
        virtual_size = 16;
        raw_offset = 0;
        raw_size = 16;
        characteristics = 0xe0000040;
      }
      ∷ [];
}

abbrev regions : List CapturedImageRegion
regions =
    record { offset = 16; size = 16; readable = true; writable = false; executable = true }
    ∷ record { offset = 32; size = 32; readable = true; writable = true; executable = false }
    ∷ []

abbrev tls_image : Bytes
tls_image =
    0 ∷ 0 ∷ 0 ∷ 0 ∷ 0 ∷ 0 ∷ 0 ∷ 0 ∷ 40 ∷ 0 ∷ 64 ∷ 0 ∷ 44 ∷ 0 ∷ 64 ∷ 0 ∷ 48 ∷ 0 ∷ 64 ∷ 0 ∷ 0 ∷ 0 ∷ 0
    ∷ 0 ∷ 0 ∷ 0 ∷ 0 ∷ 0 ∷ 0 ∷ 0 ∷ 0 ∷ 0 ∷ 0 ∷ 0 ∷ 0 ∷ 0 ∷ 0 ∷ 0 ∷ 0 ∷ 0 ∷ 0 ∷ 0 ∷ 0 ∷ 0 ∷ 0 ∷ 0 ∷ 0
    ∷ 0 ∷ 0 ∷ 0 ∷ 0 ∷ 0 ∷ 0 ∷ 0 ∷ 0 ∷ 0 ∷ 0 ∷ 0 ∷ 0 ∷ 0 ∷ 0 ∷ 0 ∷ 0 ∷ 0 ∷ []

-- The entry point that has been found is that of the source.
abbrev plain_input : SectionLayoutInput
plain_input = record {
  loaded_image = replicate 64 0;
  loaded_base = 0x400000;
  oep = 20;
  imports = none;
  export_code_targets = [];
  memory_regions = regions;
}

abbrev tls_input : SectionLayoutInput
tls_input = record plain_input { loaded_image = tls_image; oep = 52 }

abbrev tls_plan : SectionLayoutPlan
tls_plan = record {
  sections =
      record {
        name = 46 ∷ 116 ∷ 101 ∷ 120 ∷ 116 ∷ 0 ∷ 0 ∷ 0 ∷ [];
        virtual_address = 16;
        virtual_size = 16;
        characteristics = 1610612768;
      }
      ∷ record {
        name = 46 ∷ 100 ∷ 97 ∷ 116 ∷ 97 ∷ 0 ∷ 0 ∷ 0 ∷ [];
        virtual_address = 32;
        virtual_size = 14;
        characteristics = 3221225536;
      }
      ∷ record {
        name = 46 ∷ 100 ∷ 97 ∷ 116 ∷ 97 ∷ 49 ∷ 0 ∷ 0 ∷ [];
        virtual_address = 48;
        virtual_size = 16;
        characteristics = 3221225536;
      }
      ∷ [];
  tls_directory = some (record { address = 8; size = 24 });
}

abbrev found_tls : TlsEvidence
found_tls = record {
  directory = record { address = 8; size = 24 };
  writable_index_page = record { begin = 48; end = 64 };
  callback_code_pages = [];
  runtime_index = 0;
  has_raw_template = true;
  has_explicit_alignment = false;
}

abbrev found_best : Best
found_best = record { evidence = some found_tls; score = 1; tied = false }

builds : build headers windows_directories source tls_input ≡ ok tls_plan
unfolding none_if le_value field is_readable Metadata.candidate_at count_descriptors directory_at
    find_embedded find_from is_bad_imports is_bad_tls is_null_descriptor is_other_first
    parse_embedded parse_optional add_page add_pages add_sections base_name characteristics_of
    classify is_bad_section is_read_only make_name meets_directory name_sections add_region
    extend_functions module_range module_ranges broad_scan candidate_at consider consider_optional
    embedded_evidence runtime_evidence scan callback_pages evidence_score in_source_entry_section
    is_empty is_filled raw_template read_callbacks read_runtime_tls_directory tls_va_to_rva
    validate_tls_directory align_down any_overlaps overlaps page_range build plan_ranges reject_if
    is_bad_input is_power_of_two discover_code_ranges or_reject extend_exports entry_extent
    exception_extent is_valid_directory find_section holds align_up discover_tls discover_iat_ranges
    add_regions is_region_outside
builds = refl

scans : broad_scan windows_directories source tls_input ≡ ok found_best
unfolding none_if le_value field is_readable broad_scan candidate_at consider consider_optional scan
    callback_pages evidence_score in_source_entry_section is_empty is_filled raw_template
    read_callbacks tls_va_to_rva validate_tls_directory align_down page_range is_valid_directory
    find_section holds
scans = refl

build-IsBuilt_example : IsBuilt headers windows_directories source tls_input tls_plan
build-IsBuilt_example =
    build-IsBuilt headers windows_directories source tls_input tls_plan (omega arith) builds

build-KeepsRights_example : All (KeepsRights windows_directories regions) tls_plan.sections
build-KeepsRights_example =
    build-KeepsRights headers windows_directories source tls_input tls_plan (omega arith) builds

build-ne-unfinished_example : build headers windows_directories source tls_input ≢ err unfinished
build-ne-unfinished_example =
    build-ne-unfinished windows_directories source headers tls_input (omega arith) (omega arith)
      (omega arith)

broad_scan-IsWinner_example :
    IsWinner (candidate_at windows_directories source tls_input) 4 40 found_tls
broad_scan-IsWinner_example =
    broad_scan-IsWinner windows_directories source tls_input found_best found_tls (omega arith)
      (omega arith) (omega arith) scans refl

-- An image of sixteen bytes.
abbrev tiny : PeImageLayout
tiny = record source { size_of_image = 16 }

broad_scan_endless_example :
    scan
      (candidate_at windows_directories tiny tls_input)
      4
      (scan_bound windows_directories tiny)
      1000
      0
      no_best
    ≡ err unfinished
broad_scan_endless_example =
    broad_scan_endless windows_directories tiny tls_input 1000 (omega arith) (omega arith)

-- Behind the ninth the numbers do not grow.
same_name : make_name SectionRole.text 9 ≡ make_name SectionRole.text 12
unfolding make_name base_name
same_name = refl

make_name_injective_example : (SectionRole.text ≡ SectionRole.text) × (min 9 9 ≡ min 12 9)
make_name_injective_example = make_name_injective SectionRole.text SectionRole.text 9 12 same_name
