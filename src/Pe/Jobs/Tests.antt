-- ===== src/Pe/Jobs/Tests.antt =====
-- The preparation and the probe of a small 64-bit program with an entry point that is given.
use upx_killer.Common.{
  ℕ, ◌≡◌, refl, arith, true, false, some, none, [], ◌∷◌, Bytes, IsByte, All, subst,
}
use upx_killer.Common.Reading.{le_value}
use upx_killer.Common.Results.{ok, reject_if, or_reject}
use upx_killer.Contracts.Jobs.{UnpackJobRequest}
use upx_killer.Pe.Samples.{headers, program, program_layout, program_capabilities}
use upx_killer.Pe.Headers.{is_readable, field}
use upx_killer.Pe.Capabilities.{supports, supports_target, describe, is_member, is_same_target}
use upx_killer.Pe.Plan.{
  create, moving_plan, capture_bases_of, fill_distinct_bases, add_bases, add_base, holds_base,
}
use upx_killer.Pe.Parser.{
  parse, parse_magic, parse_typed, layout_at, is_bad_header, parse_sections, check_section,
  section_at, read_directories, directories_of, is_power_of_two, range_fits,
}
use upx_killer.Pe.Jobs.{UnpackRequest, translate_request}
use upx_killer.Pe.Jobs.Preparation.{
  TargetSource, TargetSourceReader, EntryPointTarget, PreparedPeTarget, prepare, prepare_source,
  plan_source, prepare_entry, finish_preparation, has_relocation_directory, is_discovered,
  is_out_of_range, probe,
}
use upx_killer.Pe.Jobs.Prepared.{IsPrepared, prepare-IsPrepared}
use upx_killer.Pe.Jobs.Probed.{Agrees, probe-prepare}

abbrev source : TargetSource
source = record { bytes = program; dependency_directory = [] }

abbrev reader : TargetSourceReader
reader = record { read = λ path size. record { source = some source; native_error = 0 } }

abbrev job : UnpackJobRequest
job = record {
  target_path = 112 ∷ [];
  output_path = 111 ∷ [];
  entry_point = none;
  timeout_milliseconds = 1000;
  maximum_image_size = 4096;
  retain_failed_output = false;
}

abbrev request : UnpackRequest
request = translate_request job (some 0x1000)

abbrev target : PreparedPeTarget
target = record {
  target_path = 112 ∷ [];
  dependency_directory = [];
  source_bytes = program;
  layout = program_layout;
  entry_point_target = EntryPointTarget.explicit_entry 0x1000;
  execution_plan = moving_plan program_layout;
  has_source_relocation_directory = true;
}

prepared : (prepare headers reader program_capabilities request).result ≡ ok target
unfolding prepare prepare_source plan_source prepare_entry finish_preparation
    has_relocation_directory is_discovered is_out_of_range translate_request parse parse_magic
    parse_typed layout_at is_bad_header parse_sections check_section section_at read_directories
    directories_of is_power_of_two range_fits is_readable field le_value create moving_plan
    capture_bases_of fill_distinct_bases add_bases add_base holds_base supports supports_target
    describe is_member is_same_target reject_if or_reject
prepared = refl

prepare-IsPrepared_example :
    (s : TargetSource) × ((reader.read request.target_path request.maximum_image_size).source
      ≡ some s)
    × IsPrepared headers program_capabilities request s target
prepare-IsPrepared_example =
    prepare-IsPrepared headers program_capabilities request reader target prepared

program_bytes : All IsByte program
program_bytes = omega arith

reader_bytes :
    (path : Bytes) (size : ℕ) (s : TargetSource)
    → (reader.read path size).source ≡ some s
    → All IsByte s.bytes
reader_bytes path size s e =
    let same : source ≡ s = ground arith in
    subst (λ (t : TargetSource). All IsByte t.bytes) same program_bytes

probe-prepare_example :
    Agrees
      (probe headers reader program_capabilities job)
      (prepare headers reader program_capabilities (translate_request job (some 0x1000))).result
probe-prepare_example =
    probe-prepare headers refl program_capabilities job (some 0x1000) reader reader_bytes
