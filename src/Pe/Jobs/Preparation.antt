-- ===== src/Pe/Jobs/Preparation.antt =====
-- upx-killer-engine/Application/PE/Preparation/PeTargetPreparationUseCase.h and .cpp, and
-- PeTargetProbe.cpp beside them. The reader of the target is an interface. Nothing of the code throws
-- but failed allocations, so the handler behind `catch (...)` is not reached.
use upx_killer.Common.{
  ℕ, Bool, true, false, not, ◌&&◌, ◌||◌, Option, none, some, List, [], ◌∷◌, Bytes, codes, leb, ◌==◌,
  ◌!=◌, get_elem?, if◌then◌else◌,
}
use upx_killer.Common.Results.{Result, ok, err, ◌>>=◌, ◌>>◌, reject_if, or_reject}
use upx_killer.Contracts.Backends.{BackendProbeResult}
use upx_killer.Contracts.Jobs.{UnpackJobRequest}
use upx_killer.Pe.Format.{PeImageLayout}
use upx_killer.Pe.Headers.{WindowsHeaders}
use upx_killer.Pe.Parser.{PeError, directory_or_none, parse}
use upx_killer.Pe.Capabilities.{PeBackendCapabilities, supports, describe}
use upx_killer.Pe.Plan.{PeExecutionPlan, create}
use upx_killer.Pe.Discovery.{OepDiscoveryError, OepDiscoveryPlan}
use upx_killer.Pe.Discovery.Locator.{analyze}
use upx_killer.Pe.Jobs.{EngineStage, UnpackRequest, PePreparationError}

pub record TargetSource : Type 0 where
  pub bytes : Bytes
  pub dependency_directory : Bytes

pub record TargetSourceReadResult : Type 0 where
  pub source : Option TargetSource
  pub native_error : ℕ

-- `ITargetSourceReader`, which is `noexcept`.
pub record TargetSourceReader : Type 0 where
  pub read : Bytes → ℕ → TargetSourceReadResult

-- The variant of an address and a plan to find it.
pub data EntryPointTarget : Type 0 where
  explicit_entry : ℕ → EntryPointTarget
  discovered_entry : OepDiscoveryPlan → EntryPointTarget

pub record PreparedPeTarget : Type 0 where
  pub target_path : Bytes
  pub dependency_directory : Bytes
  pub source_bytes : Bytes
  pub layout : PeImageLayout
  pub entry_point_target : EntryPointTarget
  pub execution_plan : PeExecutionPlan
  pub has_source_relocation_directory : Bool

-- `PePreparationResult`, whose failure has an error and a native error, with the stages reported.
pub record Preparation : Type 0 where
  pub result : Result (PePreparationError × ℕ) PreparedPeTarget
  pub stages : List EngineStage

abbrev pub base_relocation_directory_index : ℕ
base_relocation_directory_index = 5

unfoldable pub map_parse_error : PeError → PePreparationError
map_parse_error PeError.unsupported_pe32 = PePreparationError.unsupported_pe32
map_parse_error PeError.unsupported_architecture = PePreparationError.unsupported_architecture
map_parse_error PeError.unsupported_image_kind = PePreparationError.unsupported_image_kind
map_parse_error _ = PePreparationError.invalid_pe

unfoldable pub map_discovery_error : OepDiscoveryError → PePreparationError
map_discovery_error OepDiscoveryError.unsupported_packer = PePreparationError.unsupported_packer
map_discovery_error OepDiscoveryError.oep_not_found = PePreparationError.entry_point_not_found

abbrev pub refused : PePreparationError → ℕ → List EngineStage → Preparation
refused error native_error stages = record { result = err (error, native_error); stages = stages }

unfoldable pub has_relocation_directory : PeImageLayout → Bool
has_relocation_directory layout =
    let directory =
      directory_or_none (get_elem? layout.directories base_relocation_directory_index) in
    directory.address != 0 || directory.size != 0

unfoldable pub is_discovered : EntryPointTarget → Bool
is_discovered (explicit_entry rva) = false
is_discovered (discovered_entry plan) = true

unfoldable pub is_out_of_range : Option ℕ → PeImageLayout → Bool
is_out_of_range none layout = false
is_out_of_range (some oep) layout = leb layout.size_of_image oep

-- From the parsing to the execution plan.
unfoldable pub plan_source :
    WindowsHeaders
    → PeBackendCapabilities
    → UnpackRequest
    → Bytes
    → Result PePreparationError (PeImageLayout × PeExecutionPlan)
plan_source h capabilities request bytes = elim (parse h bytes) [
  | err e ↦ err (map_parse_error e)
  | ok layout ↦ do
    reject_if (is_out_of_range request.oep layout) PePreparationError.entry_point_out_of_range
    plan ← or_reject (create layout capabilities) PePreparationError.unsupported_image_kind
    ok (layout, plan)
]

-- From the relocation directory on.
unfoldable pub finish_preparation :
    UnpackRequest
    → TargetSource
    → PeImageLayout
    → PeExecutionPlan
    → EntryPointTarget
    → List EngineStage
    → Preparation
finish_preparation request source layout plan entry stages =
    let has_directory = has_relocation_directory layout in
    if not has_directory && not (is_discovered entry)
    then refused PePreparationError.source_relocations_invalid 0 stages
    else record {
      result = ok (record {
        target_path = request.target_path;
        dependency_directory = source.dependency_directory;
        source_bytes = source.bytes;
        layout = layout;
        entry_point_target = entry;
        execution_plan = plan;
        has_source_relocation_directory = has_directory;
      });
      stages = stages;
    }

-- From the choice of the entry point on.
unfoldable pub prepare_entry :
    UnpackRequest → TargetSource → PeImageLayout → PeExecutionPlan → Preparation
prepare_entry request source layout plan = elim request.oep [
  | some oep ↦
      finish_preparation request source layout plan (explicit_entry oep)
        (EngineStage.validating ∷ [])
  | none ↦
      let stages = EngineStage.validating ∷ EngineStage.discovering_oep ∷ [] in
      elim (analyze source.bytes layout) [
        | err e ↦ refused (map_discovery_error e) 0 stages
        | ok found ↦ finish_preparation request source layout plan (discovered_entry found) stages
      ]
]

unfoldable pub prepare_source :
    WindowsHeaders → PeBackendCapabilities → UnpackRequest → TargetSource → Preparation
prepare_source h capabilities request source =
    elim (plan_source h capabilities request source.bytes) [
      | err e ↦ refused e 0 (EngineStage.validating ∷ [])
      | ok (layout, plan) ↦ prepare_entry request source layout plan
    ]

-- `PeTargetPreparationUseCase::Execute`
unfoldable pub prepare :
    WindowsHeaders → TargetSourceReader → PeBackendCapabilities → UnpackRequest → Preparation
prepare h reader capabilities request =
    let read = reader.read request.target_path request.maximum_image_size in
    elim read.source [
      | none ↦
          refused PePreparationError.source_read_failed read.native_error
            (EngineStage.validating ∷ [])
      | some source ↦ prepare_source h capabilities request source
    ]

unfoldable pub parse_detail : PeError → Bytes
parse_detail PeError.unsupported_architecture = codes "pe.architecture.unsupported"
parse_detail PeError.unsupported_image_kind = codes "pe.image_kind.unsupported"
parse_detail _ = codes "pe.target.invalid"

abbrev pub not_recognized : BackendProbeResult
not_recognized = record { recognized = false; supported = false; target = none; detail_code = [] }

-- The test of the signature.
unfoldable pub has_dos_magic : Bytes → Bool
has_dos_magic (a ∷ b ∷ bytes) = a == 77 && b == 90
has_dos_magic _ = false

unfoldable pub probe_source : WindowsHeaders → PeBackendCapabilities → Bytes → BackendProbeResult
probe_source h capabilities bytes =
    if not (has_dos_magic bytes) then not_recognized else elim (parse h bytes) [
      | err e ↦ record {
        recognized = true;
        supported = false;
        target = none;
        detail_code = parse_detail e;
      }
      | ok layout ↦
          let supported = supports capabilities layout in
          record {
            recognized = true;
            supported = supported;
            target = some (describe layout);
            detail_code = if supported then [] else codes "pe.target.unsupported";
          }
    ]

-- `PeTargetProbe::Execute`
unfoldable pub probe :
    WindowsHeaders
    → TargetSourceReader
    → PeBackendCapabilities
    → UnpackJobRequest
    → BackendProbeResult
probe h reader capabilities request =
    elim (reader.read request.target_path request.maximum_image_size).source [
      | none ↦ not_recognized
      | some source ↦ probe_source h capabilities source.bytes
    ]
