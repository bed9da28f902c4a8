-- ===== src/Pe/Jobs/Probed.antt =====
-- What the probe of a target says of its preparation.
use upx_killer.Common.{
  ℕ, ◌≡◌, refl, arith, true, false, not, ◌&&◌, Option, some, List, [], ◌∷◌, Bytes, IsByte, All, inl,
  inr, ◌⊎◌, Bool-cases, Option-cases,
}
use upx_killer.Common.Reading.{le_value}
use upx_killer.Common.Results.{
  Result, ok, err, reject_if, or_reject, reject_if_inversion, Result-cases,
}
use upx_killer.Contracts.Targets.{TargetDescriptor}
use upx_killer.Contracts.Backends.{BackendProbeResult}
use upx_killer.Contracts.Jobs.{UnpackJobRequest}
use upx_killer.Pe.Format.{PeImageLayout}
use upx_killer.Pe.Headers.{WindowsHeaders, field}
use upx_killer.Pe.Parser.{parse}
use upx_killer.Pe.Parser.Accepted.{parse-IsPlan}
use upx_killer.Pe.Capabilities.{PeBackendCapabilities, supports, describe}
use upx_killer.Pe.Plan.{PeExecutionPlan, create}
use upx_killer.Pe.Discovery.{OepDiscoveryError}
use upx_killer.Pe.Discovery.Locator.{analyze}
use upx_killer.Pe.Jobs.{EngineStage, UnpackRequest, PePreparationError, translate_request}
use upx_killer.Pe.Jobs.Preparation.{
  TargetSource, TargetSourceReader, EntryPointTarget, PreparedPeTarget, has_relocation_directory,
  is_discovered, is_out_of_range, map_discovery_error, plan_source, finish_preparation,
  prepare_entry, prepare_source, prepare, has_dos_magic, probe_source, probe,
}
use upx_killer.Pe.Jobs.Prepared.{prepare-IsPrepared}

-- The errors that the probe does not foresee.
pub data IsLate : PePreparationError → Type 0 where
  out_of_range : IsLate PePreparationError.entry_point_out_of_range
  other_packer : IsLate PePreparationError.unsupported_packer
  no_entry : IsLate PePreparationError.entry_point_not_found
  not_movable : IsLate PePreparationError.source_relocations_invalid

magic_bytes :
    (bytes : Bytes) → All IsByte bytes → field 2 bytes 0 ≡ 0x5a4d → has_dos_magic bytes ≡ true
unfolding field le_value has_dos_magic
magic_bytes [] h e = absurd (ground arith)
magic_bytes (a ∷ []) h e = absurd (ground arith)
magic_bytes (a ∷ b ∷ bytes) h e = ground (arith, h.0, h.1.0)

parse-has_dos_magic :
    (h : WindowsHeaders) (bytes : Bytes) (layout : PeImageLayout)
    → h.dos_signature ≡ 0x5a4d
    → All IsByte bytes
    → parse h bytes ≡ ok layout
    → has_dos_magic bytes ≡ true
unfolding parse
parse-has_dos_magic h bytes layout signature good e = reject_if_inversion _ _ _ layout e λ _ e1.
    reject_if_inversion _ _ _ layout e1
      λ test _. magic_bytes bytes good (ground (arith, test, signature))

abbrev supported_report : TargetDescriptor → BackendProbeResult
supported_report target = record {
  recognized = true;
  supported = true;
  target = some target;
  detail_code = [];
}

-- A result that is a success or fails so late, without a native error.
abbrev FailsLate : Result (PePreparationError × ℕ) PreparedPeTarget → Type 0
FailsLate (ok target) = Unit {0}
FailsLate (err (e, n)) = IsLate e × n ≡ 0

-- The report of a probe and the result of a preparation.
abbrev pub Agrees : BackendProbeResult → Result (PePreparationError × ℕ) PreparedPeTarget → Type 0
Agrees report (ok target) = report ≡ supported_report (describe target.layout)
Agrees report (err (e, n)) = (report.supported ≡ false) ⊎ (IsLate e × n ≡ 0)

agree :
    (report : BackendProbeResult) (r : Result (PePreparationError × ℕ) PreparedPeTarget)
    → ((target : PreparedPeTarget)
        → r ≡ ok target
        → report ≡ supported_report (describe target.layout))
    → (report.supported ≡ true → FailsLate r)
    → Agrees report r
agree report (ok target) f g = f target refl
agree report (err (e, n)) f g = elim (Bool-cases report.supported) [
  | inl support ↦ inr (g support)
  | inr refused ↦ inl refused
]

map_discovery_error-IsLate : (e : OepDiscoveryError) → IsLate (map_discovery_error e)
unfolding map_discovery_error
map_discovery_error-IsLate OepDiscoveryError.unsupported_packer = IsLate.other_packer
map_discovery_error-IsLate OepDiscoveryError.oep_not_found = IsLate.no_entry

module _ (h : WindowsHeaders) (capabilities : PeBackendCapabilities) (request : UnpackRequest) where
  finish_preparation-FailsLate :
      (source : TargetSource) (layout : PeImageLayout) (plan : PeExecutionPlan)
      (entry : EntryPointTarget) (stages : List EngineStage)
      → FailsLate (finish_preparation request source layout plan entry stages).result
  unfolding finish_preparation
  finish_preparation-FailsLate source layout plan entry stages =
      elim (Bool-cases (not (has_relocation_directory layout) && not (is_discovered entry))) [
        | inl bad ↦ rw (bad, finish_preparation) (IsLate.not_movable, refl)
        | inr good ↦ rw (good, finish_preparation) tt
      ]

  prepare_entry-FailsLate :
      (source : TargetSource) (layout : PeImageLayout) (plan : PeExecutionPlan)
      → FailsLate (prepare_entry request source layout plan).result
  unfolding prepare_entry
  prepare_entry-FailsLate source layout plan = elim (Option-cases request.oep) [
    | inr (rva, there) ↦
        rw (there, prepare_entry)
          (finish_preparation-FailsLate source layout plan (EntryPointTarget.explicit_entry rva) _)
    | inl missing ↦ elim (Result-cases (analyze source.bytes layout)) [
      | inr (bad, why) ↦ rw (missing, why, prepare_entry) (map_discovery_error-IsLate bad, refl)
      | inl (found, located) ↦
          rw (missing, located, prepare_entry)
            (finish_preparation-FailsLate source layout plan
              (EntryPointTarget.discovered_entry found) _)
    ]
  ]

  plan_source_supported :
      (bytes : Bytes) (layout : PeImageLayout) (plan : PeExecutionPlan)
      → parse h bytes ≡ ok layout
      → create layout capabilities ≡ some plan
      → (plan_source h capabilities request bytes ≡ ok (layout, plan))
        ⊎ (plan_source h capabilities request bytes
            ≡ err PePreparationError.entry_point_out_of_range)
  unfolding plan_source reject_if or_reject
  plan_source_supported bytes layout plan parsed created =
      elim (Bool-cases (is_out_of_range request.oep layout)) [
        | inl far ↦ inr (rw (parsed, far, plan_source) refl)
        | inr near ↦ inl (rw (parsed, near, created, plan_source) refl)
      ]

  prepare_source-FailsLate :
      (source : TargetSource) (layout : PeImageLayout)
      → parse h source.bytes ≡ ok layout
      → supports capabilities layout ≡ true
      → FailsLate (prepare_source h capabilities request source).result
  unfolding prepare_source
  prepare_source-FailsLate source layout parsed support =
      let made = parse-IsPlan h source.bytes layout capabilities parsed support in
      elim (plan_source_supported source.bytes layout made.0 parsed made.1) [
        | inl planned ↦ rw (planned, prepare_source) (prepare_entry-FailsLate source layout made.0)
        | inr far ↦ rw (far, prepare_source) (IsLate.out_of_range, refl)
      ]

module _ (h : WindowsHeaders) (signature : h.dos_signature ≡ 0x5a4d)
    (capabilities : PeBackendCapabilities) (job : UnpackJobRequest) (oep : Option ℕ) where
  probe_source-supported :
      (bytes : Bytes) (layout : PeImageLayout)
      → All IsByte bytes
      → parse h bytes ≡ ok layout
      → supports capabilities layout ≡ true
      → probe_source h capabilities bytes ≡ supported_report (describe layout)
  unfolding probe_source
  probe_source-supported bytes layout good parsed support =
      rw (probe_source, parse-has_dos_magic h bytes layout signature good parsed, parsed, support)
        refl

  probe_source-parsed :
      (bytes : Bytes)
      → (probe_source h capabilities bytes).supported ≡ true
      → (layout : PeImageLayout) × (parse h bytes ≡ ok layout)
        × (supports capabilities layout ≡ true)
  unfolding probe_source
  probe_source-parsed bytes e = elim (Bool-cases (has_dos_magic bytes)) [
    | inr strange ↦ absurd (ground (arith, strange))
    | inl magic ↦ elim (Result-cases (parse h bytes)) [
      | inr bad ↦ absurd (ground (arith, magic, bad.1))
      | inl (layout, parsed) ↦ (layout, parsed, rw (magic, parsed, probe_source) at e)
    ]
  ]

  -- For files of bytes and the signature `MZ`: a target that is prepared is one that the probe
  -- supports, under the description of its layout and without a detail. Where preparation fails, the probe does not
  -- support the target, or the error is an entry point out of range, an unsupported packer, no
  -- entry point found, or source relocations that are not there, without a native error.
  pub probe-prepare :
      (reader : TargetSourceReader)
      → ((path : Bytes) (size : ℕ) (source : TargetSource)
          → (reader.read path size).source ≡ some source
          → All IsByte source.bytes)
      → Agrees
          (probe h reader capabilities job)
          (prepare h reader capabilities (translate_request job oep)).result
  unfolding prepare probe translate_request
  probe-prepare reader good =
      agree (probe h reader capabilities job)
        (prepare h reader capabilities (translate_request job oep)).result
        (λ target e.
          let made =
            prepare-IsPrepared h capabilities (translate_request job oep) reader target e in
          rw (probe, made.1)
            (probe_source-supported made.0.bytes target.layout (good _ _ made.0 made.1)
              made.2.parsed made.2.supported))
        (λ e. elim (Option-cases (reader.read job.target_path job.maximum_image_size).source) [
          | inl missing ↦ absurd (ground (arith, missing))
          | inr (source, there) ↦
              let known = probe_source-parsed source.bytes (rw (there, probe) at e) in
              rw (prepare, there)
                (prepare_source-FailsLate h capabilities (translate_request job oep) source known.0
                  known.1 known.2)
        ])
