-- ===== src/Contracts/Backends.antt =====
-- upx-killer-contracts/Application/Backends/IUnpackBackend.h. `C` is what `Execute` is given beside
-- the request: the progress callback and the stop token, which callers only pass on.
use upx_killer.Common.{Bool, Option, Bytes}
use upx_killer.Contracts.Targets.{TargetDescriptor, BackendManifest}
use upx_killer.Contracts.Jobs.{UnpackJobRequest, JobResult}

pub record BackendProbeResult : Type 0 where
  pub recognized : Bool
  pub supported : Bool
  pub target : Option TargetDescriptor
  pub detail_code : Bytes

-- The interface. Every override is `noexcept`, so a call returns.
pub record UnpackBackend (C : Type 0) : Type 0 where
  pub manifest : BackendManifest
  pub probe : UnpackJobRequest → BackendProbeResult
  pub execute : UnpackJobRequest → C → JobResult
