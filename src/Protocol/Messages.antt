-- ===== src/Protocol/Messages.antt =====
-- EngineHostMessages.h, and EngineHostCodec.cpp from PutDescriptor on: the payload of each message.
pub mod Descriptor
pub mod Encode
pub mod Decode
pub mod Collections
pub mod Execute
pub mod Report
pub mod Outcome
use upx_killer.Common.{List}
use upx_killer.Contracts.Targets.{BackendManifest}
use upx_killer.Contracts.Jobs.{UnpackJobRequest, ProgressEvent, JobResult}

-- The alternatives of `std::variant`.
pub data EngineHostMessage : Type 0 where
  query_capabilities : EngineHostMessage
  capabilities : List BackendManifest → EngineHostMessage
  execute_job : UnpackJobRequest → EngineHostMessage
  progress : ProgressEvent → EngineHostMessage
  result : JobResult → EngineHostMessage
