-- ===== src/Contracts/Targets.antt =====
-- upx-killer-contracts/Core/Targets/TargetDescriptor.h, and the manifest of
-- Application/Backends/IUnpackBackend.h.
use upx_killer.Common.{List, Bytes}

pub data BinaryFamily : Type 0 where
  pe elf : BinaryFamily

pub data BinaryClass : Type 0 where
  bits32 bits64 : BinaryClass

pub data CpuArchitecture : Type 0 where
  x86 x64 : CpuArchitecture

pub data ImageKind : Type 0 where
  executable shared_library : ImageKind

pub data ImageAddressing : Type 0 where
  platform_default fixed_address position_independent : ImageAddressing

pub record TargetDescriptor : Type 0 where
  pub family : BinaryFamily
  pub image_class : BinaryClass
  pub architecture : CpuArchitecture
  pub image_kind : ImageKind
  pub addressing : ImageAddressing

pub record BackendManifest : Type 0 where
  pub backend_id : Bytes
  pub capabilities : List TargetDescriptor
