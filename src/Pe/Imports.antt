-- ===== src/Pe/Imports.antt =====
-- upx-killer-engine/Core/PE/Imports/ImportTypes.h: what is known of the modules of a process.
use upx_killer.Common.{ℕ, Bool, Option, List, Bytes}

pub record RuntimeExport : Type 0 where
  pub module_name : Bytes
  pub address : ℕ
  pub name : Option Bytes
  pub ordinal : Option ℕ
  pub executable : Bool
  pub forwarder : Option Bytes

pub record RuntimeModule : Type 0 where
  pub module_name : Bytes
  pub base : ℕ
  pub image_size : ℕ
  pub exports : List RuntimeExport

pub record RuntimeModuleSnapshot : Type 0 where
  pub modules : List RuntimeModule

pub data ImportDiscoveryError : Type 0 where
  no_error imports_not_found imports_ambiguous invalid_input : ImportDiscoveryError
