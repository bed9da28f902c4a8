-- ===== src/Pe/Directories.antt =====
-- The data directories and section flags of <Windows.h> that the analyses of an image read: where the
-- fields of their structures stand and what the constants are is a parameter. Beside them, the import
-- plan of upx-killer-engine/Core/Unpacking/UnpackTypes.h.
use upx_killer.Common.{ℕ, Option, List, Bytes}

-- IMAGE_TLS_DIRECTORY32 or IMAGE_TLS_DIRECTORY64.
pub record TlsDirectoryFormat : Type 0 where
  pub size : ℕ
  pub raw_start_offset : ℕ
  pub raw_end_offset : ℕ
  pub index_offset : ℕ
  pub callbacks_offset : ℕ
  pub zero_fill_offset : ℕ
  pub characteristics_offset : ℕ

-- IMAGE_IMPORT_DESCRIPTOR.
pub record ImportDescriptorFormat : Type 0 where
  pub size : ℕ
  pub original_first_thunk_offset : ℕ
  pub time_stamp_offset : ℕ
  pub forwarder_chain_offset : ℕ
  pub name_offset : ℕ
  pub first_thunk_offset : ℕ

-- The IMAGE_DIRECTORY_ENTRY_*, RUNTIME_FUNCTION and IMAGE_SCN_* of <Windows.h>.
pub record WindowsDirectories : Type 0 where
  pub export_entry : ℕ
  pub import_entry : ℕ
  pub resource_entry : ℕ
  pub exception_entry : ℕ
  pub tls_entry : ℕ
  pub import_descriptor : ImportDescriptorFormat
  pub tls32 : TlsDirectoryFormat
  pub tls64 : TlsDirectoryFormat
  pub runtime_function_size : ℕ
  pub begin_address_offset : ℕ
  pub end_address_offset : ℕ
  pub align_mask : ℕ
  pub content_code : ℕ
  pub content_initialized_data : ℕ
  pub mem_execute : ℕ
  pub mem_read : ℕ
  pub mem_write : ℕ

pub record ImportSymbol : Type 0 where
  pub name : Option Bytes
  pub ordinal : Option ℕ
  pub hint : ℕ

pub record ImportModulePlan : Type 0 where
  pub module_name : Bytes
  pub first_thunk : ℕ
  pub symbols : List ImportSymbol

pub record ImportRebuildPlan : Type 0 where
  pub modules : List ImportModulePlan
