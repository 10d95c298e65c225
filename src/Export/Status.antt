-- ===== src/Export/Status.antt =====
-- The status values of source/export.cpp.
use function_patcher_module.Base.{Bool, true, false}

-- `FunctionPatcherStatus`, by the values that the code returns.
pub data FunctionPatcherStatus : Type 0 where
  success invalid_argument unsupported_struct_version unknown_error : FunctionPatcherStatus
  patch_not_found : FunctionPatcherStatus

-- Whether a call of one of the two older functions reports success.
abbrev pub is_success : FunctionPatcherStatus → Bool
is_success success = true
is_success invalid_argument = false
is_success unsupported_struct_version = false
is_success unknown_error = false
is_success patch_not_found = false
