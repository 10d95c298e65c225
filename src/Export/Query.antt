-- ===== src/Export/Query.antt =====
-- `FPIsFunctionPatched` and `FPGetVersion`.
use function_patcher_module.Export.Status.{
  FunctionPatcherStatus, success, invalid_argument, patch_not_found,
}
use function_patcher_module.Base.{
  ℕ, Bool, not, Option, none, some, List, [], ◌∷◌, ◌==◌, if◌then◌else◌,
}
use function_patcher_module.Patch.{Patch, State}

-- The loop of `FPIsFunctionPatched`.
unfoldable pub find_is_patched : (ℕ → Patch) → ℕ → List ℕ → FunctionPatcherStatus × Option Bool
find_is_patched objects handle [] = (patch_not_found, none)
find_is_patched objects handle (a ∷ rest) =
    if a == handle
    then (success, some (objects a).is_patched)
    else find_is_patched objects handle rest

-- The status and what the out parameter is set to; `out` says whether it is not null.
unfoldable pub fp_is_function_patched : ℕ → Bool → State → FunctionPatcherStatus × Option Bool
unfolding find_is_patched
fp_is_function_patched handle out s =
    if not out
    then (invalid_argument, none)
    else find_is_patched s.objects handle s.patched_functions

unfoldable pub fp_get_version : Bool → FunctionPatcherStatus × Option ℕ
fp_get_version out = if not out then (invalid_argument, none) else (success, some 2)
