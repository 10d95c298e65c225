-- ===== src/Export/Add.antt =====
-- `FPAddFunctionPatch` and the older `FunctionPatcherPatchFunction`.
use function_patcher_module.Export.Status.{
  FunctionPatcherStatus, success, invalid_argument, unsupported_struct_version, unknown_error,
  is_success,
}
use function_patcher_module.Base.{
  ℕ, Bool, Option, none, some, List, [], ◌∷◌, ◌++◌, ◌||◌, ◌==◌, ltb, if◌then◌else◌,
}
use function_patcher_module.Platform.{Platform, Outcome, done, fatal, ◌>>=◌, unknown_version}
use function_patcher_module.Patch.{Patch, State, store}
use function_patcher_module.PatchedFunctionData.Make.{
  ReplacementDataV2, ReplacementDataV3, make_shared_v2, make_shared_v3,
}
use function_patcher_module.FunctionPatcher.{patch_function}

-- A `function_replacement_data_t`: its version, and the same bytes read as either structure.
pub record ReplacementData : Type 0 where
  pub version : ℕ
  pub as_v2 : ReplacementDataV2
  pub as_v3 : ReplacementDataV3

-- The result of `FPAddFunctionPatch`, with the state after.
pub record Added : Type 0 where
  pub status : FunctionPatcherStatus
  pub out_handle : Option ℕ
  pub out_has_been_patched : Option Bool
  pub state : State

module _ (p : Platform) where
  abbrev pub not_added : FunctionPatcherStatus → State → Added
  not_added status s = record {
    status = status;
    out_handle = none;
    out_has_been_patched = none;
    state = s;
  }

  -- The new patch is applied and appended, whatever became of applying it.
  unfoldable pub add_made : State → Patch → Outcome Added
  add_made s d = do
    r ← patch_function p d s.machine
    done (record {
      status = success;
      out_handle = some d.handle;
      out_has_been_patched = some r.result;
      state = record {
        machine = r.machine;
        objects = store s.objects d.handle r.patch;
        patched_functions = s.patched_functions ++ d.handle ∷ [];
      };
    })

  -- The object that the version asks for, and the jump heap's blocks after it.
  unfoldable pub make_patch : ReplacementData → ℕ → State → Outcome (Option Patch × List ℕ)
  make_patch x heap_handle s =
      let object = p.new_object s.patched_functions in
      if x.version == 2
      then done (make_shared_v2 p object (some x.as_v2) heap_handle s.machine.heap)
      else if x.version == 3
      then done (make_shared_v3 p object (some x.as_v3) heap_handle s.machine.heap)
      else fatal unknown_version

  unfoldable pub add_checked : ReplacementData → ℕ → State → Outcome Added
  unfolding make_patch add_made
  add_checked x heap_handle s = do
    r ← make_patch x heap_handle s
    let s' = record s { machine = record (s.machine) { heap = r.1 } }
    elim (r.0) [ none ↦ done (not_added unknown_error s') | some d ↦ add_made s' d ]

  -- The arguments are the data and `gJumpHeapHandle`; `none` is a null pointer. What the two out
  -- parameters are set to is part of the result.
  unfoldable pub fp_add_function_patch : Option ReplacementData → ℕ → State → Outcome Added
  unfolding add_checked
  fp_add_function_patch none heap_handle s = done (not_added invalid_argument s)
  fp_add_function_patch (some x) heap_handle s =
      if ltb x.version 2 || ltb 3 x.version
      then done (not_added unsupported_struct_version s)
      else add_checked x heap_handle s

unfoldable pub function_patcher_patch_function :
    Platform → Option ReplacementData → ℕ → State → Outcome (Bool × Added)
unfolding fp_add_function_patch
function_patcher_patch_function p x heap_handle s = do
  r ← fp_add_function_patch p x heap_handle s
  done (is_success r.status, r)
