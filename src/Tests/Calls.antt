-- ===== src/Tests/Calls.antt =====
-- The module's calls on the list of patches.
use function_patcher_module.Base.{
  ◌≡◌, true, false, [], ◌∷◌, ◌&&◌, refl, arith, if◌then◌else◌, text, ◌==◌,
}
use mathlib.Core.List.{reverse}
use function_patcher_module.Platform.{Outcome, done, fatal, in_application_range}
use function_patcher_module.Patch.{Patch, State}
use function_patcher_module.Utils.{local_to_physical, read_from_physical_address}
use function_patcher_module.PatchedFunctionData.Make.{ReplacementDataV2}
use function_patcher_module.PatchedFunctionData.Versions.{upgrade}
use function_patcher_module.FunctionPatcher.{restore_function, patch_function}
use function_patcher_module.Export.Status.{success, patch_not_found}
use function_patcher_module.Export.Add.{ReplacementData}
use function_patcher_module.Export.Remove.{Removed, take_out, fp_remove_function_patch}
use function_patcher_module.Export.Removing.{
  fp_remove_function_patch-list, fp_remove_function_patch-forgets,
}
use function_patcher_module.Main.{check_if_patched_functions_are_still_in_memory}
use function_patcher_module.Main.StillInMemory.{
  is_intact, check_if_patched_functions_are_still_in_memory_lem,
}
use function_patcher_module.Tests.Console.{console, console-IsPlatform, game_patch, machine}

-- Two patches of one function, the second over the first.
abbrev pub first : Patch
first = record game_patch {
  is_patched = true;
  replaced_instruction = 0x9421ffe0;
  replace_with_instruction = 0x48900002;
}

abbrev pub second : Patch
second = record game_patch {
  handle = 0x10001100;
  is_patched = true;
  replaced_instruction = 0x48900002;
  replace_with_instruction = 0x9421fff8;
}

abbrev pub two_patches : State
two_patches = record {
  machine = machine;
  objects = λ a. if a == 0x10001000 then first else second;
  patched_functions = 0x10001000 ∷ 0x10001100 ∷ [];
}

abbrev pub returned_state : Outcome State → State
returned_state (done s) = s
returned_state (fatal e) = two_patches

abbrev pub returned_removed : Outcome Removed → Removed
returned_removed (done r) = r
returned_removed (fatal e) = record { status = patch_not_found; state = two_patches }

taken_out : State
unfolding take_out restore_function read_from_physical_address local_to_physical
    in_application_range
taken_out = returned_state (take_out console 0x10001000 (0x10001100 ∷ []) two_patches)

taken_out-done : take_out console 0x10001000 (0x10001100 ∷ []) two_patches ≡ done taken_out
unfolding taken_out
taken_out-done = refl

removed : Removed
unfolding fp_remove_function_patch restore_function patch_function read_from_physical_address
    local_to_physical in_application_range
removed = returned_removed (fp_remove_function_patch console 0x10001000 two_patches)

removed-done : fp_remove_function_patch console 0x10001000 two_patches ≡ done removed
unfolding removed
removed-done = refl

-- The second patch is still in the list, and the function runs its original instruction.
second_forgotten :
    (removed.state.patched_functions ≡ 0x10001100 ∷ [])
    × ((removed.state.objects 0x10001100).is_patched ≡ false)
    × (removed.state.machine.memory 0x20000000 ≡ 0x9421ffe0)
unfolding removed
second_forgotten = (refl, refl, refl)

fp_remove_function_patch-list_example :
    (removed.status ≡ success) × (removed.state.patched_functions ≡ 0x10001100 ∷ [])
fp_remove_function_patch-list_example =
    fp_remove_function_patch-list console two_patches 0x10001000 removed removed-done

fp_remove_function_patch-forgets_example :
    (r : Removed) × (fp_remove_function_patch console 0x10001000 two_patches ≡ done r)
    × (r.status ≡ success)
    × (r.state.patched_functions ≡ 0x10001100 ∷ [])
    × (r.state.objects ≡ taken_out.objects)
    × (r.state.machine.memory ≡ taken_out.machine.memory)
fp_remove_function_patch-forgets_example =
    fp_remove_function_patch-forgets console two_patches taken_out 0x10001000 refl taken_out-done
      (unfold taken_out in refl)

check_if_patched_functions_are_still_in_memory_lem_example :
    ((check_if_patched_functions_are_still_in_memory console two_patches).objects
      0x10001000).is_patched
    ≡ (true
        && is_intact machine.memory two_patches.objects
            (reverse two_patches.patched_functions)
            0x20000000)
unfolding in_application_range
check_if_patched_functions_are_still_in_memory_lem_example =
    check_if_patched_functions_are_still_in_memory_lem console console-IsPlatform
      (unfold local_to_physical in_application_range in omega arith) two_patches (λ a. ground arith)
      0x10001000

abbrev pub replacement_v2 : ReplacementDataV2
replacement_v2 = record {
  physical_addr = 0x20000000;
  virtual_addr = 0x20000000;
  replace_addr = 0x00800100;
  replace_call = 0x10002000;
  library = 0;
  function_name = text "main";
  target_process = 15;
}

abbrev pub replacement : ReplacementData
replacement = record {
  version = 4;
  as_v2 = replacement_v2;
  as_v3 =
      upgrade
        (record {
          target_title_ids = λ i. 42;
          target_title_ids_count = 1;
          version_min = 0;
          version_max = 32;
          executable_name = text "app.rpx";
          text_offset = 16;
          function_name = text "main";
        })
        replacement_v2;
}
