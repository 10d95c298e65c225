-- ===== src/Tests/EndToEnd.antt =====
-- A patch is added on the console, called, and removed again.
use function_patcher_module.Base.{◌≡◌, ◌≢◌, refl, arith}
use function_patcher_module.Platform.{in_application_range, done}
use function_patcher_module.Patch.{Patch}
use function_patcher_module.Utils.{local_to_physical}
use function_patcher_module.Ppc.{Cpu, Code, Runs}
use function_patcher_module.PatchedFunctionData.ProcessCheck.{IsProcessCheck}
use function_patcher_module.PatchedFunctionData.InMemory.{code_in}
use function_patcher_module.FunctionPatcher.{source_to_physical, restore_target}
use function_patcher_module.FunctionPatcher.Placed.{HasRoom}
use function_patcher_module.FunctionPatcher.Restore.{IsRestorable}
use function_patcher_module.Export.Status.{success}
use function_patcher_module.Export.Remove.{Removed, fp_remove_function_patch}
use function_patcher_module.Export.Calling.{run-fp_add_function_patch-target}
use function_patcher_module.Export.RoundTrip.{fp_remove_function_patch-fp_add_function_patch}
use function_patcher_module.Tests.Console.{console, console-IsPlatform}
use function_patcher_module.Tests.Calls.{two_patches}
use function_patcher_module.Tests.Adding.{replacement2, added, added-done, third_added}
use function_patcher_module.Tests.Patching.{write_local}
use function_patcher_module.Tests.Execution.{menu_console, code, at}

abbrev third : Patch
third = added.state.objects 0x10001200

third-HasRoom : HasRoom console third
unfolding added in_application_range
third-HasRoom = record {
  contiguous = λ i lt. ground arith;
  clear_function = λ i lt. ground arith;
  clear_local = λ i lt. ground arith;
}

third_check :
    IsProcessCheck console (code_in console (code console) added.state.machine.memory) third
unfolding added
third_check = record {
  menu_fits = omega arith;
  game_fits = omega arith;
  target_fits = omega arith;
  reads_upid = refl;
}

run-fp_add_function_patch-target_example :
    (e : Cpu) × Runs (code_in console (code console) added.state.machine.memory) (at 0x20000000) e
    × (e.pc ≡ 0x00800100)
    × (e.registers ≡ (at 0x20000000).registers)
unfolding added in_application_range
run-fp_add_function_patch-target_example =
    run-fp_add_function_patch-target console console-IsPlatform write_local refl (code console)
      two_patches replacement2 9 added added-done third_added.2 third_check (at 0x20000000) refl
      (λ needs. third-HasRoom) (omega arith) refl refl

-- The code that the menu runs.
abbrev menu_code : Code
menu_code = code_in menu_console (code menu_console) added.state.machine.memory

third-IsRestorable : IsRestorable console third
unfolding added local_to_physical in_application_range
third-IsRestorable = record {
  is_patched = refl;
  knows_instruction = omega arith;
  knows_address = omega arith;
  can_read = omega arith;
}

third-source : source_to_physical console third ≢ 0
unfolding added source_to_physical
third-source = omega arith

third-target : restore_target console third ≡ third.real_physical_function_address
unfolding added restore_target
third-target = refl

fp_remove_function_patch-fp_add_function_patch_example :
    (q : Removed) × (fp_remove_function_patch console 0x10001200 added.state ≡ done q)
    × (q.status ≡ success)
    × (q.state.patched_functions ≡ two_patches.patched_functions)
    × (q.state.machine.heap ≡ two_patches.machine.heap)
    × (q.state.machine.memory third.real_physical_function_address
        ≡ two_patches.machine.memory third.real_physical_function_address)
fp_remove_function_patch-fp_add_function_patch_example =
    fp_remove_function_patch-fp_add_function_patch console console-IsPlatform write_local refl
      two_patches replacement2 9 added added-done third_added.2 refl third-IsRestorable third-source
      third-target
