-- ===== src/Tests/Framing.antt =====
-- What PatchFunction leaves alone: a word behind the function's first, and that one where no thread writes.
use function_patcher_module.Base.{◌≡◌, true, false, refl, arith}
use function_patcher_module.Platform.{Platform, done, in_application_range}
use function_patcher_module.Patch.{Run}
use function_patcher_module.Utils.{IsPlatform, local_to_physical, read_from_physical_address}
use function_patcher_module.PatchedFunctionData.Title.{should_be_patched}
use function_patcher_module.PatchedFunctionData.Address.{update_function_addresses}
use function_patcher_module.PatchedFunctionData.Jumps.{
  generate_jump_to_original, generate_replacement_jump,
}
use function_patcher_module.FunctionPatcher.{patch_function}
use function_patcher_module.FunctionPatcher.NoThread.{patch_function-unwritten}
use function_patcher_module.FunctionPatcher.Frame.{IsOffBlocks}
use function_patcher_module.Tests.Console.{
  console, console-IsPlatform, game_patch, machine, returned,
}

-- The console while no thread gets memory.
abbrev crowded_console : Platform
crowded_console = record console { thread_created = λ affinity. false }

crowded_console-IsPlatform : IsPlatform crowded_console
crowded_console-IsPlatform = record {
  copy_to = console-IsPlatform.copy_to;
  copy_other = console-IsPlatform.copy_other;
  effective_to_physical-mmu = console-IsPlatform.effective_to_physical-mmu;
  application_range-mmu = console-IsPlatform.application_range-mmu;
}

unfoldable crowded_run : Run
unfolding patch_function should_be_patched update_function_addresses read_from_physical_address
    generate_jump_to_original generate_replacement_jump local_to_physical in_application_range
crowded_run = returned (patch_function crowded_console game_patch machine)

crowded_run-done : patch_function crowded_console game_patch machine ≡ done crowded_run
unfolding crowded_run
crowded_run-done = refl

crowded_run-IsOffBlocks : IsOffBlocks crowded_console crowded_run.patch 0x20000000
unfolding crowded_run in_application_range
crowded_run-IsOffBlocks = record {
  not_pointer = omega arith;
  not_original = λ i lt. ground arith;
  not_trampoline = λ i lt. ground arith;
  not_field = omega arith;
}

patch_function-unwritten_example :
    (crowded_run.patch.is_patched ≡ true)
    × (crowded_run.machine.memory 0x20000000 ≡ machine.memory 0x20000000)
unfolding crowded_run in_application_range
patch_function-unwritten_example =
    patch_function-unwritten crowded_console refl crowded_console-IsPlatform game_patch machine
      crowded_run refl crowded_run-done refl (omega arith) crowded_run-IsOffBlocks
