-- ===== src/Tests/Patching.antt =====
-- `PatchFunction` and `RestoreFunction` on the console.
use function_patcher_module.Base.{ℕ, ◌≡◌, ◌≢◌, true, false, refl, arith}
use function_patcher_module.Platform.{Memory, done, in_application_range}
use function_patcher_module.Patch.{Run}
use function_patcher_module.Utils.{local_to_physical, read_from_physical_address}
use function_patcher_module.PatchedFunctionData.Title.{should_be_patched}
use function_patcher_module.PatchedFunctionData.Address.{update_function_addresses}
use function_patcher_module.PatchedFunctionData.Jumps.{
  generate_jump_to_original, generate_replacement_jump,
}
use function_patcher_module.FunctionPatcher.{
  patch_function, restore_function, source_to_physical, restore_target,
}
use function_patcher_module.FunctionPatcher.Install.{IsPatchedOver, patch_function-IsPatchedOver}
use function_patcher_module.FunctionPatcher.Restore.{IsRestorable}
use function_patcher_module.FunctionPatcher.RoundTrip.{restore_function-patch_function}
use function_patcher_module.Tests.Console.{
  console, console-IsPlatform, game_patch, machine, returned,
}

-- Its line opens all that a run of `PatchFunction` computes with.
unfoldable pub game_run : Run
unfolding patch_function should_be_patched update_function_addresses read_from_physical_address
    generate_jump_to_original generate_replacement_jump local_to_physical in_application_range
game_run = returned (patch_function console game_patch machine)

pub game_run-done : patch_function console game_patch machine ≡ done game_run
unfolding game_run
game_run-done = refl

abbrev game_branch : ℕ
game_branch = 0x48900002

-- The branch to the trampoline stands in the function, and the word before it is kept.
pub game_run-words :
    (game_run.machine.memory 0x20000000 ≡ game_branch)
    × (game_run.patch.replaced_instruction ≡ 0x9421fff8)
    × (game_run.result ≡ true)
unfolding game_run
game_run-words = (refl, refl, refl)

pub write_local : local_to_physical console console.replace_instruction_address ≢ 0
unfolding local_to_physical in_application_range
write_local = omega arith

pub read_local : local_to_physical console console.current_instruction_address ≢ 0
unfolding local_to_physical in_application_range
read_local = omega arith

game_run-IsRestorable : IsRestorable console game_run.patch
unfolding game_run
game_run-IsRestorable = record {
  is_patched = refl;
  knows_instruction = omega arith;
  knows_address = omega arith;
  can_read = omega arith;
}

game_run-source : source_to_physical console game_run.patch ≢ 0
unfolding game_run source_to_physical
game_run-source = omega arith

game_run-target :
    restore_target console game_run.patch ≡ game_run.patch.real_physical_function_address
unfolding game_run restore_target
game_run-target = refl

patch_function-IsPatchedOver_example : IsPatchedOver machine.memory game_run
patch_function-IsPatchedOver_example =
    patch_function-IsPatchedOver console console-IsPlatform write_local refl game_patch machine
      game_run refl game_run-done game_run-words.2

restore_function-patch_function_example :
    (m : Memory) × (restore_function console game_run.patch game_run.machine
      ≡ done (record {
        result = true;
        patch = record (game_run.patch) { is_patched = false };
        machine = record (game_run.machine) { memory = m };
      }))
    × (m game_run.patch.real_physical_function_address
        ≡ machine.memory game_run.patch.real_physical_function_address)
restore_function-patch_function_example =
    restore_function-patch_function console console-IsPlatform write_local refl game_patch machine
      game_run refl game_run-done game_run-words.2 game_run-IsRestorable game_run-source
      game_run-target
