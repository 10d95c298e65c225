-- ===== src/Tests/Restoring.antt =====
-- `RestoreFunction`, where it restores and where it refuses.
use function_patcher_module.Base.{ℕ, ◌≡◌, ◌≢◌, true, false, refl, arith}
use function_patcher_module.Platform.{Memory, done, in_application_range}
use function_patcher_module.Patch.{Patch}
use function_patcher_module.Utils.{local_to_physical}
use function_patcher_module.FunctionPatcher.{restore_function}
use function_patcher_module.FunctionPatcher.Restore.{IsRestorable, restore_function-refuses}
use function_patcher_module.Tests.Console.{console, console-IsPlatform, game_patch, machine}

-- The patch as it is applied with the branch `branch`.
abbrev applied : ℕ → Patch
applied branch = record game_patch {
  is_patched = true;
  replaced_instruction = 0x9421ffe0;
  replace_with_instruction = branch;
}

applied-IsRestorable : (branch : ℕ) → IsRestorable console (applied branch)
unfolding local_to_physical in_application_range
applied-IsRestorable branch = record {
  is_patched = refl;
  knows_instruction = omega arith;
  knows_address = omega arith;
  can_read = omega arith;
}

restore_function-refuses_example :
    (m : Memory) × (restore_function console (applied 0x48900002) machine
      ≡ done (record {
        result = false;
        patch = applied 0x48900002;
        machine = record machine { memory = m };
      }))
    × ((a : ℕ) → a ≢ 0x10000100 → m a ≡ 0x9421fff8)
unfolding in_application_range
restore_function-refuses_example =
    restore_function-refuses console console-IsPlatform (applied 0x48900002) machine
      (applied-IsRestorable 0x48900002) (omega arith)
