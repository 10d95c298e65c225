-- ===== src/Tests/Applying.antt =====
-- `PatchFunction` of a patch with its buffers.
use function_patcher_module.Base.{◌≡◌, true, [], refl, arith}
use function_patcher_module.Platform.{done}
use function_patcher_module.Patch.{Run}
use function_patcher_module.PatchedFunctionData.Title.{should_be_patched}
use function_patcher_module.PatchedFunctionData.Address.{update_function_addresses}
use function_patcher_module.FunctionPatcher.{patch_function}
use function_patcher_module.FunctionPatcher.Applies.{HasJumps, patch_function-done}
use function_patcher_module.Tests.Console.{console, console-IsPlatform, game_patch, machine}
use function_patcher_module.Tests.Patching.{read_local}

game_patch-HasJumps : HasJumps console game_patch
game_patch-HasJumps = record {
  buffers = record { original = omega arith; trampoline = λ h. omega arith; size = refl };
  reach = λ h. refl;
}

patch_function-done_example :
    (r : Run) × (patch_function console game_patch machine ≡ done r)
    × (r.result ≡ true)
    × (r.machine.rpl_handles ≡ [])
unfolding should_be_patched update_function_addresses
patch_function-done_example =
    patch_function-done console console-IsPlatform read_local game_patch machine true _
      game_patch-HasJumps refl refl refl
