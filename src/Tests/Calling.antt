-- ===== src/Tests/Calling.antt =====
-- The patched function's trampoline on the console, and the console while the menu runs.
use function_patcher_module.Base.{◌≢◌, arith}
use function_patcher_module.Platform.{in_application_range}
use function_patcher_module.Utils.{IsPlatform, local_to_physical}
use function_patcher_module.FunctionPatcher.Placed.{HasRoom}
use function_patcher_module.Tests.Console.{console, console-IsPlatform}
use function_patcher_module.Tests.Patching.{game_run}
use function_patcher_module.Tests.Execution.{menu_console}

pub game_run-HasRoom : HasRoom console game_run.patch
unfolding game_run in_application_range
game_run-HasRoom = record {
  contiguous = λ i lt. ground arith;
  clear_function = λ i lt. ground arith;
  clear_local = λ i lt. ground arith;
}

pub menu_console-IsPlatform : IsPlatform menu_console
menu_console-IsPlatform = record {
  copy_to = console-IsPlatform.copy_to;
  copy_other = console-IsPlatform.copy_other;
  effective_to_physical-mmu = console-IsPlatform.effective_to_physical-mmu;
  application_range-mmu = console-IsPlatform.application_range-mmu;
}

pub menu_write_local : local_to_physical menu_console menu_console.replace_instruction_address ≢ 0
unfolding local_to_physical in_application_range
menu_write_local = omega arith
