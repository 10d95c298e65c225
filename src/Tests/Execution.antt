-- ===== src/Tests/Execution.antt =====
-- The generated code on the processor, as it lies in the console's memory after the patch.
use function_patcher_module.Base.{ℕ, ◌+◌, false, refl, arith}
use function_patcher_module.Platform.{Platform}
use function_patcher_module.Ppc.{Cpu, Code, Lies}
use function_patcher_module.PatchedFunctionData.Jumps.{replacement_jump_code}
use function_patcher_module.PatchedFunctionData.ProcessCheck.{IsProcessCheck}
use function_patcher_module.Tests.Console.{console}
use function_patcher_module.Tests.Patching.{game_run}

-- The console while the Wii U menu runs.
abbrev pub menu_console : Platform
menu_console = record console { upid = 2 }

abbrev pub code : Platform → Code
code p = record {
  fetch = λ a. game_run.machine.memory (console.mmu a);
  load = λ a. p.upid;
  other = λ w c. record c { pc = c.pc + 4 };
}

abbrev pub at : ℕ → Cpu
at a = record { pc = a; r11 = 0; ctr = 7; equal = false; registers = λ r. r }

trampoline-Lies : Lies (code console) 0x00900000 (replacement_jump_code console game_run.patch)
unfolding game_run replacement_jump_code
trampoline-Lies = omega arith

pub game_check : IsProcessCheck console (code console) game_run.patch
unfolding game_run
game_check = record {
  menu_fits = omega arith;
  game_fits = omega arith;
  target_fits = omega arith;
  reads_upid = refl;
}

pub menu_check : IsProcessCheck menu_console (code menu_console) game_run.patch
unfolding game_run
menu_check = record {
  menu_fits = omega arith;
  game_fits = omega arith;
  target_fits = omega arith;
  reads_upid = refl;
}
