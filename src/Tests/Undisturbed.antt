-- ===== src/Tests/Undisturbed.antt =====
-- A second function is patched on the console after the first, and restored.
use function_patcher_module.Base.{◌≡◌, true, refl, arith}
use function_patcher_module.Platform.{in_application_range, done}
use function_patcher_module.Patch.{Patch, Run}
use function_patcher_module.Ppc.{Cpu, Runs}
use function_patcher_module.PatchedFunctionData.InMemory.{code_in}
use function_patcher_module.PatchedFunctionData.ProcessCheck.{IsProcessCheck}
use function_patcher_module.FunctionPatcher.{
  patch_function, restore_function, restore_target, source_to_physical,
}
use function_patcher_module.FunctionPatcher.Undisturbed.{
  IsApart, IsApartRestored, no_call, then_patches, then_restores, run-patch_function-OtherCalls,
}
use function_patcher_module.Tests.Console.{
  console, console-IsPlatform, game_patch, machine, returned,
}
use function_patcher_module.Tests.Patching.{game_run, game_run-done, game_run-words, write_local}
use function_patcher_module.Tests.Calling.{game_run-HasRoom}
use function_patcher_module.Tests.Execution.{code, at}

abbrev pub other_patch : Patch
other_patch = record game_patch {
  handle = 0x10001100;
  jump_to_original = 0x00900200;
  jump_data = 0x00900100;
  real_effective_function_address = 0x20004000;
  real_physical_function_address = 0x20004000;
  real_call_function_address_ptr = 0x10003000;
}

unfoldable pub other_run : Run
unfolding game_run
other_run = returned (patch_function console other_patch game_run.machine)

pub other_run-done : patch_function console other_patch game_run.machine ≡ done other_run
unfolding other_run
other_run-done = refl

-- The second branch stands in its function, next to the first.
both_patched :
    (other_run.result ≡ true)
    × (other_run.machine.memory 0x20004000 ≡ 0x48900102)
    × (other_run.machine.memory 0x20000000 ≡ 0x48900002)
unfolding other_run
both_patched = (refl, refl, refl)

pub first-IsApart : IsApart console game_run.patch other_run.patch
unfolding other_run in_application_range
first-IsApart = record {
  function = record {
    not_read = omega arith;
    not_copied = omega arith;
    not_function = omega arith;
    off_blocks = record {
      not_pointer = omega arith;
      not_original = λ i lt. ground arith;
      not_trampoline = λ i lt. ground arith;
      not_field = ground arith;
    };
  };
  trampoline = λ j small. record {
    not_read = ground arith;
    not_copied = ground arith;
    not_function = ground arith;
    off_blocks = record {
      not_pointer = ground arith;
      not_original = λ i lt. ground arith;
      not_trampoline = λ i lt. ground arith;
      not_field = ground arith;
    };
  };
}

-- The second is taken out again.
restored_run : Run
unfolding other_run restore_function source_to_physical
restored_run = returned (restore_function console other_run.patch other_run.machine)

restored_run-done : restore_function console other_run.patch other_run.machine ≡ done restored_run
unfolding restored_run
restored_run-done = refl

one_patched :
    (restored_run.result ≡ true)
    × (restored_run.machine.memory 0x20004000 ≡ 0x9421fff8)
    × (restored_run.machine.memory 0x20000000 ≡ 0x48900002)
unfolding restored_run
one_patched = (refl, refl, refl)

first-IsApartRestored : IsApartRestored console game_run.patch other_run.patch
unfolding other_run in_application_range restore_target
first-IsApartRestored = record {
  function = record { not_read = omega arith; not_source = omega arith; not_target = omega arith };
  trampoline = λ j small. record {
    not_read = ground arith;
    not_source = ground arith;
    not_target = ground arith;
  };
}

first_check :
    IsProcessCheck console
      (code_in console (code console) restored_run.machine.memory)
      game_run.patch
unfolding game_run
first_check = record {
  menu_fits = omega arith;
  game_fits = omega arith;
  target_fits = omega arith;
  reads_upid = refl;
}

run-patch_function-OtherCalls_example :
    (e : Cpu) × Runs (code_in console (code console) restored_run.machine.memory) (at 0x20000000) e
    × (e.pc ≡ game_run.patch.replacement_function_address)
    × (e.registers ≡ (at 0x20000000).registers)
unfolding game_run
run-patch_function-OtherCalls_example =
    run-patch_function-OtherCalls console console-IsPlatform write_local (code console) refl
      game_patch machine game_run refl game_run-done game_run-words.2 (λ needs. game_run-HasRoom)
      restored_run.machine.memory
      (then_restores other_run.patch other_run.machine restored_run
        (then_patches other_patch game_run.machine other_run (no_call game_run.machine.memory)
          other_run-done first-IsApart)
        restored_run-done first-IsApartRestored)
      first_check (at 0x20000000) refl (omega arith) refl refl
