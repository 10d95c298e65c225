-- ===== src/Tests/Reaching.antt =====
-- A library is loaded on the console while one of two listed patches is applied.
use function_patcher_module.Base.{ℕ, ◌≡◌, ◌==◌, ◌⊎◌, if◌then◌else◌, true, [], ◌∷◌, contains, arith}
use function_patcher_module.Platform.{in_application_range}
use function_patcher_module.Patch.{State, store}
use function_patcher_module.FunctionPatcher.Placed.{HasRoom}
use function_patcher_module.FunctionPatcher.Undisturbed.{IsApart}
use function_patcher_module.Tests.Console.{console, machine}
use function_patcher_module.Tests.Patching.{game_run}
use function_patcher_module.Tests.Undisturbed.{other_patch, other_run}

-- The first is applied, the second is not.
abbrev pub one_applied : State
one_applied = record {
  machine = game_run.machine;
  objects = λ a. if a == 0x10001000 then game_run.patch else other_patch;
  patched_functions = 0x10001000 ∷ 0x10001100 ∷ [];
}

abbrev loaded : State
loaded = record one_applied {
  machine = other_run.machine;
  objects = store (store one_applied.objects 0x10001000 game_run.patch) 0x10001100 other_run.patch;
}

pub listed-cases :
    (a : ℕ) → contains (0x10001000 ∷ 0x10001100 ∷ []) a ≡ true → (a ≡ 0x10001000) ⊎ (a ≡ 0x10001100)
listed-cases a h = ground arith

pub second-IsApart : IsApart console other_run.patch game_run.patch
unfolding other_run in_application_range
second-IsApart = record {
  function = record {
    not_read = omega arith;
    not_copied = omega arith;
    not_function = omega arith;
    off_blocks = record {
      not_pointer = omega arith;
      not_original = λ i lt. ground arith;
      not_trampoline = λ i lt. ground arith;
      not_field = ground arith;
    };
  };
  trampoline = λ j small. record {
    not_read = ground arith;
    not_copied = ground arith;
    not_function = ground arith;
    off_blocks = record {
      not_pointer = ground arith;
      not_original = λ i lt. ground arith;
      not_trampoline = λ i lt. ground arith;
      not_field = ground arith;
    };
  };
}

pub other_run-HasRoom : HasRoom console other_run.patch
unfolding other_run in_application_range
other_run-HasRoom = record {
  contiguous = λ i lt. ground arith;
  clear_function = λ i lt. ground arith;
  clear_local = λ i lt. ground arith;
}
