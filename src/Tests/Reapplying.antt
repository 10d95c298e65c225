-- ===== src/Tests/Reapplying.antt =====
-- A title starts on the console, and brings a patched function back as it was.
use function_patcher_module.Base.{◌≡◌, refl}
use function_patcher_module.Platform.{write}
use function_patcher_module.Patch.{State}
use function_patcher_module.Main.{
  application_starts, check_if_patched_functions_are_still_in_memory,
}
use function_patcher_module.Tests.Console.{console, machine}
use function_patcher_module.Tests.Calls.{returned_state}
use function_patcher_module.Tests.Patching.{game_run}
use function_patcher_module.Tests.Undisturbed.{other_run}
use function_patcher_module.Tests.Reaching.{one_applied}

-- The first patch counts as applied, but its branch is gone.
abbrev replaced : State
replaced = record one_applied {
  machine = record (game_run.machine) {
    memory = write game_run.machine.memory 0x20000000 0x9421fff8;
  };
}

restarted : State
unfolding application_starts check_if_patched_functions_are_still_in_memory other_run
restarted = returned_state (application_starts console replaced)

-- Both branches stand.
restarted-words :
    (restarted.machine.memory 0x20000000 ≡ 0x48900002)
    × (restarted.machine.memory 0x20004000 ≡ 0x48900102)
unfolding restarted
restarted-words = (refl, refl)
