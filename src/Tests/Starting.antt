-- ===== src/Tests/Starting.antt =====
-- The start of the module on a console whose loader has both of its tests.
use function_patcher_module.Base.{
  ◌+◌, true, none, some, text, text_eq, ◌≡◌, if◌then◌else◌, refl, arith,
}
use function_patcher_module.Platform.{write, in_application_range, done}
use function_patcher_module.Main.{patch_dyn_load_functions}
use function_patcher_module.Main.Initialize.{
  Startup, ThreadMemory, Started, update_function_pointer, initialize,
}
use function_patcher_module.Main.Starting.{
  IsAnswered, IsApart, IsStarted, KeepsToBlock, initialize-IsStarted,
}
use function_patcher_module.Tests.Console.{console, console-IsPlatform}
use function_patcher_module.Tests.DynLoad.{loader}

-- The heap's own data begin with its signature.
-- The pointer to the allocation function lies at 0x02010000, the one to the other at 0x02010004.
abbrev pub startup : Startup
startup = record {
  acquire = λ name. if text_eq name (text "coreinit") then some 2 else none;
  find_data = λ handle name.
      if text_eq name (text "MEMAllocFromDefaultHeapEx") then some 0x02010000 else some 0x02010004;
  jump_heap_data = 0x00900000;
  create_heap = λ address size flags m. (address, write m (address + 0x30000000) 0x45585048);
  provider_created = true;
}

abbrev pub no_functions : ThreadMemory
no_functions = record { allocate = 0; free = 0 }

pub startup-IsAnswered : IsAnswered console startup loader no_functions
unfolding update_function_pointer patch_dyn_load_functions in_application_range text_eq
startup-IsAnswered = record {
  functions = refl;
  patched = refl;
  has_heap = omega arith;
  has_provider = refl;
}

pub startup-IsApart : IsApart console startup
unfolding in_application_range
startup-IsApart = record {
  argument = omega arith;
  number_known = omega arith;
  info_known = omega arith;
  tests = omega arith;
  number_argument = omega arith;
  number_heap = λ i lt. ground arith;
  info_heap = λ i lt. ground arith;
}

startup-KeepsToBlock : KeepsToBlock console startup
unfolding in_application_range
startup-KeepsToBlock = λ m x clear. let first = clear 0 (omega arith) in ground arith

initialize-IsStarted_example :
    (r : Started) × (initialize console startup loader ≡ done r)
    × IsStarted console startup no_functions r
initialize-IsStarted_example =
    initialize-IsStarted console startup console-IsPlatform startup-KeepsToBlock startup-IsApart
      loader no_functions startup-IsAnswered
