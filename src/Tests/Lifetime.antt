-- ===== src/Tests/Lifetime.antt =====
-- The module from its start to its first patch and the end of the title.
use function_patcher_module.Base.{some, text_eq, ◌≡◌, refl}
use function_patcher_module.Platform.{done, in_application_range, Outcome, fatal}
use function_patcher_module.Utils.{local_to_physical, read_from_physical_address}
use function_patcher_module.PatchedFunctionData.Make.{make_shared_v2}
use function_patcher_module.PatchedFunctionData.Title.{should_be_patched}
use function_patcher_module.PatchedFunctionData.Address.{update_function_addresses}
use function_patcher_module.PatchedFunctionData.Jumps.{
  generate_jump_to_original, generate_replacement_jump,
}
use function_patcher_module.FunctionPatcher.{patch_function}
use function_patcher_module.Export.Add.{Added, fp_add_function_patch}
use function_patcher_module.Main.{patch_dyn_load_functions}
use function_patcher_module.Main.Initialize.{Started, initialize, set_up, update_function_pointer}
use function_patcher_module.Main.Histories.{adds, no_step, followed, AreDistinct}
use function_patcher_module.Main.Ownership.{IsBalanced}
use function_patcher_module.Main.Lifetime.{initialize-Steps}
use function_patcher_module.Tests.Console.{console}
use function_patcher_module.Tests.DynLoad.{loader}
use function_patcher_module.Tests.Calls.{two_patches}
use function_patcher_module.Tests.Adding.{replacement2, returned_added}
use function_patcher_module.Tests.Histories.{fresh_console, fresh_console-IsFresh}
use function_patcher_module.Tests.Starting.{startup, no_functions}

abbrev returned_started : Outcome Started → Started
returned_started (done r) = r
returned_started (fatal e) = record {
  thread_memory = no_functions;
  jump_heap_handle = 0;
  state = two_patches;
}

unfoldable pub started : Started
unfolding initialize set_up update_function_pointer patch_dyn_load_functions in_application_range
    text_eq
started = returned_started (initialize console startup loader)

pub started-done : initialize console startup loader ≡ done started
unfolding started
started-done = refl

patched : Added
unfolding started fp_add_function_patch patch_function should_be_patched update_function_addresses
    read_from_physical_address generate_jump_to_original generate_replacement_jump local_to_physical
    in_application_range make_shared_v2
patched = returned_added (fp_add_function_patch fresh_console (some replacement2) 9 started.state)

patched-done :
    fp_add_function_patch fresh_console (some replacement2) 9 started.state ≡ done patched
unfolding patched
patched-done = refl

initialize-Steps_example : AreDistinct patched.state.patched_functions × IsBalanced patched.state
initialize-Steps_example =
    initialize-Steps console startup loader started started-done patched.state (
      followed (no_step started.state) (
        adds fresh_console fresh_console-IsFresh (some replacement2) 9 started.state patched
          patched-done))
