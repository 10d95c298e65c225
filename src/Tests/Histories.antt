-- ===== src/Tests/Histories.antt =====
-- A history of the module: two patches of one function, the end of the title, and a removal.
use function_patcher_module.Base.{
  ℕ, count, ◌+◌, ◌≤◌, ◌≡◌, false, true, some, List, [], ◌∷◌, contains, refl, arith,
}
use function_patcher_module.Platform.{Platform, done, in_application_range}
use function_patcher_module.Patch.{State}
use function_patcher_module.Utils.{local_to_physical, read_from_physical_address}
use function_patcher_module.PatchedFunctionData.Make.{make_shared_v2}
use function_patcher_module.PatchedFunctionData.Title.{should_be_patched}
use function_patcher_module.PatchedFunctionData.Address.{update_function_addresses}
use function_patcher_module.PatchedFunctionData.Jumps.{
  generate_jump_to_original, generate_replacement_jump,
}
use function_patcher_module.FunctionPatcher.{patch_function, restore_function}
use function_patcher_module.Export.Status.{success, is_success}
use function_patcher_module.Export.Add.{Added, fp_add_function_patch}
use function_patcher_module.Export.Query.{fp_is_function_patched}
use function_patcher_module.Export.Remove.{Removed, fp_remove_function_patch}
use function_patcher_module.Main.{application_ends}
use function_patcher_module.Main.Registry.{
  RegistrySteps, known, event, events, add_call, hook, Steps-refines,
}
use function_patcher_module.Main.Histories.{IsFresh, adds, ends, Steps, no_step, followed}
use function_patcher_module.Tests.Console.{console, machine}
use function_patcher_module.Tests.Calls.{two_patches, returned_removed}
use function_patcher_module.Tests.Adding.{replacement2, returned_added}

-- An address above all of these.
abbrev above : List ℕ → ℕ
above [] = 0x10001000
above (a ∷ live) = a + 256 + above live

above-contains : (live : List ℕ) (a : ℕ) → above live ≤ a → contains live a ≡ false
above-contains [] a h = refl
above-contains (b ∷ live) a h = ground (arith, above-contains live a)

abbrev pub fresh_console : Platform
fresh_console = record console { new_object = above }

pub fresh_console-IsFresh : IsFresh fresh_console
fresh_console-IsFresh live = above-contains live (above live) (omega arith)

abbrev no_patches : State
no_patches = record two_patches { machine = record machine { heap = [] }; patched_functions = [] }

added_first : Added
unfolding fp_add_function_patch patch_function should_be_patched update_function_addresses
    read_from_physical_address generate_jump_to_original generate_replacement_jump local_to_physical
    in_application_range make_shared_v2
added_first = returned_added (fp_add_function_patch fresh_console (some replacement2) 9 no_patches)

added_first-done :
    fp_add_function_patch fresh_console (some replacement2) 9 no_patches ≡ done added_first
unfolding added_first
added_first-done = refl

added_second : Added
unfolding added_first
added_second =
    returned_added (fp_add_function_patch fresh_console (some replacement2) 9 added_first.state)

added_second-done :
    fp_add_function_patch fresh_console (some replacement2) 9 added_first.state ≡ done added_second
unfolding added_second
added_second-done = refl

title_ended : State
unfolding added_second application_ends
title_ended = application_ends added_second.state

unfoldable history : Steps no_patches title_ended
unfolding title_ended
history =
    followed
      (followed
        (followed (no_step no_patches) (
          adds fresh_console fresh_console-IsFresh (some replacement2) 9 no_patches added_first
            added_first-done))
        (adds fresh_console fresh_console-IsFresh (some replacement2) 9 added_first.state
          added_second added_second-done))
      (ends added_second.state)

first_removed : Removed
unfolding title_ended fp_remove_function_patch restore_function
first_removed = returned_removed (fp_remove_function_patch fresh_console 0x10001000 title_ended)

first_removed-done :
    fp_remove_function_patch fresh_console 0x10001000 title_ended ≡ done first_removed
unfolding first_removed
first_removed-done = refl

-- The removal took one of the two away.
one_left :
    (first_removed.status ≡ success) × (first_removed.state.patched_functions ≡ 0x20002100 ∷ [])
unfolding first_removed
one_left = (refl, refl)

-- The block of the first patch's trampoline is live, once.
title_ended-owned : count 0x00900000 title_ended.machine.heap ≡ 1
unfolding title_ended
title_ended-owned = refl

Steps-refines_example :
    RegistrySteps
      (known no_patches)
      (add_call success (some 0x10001000) ∷ add_call success (some 0x20002100) ∷ hook ∷ [])
      (known title_ended)
    × ((handle : ℕ)
        → is_success (fp_is_function_patched handle true title_ended).0 ≡ known title_ended handle)
unfolding events event added_second history
Steps-refines_example = Steps-refines history tt
