-- ===== src/Tests/Adding.antt =====
-- `FPAddFunctionPatch` and the making of a patch.
use function_patcher_module.Base.{
  ◌*◌, ◌≤◌, ◌≡◌, ◌↔◌, ◌⊎◌, Bool, true, false, ◌==◌, if◌then◌else◌, none, some, [], ◌∷◌, refl, arith,
  length, contains,
}
use function_patcher_module.Platform.{Platform, Memory, Outcome, done, fatal, in_application_range}
use function_patcher_module.Patch.{Patch, executable_by_address}
use function_patcher_module.Utils.{local_to_physical, read_from_physical_address}
use function_patcher_module.PatchedFunctionData.Make.{make_shared_v2, make_shared_v3}
use function_patcher_module.PatchedFunctionData.Title.{is_executable, should_be_patched}
use function_patcher_module.PatchedFunctionData.Titles.{not_updated, should_be_patched_lem}
use function_patcher_module.PatchedFunctionData.Address.{update_function_addresses}
use function_patcher_module.PatchedFunctionData.Jumps.{
  generate_jump_to_original, generate_replacement_jump, replacement_jump_code,
}
use function_patcher_module.PatchedFunctionData.Buffers.{
  HasBuffers, IsMade, make_shared_v3-IsMade, generate_jumps-done,
}
use function_patcher_module.FunctionPatcher.{patch_function}
use function_patcher_module.Export.Status.{success, patch_not_found}
use function_patcher_module.Export.Add.{ReplacementData, Added, fp_add_function_patch}
use function_patcher_module.Export.Adding.{IsAdded, fp_add_function_patch-IsAdded}
use function_patcher_module.Tests.Console.{console, game_patch, machine}
use function_patcher_module.Tests.Calls.{two_patches, replacement}

abbrev pub returned_added : Outcome Added → Added
returned_added (done r) = r
returned_added (fatal e) = record {
  status = patch_not_found;
  out_handle = none;
  out_has_been_patched = none;
  state = two_patches;
}

abbrev pub replacement2 : ReplacementData
replacement2 = record replacement { version = 2 }

unfoldable pub added : Added
unfolding fp_add_function_patch patch_function should_be_patched update_function_addresses
    read_from_physical_address generate_jump_to_original generate_replacement_jump local_to_physical
    in_application_range make_shared_v2
added = returned_added (fp_add_function_patch console (some replacement2) 9 two_patches)

pub added-done : fp_add_function_patch console (some replacement2) 9 two_patches ≡ done added
unfolding added
added-done = refl

pub third_added :
    (added.status ≡ success)
    × (added.out_handle ≡ some 0x10001200)
    × (added.out_has_been_patched ≡ some true)
unfolding added
third_added = (refl, refl, refl)

fp_add_function_patch-IsAdded_example : IsAdded console two_patches added
fp_add_function_patch-IsAdded_example =
    fp_add_function_patch-IsAdded console two_patches (some replacement2) 9 added added-done

make_shared_v3-IsMade_example :
    IsMade console 0x10001000 [] (make_shared_v3 console 0x10001000 (some replacement.as_v3) 9 [])
make_shared_v3-IsMade_example =
    make_shared_v3-IsMade console 0x10001000 (some replacement.as_v3) 9 []

game_patch-HasBuffers : HasBuffers console game_patch
game_patch-HasBuffers = record {
  original = omega arith;
  trampoline = λ h. omega arith;
  size = refl;
}

generate_jumps-done_example :
    ((m' : Memory) × (generate_jump_to_original console game_patch machine.memory ≡ done m'))
    × ((r : Patch × Memory) × (generate_replacement_jump console game_patch machine.memory
          ≡ done r))
    × (4 * length (replacement_jump_code console game_patch) ≤ 60)
generate_jumps-done_example =
    generate_jumps-done console game_patch machine.memory game_patch-HasBuffers (λ h. refl)

abbrev title_patch : Patch
title_patch = record game_patch {
  type = executable_by_address;
  title_ids = 42 ∷ [];
  title_version_max = 32;
}

-- No update of the running title is known to this console.
abbrev old_console : Platform
old_console = record console { title_info = λ id. if id == 42 then (0, 16) else (1, 0) }

should_be_patched_lem_example :
    (wanted : Bool) × (should_be_patched old_console title_patch ≡ done wanted)
    × ((wanted ≡ true) ↔ (
        (is_executable title_patch.type ≡ false)
        ⊎ ((contains title_patch.title_ids 42 ≡ true) × (0 ≤ 16) × (16 ≤ 32))))
should_be_patched_lem_example =
    should_be_patched_lem old_console title_patch 16 (not_updated refl (omega arith) refl)
