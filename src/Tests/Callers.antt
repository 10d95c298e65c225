-- ===== src/Tests/Callers.antt =====
-- Two threads in the module at once.
use function_patcher_module.Base.{ℕ, zero, suc, ◌≡◌, ◌≢◌, ◌⊎◌, some, [], ◌∷◌, inl, refl, get_elem?}
use function_patcher_module.Platform.{Outcome, done, fatal, in_application_range}
use function_patcher_module.Utils.{local_to_physical, read_from_physical_address}
use function_patcher_module.Patch.{State, store}
use function_patcher_module.FunctionPatcher.{patch_function, restore_function}
use function_patcher_module.Export.Status.{success}
use function_patcher_module.Export.Remove.{
  Search, search_patch, on_object, on_objects, take_out, erase_patch, put_in_again, release_object,
}
use function_patcher_module.Main.Registry.{RegistrySteps, remove_call, hook, known}
use function_patcher_module.Callers.{
  idle, MayLock, removing, found, taken, erased, restored, at_loop, patching, leaving, remove_locks,
  loaded_locks, leave_unlocks, searches, takes_out, erases, puts_in, releases, makes_none, begins,
  patches_next, System, Pc, works, locks, unlocks, Interleaving, not_begun, and_then,
}
use function_patcher_module.Callers.Iteration.{IsOutside, IsRest, Interleaving-IsRest}
use function_patcher_module.Callers.Waiting.{IsHolder, Interleaving-waiting}
use function_patcher_module.Callers.Registry.{effect, effects, Interleaving-refines}
use function_patcher_module.Tests.Console.{console}
use function_patcher_module.Tests.Calls.{two_patches}

-- A loop over two patches, with the first of them done and the other thread outside.
abbrev outside : System
outside = record {
  state = two_patches;
  mutex = record { owner = 0; depth = 0 };
  threads = idle ∷ idle ∷ [];
}

first_done : State
first_done = record two_patches {
  objects = store two_patches.objects 0x10001000 (two_patches.objects 0x10001000);
}

first_done-done : on_object (patch_function console) two_patches 0x10001000 ≡ done first_done
unfolding first_done on_object patch_function
first_done-done = refl

abbrev in_loop : System
in_loop = record {
  state = first_done;
  mutex = record { owner = 1; depth = 1 };
  threads = idle ∷ patching (0x10001100 ∷ []) ∷ [];
}

loop_begun : Interleaving outside in_loop
unfolding first_done
loop_begun =
    let begun : Interleaving outside outside = not_begun outside in
    let locked = and_then begun (locks 1 idle at_loop refl loaded_locks (inl refl)) in
    let looping =
      and_then locked
        (works 1 at_loop two_patches (patching (0x10001000 ∷ 0x10001100 ∷ [])) refl begins) in
    and_then looping (
      works 1 (patching (0x10001000 ∷ 0x10001100 ∷ [])) first_done (patching (0x10001100 ∷ [])) refl
        (patches_next console 0x10001000 (0x10001100 ∷ []) two_patches.machine two_patches.machine
          first_done first_done-done))

outside-IsOutside : IsOutside outside
outside-IsOutside = record { free = refl; threads = only_idle }
  where
    only_idle : (i : ℕ) (pc : Pc) → get_elem? (idle ∷ idle ∷ []) i ≡ some pc → pc ≡ idle
    only_idle zero pc h = cc
    only_idle (suc zero) pc h = cc
    only_idle (suc (suc i)) pc h = absurd (cc)

Interleaving-IsRest_example : IsRest (0x10001100 ∷ []) (0x10001000 ∷ 0x10001100 ∷ [])
unfolding first_done
Interleaving-IsRest_example =
    Interleaving-IsRest loop_begun outside-IsOutside 1 (0x10001100 ∷ []) refl

-- The other thread is to go through the list, too.
Interleaving-waiting_example :
    MayLock 0 in_loop.mutex ⊎ ((j : ℕ) × (pc : Pc) × (j ≢ 0) × IsHolder in_loop j pc)
Interleaving-waiting_example =
    Interleaving-waiting loop_begun outside-IsOutside 0 idle at_loop refl loaded_locks

-- The second patch is removed; when its position has been found, the other thread makes a patch in
-- vain.
abbrev second : ℕ
second = 0x10001100

abbrev the_second : Search
the_second = record { to_be_removed = some second; to_be_temp_restored = []; erase_position = 1 }

abbrev returned_state : Outcome State → State
returned_state (done s) = s
returned_state (fatal e) = two_patches

-- The jump heap as it is after that.
abbrev disturbed : State
disturbed = record two_patches { machine = record (two_patches.machine) { heap = [] } }

second_out : State
unfolding take_out on_objects on_object restore_function read_from_physical_address
    local_to_physical in_application_range
second_out = returned_state (take_out console second [] disturbed)

second_out-done : take_out console second [] disturbed ≡ done second_out
unfolding second_out
second_out-done = refl

abbrev second_erased : State
second_erased = erase_patch 1 second_out

second_removed : State
unfolding second_out put_in_again on_objects on_object
second_removed = returned_state (put_in_again console second [] second_erased)

second_removed-done : put_in_again console second [] second_erased ≡ done second_removed
unfolding second_removed
second_removed-done = refl

abbrev after : System
after = record {
  state = release_object console second second_removed;
  mutex = record { owner = 0; depth = 0 };
  threads = idle ∷ idle ∷ [];
}

unfoldable removal : Interleaving outside after
unfolding search_patch second_removed release_object
removal =
    let f : Search = the_second in
    let begun : Interleaving outside outside = not_begun outside in
    let locked =
      and_then begun (locks 0 idle (removing second) refl (remove_locks second) (inl refl)) in
    let searched =
      and_then locked
        (works 0 (removing second) two_patches (found second f) refl (searches second)) in
    let other =
      and_then searched (works 1 idle disturbed idle refl (makes_none disturbed.machine)) in
    let out = and_then other (
      works 0 (found second f) second_out (taken second second f) refl (
        takes_out console second second f disturbed.machine second_out.machine second_out refl
          second_out-done)) in
    let gone = and_then out (
      works 0 (taken second second f) second_erased (erased second f) refl
        (erases second second f)) in
    let again = and_then gone (
      works 0 (erased second f) second_removed (restored second) refl (
        puts_in console second f second_erased.machine second_removed.machine second_removed
          second_removed-done)) in
    let freed = and_then again (
      works 0 (restored second) (release_object console second second_removed) leaving refl
        (releases console second second_removed.machine)) in
    and_then freed (unlocks 0 leaving idle refl leave_unlocks)

Interleaving-refines_example :
    RegistrySteps
      (known two_patches)
      (hook ∷ hook ∷ hook ∷ remove_call second success ∷ hook ∷ hook ∷ [])
      (known after.state)
unfolding removal effects effect
Interleaving-refines_example = Interleaving-refines removal outside-IsOutside (refl, (refl, tt))
