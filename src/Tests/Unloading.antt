-- ===== src/Tests/Unloading.antt =====
-- The library of the second of two patches is unloaded.
use function_patcher_module.Base.{
  ℕ, some, false, [], ◌∷◌, ◌≡◌, ◌&&◌, if◌then◌else◌, contains, refl, arith, text, ◌==◌,
}
use mathlib.Core.List.{reverse}
use function_patcher_module.Platform.{in_application_range}
use function_patcher_module.Patch.{State}
use function_patcher_module.Utils.{local_to_physical}
use function_patcher_module.FunctionAddressProvider.Handles.{has_handle}
use function_patcher_module.FunctionAddressProvider.{get_type_for_handle}
use function_patcher_module.Main.{notify_unloaded}
use function_patcher_module.Main.StillInMemory.{is_intact}
use function_patcher_module.Main.Unloading.{without_module, notify_unloaded_lem}
use function_patcher_module.Tests.Console.{console, console-IsPlatform, machine}
use function_patcher_module.Tests.Calls.{two_patches, first, second}

-- Both patches are applied; the second is one of coreinit, with the handle 77.
abbrev with_coreinit : State
with_coreinit = record two_patches {
  machine = record machine {
    rpl_handles =
        record { library = 1; rplname = text "avm.rpl"; handle = 0 }
        ∷ record { library = 2; rplname = text "coreinit.rpl"; handle = 77 }
        ∷ [];
  };
  objects = λ a.
      if a == 0x10001000
      then first
      else record second { real_physical_function_address = 0x20000040; library = some 2 };
}

notify_unloaded_lem_example :
    ((a : ℕ)
      → ((notify_unloaded console 77 with_coreinit).objects a).is_patched ≡ (
          if contains with_coreinit.patched_functions a
          then (without_module console 77 with_coreinit a).is_patched
            && is_intact machine.memory
                (without_module console 77 with_coreinit)
                (reverse with_coreinit.patched_functions)
                (with_coreinit.objects a).real_physical_function_address
          else (with_coreinit.objects a).is_patched))
    × (has_handle 77 (notify_unloaded console 77 with_coreinit).machine.rpl_handles ≡ false)
unfolding in_application_range
notify_unloaded_lem_example =
    notify_unloaded_lem console console-IsPlatform
      (unfold local_to_physical in_application_range in omega arith) 77 with_coreinit (omega arith)
      ((λ h. refl), ((λ h. refl), tt)) (λ a. ground arith)

-- The second patch counts as applied no more.
second_unloaded : (without_module console 77 with_coreinit 0x10001100).is_patched ≡ false
unfolding get_type_for_handle
second_unloaded = refl
