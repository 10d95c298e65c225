-- ===== src/Main/Reapplying.antt =====
-- `WUMS_APPLICATION_STARTS` of source/main.cpp: what calls of the patched functions reach at the
-- start of a title, after the check of the patches in memory and the visit of all of them.
use function_patcher_module.Base.{ℕ, ◌+◌, ◌*◌, ◌<◌, true, false, List, ◌≡◌, ◌≢◌, ◌==◌, contains}
use function_patcher_module.Platform.{Platform, Memory}
use function_patcher_module.Patch.{Patch, State}
use function_patcher_module.Ppc.{Code}
use function_patcher_module.Utils.{IsPlatform, local_to_physical}
use function_patcher_module.FunctionPatcher.Active.{IsTrampoline}
use function_patcher_module.PatchedFunctionData.Make.{needs_trampoline}
use function_patcher_module.PatchedFunctionData.Jumps.{branch_to}
use function_patcher_module.Main.{check_if_patched_functions_are_still_in_memory}

-- The patch's branch, wherever it may still stand, leads to the trampoline in the jump heap or to the
-- replacement.
pub record IsLeading (p : Platform) (k : Code) (m : Memory) (d : Patch) : Type 0 where
  pub trampoline : needs_trampoline p d ≡ true → IsTrampoline p k m d
  pub direct :
      needs_trampoline p d ≡ false
      → d.replace_with_instruction ≡ branch_to d.replacement_function_address

-- The listed patches that count as applied are of different functions, and their branches lead on;
-- no function lies in the local variable that instructions are read into, and no trampoline of these.
pub record IsLeft (p : Platform) (k : Code) (s : State) : Type 0 where
  pub leading :
      (a : ℕ)
      → contains s.patched_functions a ≡ true
      → (s.objects a).is_patched ≡ true
      → IsLeading p k s.machine.memory (s.objects a)
  pub functions :
      (a b : ℕ)
      → contains s.patched_functions a ≡ true
      → contains s.patched_functions b ≡ true
      → (s.objects a).is_patched ≡ true
      → (s.objects b).is_patched ≡ true
      → (a == b) ≡ false
      → (s.objects a).real_physical_function_address ≢ (s.objects b).real_physical_function_address
  pub far :
      (a : ℕ) → (s.objects a).real_physical_function_address ≢ p.mmu p.current_instruction_address
  pub trampoline_far :
      (a i : ℕ)
      → contains s.patched_functions a ≡ true
      → i < 15
      → p.mmu ((s.objects a).jump_data + 4 * i) ≢ p.mmu p.current_instruction_address

module _ (p : Platform) (laws : IsPlatform p)
    (can_read : local_to_physical p p.current_instruction_address ≢ 0) (k : Code) (s : State)
    (left : IsLeft p k s) where
  abbrev checked : State
  checked = check_if_patched_functions_are_still_in_memory p s
