-- ===== src/FunctionPatcher/Undisturbed.antt =====
-- An applied patch while others are applied and restored.
use function_patcher_module.Base.{ℕ, ◌+◌, ◌*◌, ◌%◌, ◌^◌, ◌<◌, true, false, ◌≡◌, ◌≢◌, ◌∙◌, arith}
use function_patcher_module.Platform.{Platform, Memory, done}
use function_patcher_module.Patch.{Patch, Machine, Run}
use function_patcher_module.Ppc.{Cpu, Code, Runs}
use function_patcher_module.Utils.{IsPlatform, local_to_physical}
use function_patcher_module.FunctionPatcher.{patch_function, restore_function}
use function_patcher_module.FunctionPatcher.Patching.{some_thread}
use function_patcher_module.FunctionPatcher.Placed.{HasRoom}
use function_patcher_module.FunctionPatcher.Frame.{IsElsewhere, patch_function-frame}
use function_patcher_module.FunctionPatcher.RestoreFrame.{
  IsElsewhereRestored, restore_function-frame,
}
use function_patcher_module.FunctionPatcher.Active.{
  IsActive, patch_function-IsActive, run-IsActive-target,
}
use function_patcher_module.PatchedFunctionData.Make.{needs_trampoline}
use function_patcher_module.PatchedFunctionData.Jumps.{replacement_jump_code}
use function_patcher_module.PatchedFunctionData.Execution.{length-replacement_jump_code}
use function_patcher_module.PatchedFunctionData.InMemory.{code_in, Lies-same}
use function_patcher_module.PatchedFunctionData.ProcessCheck.{IsProcessCheck, is_target}

-- The words that a call of one patch's function runs through are none that applying the other
-- writes to.
pub record IsApart (p : Platform) (d other : Patch) : Type 0 where
  pub function : IsElsewhere p other d.real_physical_function_address
  pub trampoline : (i : ℕ) → i < 15 → IsElsewhere p other (p.mmu (d.jump_data + 4 * i))

-- The same for the words that `RestoreFunction` of the other writes to.
pub record IsApartRestored (p : Platform) (d other : Patch) : Type 0 where
  pub function : IsElsewhereRestored p other d.real_physical_function_address
  pub trampoline : (i : ℕ) → i < 15 → IsElsewhereRestored p other (p.mmu (d.jump_data + 4 * i))

-- From one memory to another by calls of `PatchFunction` and `RestoreFunction`, whatever their
-- results, for patches that lie apart from `d`.
pub data OtherCalls (p : Platform) (d : Patch) : Memory → Memory → Type 0 where
  no_call : (m : Memory) → OtherCalls p d m m
  then_patches :
      {m : Memory} (other : Patch) (mc : Machine) (r : Run)
      → OtherCalls p d m mc.memory
      → patch_function p other mc ≡ done r
      → IsApart p d r.patch
      → OtherCalls p d m r.machine.memory
  then_restores :
      {m : Memory} (other : Patch) (mc : Machine) (r : Run)
      → OtherCalls p d m mc.memory
      → restore_function p other mc ≡ done r
      → IsApartRestored p d other
      → OtherCalls p d m r.machine.memory

module _ (p : Platform) (k : Code) where
  -- An active patch is active in every memory that has the words that a call runs through.
  pub IsActive-same :
      (d : Patch) (m m' : Memory)
      → m' d.real_physical_function_address ≡ m d.real_physical_function_address
      → ((i : ℕ) → i < 15 → m' (p.mmu (d.jump_data + 4 * i)) ≡ m (p.mmu (d.jump_data + 4 * i)))
      → IsActive p k m d
      → IsActive p k m' d
  IsActive-same d m m' first block active = record {
    in_place = first ∙ active.in_place;
    trampoline = λ needs.
        let at = active.trampoline needs in
        record {
          in_range = at.in_range;
          branch = at.branch;
          lies =
              Lies-same p k m m' d.jump_data (replacement_jump_code p d)
                (λ i lt. block i (omega (arith, length-replacement_jump_code p d))) at.lies;
        };
    direct = active.direct;
  }

module _ (p : Platform) (laws : IsPlatform p)
    (local : local_to_physical p p.replace_instruction_address ≢ 0) (k : Code) where
  -- An active patch stays active where another is applied.
  pub patch_function-IsApart :
      (d other : Patch) (mc : Machine) (r : Run)
      → IsActive p k mc.memory d
      → patch_function p other mc ≡ done r
      → IsApart p d r.patch
      → IsActive p k r.machine.memory d
  patch_function-IsApart d other mc r active run apart =
      let same = λ (x : ℕ) (e : IsElsewhere p r.patch x).
        patch_function-frame p x laws local other mc r run e in
      IsActive-same p k d mc.memory r.machine.memory
        (same d.real_physical_function_address apart.function)
        (λ i lt. same (p.mmu (d.jump_data + 4 * i)) (apart.trampoline i lt)) active

  restore_function-IsApart :
      (d other : Patch) (mc : Machine) (r : Run)
      → IsActive p k mc.memory d
      → restore_function p other mc ≡ done r
      → IsApartRestored p d other
      → IsActive p k r.machine.memory d
  restore_function-IsApart d other mc r active run apart =
      let same = λ (x : ℕ) (e : IsElsewhereRestored p other x).
        restore_function-frame p laws x other mc r run e in
      IsActive-same p k d mc.memory r.machine.memory
        (same d.real_physical_function_address apart.function)
        (λ i lt. same (p.mmu (d.jump_data + 4 * i)) (apart.trampoline i lt)) active

  OtherCalls-IsActive :
      (d : Patch) {m m' : Memory} → OtherCalls p d m m' → IsActive p k m d → IsActive p k m' d
  OtherCalls-IsActive d (no_call m) active = active
  OtherCalls-IsActive d (then_patches other mc r calls run apart) active =
      patch_function-IsApart d other mc r (OtherCalls-IsActive d calls active) run apart
  OtherCalls-IsActive d (then_restores other mc r calls run apart) active =
      restore_function-IsApart d other mc r (OtherCalls-IsActive d calls active) run apart

  -- After a successful `PatchFunction` of a patch that was not applied, and then any number of calls
  -- of `PatchFunction` and `RestoreFunction` for other patches, whatever their results, a call of the
  -- first one's function by a process that the first patch is for still reaches the first one's
  -- replacement, a word-aligned 32-bit address, with all registers but r11, CTR and the condition as
  -- they were. The words of the first patch's branch and trampoline are none that those calls write
  -- to; the first trampoline's block is contiguous and clear of the first function's first word and
  -- of the local variable that the branch is copied from; that variable has a physical address, some
  -- core's writing thread has its memory, the process codes are small, and OSGetUPID begins with the
  -- load of its result.
  pub run-patch_function-OtherCalls :
      some_thread p ≡ true
      → (d : Patch) (mc : Machine) (r : Run) → d.is_patched ≡ false
      → patch_function p d mc ≡ done r
      → r.result ≡ true
      → (needs_trampoline p r.patch ≡ true → HasRoom p r.patch)
      → (m : Memory) → OtherCalls p r.patch r.machine.memory m
      → IsProcessCheck p (code_in p k m) r.patch
      → (c : Cpu) → p.mmu c.pc ≡ r.patch.real_physical_function_address
      → r.patch.replacement_function_address < 2 ^ 32
      → r.patch.replacement_function_address % 4 ≡ 0
      → is_target p r.patch p.upid ≡ true
      → (e : Cpu) × Runs (code_in p k m) c e
        × (e.pc ≡ r.patch.replacement_function_address)
        × (e.registers ≡ c.registers)
  run-patch_function-OtherCalls created d mc r fresh patched ok room m calls check =
      let first = patch_function-IsActive p laws local k d mc r created fresh patched ok room in
      run-IsActive-target p k m r.patch (OtherCalls-IsActive r.patch calls first) check
