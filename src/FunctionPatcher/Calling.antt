-- ===== src/FunctionPatcher/Calling.antt =====
-- A call of a function after `PatchFunction`, run on the processor of `Ppc`.
use function_patcher_module.Base.{◌+◌, ◌%◌, ◌^◌, ◌<◌, true, false, ◌≡◌, ◌≢◌}
use function_patcher_module.Platform.{Platform, done}
use function_patcher_module.Patch.{Patch, Machine, Run}
use function_patcher_module.Ppc.{Cpu, Code, execute, Runs}
use function_patcher_module.Utils.{IsPlatform, local_to_physical}
use function_patcher_module.FunctionPatcher.{patch_function}
use function_patcher_module.FunctionPatcher.Patching.{some_thread}
use function_patcher_module.FunctionPatcher.Active.{
  patch_function-IsActive, run-IsActive-target, run-IsActive-other,
}
use function_patcher_module.FunctionPatcher.Placed.{HasRoom}
use function_patcher_module.PatchedFunctionData.Make.{needs_trampoline}
use function_patcher_module.PatchedFunctionData.Jumps.{original_continuation}
use function_patcher_module.PatchedFunctionData.InMemory.{code_in}
use function_patcher_module.PatchedFunctionData.Trampoline.{jumped}
use function_patcher_module.PatchedFunctionData.ProcessCheck.{IsProcessCheck, is_target}

module _ (p : Platform) (laws : IsPlatform p)
    (local : local_to_physical p p.replace_instruction_address ≢ 0) where
  module _ (created : some_thread p ≡ true) (k : Code) (d : Patch) (mc : Machine) (r : Run)
      (fresh : d.is_patched ≡ false) (patched : patch_function p d mc ≡ done r)
      (ok : r.result ≡ true) (check : IsProcessCheck p (code_in p k r.machine.memory) r.patch) where
    -- The processor's view of the memory after the patch.
    abbrev after : Code
    after = code_in p k r.machine.memory

    -- After a successful `PatchFunction` of a patch that was not applied, a call of the function by
    -- a process that the patch is for reaches the replacement, a word-aligned 32-bit address, with
    -- all registers but r11, CTR and the condition as they were, with or without a trampoline. A
    -- trampoline's block is contiguous and clear of the function's first word and of the local
    -- variable that the branch is copied from; that variable has a physical address, some core's
    -- writing thread has its memory, the process codes are small, and OSGetUPID begins with the
    -- load of its result.
    pub run-patch_function-target :
        (c : Cpu)
        → p.mmu c.pc ≡ r.patch.real_physical_function_address
        → (needs_trampoline p r.patch ≡ true → HasRoom p r.patch)
        → r.patch.replacement_function_address < 2 ^ 32
        → r.patch.replacement_function_address % 4 ≡ 0
        → is_target p r.patch p.upid ≡ true
        → (e : Cpu) × Runs after c e
          × (e.pc ≡ r.patch.replacement_function_address)
          × (e.registers ≡ c.registers)
    run-patch_function-target c at room =
        run-IsActive-target p k r.machine.memory r.patch
          (patch_function-IsActive p laws local k d mc r created fresh patched ok room) check c at

    -- After a successful `PatchFunction` of a patch that was not applied, a call of the function by
    -- any other process executes the replaced instruction, with all registers but r11 and the
    -- condition as they were, and goes on behind it, as long as that instruction goes on to the
    -- next one and the function's address is word-aligned. The trampoline's block is contiguous and
    -- clear of the function's first word and of the local variable that the branch is copied from;
    -- that variable has a physical address, some core's writing thread has its memory, the process
    -- codes are small, and OSGetUPID begins with the load of its result.
    pub run-patch_function-other :
        (c : Cpu)
        → p.mmu c.pc ≡ r.patch.real_physical_function_address
        → HasRoom p r.patch
        → is_target p r.patch p.upid ≡ false
        → ((e : Cpu) → (execute after r.patch.replaced_instruction e).pc ≡ e.pc + 4)
        → r.patch.real_effective_function_address % 4 ≡ 0
        → (e : Cpu) × (e.registers ≡ c.registers)
          × (e.ctr ≡ c.ctr)
          × Runs after c (
              jumped (original_continuation r.patch) (execute after r.patch.replaced_instruction e))
    run-patch_function-other c at room =
        run-IsActive-other p k r.machine.memory r.patch
          (patch_function-IsActive p laws local k d mc r created fresh patched ok (λ needs. room))
          check c at
