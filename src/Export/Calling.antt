-- ===== src/Export/Calling.antt =====
-- A call of a function after `FPAddFunctionPatch`, run on the processor of `Ppc`.
use function_patcher_module.Base.{ℕ, ◌+◌, ◌%◌, ◌^◌, ◌<◌, true, some, ◌≡◌, ◌≢◌, sym, ◌∙◌, ap}
use mathlib.Core.Path.{subst}
use function_patcher_module.Platform.{Platform, done}
use function_patcher_module.Patch.{Patch, Machine, State}
use function_patcher_module.Ppc.{Cpu, Code, execute, Runs}
use function_patcher_module.Utils.{IsPlatform, local_to_physical}
use function_patcher_module.FunctionPatcher.Patching.{some_thread}
use function_patcher_module.FunctionPatcher.Placed.{HasRoom}
use function_patcher_module.FunctionPatcher.Calling.{run-patch_function-target}
use function_patcher_module.PatchedFunctionData.Make.{needs_trampoline}
use function_patcher_module.PatchedFunctionData.InMemory.{code_in}
use function_patcher_module.PatchedFunctionData.Jumps.{original_continuation}
use function_patcher_module.PatchedFunctionData.Trampoline.{jumped}
use function_patcher_module.PatchedFunctionData.ProcessCheck.{IsProcessCheck, is_meant}
use function_patcher_module.Export.Add.{ReplacementData, Added, fp_add_function_patch}
use function_patcher_module.Export.Applied.{
  replacement_of, target_of, IsApplying, fp_add_function_patch-IsApplying,
}

module _ (p : Platform) (laws : IsPlatform p)
    (local : local_to_physical p p.replace_instruction_address ≢ 0) (created : some_thread p ≡ true)
    (k : Code) (s : State) (x : ReplacementData) (heap_handle : ℕ) (r : Added)
    (returned : fp_add_function_patch p (some x) heap_handle s ≡ done r)
    (reported : r.out_has_been_patched ≡ some true) where
  -- The new patch, and the processor's view of the memory after the call.
  abbrev pub new : Patch
  new = r.state.objects (p.new_object s.patched_functions)

  abbrev pub after : Code
  after = code_in p k r.state.machine.memory

  -- The function's first word before the call.
  abbrev pub original : ℕ
  original = s.machine.memory new.real_physical_function_address

  at : IsApplying p s x r
  at = fp_add_function_patch-IsApplying p s x heap_handle r returned reported

  -- The same in terms of the run of `PatchFunction`.
  abbrev Checked : Patch → Machine → Type 0
  Checked d mc = IsProcessCheck p (code_in p k mc.memory) d

  at_run : Checked new r.state.machine → Checked at.run.patch at.run.machine
  at_run check =
      subst (λ d. Checked d at.run.machine) at.object (subst (Checked new) at.after check)

  -- The instruction goes on to the next one.
  abbrev pub FallsThrough : Code → ℕ → Type 0
  FallsThrough code w = (e : Cpu) → (execute code w e).pc ≡ e.pc + 4

  module _ (check : Checked new r.state.machine) (c : Cpu)
      (here : p.mmu c.pc ≡ new.real_physical_function_address) where
    abbrev Ends : Machine → Patch → ℕ → Cpu → Type 0
    Ends mc d w e =
        let code = code_in p k mc.memory in
        Runs code c (jumped (original_continuation d) (execute code w e))

    at_function : p.mmu c.pc ≡ at.run.patch.real_physical_function_address
    at_function = here ∙ ap (λ d. d.real_physical_function_address) at.object

    -- After `FPAddFunctionPatch` has reported the patch as applied, a call of the function by a
    -- process that the caller asked for reaches the caller's replacement, a word-aligned 32-bit
    -- address, with all registers but r11, CTR and the condition as they were. A trampoline's block
    -- is contiguous and clear of the function's first word and of the local variable that the branch
    -- is copied from; that variable has a physical address, the console copies as `IsPlatform` says,
    -- some core's writing thread has its memory, the process codes are small, and OSGetUPID begins
    -- with the load of its result.
    pub run-fp_add_function_patch-target :
        (needs_trampoline p new ≡ true → HasRoom p new)
        → replacement_of x < 2 ^ 32
        → replacement_of x % 4 ≡ 0
        → is_meant p (target_of x) p.upid ≡ true
        → (e : Cpu) × Runs after c e × (e.pc ≡ replacement_of x) × (e.registers ≡ c.registers)
    run-fp_add_function_patch-target room lt aligned meant =
        let (e, runs, there, same) =
          run-patch_function-target p laws local created k at.before at.machine at.run at.fresh
            at.patched at.ok (at_run check) c at_function
            (subst (λ d. needs_trampoline p d ≡ true → HasRoom p d) at.object room)
            (subst (λ a. a < 2 ^ 32) (sym at.replacement) lt)
            (subst (λ a. a % 4 ≡ 0) (sym at.replacement) aligned)
            (subst (λ t. is_meant p t p.upid ≡ true) (sym at.target) meant) in
        (
          e,
          subst (λ mc. Runs (code_in p k mc.memory) c e) (sym at.after) runs,
          there ∙ at.replacement,
          same,
        )
