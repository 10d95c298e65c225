-- ===== src/FunctionPatcher/NoThread.antt =====
-- `PatchFunction` where no core's thread gets its memory, so that nothing writes the branch.
use function_patcher_module.Base.{ℕ, true, false, ◌≡◌, ◌≢◌, refl, sym, ap, arith}
use function_patcher_module.Platform.{Platform, done, done-bind}
use function_patcher_module.Patch.{Patch, Machine, Run}
use function_patcher_module.Utils.{IsPlatform, run_on_core, run_on_all_cores}
use function_patcher_module.PatchedFunctionData.Jumps.{
  generate_jump_to_original, generate_replacement_jump,
}
use function_patcher_module.FunctionPatcher.{write_data_and_flush_ic, install, patch_function}
use function_patcher_module.FunctionPatcher.Install.{done-eq}
use function_patcher_module.FunctionPatcher.Patching.{some_thread}
use function_patcher_module.FunctionPatcher.Placed.{patch_function-installs}
use function_patcher_module.FunctionPatcher.Frame.{IsOffBlocks, patch_function-spares}

module _ (p : Platform) (none_created : some_thread p ≡ false) where
  -- Nothing runs on any core.
  run_on_all_cores-idle {ℓ} :
      {S : Type ℓ} (callback : S → S) (s : S) → run_on_all_cores p callback s ≡ s
  unfolding run_on_all_cores run_on_core
  run_on_all_cores-idle callback s = ground arith

  install-flag :
      (d : Patch) (mc : Machine) (r : Run) → install p d mc ≡ done r → r.patch.is_patched ≡ true
  unfolding install
  install-flag d mc r h =
      let (m, _, h') = done-bind (generate_jump_to_original p d mc.memory) _ h in
      let (_, _, h'') = done-bind (generate_replacement_jump p d m) _ h' in
      ap (λ t. t.patch.is_patched) (sym (done-eq h''))

  -- Where a patch was not applied, `PatchFunction` reports success, and on no core the thread that
  -- writes got its memory: the patch counts as applied, while the function's first word is as before.
  -- That word is not in one of the patch's blocks, nor the pointer through which the replacement
  -- calls the original, nor the local variable or the field of the object that it is read into.
  pub patch_function-unwritten :
      IsPlatform p
      → (d : Patch) (mc : Machine) (r : Run) → d.is_patched ≡ false
      → patch_function p d mc ≡ done r
      → r.result ≡ true
      → r.patch.real_physical_function_address ≢ p.mmu p.current_instruction_address
      → IsOffBlocks p r.patch r.patch.real_physical_function_address
      → (r.patch.is_patched ≡ true)
        × (r.machine.memory r.patch.real_physical_function_address
            ≡ mc.memory r.patch.real_physical_function_address)
  patch_function-unwritten laws d mc r fresh h ok not_read off_blocks =
      let x : ℕ = r.patch.real_physical_function_address in
      let (d', mc', from) = patch_function-installs p d mc r fresh h ok in
      (
        install-flag d' mc' r from,
        patch_function-spares p x laws not_read x
            (λ e m same. ap (λ n. n x) (run_on_all_cores-idle (write_data_and_flush_ic p e) m)) d mc
            r h (refl, off_blocks),
      )
