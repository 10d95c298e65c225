-- ===== src/FunctionPatcher/RoundTrip.antt =====
-- `PatchFunction` and then `RestoreFunction`.
use function_patcher_module.Base.{true, false, ◌≡◌, ◌≢◌, sym, ◌∙◌, ap}
use function_patcher_module.Platform.{Platform, Memory, done}
use function_patcher_module.Patch.{Patch, Machine, Run}
use function_patcher_module.Utils.{IsPlatform, local_to_physical}
use function_patcher_module.FunctionPatcher.{
  source_to_physical, restore_target, patch_function, restore_function,
}
use function_patcher_module.FunctionPatcher.Patching.{some_thread}
use function_patcher_module.FunctionPatcher.Install.{patch_function-IsPatchedOver}
use function_patcher_module.FunctionPatcher.Restore.{IsRestorable, restore_function-restores}

-- A patch that was not applied, applied with success and then restored, with its physical address
-- still that of the function, and what was replaced not the word 0: restoring succeeds, and the
-- function begins with the word that stood there before the patch. The locals and the field that
-- are copied from have physical addresses, and some core's writing thread has its memory.
pub restore_function-patch_function :
    (p : Platform)
    → IsPlatform p
    → local_to_physical p p.replace_instruction_address ≢ 0
    → some_thread p ≡ true
    → (d : Patch) (mc : Machine) (r : Run) → d.is_patched ≡ false
    → patch_function p d mc ≡ done r
    → r.result ≡ true
    → IsRestorable p r.patch
    → source_to_physical p r.patch ≢ 0
    → restore_target p r.patch ≡ r.patch.real_physical_function_address
    → (m : Memory) × (restore_function p r.patch r.machine
        ≡ done (record {
          result = true;
          patch = record (r.patch) { is_patched = false };
          machine = record (r.machine) { memory = m };
        }))
      × (m r.patch.real_physical_function_address
          ≡ mc.memory r.patch.real_physical_function_address)
restore_function-patch_function p laws local created d mc r fresh patched ok able source target =
    let over = patch_function-IsPatchedOver p laws local created d mc r fresh patched ok in
    let (m, returns, back, _) =
      restore_function-restores p laws r.patch r.machine able over.in_place source in
    (m, returns, ap m (sym target) ∙ back ∙ over.replaced)
