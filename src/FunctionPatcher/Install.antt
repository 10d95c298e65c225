-- ===== src/FunctionPatcher/Install.antt =====
-- `PatchFunction`, from the instruction's being read to its success.
use function_patcher_module.Base.{
  ℕ, true, false, ◌≡◌, ◌≢◌, inl, inr, Bool-cases, refl, sym, ◌∙◌, ap, Option-cases, if_true,
  if_false,
}
use mathlib.Core.Path.{subst}
use function_patcher_module.Platform.{Platform, Memory, done, done-bind}
use function_patcher_module.Patch.{Patch, Machine, Run}
use function_patcher_module.Utils.{
  IsPlatform, local_to_physical, read_from_physical_address, run_on_all_cores,
}
use function_patcher_module.FunctionPatcher.{
  write_data_and_flush_ic, install, patch_located, patch_wanted, patch_function,
}
use function_patcher_module.FunctionPatcher.Patching.{
  some_thread, read_from_physical_address_lem, run_on_all_cores-write,
  generate_replacement_jump-fields,
}
use function_patcher_module.PatchedFunctionData.Title.{should_be_patched}
use function_patcher_module.PatchedFunctionData.Address.{update_function_addresses}
use function_patcher_module.PatchedFunctionData.Jumps.{
  generate_jump_to_original, generate_replacement_jump,
}

pub done-eq {ℓ} : {A : Type ℓ} {a b : A} → done a ≡ done b → a ≡ b
done-eq h = cc

-- What the caller of `PatchFunction` relies on after it has patched: `before` is the word that
-- stood at the function's physical address.
pub record IsInstalled (before : ℕ) (physical : ℕ) (r : Run) : Type 0 where
  pub result : r.result ≡ true
  pub is_patched : r.patch.is_patched ≡ true
  pub same_physical : r.patch.real_physical_function_address ≡ physical
  pub replaced : r.patch.replaced_instruction ≡ before
  pub in_place : r.machine.memory physical ≡ r.patch.replace_with_instruction

-- In terms of the patch that results.
abbrev pub IsPatchedOver : Memory → Run → Type 0
IsPatchedOver m r =
    IsInstalled (m r.patch.real_physical_function_address) r.patch.real_physical_function_address r

module _ (p : Platform) (laws : IsPlatform p)
    (local : local_to_physical p p.replace_instruction_address ≢ 0)
    (created : some_thread p ≡ true) where
  abbrev installed : Machine → Patch → Memory → Run
  installed mc d m = record {
    result = true;
    patch = record d { is_patched = true };
    machine = record mc { memory = run_on_all_cores p (write_data_and_flush_ic p d) m };
  }

  installed-IsInstalled :
      (d d' : Patch) (mc : Machine) (m : Memory)
      → d' ≡ record d { replace_with_instruction = d'.replace_with_instruction }
      → IsInstalled d.replaced_instruction d.real_physical_function_address (installed mc d' m)
  installed-IsInstalled d d' mc m e =
      let same : d'.real_physical_function_address ≡ d.real_physical_function_address =
        ap (λ x. x.real_physical_function_address) e in
      record {
        result = refl;
        is_patched = refl;
        same_physical = same;
        replaced = ap (λ x. x.replaced_instruction) e;
        in_place = rw (← same) (run_on_all_cores-write p laws local d' m created);
      }

  install-IsInstalled :
      (d : Patch) (mc : Machine) (r : Run)
      → install p d mc ≡ done r
      → IsInstalled d.replaced_instruction d.real_physical_function_address r
  unfolding install
  install-IsInstalled d mc r h =
      let (m, _, h') = done-bind (generate_jump_to_original p d mc.memory) _ h in
      let ((d', m'), e, h'') = done-bind (generate_replacement_jump p d m) _ h' in
      let fields = generate_replacement_jump-fields p d d' m m' e in
      subst (IsInstalled d.replaced_instruction d.real_physical_function_address) (done-eq h'')
        (installed-IsInstalled d d' mc m' fields)

  patch_located-IsInstalled :
      (d : Patch) (mc : Machine) (r : Run)
      → patch_located p d mc ≡ done r
      → IsInstalled (mc.memory d.real_physical_function_address) d.real_physical_function_address r
  unfolding patch_located
  patch_located-IsInstalled d mc r h =
      let physical = d.real_physical_function_address in
      elim (Option-cases (read_from_physical_address p mc.memory physical).0) [
        | inl e ↦ cc (rw (e, patch_located) at h)
        | inr (w, e) ↦
            let read = read_from_physical_address_lem p laws mc.memory physical w e in
            rw (← read.0) (install-IsInstalled _ _ r (rw (e, patch_located) at h))
      ]

  patch_located-IsPatchedOver :
      (d : Patch) (mc : Machine) (r : Run)
      → patch_located p d mc ≡ done r
      → IsPatchedOver mc.memory r
  patch_located-IsPatchedOver d mc r h =
      let at = patch_located-IsInstalled d mc r h in
      subst (λ a. IsInstalled (mc.memory a) a r) (sym at.same_physical) at

  patch_wanted-IsPatchedOver :
      (d : Patch) (mc : Machine) (r : Run)
      → patch_wanted p d mc ≡ done r
      → r.result ≡ true
      → IsPatchedOver mc.memory r
  unfolding patch_wanted
  patch_wanted-IsPatchedOver d mc r h ok =
      let (u, _, h') = done-bind (update_function_addresses p mc.memory d mc.rpl_handles) _ h in
      elim (Bool-cases u.result) [
        | inl found ↦
            patch_located-IsPatchedOver u.patch (record mc { rpl_handles = u.rpl_handles }) r
              (sym (if_true _ _ found) ∙ h')
        | inr missing ↦ cc (ok, ap (λ x. x.result) (done-eq (sym (if_false _ _ missing) ∙ h')))
      ]

  -- After a successful `PatchFunction` of a patch that was not applied, the function's first word
  -- is the branch, the patch holds the word that stood there before, and it counts as applied. The
  -- local variable that the branch is copied from has a physical address, and on one core at least
  -- the writing thread has its memory.
  pub patch_function-IsPatchedOver :
      (d : Patch) (mc : Machine) (r : Run)
      → d.is_patched ≡ false
      → patch_function p d mc ≡ done r
      → r.result ≡ true
      → IsPatchedOver mc.memory r
  unfolding patch_function
  patch_function-IsPatchedOver d mc r fresh h ok =
      let (wanted, _, h') = done-bind (should_be_patched p d) _ (sym (if_false _ _ fresh) ∙ h) in
      elim (Bool-cases wanted) [
        | inl want ↦ patch_wanted-IsPatchedOver d mc r (sym (if_true _ _ want) ∙ h') ok
        | inr skip ↦ cc (ok, ap (λ x. x.result) (done-eq (sym (if_false _ _ skip) ∙ h')))
      ]
