-- ===== src/FunctionPatcher/Placed.antt =====
-- The generated code, as it lies in the memory after `PatchFunction`.
use function_patcher_module.Base.{
  ℕ, ◌+◌, ◌*◌, true, false, ◌≡◌, ◌≢◌, arith, refl, sym, ◌∙◌, ap, Bool-cases, inl, inr, Option-cases,
  if_true, if_false,
}
use mathlib.Core.Path.{subst}
use function_patcher_module.Platform.{Platform, Memory, done, done-bind}
use function_patcher_module.Patch.{Patch, Machine, Run}
use function_patcher_module.Ppc.{Code, Lies}
use function_patcher_module.Utils.{
  IsPlatform, local_to_physical, read_from_physical_address, run_on_all_cores,
}
use function_patcher_module.FunctionPatcher.{
  write_data_and_flush_ic, install, patch_located, patch_wanted, patch_function,
}
use function_patcher_module.FunctionPatcher.Patching.{
  generate_replacement_jump-fields, write_data_and_flush_ic_other, run_on_all_cores-keeps,
}
use function_patcher_module.FunctionPatcher.Install.{done-eq}
use function_patcher_module.PatchedFunctionData.Title.{should_be_patched}
use function_patcher_module.PatchedFunctionData.Address.{update_function_addresses}
use function_patcher_module.PatchedFunctionData.Execution.{length-replacement_jump_code}
use function_patcher_module.PatchedFunctionData.Make.{needs_trampoline}
use function_patcher_module.PatchedFunctionData.Jumps.{
  in_branch_range, branch_to, write_words, process_check_code, replacement_jump_code,
  generate_jump_to_original, generate_replacement_jump,
}
use function_patcher_module.PatchedFunctionData.InMemory.{
  code_in, IsContiguous, IsClear, write_words-Lies, Lies-same,
}

-- The trampoline's block is contiguous, and neither the function's first word nor the local
-- variable that the branch is copied from lies in it.
pub record HasRoom (p : Platform) (d : Patch) : Type 0 where
  pub contiguous : IsContiguous p d.jump_data 15
  pub clear_function : IsClear p d.jump_data 15 d.real_physical_function_address
  pub clear_local : IsClear p d.jump_data 15 (p.mmu p.replace_instruction_address)

-- The trampoline lies in the memory, and the patch's branch leads there.
pub record IsPlaced (p : Platform) (k : Code) (r : Run) : Type 0 where
  pub in_range : in_branch_range r.patch.jump_data ≡ true
  pub branch : r.patch.replace_with_instruction ≡ branch_to r.patch.jump_data
  pub lies : Lies (code_in p k r.machine.memory) r.patch.jump_data (replacement_jump_code p r.patch)

module _ (p : Platform) where
  patch_wanted-installs :
      (d : Patch) (mc : Machine) (r : Run)
      → patch_wanted p d mc ≡ done r
      → r.result ≡ true
      → (d' : Patch) × (mc' : Machine) × (install p d' mc' ≡ done r)
  unfolding patch_wanted patch_located
  patch_wanted-installs d mc r h ok =
      let (u, _, h') = done-bind (update_function_addresses p mc.memory d mc.rpl_handles) _ h in
      let physical = u.patch.real_physical_function_address in
      elim (Bool-cases u.result) [
        | inl found ↦ elim (Option-cases (read_from_physical_address p mc.memory physical).0) [
          | inl e ↦ cc (rw (found, patch_located, e) at h')
          | inr (w, e) ↦ (_, _, rw (found, patch_located, e) at h')
        ]
        | inr missing ↦ cc (ok, ap (λ x. x.result) (done-eq (sym (if_false _ _ missing) ∙ h')))
      ]

  -- A success of a patch that was not applied comes from `install`.
  pub patch_function-installs :
      (d : Patch) (mc : Machine) (r : Run)
      → d.is_patched ≡ false
      → patch_function p d mc ≡ done r
      → r.result ≡ true
      → (d' : Patch) × (mc' : Machine) × (install p d' mc' ≡ done r)
  unfolding patch_function
  patch_function-installs d mc r fresh h ok =
      let (wanted, _, h') = done-bind (should_be_patched p d) _ (sym (if_false _ _ fresh) ∙ h) in
      elim (Bool-cases wanted) [
        | inl want ↦ patch_wanted-installs d mc r (sym (if_true _ _ want) ∙ h') ok
        | inr skip ↦ cc (ok, ap (λ x. x.result) (done-eq (sym (if_false _ _ skip) ∙ h')))
      ]

  -- What a generated trampoline leaves.
  pub generate_replacement_jump-trampoline :
      (d d' : Patch) (m m' : Memory)
      → needs_trampoline p d ≡ true
      → generate_replacement_jump p d m ≡ done (d', m')
      → (in_branch_range d.jump_data ≡ true)
        × (d' ≡ record d { replace_with_instruction = branch_to d.jump_data })
        × (m' ≡ write_words p m d.jump_data (replacement_jump_code p d))
  unfolding generate_replacement_jump
  generate_replacement_jump-trampoline d d' m m' needs h = ground arith

module _ (p : Platform) (laws : IsPlatform p) (k : Code)
    (local : local_to_physical p p.replace_instruction_address ≢ 0) where
  -- The cores' writes leave the other words alone.
  written-other :
      (d : Patch) (m : Memory) (x : ℕ)
      → x ≢ d.real_physical_function_address
      → x ≢ p.mmu p.replace_instruction_address
      → run_on_all_cores p (write_data_and_flush_ic p d) m x ≡ m x
  written-other d m x ne ne' =
      run_on_all_cores-keeps p (λ s. s x ≡ m x) (write_data_and_flush_ic p d)
        (λ s e. write_data_and_flush_ic_other p laws local d s x ne ne' ∙ e) m refl

  abbrev installed : Machine → Patch → Memory → Run
  installed mc d m = record {
    result = true;
    patch = record d { is_patched = true };
    machine = record mc { memory = run_on_all_cores p (write_data_and_flush_ic p d) m };
  }

  written-IsPlaced :
      (d : Patch) (mc : Machine) (m : Memory)
      → in_branch_range d.jump_data ≡ true
      → HasRoom p d
      → IsPlaced p k (
          installed mc
            (record d { replace_with_instruction = branch_to d.jump_data })
            (write_words p m d.jump_data (replacement_jump_code p d)))
  unfolding replacement_jump_code process_check_code
  written-IsPlaced d mc m near room =
      let ws = replacement_jump_code p d in
      let fits = length-replacement_jump_code p d in
      record {
        in_range = near;
        branch = refl;
        lies =
            Lies-same p k (write_words p m d.jump_data ws)
              (run_on_all_cores p
                (write_data_and_flush_ic p
                  (record d { replace_with_instruction = branch_to d.jump_data }))
                (write_words p m d.jump_data ws))
              d.jump_data ws
              (λ i lt.
                written-other (record d { replace_with_instruction = branch_to d.jump_data })
                  (write_words p m d.jump_data ws) (p.mmu (d.jump_data + 4 * i))
                  (room.clear_function i (omega arith)) (room.clear_local i (omega arith)))
              (write_words-Lies p k m d.jump_data ws (λ i lt. room.contiguous i (omega arith)));
      }

  -- The block is the same before the branch is known.
  HasRoom-before :
      (d d' : Patch)
      → d' ≡ record d { replace_with_instruction = d'.replace_with_instruction }
      → HasRoom p (record d' { is_patched = true })
      → HasRoom p d
  HasRoom-before d d' same room =
      let at = subst (λ x. HasRoom p (record x { is_patched = true })) same room in
      record {
        contiguous = at.contiguous;
        clear_function = at.clear_function;
        clear_local = at.clear_local;
      }

  generate-IsPlaced :
      (d d' : Patch) (mc : Machine) (m m' : Memory)
      → generate_replacement_jump p d m ≡ done (d', m')
      → needs_trampoline p d' ≡ true
      → HasRoom p (record d' { is_patched = true })
      → IsPlaced p k (installed mc d' m')
  generate-IsPlaced d d' mc m m' h needs room =
      let same = generate_replacement_jump-fields p d d' m m' h in
      let needs' = subst (λ x. needs_trampoline p x ≡ true) same needs in
      let (near, patch, memory) = generate_replacement_jump-trampoline p d d' m m' needs' h in
      subst (λ x. IsPlaced p k (installed mc x m')) (sym patch)
        (subst
          (λ x.
            IsPlaced p k
              (installed mc (record d { replace_with_instruction = branch_to d.jump_data }) x))
          (sym memory) (written-IsPlaced d mc m near (HasRoom-before d d' same room)))

  install-IsPlaced :
      (d : Patch) (mc : Machine) (r : Run)
      → install p d mc ≡ done r
      → needs_trampoline p r.patch ≡ true
      → HasRoom p r.patch
      → IsPlaced p k r
  unfolding install
  install-IsPlaced d mc r h =
      let (m, _, h') = done-bind (generate_jump_to_original p d mc.memory) _ h in
      let ((d', m'), e, h'') = done-bind (generate_replacement_jump p d m) _ h' in
      subst (λ x. needs_trampoline p x.patch ≡ true → HasRoom p x.patch → IsPlaced p k x)
        (done-eq h'') (generate-IsPlaced d d' mc m m' e)

  -- After a successful `PatchFunction` of a patch that was not applied and needs a trampoline, one
  -- branch reaches the trampoline, it is the patch's branch, and the trampoline's code lies there
  -- as the processor sees the memory. The trampoline's block is contiguous, neither the function's
  -- first word nor the local variable that the branch is copied from lies in it, and that variable
  -- has a physical address.
  pub patch_function-IsPlaced :
      (d : Patch) (mc : Machine) (r : Run)
      → d.is_patched ≡ false
      → patch_function p d mc ≡ done r
      → r.result ≡ true
      → needs_trampoline p r.patch ≡ true
      → HasRoom p r.patch
      → IsPlaced p k r
  patch_function-IsPlaced d mc r fresh h ok =
      let (d', mc', installs) = patch_function-installs p d mc r fresh h ok in
      install-IsPlaced d' mc' r installs
