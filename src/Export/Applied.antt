-- ===== src/Export/Applied.antt =====
-- A call of `FPAddFunctionPatch` that reports a patch as applied: the run of `PatchFunction` in it.
use function_patcher_module.Base.{
  ℕ, true, false, Option, none, some, List, [], ◌∷◌, ◌++◌, ◌≡◌, refl, sym, ◌∙◌, ap, Bool-cases, inl,
  inr, if_true, if_false, ==-self, ◌==◌, ◌||◌, ltb, if◌then◌else◌,
}
use mathlib.Core.Path.{subst}
use function_patcher_module.Platform.{Platform, done, done-bind}
use function_patcher_module.Patch.{Patch, Machine, Run, State}
use function_patcher_module.FunctionPatcher.{patch_function}
use function_patcher_module.FunctionPatcher.Install.{done-eq}
use function_patcher_module.FunctionPatcher.Setup.{patch_function-KeepsSetup}
use function_patcher_module.PatchedFunctionData.Buffers.{IsMade, blocks_over}
use function_patcher_module.PatchedFunctionData.Request.{IsRequested, make_shared_v3-IsRequested}
use function_patcher_module.PatchedFunctionData.Versions.{upgrade, make_shared_v2-eq-make_shared_v3}
use function_patcher_module.Export.Add.{
  ReplacementData, Added, add_made, make_patch, add_checked, fp_add_function_patch,
}
use function_patcher_module.Export.Adding.{finish_add, make_patch-IsMade}

-- The replacement and the process that the caller asks for, in either version.
abbrev pub replacement_of : ReplacementData → ℕ
replacement_of x = if x.version == 2 then x.as_v2.replace_addr else x.as_v3.replace_addr

abbrev pub target_of : ReplacementData → ℕ
target_of x = if x.version == 2 then x.as_v2.target_process else x.as_v3.target_process

-- The run of `PatchFunction` that a successful call ends with: the new patch was not applied
-- before, is applied now, and has the replacement and the process of the caller.
pub record IsApplying (p : Platform) (s : State) (x : ReplacementData) (r : Added) : Type 0 where
  pub before : Patch
  pub machine : Machine
  pub run : Run
  pub patched : patch_function p before machine ≡ done run
  pub fresh : before.is_patched ≡ false
  pub ok : run.result ≡ true
  pub object : r.state.objects (p.new_object s.patched_functions) ≡ run.patch
  pub after : r.state.machine ≡ run.machine
  pub same_memory : machine.memory ≡ s.machine.memory
  pub appended :
      r.state.patched_functions ≡ s.patched_functions ++ p.new_object s.patched_functions ∷ []
  pub heap_grown : run.machine.heap ≡ blocks_over run.patch s.machine.heap
  pub replacement : run.patch.replacement_function_address ≡ replacement_of x
  pub target : run.patch.target_process ≡ target_of x

module _ (p : Platform) (s : State) (x : ReplacementData) where
  make_patch-IsRequested :
      (heap_handle : ℕ) (r : Option Patch × List ℕ)
      → make_patch p x heap_handle s ≡ done r
      → IsRequested (replacement_of x) (target_of x) r.0
  unfolding make_patch
  make_patch-IsRequested heap_handle r h =
      let object : ℕ = p.new_object s.patched_functions in
      let heap : List ℕ = s.machine.heap in
      elim (Bool-cases (x.version == 2)) [
        | inl two ↦
            let made =
              make_shared_v3-IsRequested p object (upgrade x.as_v3.replace_in_rpx x.as_v2)
                heap_handle heap in
            rw two (
              subst (λ t. IsRequested x.as_v2.replace_addr x.as_v2.target_process t.0)
                (sym (
                    make_shared_v2-eq-make_shared_v3 p object x.as_v2 x.as_v3.replace_in_rpx
                      heap_handle heap)
                  ∙ done-eq (sym (if_true _ _ two) ∙ h))
                made)
        | inr not_two ↦ elim (Bool-cases (x.version == 3)) [
          | inl three ↦ rw not_two (
              subst (λ t. IsRequested x.as_v3.replace_addr x.as_v3.target_process t.0)
                (done-eq (sym (if_true _ _ three) ∙ sym (if_false _ _ not_two) ∙ h))
                (make_shared_v3-IsRequested p object x.as_v3 heap_handle heap))
          | inr other ↦ cc (sym (if_false _ _ other) ∙ sym (if_false _ _ not_two) ∙ h)
        ]
      ]

  add_made-IsApplying :
      (heap : List ℕ) (d : Patch) (r : Added)
      → d.handle ≡ p.new_object s.patched_functions
      → heap ≡ blocks_over d s.machine.heap
      → IsRequested (replacement_of x) (target_of x) (some d)
      → add_made p (record s { machine = record (s.machine) { heap = heap } }) d ≡ done r
      → r.out_has_been_patched ≡ some true
      → IsApplying p s x r
  unfolding add_made
  add_made-IsApplying heap d r new grown (fresh, replacement, target) h =
      let mc : Machine = record (s.machine) { heap = heap } in
      let (run, q, h') = done-bind (patch_function p d mc) _ h in
      let whole = patch_function-KeepsSetup p d mc run q in
      let kept = whole.setup in
      subst (λ t. t.out_has_been_patched ≡ some true → IsApplying p s x t) (done-eq h')
        (λ out. record {
          before = d;
          machine = mc;
          run = run;
          patched = q;
          fresh = fresh;
          ok = cc;
          object = rw (← new) (if_true _ _ (==-self d.handle));
          after = refl;
          same_memory = refl;
          appended = ap (λ h. s.patched_functions ++ h ∷ []) new;
          heap_grown = whole.heap ∙ grown ∙ rw (kept.jump_data, kept.jump_to_original) refl;
          replacement = kept.replacement ∙ replacement;
          target = kept.target ∙ target;
        })

  finish :
      (made : Option Patch × List ℕ)
      → IsMade p (p.new_object s.patched_functions) s.machine.heap made
      → IsRequested (replacement_of x) (target_of x) made.0
      → (r : Added) → finish_add p s made ≡ done r
      → r.out_has_been_patched ≡ some true
      → IsApplying p s x r
  unfolding finish_add
  finish (none, heap) made asked r h out = cc (ap (λ t. t.out_has_been_patched) (done-eq h), out)
  finish (some d, heap) made asked r h out = add_made-IsApplying heap d r made.3 made.1 asked h out

  -- What a call that reports the new patch as applied has done.
  pub fp_add_function_patch-IsApplying :
      (heap_handle : ℕ) (r : Added)
      → fp_add_function_patch p (some x) heap_handle s ≡ done r
      → r.out_has_been_patched ≡ some true
      → IsApplying p s x r
  unfolding fp_add_function_patch add_checked finish_add
  fp_add_function_patch-IsApplying heap_handle r h out =
      elim (Bool-cases (ltb x.version 2 || ltb 3 x.version)) [
        | inl unsupported ↦
            cc (ap (λ t. t.out_has_been_patched) (done-eq (sym (if_true _ _ unsupported) ∙ h)), out)
        | inr supported ↦
            let (made, e, h') =
              done-bind (make_patch p x heap_handle s) _ (sym (if_false _ _ supported) ∙ h) in
            finish made (make_patch-IsMade p s x heap_handle made e)
              (make_patch-IsRequested heap_handle made e) r h' out
      ]
