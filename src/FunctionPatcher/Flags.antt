-- ===== src/FunctionPatcher/Flags.antt =====
-- The results of `PatchFunction` and `RestoreFunction` against the patch's flag.
use function_patcher_module.Base.{
  false, List, ◌≡◌, sym, ◌∙◌, ap, arith, Bool-cases, inl, inr, if_true, if_false, Option-cases,
}
use function_patcher_module.Platform.{Platform, Memory, done, done-bind}
use function_patcher_module.Patch.{Patch, Machine, Run, RplHandling}
use function_patcher_module.Utils.{read_from_physical_address}
use function_patcher_module.FunctionPatcher.{install, patch_located, patch_wanted, patch_function}
use function_patcher_module.FunctionPatcher.Install.{done-eq}
use function_patcher_module.PatchedFunctionData.Title.{should_be_patched}
use function_patcher_module.PatchedFunctionData.Address.{Updated, update_function_addresses}
use function_patcher_module.PatchedFunctionData.Jumps.{
  generate_jump_to_original, generate_replacement_jump,
}

module _ (p : Platform) where
  update-is_patched :
      (m : Memory) (d : Patch) (handles : List RplHandling) (u : Updated)
      → update_function_addresses p m d handles ≡ done u
      → u.patch.is_patched ≡ d.is_patched
  unfolding update_function_addresses
  update-is_patched m d handles u h = ground arith

  install-result :
      (d : Patch) (mc : Machine) (r : Run) → install p d mc ≡ done r → r.patch.is_patched ≡ r.result
  unfolding install
  install-result d mc r h =
      let (m, _, h') = done-bind (generate_jump_to_original p d mc.memory) _ h in
      let (_, _, h'') = done-bind (generate_replacement_jump p d m) _ h' in
      sym (ap (λ x. x.patch.is_patched) (done-eq h'')) ∙ ap (λ x. x.result) (done-eq h'')

  patch_located-result :
      (d : Patch) (mc : Machine) (r : Run)
      → patch_located p d mc ≡ done r
      → r.patch.is_patched ≡ r.result
  unfolding patch_located
  patch_located-result d mc r h =
      elim (Option-cases
        (read_from_physical_address p mc.memory d.real_physical_function_address).0) [
          | inl e ↦ cc (rw (e, patch_located) at h)
          | inr (w, e) ↦ install-result _ _ r (rw (e, patch_located) at h)
        ]

  patch_wanted-result :
      (d : Patch) (mc : Machine) (r : Run)
      → d.is_patched ≡ false
      → patch_wanted p d mc ≡ done r
      → r.patch.is_patched ≡ r.result
  unfolding patch_wanted
  patch_wanted-result d mc r fresh h =
      let (u, e, h') = done-bind (update_function_addresses p mc.memory d mc.rpl_handles) _ h in
      let same = update-is_patched mc.memory d mc.rpl_handles u e in
      elim (Bool-cases u.result) [
        | inl found ↦
            patch_located-result u.patch (record mc { rpl_handles = u.rpl_handles }) r
              (sym (if_true _ _ found) ∙ h')
        | inr missing ↦
            let end = done-eq (sym (if_false _ _ missing) ∙ h') in
            sym (ap (λ x. x.patch.is_patched) end) ∙ same ∙ fresh ∙ ap (λ x. x.result) end
      ]

  -- `PatchFunction` returns true exactly where the patch counts as applied afterwards.
  pub patch_function-result :
      (d : Patch) (mc : Machine) (r : Run)
      → patch_function p d mc ≡ done r
      → r.patch.is_patched ≡ r.result
  unfolding patch_function
  patch_function-result d mc r h = elim (Bool-cases d.is_patched) [
    | inl already ↦
        let end = done-eq (sym (if_true _ _ already) ∙ h) in
        sym (ap (λ x. x.patch.is_patched) end) ∙ already ∙ ap (λ x. x.result) end
    | inr fresh ↦
        let (wanted, _, h') = done-bind (should_be_patched p d) _ (sym (if_false _ _ fresh) ∙ h) in
        elim (Bool-cases wanted) [
          | inl want ↦ patch_wanted-result d mc r fresh (sym (if_true _ _ want) ∙ h')
          | inr skip ↦
              let end = done-eq (sym (if_false _ _ skip) ∙ h') in
              sym (ap (λ x. x.patch.is_patched) end) ∙ fresh ∙ ap (λ x. x.result) end
        ]
  ]
