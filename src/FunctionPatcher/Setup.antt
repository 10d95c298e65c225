-- ===== src/FunctionPatcher/Setup.antt =====
-- What `PatchFunction` and `RestoreFunction` leave alone: the heap, and what a patch has from its
-- making.
use function_patcher_module.Base.{
  List, ◌≡◌, sym, ◌∙◌, arith, Bool-cases, inl, inr, if_true, if_false, Option-cases,
}
use function_patcher_module.Platform.{Platform, Memory, done, done-bind}
use function_patcher_module.Patch.{Patch, Machine, Run, RplHandling}
use function_patcher_module.Utils.{read_from_physical_address}
use function_patcher_module.FunctionPatcher.{
  install, patch_located, patch_wanted, patch_function, restore_read, restore_function,
}
use function_patcher_module.FunctionPatcher.Install.{done-eq}
use function_patcher_module.PatchedFunctionData.Title.{should_be_patched}
use function_patcher_module.PatchedFunctionData.Address.{Updated, update_function_addresses}
use function_patcher_module.PatchedFunctionData.Jumps.{
  generate_jump_to_original, generate_replacement_jump,
}
use mathlib.Core.Path.{subst}

-- The object keeps its address, its buffers, its replacement and its process.
pub record SameSetup (d d' : Patch) : Type 0 where
  pub jump_data : d'.jump_data ≡ d.jump_data
  pub jump_to_original : d'.jump_to_original ≡ d.jump_to_original
  pub handle : d'.handle ≡ d.handle
  pub replacement : d'.replacement_function_address ≡ d.replacement_function_address
  pub target : d'.target_process ≡ d.target_process

pub SameSetup-trans : {a b c : Patch} → SameSetup a b → SameSetup b c → SameSetup a c
SameSetup-trans h k = ground arith

-- The operation's result, against what it was given.
pub record KeepsSetup (d : Patch) (mc : Machine) (r : Run) : Type 0 where
  pub setup : SameSetup d r.patch
  pub heap : r.machine.heap ≡ mc.heap

module _ (p : Platform) where
  update-SameSetup :
      (m : Memory) (d : Patch) (handles : List RplHandling) (u : Updated)
      → update_function_addresses p m d handles ≡ done u
      → SameSetup d u.patch
  unfolding update_function_addresses
  update-SameSetup m d handles u h = ground arith

  generate-SameSetup :
      (d d' : Patch) (m m' : Memory)
      → generate_replacement_jump p d m ≡ done (d', m')
      → SameSetup d d'
  unfolding generate_replacement_jump
  generate-SameSetup d d' m m' h = ground arith

  install-KeepsSetup :
      (d : Patch) (mc : Machine) (r : Run) → install p d mc ≡ done r → KeepsSetup d mc r
  unfolding install
  install-KeepsSetup d mc r h =
      let (m, _, h') = done-bind (generate_jump_to_original p d mc.memory) _ h in
      let ((d', m'), e, h'') = done-bind (generate_replacement_jump p d m) _ h' in
      let same = generate-SameSetup d d' m m' e in
      subst (KeepsSetup d mc) (done-eq h'') (ground arith)

  pub patch_located-KeepsSetup :
      (d : Patch) (mc : Machine) (r : Run) → patch_located p d mc ≡ done r → KeepsSetup d mc r
  unfolding patch_located
  patch_located-KeepsSetup d mc r h =
      elim (Option-cases
        (read_from_physical_address p mc.memory d.real_physical_function_address).0) [
          | inl e ↦ cc (rw (e, patch_located) at h)
          | inr (w, e) ↦
              let kept = install-KeepsSetup _ _ r (rw (e, patch_located) at h) in ground arith
        ]

  patch_wanted-KeepsSetup :
      (d : Patch) (mc : Machine) (r : Run) → patch_wanted p d mc ≡ done r → KeepsSetup d mc r
  unfolding patch_wanted
  patch_wanted-KeepsSetup d mc r h =
      let (u, e, h') = done-bind (update_function_addresses p mc.memory d mc.rpl_handles) _ h in
      let same = update-SameSetup mc.memory d mc.rpl_handles u e in
      elim (Bool-cases u.result) [
        | inl found ↦
            let kept =
              patch_located-KeepsSetup u.patch (record mc { rpl_handles = u.rpl_handles }) r
                (sym (if_true _ _ found) ∙ h') in
            ground arith
        | inr missing ↦
            subst (KeepsSetup d mc) (done-eq (sym (if_false _ _ missing) ∙ h')) (ground arith)
      ]

  pub patch_function-KeepsSetup :
      (d : Patch) (mc : Machine) (r : Run) → patch_function p d mc ≡ done r → KeepsSetup d mc r
  unfolding patch_function
  patch_function-KeepsSetup d mc r h = elim (Bool-cases d.is_patched) [
    | inl already ↦ subst (KeepsSetup d mc) (done-eq (sym (if_true _ _ already) ∙ h)) (ground arith)
    | inr fresh ↦
        let (wanted, _, h') = done-bind (should_be_patched p d) _ (sym (if_false _ _ fresh) ∙ h) in
        elim (Bool-cases wanted) [
          | inl want ↦ patch_wanted-KeepsSetup d mc r (sym (if_true _ _ want) ∙ h')
          | inr skip ↦
              subst (KeepsSetup d mc) (done-eq (sym (if_false _ _ skip) ∙ h')) (ground arith)
        ]
  ]

  pub restore_function-KeepsSetup :
      (d : Patch) (mc : Machine) (r : Run) → restore_function p d mc ≡ done r → KeepsSetup d mc r
  unfolding restore_function restore_read
  restore_function-KeepsSetup d mc r h = ground arith
