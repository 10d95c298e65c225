-- ===== src/FunctionPatcher/Frame.antt =====
-- What `PatchFunction` leaves alone.
use function_patcher_module.Base.{
  ℕ, ◌≤◌, true, false, ◌≡◌, ◌≢◌, arith, refl, sym, ◌∙◌, ap, Bool-cases, inl, inr, Option-cases,
  if_true, if_false, ne-==, length,
}
use mathlib.Core.Path.{subst}
use function_patcher_module.Platform.{Platform, Memory, done, done-bind}
use function_patcher_module.Patch.{Patch, Machine, Run}
use function_patcher_module.Utils.{
  IsPlatform, local_to_physical, read_from_physical_address, run_on_all_cores,
}
use function_patcher_module.FunctionPatcher.{
  write_data_and_flush_ic, install, patch_located, patch_wanted, patch_function,
}
use function_patcher_module.FunctionPatcher.Patching.{
  generate_replacement_jump-fields, write_data_and_flush_ic_other, run_on_all_cores-keeps,
  read_from_physical_address_lem,
}
use function_patcher_module.FunctionPatcher.Install.{done-eq}
use function_patcher_module.FunctionPatcher.Setup.{patch_located-KeepsSetup}
use function_patcher_module.FunctionPatcher.Placed.{generate_replacement_jump-trampoline}
use function_patcher_module.PatchedFunctionData.Title.{should_be_patched}
use function_patcher_module.PatchedFunctionData.Address.{update_function_addresses}
use function_patcher_module.PatchedFunctionData.Execution.{length-replacement_jump_code}
use function_patcher_module.PatchedFunctionData.Make.{needs_trampoline}
use function_patcher_module.PatchedFunctionData.Jumps.{
  jump_to_original_code, original_continuation, in_branch_range, replacement_jump_code,
  generate_jump_to_original, generate_replacement_jump,
}
use function_patcher_module.PatchedFunctionData.InMemory.{IsClear, write_words-other}

-- The word at `x` is not in one of the patch's two blocks, not the pointer through which the
-- replacement calls the original, and not the object's field `replacedInstruction`.
pub record IsOffBlocks (p : Platform) (d : Patch) (x : ℕ) : Type 0 where
  pub not_pointer : x ≢ p.mmu d.real_call_function_address_ptr
  pub not_original : IsClear p d.jump_to_original 5 x
  pub not_trampoline : IsClear p d.jump_data 15 x
  pub not_field : x ≢ p.mmu (p.replaced_instruction_address d.handle)

-- Nor is it the patched function's first, nor one of the two local variables that instructions go
-- through.
pub record IsElsewhere (p : Platform) (d : Patch) (x : ℕ) : Type 0 where
  pub not_read : x ≢ p.mmu p.current_instruction_address
  pub not_copied : x ≢ p.mmu p.replace_instruction_address
  pub not_function : x ≢ d.real_physical_function_address
  pub off_blocks : IsOffBlocks p d x

length-jump_to_original_code : (d : Patch) → length (jump_to_original_code d) ≤ 5
unfolding jump_to_original_code
length-jump_to_original_code d = elim (Bool-cases (in_branch_range (original_continuation d))) [
  | inl near ↦ rw near (omega arith)
  | inr far ↦ rw far (omega arith)
]

module _ (p : Platform) (x : ℕ) where
  IsOffBlocks-flag :
      (d : Patch) → IsOffBlocks p (record d { is_patched = true }) x → IsOffBlocks p d x
  IsOffBlocks-flag d e = record {
    not_pointer = e.not_pointer;
    not_original = e.not_original;
    not_trampoline = e.not_trampoline;
    not_field = e.not_field;
  }

  IsOffBlocks-branch :
      (d d' : Patch)
      → d' ≡ record d { replace_with_instruction = d'.replace_with_instruction }
      → IsOffBlocks p d' x
      → IsOffBlocks p d x
  IsOffBlocks-branch d d' same e =
      let at = subst (λ t. IsOffBlocks p t x) same e in
      record {
        not_pointer = at.not_pointer;
        not_original = at.not_original;
        not_trampoline = at.not_trampoline;
        not_field = at.not_field;
      }

  generate_jump_to_original-frame :
      (d : Patch) (m m' : Memory)
      → generate_jump_to_original p d m ≡ done m'
      → IsOffBlocks p d x
      → m' x ≡ m x
  unfolding generate_jump_to_original
  generate_jump_to_original-frame d m m' h e =
      let ws = jump_to_original_code d in
      let few = length-jump_to_original_code d in
      let words =
        write_words-other p m d.jump_to_original ws x (λ i lt. e.not_original i (omega arith)) in
      let pointer = e.not_pointer in ground arith

  generate_replacement_jump-direct :
      (d d' : Patch) (m m' : Memory)
      → needs_trampoline p d ≡ false
      → generate_replacement_jump p d m ≡ done (d', m')
      → m' ≡ m
  unfolding generate_replacement_jump
  generate_replacement_jump-direct d d' m m' direct h = ground arith

  generate_replacement_jump-frame :
      (d d' : Patch) (m m' : Memory)
      → generate_replacement_jump p d m ≡ done (d', m')
      → IsOffBlocks p d x
      → m' x ≡ m x
  generate_replacement_jump-frame d d' m m' h e = elim (Bool-cases (needs_trampoline p d)) [
    | inl needs ↦
        let fits = length-replacement_jump_code p d in
        ap (λ n. n x) (generate_replacement_jump-trampoline p d d' m m' needs h).2
        ∙ write_words-other p m d.jump_data (replacement_jump_code p d) x
            (λ i lt. e.not_trampoline i (omega arith))
    | inr direct ↦ ap (λ n. n x) (generate_replacement_jump-direct d d' m m' direct h)
  ]

  -- `physical` is the function's address, and what the cores write there spares the word at `x`.
  module _ (laws : IsPlatform p) (not_read : x ≢ p.mmu p.current_instruction_address) (physical : ℕ)
      (written : (d : Patch) (m : Memory)
        → d.real_physical_function_address ≡ physical
        → run_on_all_cores p (write_data_and_flush_ic p d) m x ≡ m x) where
    -- The result is for that function, and the word is off its blocks.
    abbrev IsSpared : Run → Type 0
    IsSpared r = (r.patch.real_physical_function_address ≡ physical) × IsOffBlocks p r.patch x

    install-frame :
        (d : Patch) (mc : Machine) (r : Run)
        → install p d mc ≡ done r
        → IsSpared r
        → r.machine.memory x ≡ mc.memory x
    unfolding install
    install-frame d mc r h =
        let (m, e, h') = done-bind (generate_jump_to_original p d mc.memory) _ h in
        let ((d', m'), e', h'') = done-bind (generate_replacement_jump p d m) _ h' in
        let same = generate_replacement_jump-fields p d d' m m' e' in
        subst (λ t. IsSpared t → t.machine.memory x ≡ mc.memory x) (done-eq h'')
          (λ spared.
            let before = IsOffBlocks-branch d d' same (IsOffBlocks-flag d' spared.1) in
            written d' m' spared.0
            ∙ generate_replacement_jump-frame d d' m m' e' before
            ∙ generate_jump_to_original-frame d mc.memory m e before)

    patch_located-frame :
        (d : Patch) (mc : Machine) (r : Run)
        → patch_located p d mc ≡ done r
        → IsSpared r
        → r.machine.memory x ≡ mc.memory x
    unfolding patch_located
    patch_located-frame d mc r h spared =
        let source : ℕ = d.real_physical_function_address in
        elim (Option-cases (read_from_physical_address p mc.memory source).0) [
          | inl failed ↦ cc (rw (patch_located, failed) at h)
          | inr (w, read) ↦
              let kept = patch_located-KeepsSetup p d mc r h in
              let not_field =
                subst (λ a. x ≢ p.mmu (p.replaced_instruction_address a)) kept.setup.handle
                  spared.1.not_field in
              install-frame _ _ r (rw (patch_located, read) at h) spared
              ∙ if_false _ _ (ne-== _ _ (λ e. not_field (sym e)))
              ∙ (read_from_physical_address_lem p laws mc.memory source w read).1 x not_read
        ]

    patch_wanted-frame :
        (d : Patch) (mc : Machine) (r : Run)
        → patch_wanted p d mc ≡ done r
        → IsSpared r
        → r.machine.memory x ≡ mc.memory x
    unfolding patch_wanted
    patch_wanted-frame d mc r h spared =
        let (u, _, h') = done-bind (update_function_addresses p mc.memory d mc.rpl_handles) _ h in
        elim (Bool-cases u.result) [
          | inl found ↦
              patch_located-frame u.patch (record mc { rpl_handles = u.rpl_handles }) r
                (sym (if_true _ _ found) ∙ h') spared
          | inr missing ↦
              ap (λ t. t.machine.memory x) (sym (done-eq (sym (if_false _ _ missing) ∙ h')))
        ]

    pub patch_function-spares :
        (d : Patch) (mc : Machine) (r : Run)
        → patch_function p d mc ≡ done r
        → IsSpared r
        → r.machine.memory x ≡ mc.memory x
    unfolding patch_function
    patch_function-spares d mc r h spared = elim (Bool-cases d.is_patched) [
      | inl already ↦ ap (λ t. t.machine.memory x) (sym (done-eq (sym (if_true _ _ already) ∙ h)))
      | inr fresh ↦
          let (wanted, _, h') =
            done-bind (should_be_patched p d) _ (sym (if_false _ _ fresh) ∙ h) in
          elim (Bool-cases wanted) [
            | inl want ↦ patch_wanted-frame d mc r (sym (if_true _ _ want) ∙ h') spared
            | inr skip ↦ ap (λ t. t.machine.memory x) (sym (done-eq (sym (if_false _ _ skip) ∙ h')))
          ]
    ]

  module _ (laws : IsPlatform p)
      (local : local_to_physical p p.replace_instruction_address ≢ 0) where
    written-frame :
        (d : Patch) (m : Memory)
        → x ≢ d.real_physical_function_address
        → x ≢ p.mmu p.replace_instruction_address
        → run_on_all_cores p (write_data_and_flush_ic p d) m x ≡ m x
    written-frame d m not_function not_copied =
        run_on_all_cores-keeps p (λ n. n x ≡ m x) (write_data_and_flush_ic p d)
          (λ n same.
            write_data_and_flush_ic_other p laws local d n x not_function not_copied ∙ same)
          m refl

    pub patch_function-frame :
        (d : Patch) (mc : Machine) (r : Run)
        → patch_function p d mc ≡ done r
        → IsElsewhere p r.patch x
        → r.machine.memory x ≡ mc.memory x
    patch_function-frame d mc r h e =
        patch_function-spares laws e.not_read r.patch.real_physical_function_address
          (λ d' m same. written-frame d' m (λ at. e.not_function (at ∙ same)) e.not_copied) d mc r h
          (refl, e.off_blocks)
