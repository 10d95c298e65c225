-- ===== src/FunctionPatcher/RestoreFrame.antt =====
-- What `RestoreFunction` leaves alone.
use function_patcher_module.Base.{
  ℕ, not, ◌||◌, ◌==◌, ◌!=◌, none, some, ◌≡◌, ◌≢◌, arith, sym, ◌∙◌, ap, Bool-cases, inl, inr,
  Option-cases, if_true, if_false,
}
use function_patcher_module.Platform.{Platform, write, done}
use function_patcher_module.Patch.{Patch, Machine, Run}
use function_patcher_module.Utils.{IsPlatform, read_from_physical_address}
use function_patcher_module.FunctionPatcher.{
  not_patched, source_to_physical, restore_target, put_back, restore_read, restore_function,
}
use function_patcher_module.FunctionPatcher.Patching.{read_from_physical_address_lem}
use function_patcher_module.FunctionPatcher.Install.{done-eq}

-- The word at `x` is not the one that `RestoreFunction` restores, nor the place that it copies from,
-- nor its local variable.
pub record IsElsewhereRestored (p : Platform) (other : Patch) (x : ℕ) : Type 0 where
  pub not_read : x ≢ p.mmu p.current_instruction_address
  pub not_source : x ≢ p.mmu (p.replaced_instruction_address other.handle)
  pub not_target : x ≢ restore_target p other

module _ (p : Platform) (laws : IsPlatform p) (x : ℕ) where
  restore_read-frame :
      (other : Patch) (mc : Machine) (w : ℕ) (r : Run)
      → restore_read p other mc w ≡ done r
      → IsElsewhereRestored p other x
      → r.machine.memory x ≡ mc.memory x
  unfolding restore_read put_back
  restore_read-frame other mc w r h e = elim (Bool-cases (w != other.replace_with_instruction)) [
    | inl differs ↦ ap (λ t. t.machine.memory x) (sym (done-eq (sym (if_true _ _ differs) ∙ h)))
    | inr same ↦ elim (Bool-cases (source_to_physical p other == 0)) [
      | inl null ↦ cc (sym (if_true _ _ null) ∙ (sym (if_false _ _ same) ∙ h))
      | inr there ↦
          let place : ℕ = p.mmu (p.replaced_instruction_address other.handle) in
          let end = done-eq (sym (if_false _ _ there) ∙ (sym (if_false _ _ same) ∙ h)) in
          ap (λ t. t.machine.memory x) (sym end)
          ∙ laws.copy_other (write mc.memory place other.replaced_instruction)
              (restore_target p other) (source_to_physical p other) x e.not_target
          ∙ ground (arith, e.not_source)
    ]
  ]

  looked-frame :
      (other : Patch) (mc : Machine) (r : Run)
      → (let read = read_from_physical_address p mc.memory other.real_physical_function_address in
          elim (read.0) [
            | none ↦ not_patched p other mc
            | some w ↦ restore_read p other (record mc { memory = read.1 }) w
          ])
        ≡ done r
      → IsElsewhereRestored p other x
      → r.machine.memory x ≡ mc.memory x
  looked-frame other mc r h e =
      let source = other.real_physical_function_address in
      elim (Option-cases (read_from_physical_address p mc.memory source).0) [
        | inl none_read ↦ ap (λ t. t.machine.memory x) (sym (done-eq (rw none_read at h)))
        | inr (w, found) ↦
            restore_read-frame other _ w r (rw found at h) e
            ∙ (read_from_physical_address_lem p laws mc.memory source w found).1 x e.not_read
      ]

  -- `RestoreFunction` changes no other word, whatever its result.
  pub restore_function-frame :
      (other : Patch) (mc : Machine) (r : Run)
      → restore_function p other mc ≡ done r
      → IsElsewhereRestored p other x
      → r.machine.memory x ≡ mc.memory x
  unfolding restore_function
  restore_function-frame other mc r h e = elim (Bool-cases (not other.is_patched)) [
    | inl idle ↦ ap (λ t. t.machine.memory x) (sym (done-eq (sym (if_true _ _ idle) ∙ h)))
    | inr applied ↦
        elim (Bool-cases
          (other.replaced_instruction == 0 || other.real_effective_function_address == 0)) [
            | inl unknown ↦
                ap (λ t. t.machine.memory x)
                  (sym (done-eq (sym (if_true _ _ unknown) ∙ (sym (if_false _ _ applied) ∙ h))))
            | inr known ↦
                looked-frame other mc r
                  (sym (if_false _ _ known) ∙ (sym (if_false _ _ applied) ∙ h)) e
          ]
  ]
