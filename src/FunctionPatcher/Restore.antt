-- ===== src/FunctionPatcher/Restore.antt =====
-- `RestoreFunction`: when it puts the function back, and when it refuses.
use function_patcher_module.Base.{
  ℕ, true, false, some, ◌==◌, not, ◌≡◌, ◌≢◌, arith, ◌∙◌, ap, if_true, if_false, ne-==, ==-self,
}
use function_patcher_module.Platform.{Platform, Memory, write, done}
use function_patcher_module.Patch.{Patch, Machine}
use function_patcher_module.Utils.{IsPlatform, local_to_physical, read_from_physical_address}
use function_patcher_module.FunctionPatcher.{
  source_to_physical, restore_target, put_back, restore_read, restore_function,
}
use function_patcher_module.FunctionPatcher.Patching.{
  read_from_physical_address-some, read_from_physical_address_lem,
}

-- A patch that `RestoreFunction` works on: applied, with what it needs to know.
pub record IsRestorable (p : Platform) (d : Patch) : Type 0 where
  pub is_patched : d.is_patched ≡ true
  pub knows_instruction : d.replaced_instruction ≢ 0
  pub knows_address : d.real_effective_function_address ≢ 0
  pub can_read : local_to_physical p p.current_instruction_address ≢ 0

module _ (p : Platform) (laws : IsPlatform p) (d : Patch) (mc : Machine)
    (at : IsRestorable p d) where
  -- The machine once the instruction that stands in the function has been read.
  abbrev looked : Memory
  looked = (read_from_physical_address p mc.memory d.real_physical_function_address).1

  read_found :
      (read_from_physical_address p mc.memory d.real_physical_function_address).0
      ≡ some (mc.memory d.real_physical_function_address)
  read_found = read_from_physical_address-some p laws mc.memory _ at.can_read

  reads :
      restore_function p d mc
      ≡ restore_read p d
          (record mc { memory = looked })
          (mc.memory d.real_physical_function_address)
  unfolding restore_function
  reads = ground (arith, read_found, at.is_patched, at.knows_instruction, at.knows_address)

  source_to_physical-mmu :
      source_to_physical p d ≢ 0
      → source_to_physical p d ≡ p.mmu (p.replaced_instruction_address d.handle)
  unfolding source_to_physical
  source_to_physical-mmu h = ground (
    arith,
    laws.effective_to_physical-mmu (p.replaced_instruction_address d.handle),
    laws.application_range-mmu (p.replaced_instruction_address d.handle),
  )

  looked-other : (a : ℕ) → a ≢ p.mmu p.current_instruction_address → looked a ≡ mc.memory a
  looked-other = (read_from_physical_address_lem p laws mc.memory _ _ read_found).1

  -- For an applied patch with a known address and replaced instruction, where the function no
  -- longer begins with the patch's branch, `RestoreFunction` returns false and changes neither the
  -- patch nor any word but its own local variable.
  pub restore_function-refuses :
      mc.memory d.real_physical_function_address ≢ d.replace_with_instruction
      → (m : Memory) × (restore_function p d mc
          ≡ done (record { result = false; patch = d; machine = record mc { memory = m } }))
        × ((a : ℕ) → a ≢ p.mmu p.current_instruction_address → m a ≡ mc.memory a)
  unfolding restore_read
  restore_function-refuses other =
      (looked, reads ∙ if_true _ _ (ap not (ne-== _ _ other)), looked-other)

  pub restore_function-restores :
      mc.memory d.real_physical_function_address ≡ d.replace_with_instruction
      → source_to_physical p d ≢ 0
      → (m : Memory) × (restore_function p d mc
          ≡ done (record {
            result = true;
            patch = record d { is_patched = false };
            machine = record mc { memory = m };
          }))
        × (m (restore_target p d) ≡ d.replaced_instruction)
        × ((a : ℕ)
            → a ≢ restore_target p d
            → a ≢ p.mmu p.current_instruction_address
            → a ≢ p.mmu (p.replaced_instruction_address d.handle)
            → m a ≡ mc.memory a)
  unfolding restore_read put_back
  restore_function-restores same source =
      let from : ℕ = source_to_physical p d in
      let place : ℕ = p.mmu (p.replaced_instruction_address d.handle) in
      let unchanged : (mc.memory d.real_physical_function_address == d.replace_with_instruction)
          ≡ true =
        rw same (==-self d.replace_with_instruction) in
      let spilled : Memory = write looked place d.replaced_instruction in
      (
        put_back p d looked,
        reads ∙ if_false _ _ (ap not unchanged) ∙ if_false _ _ (ne-== _ _ source),
        laws.copy_to spilled (restore_target p d) from
            ∙ ground (arith, source_to_physical-mmu source),
        λ a far far' far''.
            laws.copy_other spilled (restore_target p d) from a far
            ∙ ground (arith, looked-other a far'),
      )
