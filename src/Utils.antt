-- ===== src/Utils.antt =====
-- source/utils/utils.cpp, and `runOnAllCores` of source/utils/CThread.h as its callers see it.
use function_patcher_module.Base.{
  ℕ, ◌+◌, ◌-◌, Option, none, some, ◌==◌, if◌then◌else◌, ◌≡◌, ◌≢◌, true,
}
use function_patcher_module.Platform.{Platform, Memory, in_application_range}

module _ (p : Platform) where
  -- The physical address of a local variable.
  unfoldable pub local_to_physical : ℕ → ℕ
  local_to_physical a =
      if in_application_range a then a + 0x30800000 - 0x00800000 else p.effective_to_physical a

  -- The word that was read, or `none` for the result `false`, and the memory: the word is copied
  -- into a local variable first.
  unfoldable pub read_from_physical_address : Memory → ℕ → Option ℕ × Memory
  unfolding local_to_physical
  read_from_physical_address m source =
      let local = local_to_physical p.current_instruction_address in
      let m' = p.kernel_copy_data m local source 4 in
      if local == 0 then (none, m) else (some (m' (p.mmu p.current_instruction_address)), m')

  -- A thread on one core is created, run and joined; nothing runs where it has no memory, for itself
  -- and for its stack.
  unfoldable pub run_on_core {ℓ} : {S : Type ℓ} → (S → S) → ℕ → S → S
  run_on_core callback affinity s = if p.thread_created affinity then callback s else s

  -- `CThread::runOnAllCores`: core 2, core 1 and core 0, one after the other. The memory that the
  -- threads themselves take, clear and give back is no part of what the callback works on.
  unfoldable pub run_on_all_cores {ℓ} : {S : Type ℓ} → (S → S) → S → S
  unfolding run_on_core
  run_on_all_cores callback s =
      run_on_core callback 1 (run_on_core callback 2 (run_on_core callback 4 s))

-- What the code relies on: a copy of four bytes moves the word and no other, and the two ways to a
-- physical address agree with the processor's.
pub record IsPlatform (p : Platform) : Type 0 where
  pub copy_to : (m : Memory) (to from : ℕ) → p.kernel_copy_data m to from 4 to ≡ m from
  pub copy_other : (m : Memory) (to from a : ℕ) → a ≢ to → p.kernel_copy_data m to from 4 a ≡ m a
  pub effective_to_physical-mmu :
      (a : ℕ) → p.effective_to_physical a ≢ 0 → p.effective_to_physical a ≡ p.mmu a
  pub application_range-mmu : (a : ℕ) → in_application_range a ≡ true → a + 0x30000000 ≡ p.mmu a
