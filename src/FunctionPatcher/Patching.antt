-- ===== src/FunctionPatcher/Patching.antt =====
-- What a successful `PatchFunction` leaves behind.
use function_patcher_module.Base.{ℕ, Bool, true, some, ◌||◌, ◌≡◌, ◌≢◌, arith, inl, inr, Bool-cases}
use function_patcher_module.Platform.{Platform, Memory, write, done}
use function_patcher_module.Patch.{Patch}
use function_patcher_module.Utils.{
  IsPlatform, local_to_physical, read_from_physical_address, run_on_core, run_on_all_cores,
}
use function_patcher_module.FunctionPatcher.{write_data_and_flush_ic}
use function_patcher_module.PatchedFunctionData.Jumps.{generate_replacement_jump}

-- Some thread can be created.
abbrev pub some_thread : Platform → Bool
some_thread p = p.thread_created 4 || p.thread_created 2 || p.thread_created 1

module _ (p : Platform) where
  -- What every run of the callback establishes holds after the cores are done.
  run_on_all_cores-post {ℓ κ} :
      {S : Type ℓ} (P : S → Type κ) (callback : S → S)
      → ((s : S) → P (callback s))
      → some_thread p ≡ true
      → (s : S) → P (run_on_all_cores p callback s)
  unfolding run_on_all_cores
  run_on_all_cores-post P callback post created s = elim (Bool-cases (p.thread_created 1)) [
    | inl last ↦ rw last (post _)
    | inr idle ↦ rw idle (elim (Bool-cases (p.thread_created 2)) [
      | inl middle ↦ rw middle (post _)
      | inr idle' ↦ rw idle' (elim (Bool-cases (p.thread_created 4)) [
        | inl first ↦ rw first (post _)
        | inr idle'' ↦ absurd (ground arith)
      ])
    ])
  ]

  run_on_core-keeps {ℓ κ} :
      {S : Type ℓ} (P : S → Type κ) (callback : S → S)
      → ((s : S) → P s → P (callback s))
      → (affinity : ℕ) (s : S) → P s
      → P (run_on_core p callback affinity s)
  unfolding run_on_core
  run_on_core-keeps P callback keep affinity s h = elim (Bool-cases (p.thread_created affinity)) [
    | inl created ↦ rw created (keep s h)
    | inr idle ↦ rw idle h
  ]

  -- What every run of the callback keeps is kept.
  pub run_on_all_cores-keeps {ℓ κ} :
      {S : Type ℓ} (P : S → Type κ) (callback : S → S)
      → ((s : S) → P s → P (callback s))
      → (s : S) → P s
      → P (run_on_all_cores p callback s)
  unfolding run_on_all_cores
  run_on_all_cores-keeps P callback keep s h =
      run_on_core-keeps P callback keep 1 _
        (run_on_core-keeps P callback keep 2 _ (run_on_core-keeps P callback keep 4 s h))

  -- What generating the replacement jump leaves alone.
  pub generate_replacement_jump-fields :
      (d d' : Patch) (m m' : Memory)
      → generate_replacement_jump p d m ≡ done (d', m')
      → (d' ≡ record d { replace_with_instruction = d'.replace_with_instruction })
  unfolding generate_replacement_jump
  generate_replacement_jump-fields d d' m m' h = ground arith

module _ (p : Platform) (laws : IsPlatform p) where
  pub local_to_physical-mmu : (a : ℕ) → local_to_physical p a ≢ 0 → local_to_physical p a ≡ p.mmu a
  unfolding local_to_physical
  local_to_physical-mmu a h =
      ground (arith, laws.application_range-mmu a, laws.effective_to_physical-mmu a)

  -- A successful read gives the word at the address, and changes at most the local variable.
  pub read_from_physical_address_lem :
      (m : Memory) (source w : ℕ)
      → (read_from_physical_address p m source).0 ≡ some w
      → (w ≡ m source)
        × ((a : ℕ)
            → a ≢ p.mmu p.current_instruction_address
            → (read_from_physical_address p m source).1 a ≡ m a)
  unfolding read_from_physical_address
  read_from_physical_address_lem m source w h = (
    ground (
      arith,
      local_to_physical-mmu p.current_instruction_address,
      laws.copy_to m (local_to_physical p p.current_instruction_address) source,
    ),
    λ a ne. ground (
      arith,
      local_to_physical-mmu p.current_instruction_address,
      laws.copy_other m (local_to_physical p p.current_instruction_address) source a,
    ),
  )

  -- The read succeeds where the local variable has a physical address.
  pub read_from_physical_address-some :
      (m : Memory) (source : ℕ)
      → local_to_physical p p.current_instruction_address ≢ 0
      → (read_from_physical_address p m source).0 ≡ some (m source)
  unfolding read_from_physical_address
  read_from_physical_address-some m source h = ground (
    arith,
    local_to_physical-mmu p.current_instruction_address,
    laws.copy_to m (local_to_physical p p.current_instruction_address) source,
  )

  module _ (local : local_to_physical p p.replace_instruction_address ≢ 0) where
    -- The thread's write puts the branch into the function's first word, and changes only that
    -- and the thread's local variable.
    pub write_data_and_flush_ic_lem :
        (d : Patch) (m : Memory)
        → write_data_and_flush_ic p d m d.real_physical_function_address
          ≡ d.replace_with_instruction
    unfolding write_data_and_flush_ic
    write_data_and_flush_ic_lem d m = ground (
      arith,
      local_to_physical-mmu p.replace_instruction_address,
      laws.copy_to (write m (p.mmu p.replace_instruction_address) d.replace_with_instruction)
          d.real_physical_function_address (local_to_physical p p.replace_instruction_address),
    )

    pub write_data_and_flush_ic_other :
        (d : Patch) (m : Memory) (a : ℕ)
        → a ≢ d.real_physical_function_address
        → a ≢ p.mmu p.replace_instruction_address
        → write_data_and_flush_ic p d m a ≡ m a
    unfolding write_data_and_flush_ic
    write_data_and_flush_ic_other d m a ne ne' = ground (
      arith,
      laws.copy_other (write m (p.mmu p.replace_instruction_address) d.replace_with_instruction)
          d.real_physical_function_address (local_to_physical p p.replace_instruction_address) a,
    )

    -- The branch is in place once the cores are done.
    pub run_on_all_cores-write :
        (d : Patch) (m : Memory)
        → some_thread p ≡ true
        → run_on_all_cores p (write_data_and_flush_ic p d) m d.real_physical_function_address
          ≡ d.replace_with_instruction
    run_on_all_cores-write d m created =
        run_on_all_cores-post p
          (λ m'. m' d.real_physical_function_address ≡ d.replace_with_instruction)
          (write_data_and_flush_ic p d) (write_data_and_flush_ic_lem d) created m
