-- ===== src/Main/Starting.antt =====
-- What `WUMS_INITIALIZE` starts the module with.
use function_patcher_module.Base.{
  ℕ, zero, suc, ◌+◌, ◌*◌, ◌/◌, ◌<◌, true, not, [], ◌≡◌, ◌≢◌, refl, ◌∙◌, ap, arith, if_false, ne-==,
}
use function_patcher_module.Platform.{Platform, Memory, write, done, bind-done}
use function_patcher_module.Utils.{IsPlatform}
use function_patcher_module.FunctionAddressProvider.{initial_rpl_handles}
use function_patcher_module.PatchedFunctionData.InMemory.{IsClear, IsClear-next}
use function_patcher_module.Main.{patch_dyn_load_functions}
use function_patcher_module.Main.DynLoad.{patch_dyn_load_functions_lem, number_test, info_test}
use function_patcher_module.Main.Initialize.{
  Startup, ThreadMemory, Started, update_function_pointer, clear_words, initialize, set_up,
  jump_heap_data_size,
}

module _ (p : Platform) (u : Startup) where
  clear_words-other :
      (m : Memory) (base n x : ℕ) → IsClear p base n x → clear_words p u m base n x ≡ m x
  unfolding clear_words
  clear_words-other m base zero x clear = refl
  clear_words-other m base (suc n) x clear =
      let first = clear 0 (omega arith) in
      clear_words-other (write m (p.mmu base) 0) (base + 4) n x (IsClear-next p base n x clear)
      ∙ ground (arith, first)

  clear_words-kept : (m : Memory) (base n x : ℕ) → m x ≡ 0 → clear_words p u m base n x ≡ 0
  unfolding clear_words
  clear_words-kept m base zero x h = h
  clear_words-kept m base (suc n) x h =
      clear_words-kept (write m (p.mmu base) 0) (base + 4) n x (ground arith)

  -- Every word of the block is 0.
  clear_words-zero :
      (m : Memory) (base n i : ℕ) → i < n → clear_words p u m base n (p.mmu (base + 4 * i)) ≡ 0
  unfolding clear_words
  clear_words-zero m base zero i lt = absurd (omega arith)
  clear_words-zero m base (suc n) zero lt =
      let e : base + 4 * 0 ≡ base = omega arith in
      rw e (clear_words-kept (write m (p.mmu base) 0) (base + 4) n (p.mmu base) (ground arith))
  clear_words-zero m base (suc n) (suc i) lt =
      let e : base + 4 * suc i ≡ base + 4 + 4 * i = omega arith in
      rw e (clear_words-zero (write m (p.mmu base) 0) (base + 4) n i (omega arith))

  abbrev heap_of : Memory → ℕ × Memory
  heap_of = u.create_heap u.jump_heap_data jump_heap_data_size 1

  -- The heap's handle and the memory after its making, in the cleared block.
  abbrev heap_made : Memory → ℕ × Memory
  heap_made m = heap_of (clear_words p u m u.jump_heap_data (jump_heap_data_size / 4))

  -- The start's questions to the console are answered.
  pub record IsAnswered (m : Memory) (t : ThreadMemory) : Type 0 where
    pub functions : update_function_pointer p u m ≡ done t
    pub patched : (patch_dyn_load_functions p m).0 ≡ true
    pub has_heap : (heap_made (patch_dyn_load_functions p m).1).0 ≢ 0
    pub has_provider : u.provider_created ≡ true

  -- The jump heap was made in a block whose words were all 0.
  abbrev IsHeapMade : ℕ → Memory → Type 0
  IsHeapMade handle m =
      (before : Memory) × ((i : ℕ)
        → i < jump_heap_data_size / 4
        → before (p.mmu (u.jump_heap_data + 4 * i)) ≡ 0)
      × (heap_of before ≡ (handle, m))

  -- The module as it is to start: nothing patched, no block live, no library looked up, the jump heap
  -- made, and the loader's two tests taken out.
  pub record IsStarted (t : ThreadMemory) (r : Started) : Type 0 where
    pub thread_memory : r.thread_memory ≡ t
    pub no_patches : r.state.patched_functions ≡ []
    pub no_blocks : r.state.machine.heap ≡ []
    pub handles : r.state.machine.rpl_handles ≡ initial_rpl_handles p
    pub jump_heap : IsHeapMade r.jump_heap_handle r.state.machine.memory
    pub number_test_out : r.state.machine.memory (p.mmu (number_test p)) ≡ 0x60000000
    pub info_test_out : r.state.machine.memory (p.mmu (info_test p)) ≡ 0x60000000

  -- MEMCreateExpHeapEx writes to nothing but its block.
  abbrev pub KeepsToBlock : Type 0
  KeepsToBlock =
      (m : Memory) (x : ℕ)
      → IsClear p u.jump_heap_data (jump_heap_data_size / 4) x
      → (heap_of m).1 x ≡ m x

  -- Where the loader's two tests lie: known, and apart from each other, from the argument of
  -- `PatchInstruction` and from the jump heap.
  pub record IsApart : Type 0 where
    pub argument : p.effective_to_physical p.replacement_address ≢ 0
    pub number_known : p.effective_to_physical (number_test p) ≢ 0
    pub info_known : p.effective_to_physical (info_test p) ≢ 0
    pub tests : p.mmu (number_test p) ≢ p.mmu (info_test p)
    pub number_argument : p.mmu (number_test p) ≢ p.mmu p.replacement_address
    pub number_heap : IsClear p u.jump_heap_data (jump_heap_data_size / 4) (p.mmu (number_test p))
    pub info_heap : IsClear p u.jump_heap_data (jump_heap_data_size / 4) (p.mmu (info_test p))

  -- `WUMS_INITIALIZE` returns where its questions to the console are answered, and then nothing is
  -- patched, no block is live, no library has been looked up, the jump heap has been made in a block
  -- of zeros, and both of the loader's tests are the instruction nop. The console copies as
  -- `IsPlatform` says, the making of a heap writes to nothing but its block, and the two tests are
  -- known and lie apart from each other, from the argument of `PatchInstruction` and from the jump
  -- heap.
  pub initialize-IsStarted :
      IsPlatform p
      → KeepsToBlock
      → IsApart
      → (m : Memory) (t : ThreadMemory) → IsAnswered m t
      → (r : Started) × (initialize p u m ≡ done r) × IsStarted t r
  unfolding initialize set_up
  initialize-IsStarted laws keeps apart m t at =
      let size : ℕ = jump_heap_data_size / 4 in
      let m' : Memory = (patch_dyn_load_functions p m).1 in
      let zeros : Memory = clear_words p u m' u.jump_heap_data size in
      let tests =
        patch_dyn_load_functions_lem p laws apart.argument m apart.number_known apart.info_known
          apart.tests apart.number_argument at.patched in
      (
        _,
        bind-done _ at.functions (
            if_false _ _ (ap not at.patched)
            ∙ if_false _ _ (ne-== _ _ at.has_heap)
            ∙ if_false _ _ (ap not at.has_provider)),
        record {
          thread_memory = refl;
          no_patches = refl;
          no_blocks = refl;
          handles = refl;
          jump_heap = (zeros, clear_words-zero m' u.jump_heap_data size, refl);
          number_test_out =
              keeps zeros (p.mmu (number_test p)) apart.number_heap
              ∙ clear_words-other m' u.jump_heap_data size (p.mmu (number_test p)) apart.number_heap
              ∙ tests.0;
          info_test_out =
              keeps zeros (p.mmu (info_test p)) apart.info_heap
              ∙ clear_words-other m' u.jump_heap_data size (p.mmu (info_test p)) apart.info_heap
              ∙ tests.1;
        },
      )
