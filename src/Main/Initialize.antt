-- ===== src/Main/Initialize.antt =====
-- source/main.cpp: `UpdateFunctionPointer` and `WUMS_INITIALIZE`.
use function_patcher_module.Base.{
  ℕ, zero, suc, ◌+◌, ◌*◌, ◌/◌, Bool, not, Option, none, some, [], Text, text, ◌==◌, if◌then◌else◌,
}
use function_patcher_module.Platform.{
  Platform, Memory, write, Fatal, Outcome, done, fatal, ◌>>=◌, no_coreinit, no_allocator,
  no_deallocator, loader_not_patched, no_jump_heap, no_provider,
}
use function_patcher_module.Patch.{new_patch, State}
use function_patcher_module.FunctionAddressProvider.{initial_rpl_handles}
use function_patcher_module.Main.{patch_dyn_load_functions}

-- What the start of the module asks the console for: OSDynLoad_Acquire, and OSDynLoad_FindExport of
-- data, with `none` for a failure; the place of `gJumpHeapData`; MEMCreateExpHeapEx(address, size,
-- flags), 0 for null, which writes its own data to the block; and whether `new` gave the provider its memory.
pub record Startup : Type 0 where
  pub acquire : Text → Option ℕ
  pub find_data : ℕ → Text → Option ℕ
  pub jump_heap_data : ℕ
  pub create_heap : ℕ → ℕ → ℕ → Memory → ℕ × Memory
  pub provider_created : Bool

-- The two functions for the threads' memory, by their addresses.
pub record ThreadMemory : Type 0 where
  pub allocate : ℕ
  pub free : ℕ

-- The globals after the start.
pub record Started : Type 0 where
  pub thread_memory : ThreadMemory
  pub jump_heap_handle : ℕ
  pub state : State

abbrev or_fatal {ℓ} : {A : Type ℓ} → Option A → Fatal → Outcome A
or_fatal none e = fatal e
or_fatal (some a) e = done a

abbrev pub jump_heap_data_size : ℕ
jump_heap_data_size = 32 * 1024

module _ (p : Platform) (u : Startup) where
  unfoldable pub update_function_pointer : Memory → Outcome ThreadMemory
  update_function_pointer m = do
    coreinit ← or_fatal (u.acquire (text "coreinit")) no_coreinit
    alloc_ptr ← or_fatal (u.find_data coreinit (text "MEMAllocFromDefaultHeapEx")) no_allocator
    free_ptr ← or_fatal (u.find_data coreinit (text "MEMFreeToDefaultHeap")) no_deallocator
    done (record { allocate = m (p.mmu alloc_ptr); free = m (p.mmu free_ptr) })

  -- `memset` of whole words to 0.
  unfoldable pub clear_words : Memory → ℕ → ℕ → Memory
  clear_words m base zero = m
  clear_words m base (suc n) = clear_words (write m (p.mmu base) 0) (base + 4) n

  -- What follows `UpdateFunctionPointer` in `WUMS_INITIALIZE`.
  unfoldable pub set_up : Memory → ThreadMemory → Outcome Started
  unfolding patch_dyn_load_functions clear_words
  set_up m functions =
      let patched = patch_dyn_load_functions p m in
      let cleared = clear_words (patched.1) u.jump_heap_data (jump_heap_data_size / 4) in
      let (handle, m') = u.create_heap u.jump_heap_data jump_heap_data_size 1 cleared in
      if not (patched.0)
      then fatal loader_not_patched
      else if handle == 0
      then fatal no_jump_heap
      else if not u.provider_created
      then fatal no_provider
      else done (record {
        thread_memory = functions;
        jump_heap_handle = handle;
        state = record {
          machine = record { memory = m'; heap = []; rpl_handles = initial_rpl_handles p };
          objects = new_patch;
          patched_functions = [];
        };
      })

  -- `WUMS_INITIALIZE`, on the memory as the loader leaves it.
  unfoldable pub initialize : Memory → Outcome Started
  unfolding update_function_pointer set_up
  initialize m = do functions ← update_function_pointer m; set_up m functions
