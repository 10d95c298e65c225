-- ===== src/Callers.antt =====
-- Several threads in the module at once: the calls of source/export.cpp and the hooks of
-- source/main.cpp, cut at `gPatchedFunctionsMutex` and at each round of a loop, in any order.
pub mod Lists
pub mod Exclusion
pub mod Ownership
pub mod Iteration
pub mod Waiting
pub mod Registry
use function_patcher_module.Base.{
  ℕ, zero, suc, ◌+◌, ◌-◌, Option, none, some, List, [], ◌∷◌, ◌++◌, Bool, true, false, ◌≡◌, ◌⊎◌,
  get_elem?, ◌&&◌, ◌!=◌,
}
use function_patcher_module.Platform.{Platform, done}
use function_patcher_module.Patch.{Patch, Machine, Run, State, store}
use function_patcher_module.FunctionPatcher.{patch_function}
use function_patcher_module.Export.Add.{ReplacementData, make_patch}
use function_patcher_module.Export.Remove.{
  on_object, Search, nothing_found, search_patch, take_out, erase_patch, put_in_again,
  release_object,
}
use function_patcher_module.Main.{
  check_if_patched_functions_are_still_in_memory, forget_module, application_ends,
}
use function_patcher_module.Main.Histories.{IsFresh}

-- Where a thread stands, with the local variables that are live there.
pub data Pc : Type 0 where
  -- outside of the module
  idle : Pc
  -- FPAddFunctionPatch: the object is made, `PatchFunction` is done, the lock is held, the object is
  -- in the list
  made patched pushing : Patch → Pc
  pushed : Pc
  -- FPRemoveFunctionPatch and FPIsFunctionPatched with the lock held; of the former, with what its
  -- loop has found for the handle, then with the patch to remove out of its function, out of the list,
  -- and with the later patches applied again
  removing reading : ℕ → Pc
  found : ℕ → Search → Pc
  taken : ℕ → ℕ → Search → Pc
  erased : ℕ → Search → Pc
  restored : ℕ → Pc
  -- notify_callback for OS_DYNLOAD_NOTIFY_UNLOADED with the lock held
  unloading : ℕ → Pc
  -- CheckIfPatchedFunctionsAreStillInMemory before its lock, with its lock, and done; whether it is
  -- WUMS_APPLICATION_STARTS that calls it
  before_check in_check checked : Bool → Pc
  -- the loop over the patches: before it, and with the patches that are left
  at_loop : Pc
  patching : List ℕ → Pc
  -- before the end of the outer `lock_guard`
  leaving : Pc

-- `gPatchedFunctionsMutex`, a recursive mutex: who owns it, and how often, 0 where it is free.
pub record Mutex : Type 0 where
  pub owner : ℕ
  pub depth : ℕ

abbrev pub MayLock : ℕ → Mutex → Type 0
MayLock i mx = (mx.depth ≡ 0) ⊎ (mx.owner ≡ i)

abbrev pub lock : ℕ → Mutex → Mutex
lock i mx = record { owner = i; depth = mx.depth + 1 }

abbrev pub unlock : Mutex → Mutex
unlock mx = record mx { depth = mx.depth - 1 }

-- A `lock_guard` begins.
pub data Locks : Pc → Pc → Type 0 where
  add_locks : (d : Patch) → Locks (patched d) (pushing d)
  remove_locks : (handle : ℕ) → Locks idle (removing handle)
  read_locks : (handle : ℕ) → Locks idle (reading handle)
  loaded_locks : Locks idle at_loop
  unloaded_locks : (handle : ℕ) → Locks idle (unloading handle)
  start_locks :
      (p : Platform) → (p.upid != 2 && p.upid != 15) ≡ false → Locks idle (before_check true)
  check_locks : (starting : Bool) → Locks (before_check starting) (in_check starting)

-- A `lock_guard` ends.
pub data Unlocks : Pc → Pc → Type 0 where
  add_unlocks : Unlocks pushed idle
  start_unlocks : Unlocks (checked true) at_loop
  unloaded_unlocks : Unlocks (checked false) leaving
  leave_unlocks : Unlocks leaving idle

-- The patch that only this thread has a pointer to.
abbrev pub held : Pc → Option Patch
held (made d) = some d
held (patched d) = some d
held (pushing d) = some d
held _ = none

abbrev pub handle_of : Option Patch → List ℕ
handle_of none = []
handle_of (some d) = d.handle ∷ []

-- The handles of these patches, for all threads.
abbrev pub held_handles : List Pc → List ℕ
held_handles [] = []
held_handles (pc ∷ rest) = handle_of (held pc) ++ held_handles rest

-- What a thread does between locking and unlocking, the live objects besides being at `live`. The
-- jump heap and the memory have no lock: FPAddFunctionPatch makes its patch and calls PatchFunction
-- while other threads are in the module. So what a step finds there, and what is there after it, is
-- left open: any machine, before and after.
pub data Work (live : List ℕ) (s : State) : Pc → State → Pc → Type 0 where
  makes :
      (p : Platform)
      → IsFresh p
      → (x : ReplacementData) (heap_handle : ℕ) (mc mc' : Machine) (d : Patch) (heap : List ℕ)
      → make_patch p x heap_handle (record s { machine = mc; patched_functions = live })
        ≡ done (some d, heap)
      → Work live s idle (record s { machine = mc' }) (made d)
  makes_none : (mc' : Machine) → Work live s idle (record s { machine = mc' }) idle
  patches :
      (p : Platform) (d : Patch) (mc mc' : Machine) (r : Run)
      → patch_function p d mc ≡ done r
      → Work live s (made d) (record s { machine = mc' }) (patched r.patch)
  pushes :
      (d : Patch)
      → Work live s
          (pushing d)
          (record s {
            objects = store s.objects d.handle d;
            patched_functions = s.patched_functions ++ d.handle ∷ [];
          })
          pushed
  searches :
      (handle : ℕ)
      → Work live s
          (removing handle)
          s
          (found handle (search_patch s.objects handle s.patched_functions nothing_found))
  misses :
      (handle : ℕ) (f : Search) → f.to_be_removed ≡ none → Work live s (found handle f) s leaving
  takes_out :
      (p : Platform) (handle a : ℕ) (f : Search) (mc mc' : Machine) (s' : State)
      → f.to_be_removed ≡ some a
      → take_out p a f.to_be_temp_restored (record s { machine = mc }) ≡ done s'
      → Work live s (found handle f) (record s' { machine = mc' }) (taken handle a f)
  erases :
      (handle a : ℕ) (f : Search)
      → Work live s (taken handle a f) (erase_patch f.erase_position s) (erased a f)
  puts_in :
      (p : Platform) (a : ℕ) (f : Search) (mc mc' : Machine) (s' : State)
      → put_in_again p a f.to_be_temp_restored (record s { machine = mc }) ≡ done s'
      → Work live s (erased a f) (record s' { machine = mc' }) (restored a)
  releases :
      (p : Platform) (a : ℕ) (mc : Machine)
      → Work live s (restored a) (release_object p a (record s { machine = mc })) leaving
  reads : (handle : ℕ) → Work live s (reading handle) s leaving
  forgets :
      (p : Platform) (handle : ℕ)
      → Work live s (unloading handle) (forget_module p handle s) (before_check false)
  checks :
      (p : Platform) (starting : Bool) (mc mc' : Machine)
      → Work live s
          (in_check starting)
          (record (check_if_patched_functions_are_still_in_memory p (record s { machine = mc })) {
            machine = mc';
          })
          (checked starting)
  begins : Work live s at_loop s (patching s.patched_functions)
  patches_next :
      (p : Platform) (a : ℕ) (rest : List ℕ) (mc mc' : Machine) (s' : State)
      → on_object (patch_function p) (record s { machine = mc }) a ≡ done s'
      → Work live s (patching (a ∷ rest)) (record s' { machine = mc' }) (patching rest)
  ends_loop : Work live s (patching []) s leaving
  ends_title : Work live s idle (application_ends s) idle

pub record System : Type 0 where
  pub state : State
  pub mutex : Mutex
  pub threads : List Pc

-- The addresses of all live objects.
abbrev pub live_objects : System → List ℕ
live_objects y = y.state.patched_functions ++ held_handles y.threads

-- The thread `i` stands somewhere else.
abbrev pub put : List Pc → ℕ → Pc → List Pc
put [] i pc = []
put (x ∷ xs) zero pc = pc ∷ xs
put (x ∷ xs) (suc i) pc = x ∷ put xs i pc

-- One thread goes on.
pub data SystemStep (y : System) : System → Type 0 where
  works :
      (i : ℕ) (pc : Pc) (s : State) (pc' : Pc)
      → get_elem? y.threads i ≡ some pc
      → Work (live_objects y) y.state pc s pc'
      → SystemStep y (record y { state = s; threads = put y.threads i pc' })
  locks :
      (i : ℕ) (pc pc' : Pc)
      → get_elem? y.threads i ≡ some pc
      → Locks pc pc'
      → MayLock i y.mutex
      → SystemStep y (record y { mutex = lock i y.mutex; threads = put y.threads i pc' })
  unlocks :
      (i : ℕ) (pc pc' : Pc)
      → get_elem? y.threads i ≡ some pc
      → Unlocks pc pc'
      → SystemStep y (record y { mutex = unlock y.mutex; threads = put y.threads i pc' })

-- Any number of steps, of any threads.
pub data Interleaving : System → System → Type 0 where
  not_begun : (y : System) → Interleaving y y
  and_then : {x y z : System} → Interleaving x y → SystemStep y z → Interleaving x z
