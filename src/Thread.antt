-- ===== src/Thread.antt =====
-- source/utils/CThread.h: a thread of the console as an object, from its memory to its end.
pub mod Service
pub mod Shutdown
pub mod Core
pub mod Cores
use Prim.Native.Nat.{bit_or}
use function_patcher_module.Base.{
  ℕ, zero, suc, ◌+◌, bit_and, Bool, true, false, not, ◌&&◌, Option, none, some, List, [], ◌∷◌, ◌==◌,
  ◌!=◌, if◌then◌else◌,
}
use function_patcher_module.Thread.Service.{ThreadService}

-- A `CThread`, whose callback with its argument is a change of the data `S`. A null pointer is 0.
pub record CThread (S : Type 0) : Type 0 where
  pub stack_size : ℕ
  pub attributes : ℕ
  pub thread : ℕ
  pub thread_stack : ℕ
  pub callback : Option (S → S)

-- `eCThreadAttributes`.
abbrev pub attribute_none : ℕ
attribute_none = 0x07

abbrev pub attribute_aff_core0 : ℕ
attribute_aff_core0 = 0x01

abbrev pub attribute_aff_core1 : ℕ
attribute_aff_core1 = 0x02

abbrev pub attribute_aff_core2 : ℕ
attribute_aff_core2 = 0x04

abbrev pub attribute_detach : ℕ
attribute_detach = 0x08

abbrev pub attribute_pinned_aff : ℕ
attribute_pinned_aff = 0x10

-- `getThread`.
abbrev pub get_thread : {S : Type 0} → CThread S → ℕ
get_thread th = th.thread

-- `executeThread`.
abbrev pub execute_thread : {S : Type 0} → Option (S → S) → S → S
execute_thread none s = s
execute_thread (some f) s = f s

-- `threadCallback`, which a thread begins with: its result and the data after it.
abbrev pub thread_callback : {S : Type 0} → Option (S → S) → S → ℕ × S
thread_callback callback s = (0, execute_thread callback s)

module _ {S W : Type 0} (os : ThreadService S W) where
  -- The constructor.
  unfoldable pub new_thread : ℕ → ℕ → ℕ → Option (S → S) → W → CThread S × W
  new_thread attributes priority stack_size callback w =
      let (thread, w') = os.allocate os.thread_size 0x10 w in
      let (stack, w'') = os.allocate stack_size 0x20 w' in
      (
        record {
          stack_size = stack_size;
          attributes = attributes;
          thread = thread;
          thread_stack = stack;
          callback = callback;
        },
        if thread != 0 && stack != 0
            then os.create thread (λ s. (thread_callback callback s).1) (stack + stack_size)
                stack_size priority attributes w''
            else w'',
      )

  -- `create`: the constructor with its arguments in another order. The memory that `new` takes for
  -- the object itself is not the threads' heap.
  abbrev pub create : Option (S → S) → ℕ → ℕ → ℕ → W → CThread S × W
  create callback attributes priority stack_size =
      new_thread attributes priority stack_size callback

  unfoldable pub is_thread_suspended : CThread S → W → Bool
  is_thread_suspended th w = if th.thread != 0 then os.is_suspended th.thread w else false

  unfoldable pub is_thread_terminated : CThread S → W → Bool
  is_thread_terminated th w = if th.thread != 0 then os.is_terminated th.thread w else false

  unfoldable pub suspend_thread : CThread S → W → W
  unfolding is_thread_suspended
  suspend_thread th w =
      if is_thread_suspended th w then w else if th.thread != 0 then os.suspend th.thread w else w

  unfoldable pub resume_thread : CThread S → W → W
  unfolding is_thread_suspended
  resume_thread th w =
      if not (is_thread_suspended th w)
      then w
      else if th.thread != 0
      then os.resume th.thread w
      else w

  unfoldable pub set_thread_priority : ℕ → CThread S → W → W
  set_thread_priority priority th w =
      if th.thread != 0 then os.set_priority th.thread priority w else w

  unfoldable pub get_thread_affinity : CThread S → W → ℕ
  get_thread_affinity th w = if th.thread != 0 then os.affinity th.thread w else 0

  -- `isThreadRunning`, which calls itself: fuel counts the calls, and `none` is a call too many.
  unfoldable pub is_thread_running : ℕ → CThread S → W → Option Bool
  unfolding is_thread_suspended
  is_thread_running zero th w = none
  is_thread_running (suc fuel) th w =
      let again = is_thread_running fuel th w in
      if is_thread_suspended th w
      then some false
      else elim again [ none ↦ none | some b ↦ some (not b) ]

  -- The loop of `shutdownThread`: fuel counts the tests, and `none` is a test too many.
  unfoldable pub resume_all : ℕ → CThread S → W → Option W
  unfolding is_thread_suspended resume_thread
  resume_all zero th w = none
  resume_all (suc fuel) th w =
      let rest = resume_all fuel th (resume_thread th w) in
      if is_thread_suspended th w then rest else some w

  -- The end of `shutdownThread`: the memory is cleared and given back.
  unfoldable pub free_thread : CThread S → W → CThread S × W
  free_thread th w =
      let w' =
        if th.thread_stack != 0
        then os.free th.thread_stack (os.clear th.thread_stack th.stack_size w)
        else w in
      let w'' =
        if th.thread != 0 then os.free th.thread (os.clear th.thread os.thread_size w') else w' in
      (record th { thread = 0; thread_stack = 0 }, w'')

  unfoldable pub shutdown_thread : ℕ → CThread S → W → Option (CThread S × W)
  unfolding resume_all free_thread
  shutdown_thread fuel th w =
      if th.thread != 0 && bit_and th.attributes attribute_detach == 0
      then elim (resume_all fuel th w) [
        | none ↦ none
        | some w' ↦ some (free_thread th (os.join th.thread w'))
      ]
      else some (free_thread th w)

  -- The destructor, after which there is no object.
  abbrev pub destroy_thread : ℕ → CThread S → W → Option W
  destroy_thread fuel th w = elim (shutdown_thread fuel th w) [
    | none ↦ none
    | some (_, w') ↦ some w'
  ]

  -- The body of the loop of `runOnAllCores`, with the object's end.
  unfoldable pub run_with_affinity : ℕ → ℕ → ℕ → Option (S → S) → ℕ → W → Option W
  unfolding new_thread resume_thread shutdown_thread
  run_with_affinity fuel priority stack_size callback attributes w =
      let (th, w') = new_thread attributes priority stack_size callback w in
      destroy_thread fuel th (resume_thread th w')

  -- The loop of `runOnAllCores` over the affinities.
  unfoldable pub run_on_cores : List ℕ → ℕ → ℕ → ℕ → ℕ → Option (S → S) → W → Option W
  unfolding run_with_affinity
  run_on_cores [] fuel attributes priority stack_size callback w = some w
  run_on_cores (affinity ∷ rest) fuel attributes priority stack_size callback w =
      elim (run_with_affinity fuel priority stack_size callback (bit_or attributes affinity) w) [
        | none ↦ none
        | some w' ↦ run_on_cores rest fuel attributes priority stack_size callback w'
      ]

  unfoldable pub run_on_all_cores : ℕ → ℕ → ℕ → ℕ → Option (S → S) → W → Option W
  unfolding run_on_cores
  run_on_all_cores =
      run_on_cores (attribute_aff_core2 ∷ attribute_aff_core1 ∷ attribute_aff_core0 ∷ [])
