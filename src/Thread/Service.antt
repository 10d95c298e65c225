-- ===== src/Thread/Service.antt =====
-- The console's threads and their heap, as source/utils/CThread.h calls them.
use function_patcher_module.Base.{ℕ, ◌-◌, Bool, List, ◌∷◌, ◌==◌, ◌!=◌, if◌then◌else◌, ◌≡◌}
use function_patcher_module.Patch.{remove}

-- The calls, on the console's state `W`; a thread's work is a change of the data `S`.
pub record ThreadService (S W : Type 0) : Type 0 where
  -- sizeof(OSThread)
  pub thread_size : ℕ
  -- gMEMAllocFromDefaultHeapExForThreads(size, align), gMEMFreeToDefaultHeapForThreads, and
  -- memset(address, 0, size)
  pub allocate : ℕ → ℕ → W → ℕ × W
  pub free : ℕ → W → W
  pub clear : ℕ → ℕ → W → W
  -- OSCreateThread(thread, entry, stack, stack size, priority, attributes)
  pub create : ℕ → (S → S) → ℕ → ℕ → ℕ → ℕ → W → W
  pub suspend : ℕ → W → W
  pub resume : ℕ → W → W
  pub is_suspended : ℕ → W → Bool
  pub is_terminated : ℕ → W → Bool
  pub set_priority : ℕ → ℕ → W → W
  pub affinity : ℕ → W → ℕ
  pub join : ℕ → W → W

-- What can be said of a state: the data as it stands before the work of the threads that have not
-- been joined, the heap's live blocks, how often each thread is suspended, and its work.
pub record View (S : Type 0) : Type 0 where
  pub data_now : S
  pub live : List ℕ
  pub suspensions : ℕ → ℕ
  pub work : ℕ → S → S

abbrev pub at_thread : {A : Type 0} → (ℕ → A) → ℕ → A → ℕ → A
at_thread f t x u = if t == u then x else f u

-- The live blocks without this one, if it is one.
abbrev pub without : ℕ → List ℕ → List ℕ
without a live = if a == 0 then live else remove a live

-- What the code relies on: a new thread is suspended once, a thread runs when it is resumed as
-- often as it was suspended, and `OSJoinThread` waits until its work, once, is done. Memory that is
-- handed out or cleared is no one's data.
pub record IsThreadService {S W : Type 0} (os : ThreadService S W) (view : W → View S)
    : Type 0 where
  pub allocated :
      (size align : ℕ) (w : W)
      → view (os.allocate size align w).1 ≡ record (view w) {
        live =
            if (os.allocate size align w).0 == 0
            then (view w).live
            else (os.allocate size align w).0 ∷ (view w).live;
      }
  pub freed :
      (a : ℕ) (w : W) → view (os.free a w) ≡ record (view w) { live = remove a (view w).live }
  pub cleared : (a size : ℕ) (w : W) → view (os.clear a size w) ≡ view w
  pub created :
      (t : ℕ) (f : S → S) (stack size priority attributes : ℕ) (w : W)
      → view (os.create t f stack size priority attributes w) ≡ record (view w) {
        suspensions = at_thread (view w).suspensions t 1;
        work = at_thread (view w).work t f;
      }
  pub suspended : (t : ℕ) (w : W) → os.is_suspended t w ≡ ((view w).suspensions t != 0)
  pub resumed :
      (t : ℕ) (w : W)
      → view (os.resume t w) ≡ record (view w) {
        suspensions = at_thread (view w).suspensions t ((view w).suspensions t - 1);
      }
  pub joined :
      (t : ℕ) (w : W)
      → (view w).suspensions t ≡ 0
      → view (os.join t w) ≡ record (view w) { data_now = (view w).work t (view w).data_now }
