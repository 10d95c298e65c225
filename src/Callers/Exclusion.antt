-- ===== src/Callers/Exclusion.antt =====
-- Mutual exclusion by `gPatchedFunctionsMutex`.
use function_patcher_module.Base.{
  ℕ, ◌+◌, false, some, List, ◌≡◌, inl, inr, ◌==◌, if◌then◌else◌, refl, arith, get_elem?, Bool-cases,
}
use function_patcher_module.Patch.{State}
use function_patcher_module.Callers.{
  Pc, idle, made, patched, in_check, checked, Mutex, lock, unlock, Locks, add_locks, remove_locks,
  read_locks, loaded_locks, unloaded_locks, start_locks, check_locks, Unlocks, add_unlocks,
  start_unlocks, unloaded_unlocks, leave_unlocks, Work, makes, makes_none, patches, pushes,
  searches, misses, takes_out, erases, puts_in, releases, reads, forgets, checks, begins,
  patches_next, ends_loop, ends_title, System, put, SystemStep, works, locks, unlocks,
}
use function_patcher_module.Callers.Lists.{get_elem?-put}

-- How many of the thread's `lock_guard`s are open.
abbrev pub guards : Pc → ℕ
guards idle = 0
guards (made d) = 0
guards (patched d) = 0
guards (in_check starting) = 2
guards (checked starting) = 2
guards _ = 1

-- The mutex belongs to the thread whose guards are open, as often as they are.
abbrev pub IsExclusive : System → Type 0
IsExclusive y =
    (i : ℕ) (pc : Pc)
    → get_elem? y.threads i ≡ some pc
    → guards pc ≡ (if y.mutex.owner == i then y.mutex.depth else 0)

pub Work-guards :
    {live : List ℕ} {s s' : State} {pc pc' : Pc} → Work live s pc s' pc' → guards pc' ≡ guards pc
Work-guards (makes p fresh x heap_handle mc mc' d heap h) = refl
Work-guards (makes_none mc') = refl
Work-guards (patches p d mc mc' r h) = refl
Work-guards (pushes d) = refl
Work-guards (searches handle) = refl
Work-guards (misses handle f h) = refl
Work-guards (takes_out p handle a f mc mc' s' e h) = refl
Work-guards (erases handle a f) = refl
Work-guards (puts_in p a f mc mc' s' h) = refl
Work-guards (releases p a mc) = refl
Work-guards (reads handle) = refl
Work-guards (forgets p handle) = refl
Work-guards (checks p starting mc mc') = refl
Work-guards begins = refl
Work-guards (patches_next p a rest mc mc' s' h) = refl
Work-guards ends_loop = refl
Work-guards ends_title = refl

pub Locks-guards : {pc pc' : Pc} → Locks pc pc' → guards pc' ≡ guards pc + 1
Locks-guards (add_locks d) = refl
Locks-guards (remove_locks handle) = refl
Locks-guards (read_locks handle) = refl
Locks-guards loaded_locks = refl
Locks-guards (unloaded_locks handle) = refl
Locks-guards (start_locks p h) = refl
Locks-guards (check_locks starting) = refl

pub Unlocks-guards : {pc pc' : Pc} → Unlocks pc pc' → guards pc ≡ guards pc' + 1
Unlocks-guards add_unlocks = refl
Unlocks-guards start_unlocks = refl
Unlocks-guards unloaded_unlocks = refl
Unlocks-guards leave_unlocks = refl

-- Thread `i` goes from `pc` to `pc'`, and the mutex goes along with its guards.
moved-IsExclusive :
    (y : System) (mx : Mutex) (s : State) (i : ℕ) (pc pc' : Pc)
    → get_elem? y.threads i ≡ some pc
    → guards pc' ≡ (if mx.owner == i then mx.depth else 0)
    → ((j : ℕ)
        → (i == j) ≡ false
        → (if mx.owner == j then mx.depth else 0)
          ≡ (if y.mutex.owner == j then y.mutex.depth else 0))
    → IsExclusive y
    → IsExclusive (record { state = s; mutex = mx; threads = put y.threads i pc' })
moved-IsExclusive y mx s i pc pc' at own others exclusive j q h = elim (Bool-cases (i == j)) [
  | inl same ↦ ground (arith, get_elem?-put y.threads i pc pc' at j)
  | inr other ↦ ground (arith, get_elem?-put y.threads i pc pc' at j, others j other, exclusive j q)
]

pub SystemStep-IsExclusive : {y z : System} → SystemStep y z → IsExclusive y → IsExclusive z
SystemStep-IsExclusive {y} (works i pc s pc' at work) exclusive =
    moved-IsExclusive y y.mutex s i pc pc' at (ground (arith, Work-guards work, exclusive i pc at))
      (λ j other. refl) exclusive
SystemStep-IsExclusive {y} (locks i pc pc' at step free) exclusive =
    moved-IsExclusive y (lock i y.mutex) y.state i pc pc' at
      (ground (arith, Locks-guards step, exclusive i pc at)) (λ j other. ground (arith, free))
      exclusive
SystemStep-IsExclusive {y} (unlocks i pc pc' at step) exclusive =
    let mine = exclusive i pc at in
    moved-IsExclusive y (unlock y.mutex) y.state i pc pc' at
      (ground (arith, Unlocks-guards step, mine))
      (λ j other. ground (arith, Unlocks-guards step, mine)) exclusive
