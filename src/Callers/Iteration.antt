-- ===== src/Callers/Iteration.antt =====
-- The loops over `gPatchedFunctions`, and the search through it, while other threads are in the
-- module.
use function_patcher_module.Base.{
  ℕ, ◌+◌, true, false, none, some, List, [], ◌∷◌, ◌++◌, ◌≡◌, ◌⊎◌, inl, inr, ◌==◌, refl, sym, ◌∙◌,
  ap, arith, get_elem?, contains, Bool-cases,
}
use mathlib.Core.List.{append_assoc}
use mathlib.Core.Path.{subst}
use function_patcher_module.Patch.{State, remove}
use function_patcher_module.FunctionPatcher.{patch_function}
use function_patcher_module.FunctionPatcher.Setup.{patch_function-KeepsSetup}
use function_patcher_module.Export.Keeping.{on_object-Keeps, take_out-Keeps, put_in_again-Keeps}
use function_patcher_module.Export.Remove.{
  Search, search_patch, nothing_found, erase_at, release_object,
}
use function_patcher_module.Export.Searching.{
  index, erase_at-index, search_patch-absent, search_patch-present,
}
use function_patcher_module.Main.{application_ends}
use function_patcher_module.Main.Keeping.{check-Keeps, forget_module-Keeps}
use function_patcher_module.Callers.{
  Pc, idle, made, patched, pushing, pushed, removing, reading, found, taken, erased, restored,
  unloading, before_check, in_check, checked, at_loop, patching, leaving, Locks, add_locks,
  remove_locks, read_locks, loaded_locks, unloaded_locks, start_locks, check_locks, Unlocks,
  add_unlocks, start_unlocks, unloaded_unlocks, leave_unlocks, Work, makes, makes_none, patches,
  pushes, searches, misses, takes_out, erases, puts_in, releases, reads, forgets, checks, begins,
  patches_next, ends_loop, ends_title, System, Mutex, lock, unlock, put, SystemStep, works, locks,
  unlocks, Interleaving, not_begun, and_then,
}
use function_patcher_module.Callers.Lists.{get_elem?-put}
use function_patcher_module.Callers.Exclusion.{guards, IsExclusive, SystemStep-IsExclusive}

add_zero : (n : ℕ) → 0 + n ≡ n
add_zero n = omega arith

-- The patches that a loop has left are the end of the list as it is now.
abbrev pub IsRest : List ℕ → List ℕ → Type 0
IsRest xs list = (before : List ℕ) × (list ≡ before ++ xs)

-- The position that the loop of FPRemoveFunctionPatch has found is the one of the handle.
abbrev pub IsErasable : ℕ → Search → List ℕ → Type 0
IsErasable handle f list =
    (contains list handle ≡ true) × (erase_at f.erase_position list ≡ remove handle list)

abbrev pub IsSearched : ℕ → Search → List ℕ → Type 0
IsSearched handle f list =
    (f.to_be_removed ≡ none → contains list handle ≡ false)
    × ((a : ℕ) → f.to_be_removed ≡ some a → IsErasable handle f list)

-- What a thread's local variables say of the list.
abbrev pub Tracks : Pc → List ℕ → Type 0
Tracks (patching xs) list = IsRest xs list
Tracks (found handle f) list = IsSearched handle f list
Tracks (taken handle a f) list = IsErasable handle f list
Tracks _ list = Unit {0}

abbrev pub IsTracking : System → Type 0
IsTracking y =
    (i : ℕ) (pc : Pc) → get_elem? y.threads i ≡ some pc → Tracks pc y.state.patched_functions

-- Without an open guard a thread relies on nothing of the list.
unguarded-Tracks : (pc : Pc) (list : List ℕ) → guards pc ≡ 0 → Tracks pc list
unguarded-Tracks idle list h = tt
unguarded-Tracks (made d) list h = tt
unguarded-Tracks (patched d) list h = tt
unguarded-Tracks (pushing d) list h = tt
unguarded-Tracks pushed list h = tt
unguarded-Tracks (removing handle) list h = tt
unguarded-Tracks (reading handle) list h = tt
unguarded-Tracks (found handle f) list h = absurd (omega arith)
unguarded-Tracks (taken handle a f) list h = absurd (omega arith)
unguarded-Tracks (erased a f) list h = tt
unguarded-Tracks (restored a) list h = tt
unguarded-Tracks (unloading handle) list h = tt
unguarded-Tracks (before_check starting) list h = tt
unguarded-Tracks (in_check starting) list h = tt
unguarded-Tracks (checked starting) list h = tt
unguarded-Tracks at_loop list h = tt
unguarded-Tracks (patching xs) list h = absurd (omega arith)
unguarded-Tracks leaving list h = tt

search-IsSearched :
    (s : State) (handle : ℕ)
    → IsSearched handle
        (search_patch s.objects handle s.patched_functions nothing_found)
        s.patched_functions
search-IsSearched s handle =
    let xs : List ℕ = s.patched_functions in
    elim (Bool-cases (contains xs handle)) [
      | inl here ↦
          let e = search_patch-present s.objects handle xs 0 here in
          (
            λ missing. absurd (let at = ap (λ f. f.to_be_removed) e in cc (missing, at)),
            λ a known. (
              here,
              ap (λ f. erase_at f.erase_position xs) e
                  ∙ ap (λ i. erase_at i xs) (add_zero (index handle xs))
                  ∙ erase_at-index handle xs,
            ),
          )
      | inr absent ↦
          let e = search_patch-absent s.objects handle xs 0 absent in
          (λ missing. absent, λ a known. absurd (cc (known, e)))
    ]

-- What a step leaves of the list: only a thread that holds the mutex changes it.
Work-list :
    {live : List ℕ} {s s' : State} {pc pc' : Pc}
    → Work live s pc s' pc'
    → (s'.patched_functions ≡ s.patched_functions) ⊎ (guards pc ≡ 1)
unfolding application_ends release_object
Work-list (makes p fresh x heap_handle mc mc' d heap h) = inl refl
Work-list (makes_none mc') = inl refl
Work-list (patches p d mc mc' r h) = inl refl
Work-list (pushes d) = inr refl
Work-list (searches handle) = inl refl
Work-list (misses handle f h) = inl refl
Work-list {s} (takes_out p handle a f mc mc' s' e h) =
    inl (take_out-Keeps p a f.to_be_temp_restored (record s { machine = mc }) s' h).list
Work-list (erases handle a f) = inr refl
Work-list {s} (puts_in p a f mc mc' s' h) =
    inl (put_in_again-Keeps p a f.to_be_temp_restored (record s { machine = mc }) s' h).list
Work-list (releases p a mc) = inl refl
Work-list (reads handle) = inl refl
Work-list {s} (forgets p handle) = inl (forget_module-Keeps p handle s).list
Work-list {s} (checks p starting mc mc') = inl (check-Keeps p (record s { machine = mc })).list
Work-list begins = inl refl
Work-list {s} (patches_next p a rest mc mc' s' h) =
    inl
      (on_object-Keeps (patch_function p) (patch_function-KeepsSetup p) (record s { machine = mc })
        s' a h).list
Work-list ends_loop = inl refl
Work-list ends_title = inl refl

-- A thread's own step.
Work-Tracks :
    {live : List ℕ} {s s' : State} {pc pc' : Pc}
    → Work live s pc s' pc'
    → Tracks pc s.patched_functions
    → Tracks pc' s'.patched_functions
Work-Tracks (makes p fresh x heap_handle mc mc' d heap h) before = tt
Work-Tracks (makes_none mc') before = tt
Work-Tracks (patches p d mc mc' r h) before = tt
Work-Tracks (pushes d) before = tt
Work-Tracks {s} (searches handle) before = search-IsSearched s handle
Work-Tracks (misses handle f h) before = tt
Work-Tracks {s} (takes_out p handle a f mc mc' s' e h) before =
    let kept = take_out-Keeps p a f.to_be_temp_restored (record s { machine = mc }) s' h in
    subst (IsErasable handle f) (sym kept.list) (before.1 a e)
Work-Tracks (erases handle a f) before = tt
Work-Tracks (puts_in p a f mc mc' s' h) before = tt
Work-Tracks (releases p a mc) before = tt
Work-Tracks (reads handle) before = tt
Work-Tracks (forgets p handle) before = tt
Work-Tracks (checks p starting mc mc') before = tt
Work-Tracks begins before = ([], refl)
Work-Tracks {s} (patches_next p a rest mc mc' s' h) before =
    let (ys, split) = before in
    let kept =
      on_object-Keeps (patch_function p) (patch_function-KeepsSetup p) (record s { machine = mc })
        s' a h in
    (ys ++ a ∷ [], kept.list ∙ split ∙ sym (append_assoc ys (a ∷ []) rest))
Work-Tracks ends_loop before = tt
Work-Tracks ends_title before = tt

Locks-Tracks : {pc pc' : Pc} (list : List ℕ) → Locks pc pc' → Tracks pc' list
Locks-Tracks list (add_locks d) = tt
Locks-Tracks list (remove_locks handle) = tt
Locks-Tracks list (read_locks handle) = tt
Locks-Tracks list loaded_locks = tt
Locks-Tracks list (unloaded_locks handle) = tt
Locks-Tracks list (start_locks p h) = tt
Locks-Tracks list (check_locks starting) = tt

Unlocks-Tracks : {pc pc' : Pc} (list : List ℕ) → Unlocks pc pc' → Tracks pc' list
Unlocks-Tracks list add_unlocks = tt
Unlocks-Tracks list start_unlocks = tt
Unlocks-Tracks list unloaded_unlocks = tt
Unlocks-Tracks list leave_unlocks = tt

-- Thread `i` goes to `pc'`, and the list to `s'`, on which the other threads rely as before.
moved-IsTracking :
    (y : System) (mx : Mutex) (s' : State) (i : ℕ) (pc pc' : Pc)
    → get_elem? y.threads i ≡ some pc
    → Tracks pc' s'.patched_functions
    → ((j : ℕ) (q : Pc)
        → (i == j) ≡ false
        → get_elem? y.threads j ≡ some q
        → Tracks q s'.patched_functions)
    → IsTracking (record { state = s'; mutex = mx; threads = put y.threads i pc' })
moved-IsTracking y mx s' i pc pc' at own others j q h =
    let moved = get_elem?-put y.threads i pc pc' at j in
    elim (Bool-cases (i == j)) [
      | inl same ↦
          let here : pc' ≡ q = ground (arith, moved) in
          subst (λ x. Tracks x s'.patched_functions) here own
      | inr other ↦ others j q other (ground (arith, moved))
    ]

SystemStep-IsTracking :
    {y z : System} → SystemStep y z → IsExclusive y → IsTracking y → IsTracking z
SystemStep-IsTracking {y} (works i pc s pc' at work) exclusive tracking =
    moved-IsTracking y y.mutex s i pc pc' at (Work-Tracks work (tracking i pc at))
      (λ j q other stands. elim (Work-list work) [
        | inl kept ↦ subst (Tracks q) (sym kept) (tracking j q stands)
        | inr guarded ↦
            let mine = exclusive i pc at in
            let theirs = exclusive j q stands in
            unguarded-Tracks q s.patched_functions (ground arith)
      ])
SystemStep-IsTracking {y} (locks i pc pc' at step free) exclusive tracking =
    moved-IsTracking y (lock i y.mutex) y.state i pc pc' at
      (Locks-Tracks y.state.patched_functions step) (λ j q other stands. tracking j q stands)
SystemStep-IsTracking {y} (unlocks i pc pc' at step) exclusive tracking =
    moved-IsTracking y (unlock y.mutex) y.state i pc pc' at
      (Unlocks-Tracks y.state.patched_functions step) (λ j q other stands. tracking j q stands)

-- The mutex goes along with the threads, and the list with what they know of it.
pub record IsGuarded (y : System) : Type 0 where
  pub exclusive : IsExclusive y
  pub tracking : IsTracking y

pub Interleaving-IsGuarded : {y z : System} → Interleaving y z → IsGuarded y → IsGuarded z
Interleaving-IsGuarded (not_begun y) guarded = guarded
Interleaving-IsGuarded (and_then steps step) guarded =
    let before = Interleaving-IsGuarded steps guarded in
    record {
      exclusive = SystemStep-IsExclusive step before.exclusive;
      tracking = SystemStep-IsTracking step before.exclusive before.tracking;
    }

-- The mutex is free, and no thread is in the module.
pub record IsOutside (y : System) : Type 0 where
  pub free : y.mutex.depth ≡ 0
  pub threads : (i : ℕ) (pc : Pc) → get_elem? y.threads i ≡ some pc → pc ≡ idle

pub outside-IsGuarded : (y : System) → IsOutside y → IsGuarded y
outside-IsGuarded y outside = record {
  exclusive = λ i pc at. ground (arith, outside.free, outside.threads i pc at);
  tracking = λ i pc at.
      unguarded-Tracks pc y.state.patched_functions (ground (arith, outside.threads i pc at));
}

-- In whatever order the threads go on, from a state with none of them in the module: a loop over the
-- patches has the end of the list left to visit, as the list is at that moment; so the entries that
-- it has left are in the list still, and none has come to stand behind them.
pub Interleaving-IsRest :
    {y z : System}
    → Interleaving y z
    → IsOutside y
    → (i : ℕ) (xs : List ℕ) → get_elem? z.threads i ≡ some (patching xs)
    → IsRest xs z.state.patched_functions
Interleaving-IsRest {y} steps outside i xs =
    (Interleaving-IsGuarded steps (outside-IsGuarded y outside)).tracking i (patching xs)
