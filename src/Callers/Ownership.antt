-- ===== src/Callers/Ownership.antt =====
-- Who has a pointer to which object while several threads are in the module.
use function_patcher_module.Base.{
  ℕ, ◌+◌, ◌-◌, ◌≤◌, zero, suc, false, some, List, [], ◌∷◌, ◌≡◌, inl, inr, ◌==◌, refl, ap, ◌∙◌,
  arith, contains, count, Bool-cases, ==-eq,
}
use function_patcher_module.Patch.{State}
use function_patcher_module.FunctionPatcher.{patch_function}
use function_patcher_module.FunctionPatcher.Setup.{patch_function-KeepsSetup}
use function_patcher_module.Export.Adding.{make_patch-IsMade}
use function_patcher_module.Export.Keeping.{on_object-Keeps, take_out-Keeps, put_in_again-Keeps}
use function_patcher_module.Export.Remove.{erase_at, release_object}
use function_patcher_module.Main.{application_ends}
use function_patcher_module.Main.Keeping.{check-Keeps, forget_module-Keeps}
use function_patcher_module.Callers.{
  Pc, held, handle_of, Locks, add_locks, remove_locks, read_locks, loaded_locks, unloaded_locks,
  start_locks, check_locks, Unlocks, add_unlocks, start_unlocks, unloaded_unlocks, leave_unlocks,
  Work, makes, makes_none, patches, pushes, searches, misses, takes_out, erases, puts_in, releases,
  reads, forgets, checks, begins, patches_next, ends_loop, ends_title, System, SystemStep, works,
  locks, unlocks, Interleaving, not_begun, and_then,
}
use function_patcher_module.Callers.Lists.{
  total, total-put, total-le, holds, count-parts, count-live,
}

pub contains-count : (xs : List ℕ) (a : ℕ) → contains xs a ≡ false → count a xs ≡ 0
contains-count [] a h = refl
contains-count (x ∷ xs) a h = ground (arith, contains-count xs a)

pub count-contains : (xs : List ℕ) (a : ℕ) → count a xs ≡ 0 → contains xs a ≡ false
count-contains [] a h = refl
count-contains (x ∷ xs) a h = ground (arith, count-contains xs a)

count-erase_at : (a i : ℕ) (xs : List ℕ) → count a (erase_at i xs) ≤ count a xs
count-erase_at a zero [] = omega arith
count-erase_at a (suc i) [] = omega arith
count-erase_at a zero (x ∷ xs) = omega arith
count-erase_at a (suc i) (x ∷ xs) = omega (arith, count-erase_at a i xs)

-- No address stands twice in the list, nor in the list and with a thread that is about to add it, nor
-- with two such threads.
abbrev pub IsSole : System → Type 0
IsSole y = (a : ℕ) → count a y.state.patched_functions + total (holds a) y.threads ≤ 1

-- One thread's part and the rest of the system.
Work-sole :
    {live : List ℕ} {s s' : State} {pc pc' : Pc} (rest b : ℕ)
    → Work live s pc s' pc'
    → count b live ≡ count b s.patched_functions + holds b pc + rest
    → count b s.patched_functions + holds b pc + rest ≤ 1
    → count b s'.patched_functions + holds b pc' + rest ≤ 1
unfolding application_ends release_object
Work-sole {live} {s} rest b (makes p fresh x heap_handle mc mc' d heap h) all sole =
    let state : State = record s { machine = mc; patched_functions = live } in
    let at : d.handle ≡ p.new_object live =
      (make_patch-IsMade p state x heap_handle (some d, heap) h).3 in
    let new = contains-count live d.handle (ap (contains live) at ∙ fresh live) in
    elim (Bool-cases (d.handle == b)) [
      | inl same ↦ ground (arith, new, ==-eq d.handle b same)
      | inr other ↦ ground arith
    ]
Work-sole rest b (makes_none mc') all sole = sole
Work-sole {live} {s} rest b (patches p d mc mc' r h) all sole =
    omega (arith, ap (λ x. count b (x ∷ [])) (patch_function-KeepsSetup p d mc r h).setup.handle)
Work-sole {live} {s} rest b (pushes d) all sole =
    omega (arith, count-parts s.patched_functions (d.handle ∷ []) b)
Work-sole rest b (searches handle) all sole = sole
Work-sole rest b (misses handle f h) all sole = sole
Work-sole {live} {s} rest b (takes_out p handle a f mc mc' s' e h) all sole = omega (
  arith,
  ap (count b) (take_out-Keeps p a f.to_be_temp_restored (record s { machine = mc }) s' h).list,
)
Work-sole {live} {s} rest b (erases handle a f) all sole =
    omega (arith, count-erase_at b f.erase_position s.patched_functions)
Work-sole {live} {s} rest b (puts_in p a f mc mc' s' h) all sole = omega (
  arith,
  ap (count b) (put_in_again-Keeps p a f.to_be_temp_restored (record s { machine = mc }) s' h).list,
)
Work-sole rest b (releases p a mc) all sole = sole
Work-sole rest b (reads handle) all sole = sole
Work-sole {live} {s} rest b (forgets p handle) all sole =
    omega (arith, ap (count b) (forget_module-Keeps p handle s).list)
Work-sole {live} {s} rest b (checks p starting mc mc') all sole =
    omega (arith, ap (count b) (check-Keeps p (record s { machine = mc })).list)
Work-sole rest b begins all sole = sole
Work-sole {live} {s} rest b (patches_next p a xs mc mc' s' h) all sole = omega (
  arith,
  ap (count b)
      (on_object-Keeps (patch_function p) (patch_function-KeepsSetup p) (record s { machine = mc })
        s' a h).list,
)
Work-sole rest b ends_loop all sole = sole
Work-sole rest b ends_title all sole = sole

Locks-held : {pc pc' : Pc} → Locks pc pc' → held pc' ≡ held pc
Locks-held (add_locks d) = refl
Locks-held (remove_locks handle) = refl
Locks-held (read_locks handle) = refl
Locks-held loaded_locks = refl
Locks-held (unloaded_locks handle) = refl
Locks-held (start_locks p h) = refl
Locks-held (check_locks starting) = refl

Unlocks-held : {pc pc' : Pc} → Unlocks pc pc' → held pc' ≡ held pc
Unlocks-held add_unlocks = refl
Unlocks-held start_unlocks = refl
Unlocks-held unloaded_unlocks = refl
Unlocks-held leave_unlocks = refl

SystemStep-IsSole : {y z : System} → SystemStep y z → IsSole y → IsSole z
SystemStep-IsSole {y} (works i pc s pc' at work) sole a =
    let part = total-le (holds a) y.threads i pc at in
    let rest : ℕ = total (holds a) y.threads - holds a pc in
    let after =
      Work-sole rest a work (omega (arith, count-live a y.state.patched_functions y.threads))
        (omega (arith, sole a)) in
    omega (arith, total-put (holds a) y.threads i pc pc' at)
SystemStep-IsSole {y} (locks i pc pc' at step free) sole a = omega (
  arith,
  sole a,
  total-put (holds a) y.threads i pc pc' at,
  ap (λ o. count a (handle_of o)) (Locks-held step),
)
SystemStep-IsSole {y} (unlocks i pc pc' at step) sole a = omega (
  arith,
  sole a,
  total-put (holds a) y.threads i pc pc' at,
  ap (λ o. count a (handle_of o)) (Unlocks-held step),
)

pub Interleaving-IsSole : {y z : System} → Interleaving y z → IsSole y → IsSole z
Interleaving-IsSole (not_begun y) sole = sole
Interleaving-IsSole (and_then steps step) sole =
    SystemStep-IsSole step (Interleaving-IsSole steps sole)
