-- ===== src/Callers/Registry.antt =====
-- What several callers see of the module at once: the set of handles of `Main.Registry`, one step of
-- the set for the moment at which each call takes effect.
use function_patcher_module.Base.{
  ℕ, ◌+◌, ◌≤◌, some, List, [], ◌∷◌, ◌++◌, contains, count, refl, ap, ◌∙◌, arith,
}
use function_patcher_module.Patch.{State}
use function_patcher_module.FunctionPatcher.{patch_function}
use function_patcher_module.FunctionPatcher.Setup.{patch_function-KeepsSetup}
use function_patcher_module.Export.Status.{success, patch_not_found}
use function_patcher_module.Export.Keeping.{on_object-Keeps, take_out-Keeps, put_in_again-Keeps}
use function_patcher_module.Export.Remove.{release_object}
use function_patcher_module.Main.{application_ends}
use function_patcher_module.Main.Keeping.{check-Keeps, forget_module-Keeps}
use function_patcher_module.Main.Histories.{AreDistinct, contains-append}
use function_patcher_module.Main.Registry.{
  Event, add_call, remove_call, hook, RegistryStep, registers, forgets, does_not_know, goes_on,
  RegistrySteps, no_event, then_event, known, contains-remove_eq,
}
use function_patcher_module.Callers
use function_patcher_module.Callers.{
  Pc, Work, makes, makes_none, patches, pushes, searches, misses, takes_out, erases, puts_in,
  releases, reads, checks, begins, patches_next, ends_loop, ends_title, System, works, locks,
  unlocks, Interleaving, not_begun, and_then,
}
use function_patcher_module.Callers.Lists.{total-le, total-zero, holds}
use function_patcher_module.Callers.Iteration.{
  Tracks, IsOutside, outside-IsGuarded, Interleaving-IsGuarded,
}
use function_patcher_module.Callers.Ownership.{
  IsSole, count-contains, contains-count, Interleaving-IsSole,
}

-- A call takes effect where its object comes to the list, where its loop has found nothing for the
-- handle, or where the entry at the position that it has found goes out of the list.
unfoldable pub effect : {live : List ℕ} {s s' : State} {pc pc' : Pc} → Work live s pc s' pc' → Event
effect (pushes d) = add_call success (some d.handle)
effect (misses handle f h) = remove_call handle patch_not_found
effect (erases handle a f) = remove_call handle success
effect _ = hook

count-AreDistinct : (xs : List ℕ) → ((a : ℕ) → count a xs ≤ 1) → AreDistinct xs
count-AreDistinct [] h = tt
count-AreDistinct (x ∷ xs) h =
    (count-contains xs x (ground (arith, h x)), count-AreDistinct xs (λ a. ground (arith, h a)))

AreDistinct-count : (xs : List ℕ) → AreDistinct xs → (a : ℕ) → count a xs ≤ 1
AreDistinct-count [] distinct a = omega arith
AreDistinct-count (x ∷ xs) distinct a =
    ground (arith, AreDistinct-count xs distinct.1 a, contains-count xs x distinct.0)

Work-RegistryStep :
    {live : List ℕ} {s s' : State} {pc pc' : Pc} (work : Work live s pc s' pc')
    → Tracks pc s.patched_functions
    → ((a : ℕ) → count a s.patched_functions + holds a pc ≤ 1)
    → RegistryStep (known s) (effect work) (known s')
unfolding effect application_ends release_object
Work-RegistryStep (makes p fresh x heap_handle mc mc' d heap h) before sole = goes_on (λ y. refl)
Work-RegistryStep (makes_none mc') before sole = goes_on (λ y. refl)
Work-RegistryStep (patches p d mc mc' r h) before sole = goes_on (λ y. refl)
Work-RegistryStep {s = s} (pushes d) before sole =
    registers d.handle (count-contains s.patched_functions d.handle (ground (arith, sole d.handle)))
      (contains-append s.patched_functions d.handle)
Work-RegistryStep (searches handle) before sole = goes_on (λ y. refl)
Work-RegistryStep (misses handle f h) before sole = does_not_know handle (before.0 h) (λ y. refl)
Work-RegistryStep {s = s} (takes_out p handle a f mc mc' s' e h) before sole = goes_on (λ y.
    ap (λ xs. contains xs y)
      (take_out-Keeps p a f.to_be_temp_restored (record s { machine = mc }) s' h).list)
Work-RegistryStep {s = s} (erases handle a f) before sole = forgets handle before.0 (λ y.
    ap (λ xs. contains xs y) before.1
    ∙ contains-remove_eq s.patched_functions handle y
        (count-AreDistinct s.patched_functions (λ b. omega (arith, sole b))))
Work-RegistryStep {s = s} (puts_in p a f mc mc' s' h) before sole = goes_on (λ y.
    ap (λ xs. contains xs y)
      (put_in_again-Keeps p a f.to_be_temp_restored (record s { machine = mc }) s' h).list)
Work-RegistryStep (releases p a mc) before sole = goes_on (λ y. refl)
Work-RegistryStep (reads handle) before sole = goes_on (λ y. refl)
Work-RegistryStep {s = s} (Callers.forgets p handle) before sole =
    goes_on (λ y. ap (λ xs. contains xs y) (forget_module-Keeps p handle s).list)
Work-RegistryStep {s = s} (checks p starting mc mc') before sole =
    goes_on (λ y. ap (λ xs. contains xs y) (check-Keeps p (record s { machine = mc })).list)
Work-RegistryStep begins before sole = goes_on (λ y. refl)
Work-RegistryStep {s = s} (patches_next p a rest mc mc' s' h) before sole =
    let kept =
      on_object-Keeps (patch_function p) (patch_function-KeepsSetup p) (record s { machine = mc })
        s' a h in
    goes_on (λ y. ap (λ xs. contains xs y) kept.list)
Work-RegistryStep ends_loop before sole = goes_on (λ y. refl)
Work-RegistryStep ends_title before sole = goes_on (λ y. refl)

unfoldable pub effects : {y z : System} → Interleaving y z → List Event
unfolding effect
effects (not_begun y) = []
effects (and_then steps (works i pc s pc' at work)) = effects steps ++ effect work ∷ []
effects (and_then steps (locks i pc pc' at step free)) = effects steps
effects (and_then steps (unlocks i pc pc' at step)) = effects steps

outside-IsSole : (y : System) → IsOutside y → AreDistinct y.state.patched_functions → IsSole y
outside-IsSole y outside distinct a =
    let none_held =
      total-zero (holds a) y.threads (λ i pc at. ground (arith, outside.threads i pc at)) in
    omega (arith, AreDistinct-count y.state.patched_functions distinct a, none_held)

-- In whatever order the threads go on, from a state with none of them in the module and no address
-- twice in the list: the calls take effect one after the other on a set of handles. An object that
-- comes to the list adds its handle, which was not in the set; what `FPRemoveFunctionPatch` takes out
-- of the list, at the position that its loop found some steps before, is the handle that it was given,
-- which was in the set; it reports a handle as unknown that is not in the set; and nothing else
-- changes the set. `new` returns the address of no live object.
pub Interleaving-refines :
    {y z : System} (steps : Interleaving y z)
    → IsOutside y
    → AreDistinct y.state.patched_functions
    → RegistrySteps (known y.state) (effects steps) (known z.state)
unfolding effects
Interleaving-refines (not_begun y) outside distinct = no_event (known y.state)
Interleaving-refines {y = x} (and_then {y = y} steps (works i pc s pc' at work)) outside distinct =
    let sole = Interleaving-IsSole steps (outside-IsSole x outside distinct) in
    let guarded = Interleaving-IsGuarded steps (outside-IsGuarded x outside) in
    then_event (Interleaving-refines steps outside distinct) (
      Work-RegistryStep work (guarded.tracking i pc at)
        (λ a. omega (arith, sole a, total-le (holds a) y.threads i pc at)))
Interleaving-refines (and_then steps (locks i pc pc' at step free)) outside distinct =
    Interleaving-refines steps outside distinct
Interleaving-refines (and_then steps (unlocks i pc pc' at step)) outside distinct =
    Interleaving-refines steps outside distinct
