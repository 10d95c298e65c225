-- ===== src/Main/Registry.antt =====
-- What a caller of source/export.cpp sees of the module: a set of handles. Calls and hooks are the
-- steps of `Histories`, and their results what the set allows.
use function_patcher_module.Base.{
  ℕ, Bool, true, false, not, ◌&&◌, ◌||◌, ◌==◌, Option, some, List, [], ◌∷◌, ◌++◌, contains, ◌≡◌,
  ◌≢◌, refl, ◌∙◌, ap, arith, Bool-cases, inl, inr,
}
use function_patcher_module.Patch.{State, remove}
use function_patcher_module.Platform.{Platform, done}
use function_patcher_module.Export.Status.{
  FunctionPatcherStatus, success, patch_not_found, is_success,
}
use function_patcher_module.Export.Add.{ReplacementData, Added, fp_add_function_patch}
use function_patcher_module.Export.Adding.{
  fp_add_function_patch-IsAdded, fp_is_function_patched_lem,
}
use function_patcher_module.Export.Query.{fp_is_function_patched}
use function_patcher_module.Export.Remove.{Removed, fp_remove_function_patch}
use function_patcher_module.Export.Removing.{fp_remove_function_patch-list}
use function_patcher_module.Main.{application_ends}
use function_patcher_module.Main.Keeping.{notify_callback-Keeps, application_starts-Keeps}
use function_patcher_module.Main.Histories.{
  IsFresh, Step, adds, removes, notifies, starts, ends, Steps, no_step, followed, AreDistinct,
  Steps-AreDistinct, contains-append,
}

-- What a caller sees of a step: the result of `FPAddFunctionPatch` with the handle that it hands
-- out, the result of `FPRemoveFunctionPatch` for a handle, or nothing.
pub data Event : Type 0 where
  add_call : FunctionPatcherStatus → Option ℕ → Event
  remove_call : ℕ → FunctionPatcherStatus → Event
  hook : Event

-- A set of handles.
abbrev pub Handles : Type 0
Handles = ℕ → Bool

pub data RegistryStep : Handles → Event → Handles → Type 0 where
  registers :
      {a b : Handles} (h : ℕ)
      → a h ≡ false
      → ((x : ℕ) → b x ≡ a x || (h == x))
      → RegistryStep a (add_call success (some h)) b
  refuses :
      {a b : Handles} (status : FunctionPatcherStatus) (out : Option ℕ)
      → status ≢ success
      → ((x : ℕ) → b x ≡ a x)
      → RegistryStep a (add_call status out) b
  forgets :
      {a b : Handles} (h : ℕ)
      → a h ≡ true
      → ((x : ℕ) → b x ≡ a x && not (h == x))
      → RegistryStep a (remove_call h success) b
  does_not_know :
      {a b : Handles} (h : ℕ)
      → a h ≡ false
      → ((x : ℕ) → b x ≡ a x)
      → RegistryStep a (remove_call h patch_not_found) b
  goes_on : {a b : Handles} → ((x : ℕ) → b x ≡ a x) → RegistryStep a hook b

-- The set's steps with their events in order.
pub data RegistrySteps : Handles → List Event → Handles → Type 0 where
  no_event : (a : Handles) → RegistrySteps a [] a
  then_event :
      {a b c : Handles} {es : List Event} {e : Event}
      → RegistrySteps a es b
      → RegistryStep b e c
      → RegistrySteps a (es ++ e ∷ []) c

-- The handles that the module knows.
abbrev pub known : State → Handles
known s = contains s.patched_functions

unfoldable pub event : {s t : State} → Step s t → Event
event (adds p fresh x heap_handle s r h) = add_call r.status r.out_handle
event (removes p handle s r h) = remove_call handle r.status
event (notifies p handle reason s s' h) = hook
event (starts p s s' h) = hook
event (ends s) = hook

unfoldable pub events : {s t : State} → Steps s t → List Event
unfolding event
events (no_step s) = []
events (followed steps step) = events steps ++ event step ∷ []

pub contains-remove_eq :
    (xs : List ℕ) (a x : ℕ)
    → AreDistinct xs
    → contains (remove a xs) x ≡ contains xs x && not (a == x)
contains-remove_eq [] a x distinct = refl
contains-remove_eq (b ∷ xs) a x distinct =
    ground (arith, contains-remove_eq xs a x distinct.1, distinct.0)

adds-RegistryStep :
    (p : Platform)
    → IsFresh p
    → (x : Option ReplacementData) (heap_handle : ℕ) (s : State) (r : Added)
    → fp_add_function_patch p x heap_handle s ≡ done r
    → RegistryStep (known s) (add_call r.status r.out_handle) (known r.state)
adds-RegistryStep p fresh x heap_handle s r h =
    elim (fp_add_function_patch-IsAdded p s x heap_handle r h) [
      | inl failed ↦
          refuses r.status r.out_handle failed.0
            (λ y. ap (λ t. contains t.patched_functions y) failed.1)
      | inr (ok, added) ↦
          rw (ok, added.out_handle)
            (registers added.handle
              (ap (contains s.patched_functions) added.new_handle ∙ fresh s.patched_functions)
              (λ y.
                ap (λ xs. contains xs y) added.appended
                ∙ contains-append s.patched_functions added.handle y))
    ]

removes-RegistryStep :
    (p : Platform) (handle : ℕ) (s : State) (r : Removed)
    → fp_remove_function_patch p handle s ≡ done r
    → AreDistinct s.patched_functions
    → RegistryStep (known s) (remove_call handle r.status) (known r.state)
removes-RegistryStep p handle s r h distinct =
    let removed = fp_remove_function_patch-list p s handle r h in
    elim (Bool-cases (contains s.patched_functions handle)) [
      | inl here ↦
          let (ok, list) = rw here at removed in
          rw ok (
            forgets handle here (λ y.
              ap (λ xs. contains xs y) list
              ∙ contains-remove_eq s.patched_functions handle y distinct))
      | inr absent ↦
          let (missing, same) = rw absent at removed in
          rw missing
            (does_not_know handle absent (λ y. ap (λ t. contains t.patched_functions y) same))
    ]

Step-RegistryStep :
    {s t : State} (step : Step s t)
    → AreDistinct s.patched_functions
    → RegistryStep (known s) (event step) (known t)
unfolding event application_ends
Step-RegistryStep (adds p fresh x heap_handle s r h) distinct =
    adds-RegistryStep p fresh x heap_handle s r h
Step-RegistryStep (removes p handle s r h) distinct = removes-RegistryStep p handle s r h distinct
Step-RegistryStep (notifies p handle reason s s' h) distinct =
    goes_on (λ y. ap (λ xs. contains xs y) (notify_callback-Keeps p handle reason s s' h).list)
Step-RegistryStep (starts p s s' h) distinct =
    goes_on (λ y. ap (λ xs. contains xs y) (application_starts-Keeps p s s' h).list)
Step-RegistryStep (ends s) distinct = goes_on (λ y. refl)

Steps-RegistrySteps :
    {s t : State} (steps : Steps s t)
    → AreDistinct s.patched_functions
    → RegistrySteps (known s) (events steps) (known t)
unfolding events
Steps-RegistrySteps (no_step s) distinct = no_event (known s)
Steps-RegistrySteps (followed steps step) distinct =
    then_event (Steps-RegistrySteps steps distinct)
      (Step-RegistryStep step (Steps-AreDistinct steps distinct))

-- However calls and hooks follow each other, from a list in which no address stands twice, and with
-- a `new` that returns the address of no live object: what the calls return is what a set of handles
-- allows, where `FPAddFunctionPatch` fails or adds a new handle, `FPRemoveFunctionPatch` removes a
-- known handle or reports that it is unknown, and the hooks change nothing; and
-- `FPIsFunctionPatched` succeeds exactly for the handles of the set.
pub Steps-refines :
    {s t : State} (steps : Steps s t)
    → AreDistinct s.patched_functions
    → RegistrySteps (known s) (events steps) (known t)
      × ((handle : ℕ) → is_success (fp_is_function_patched handle true t).0 ≡ known t handle)
Steps-refines {t = t} steps distinct = (
  Steps-RegistrySteps steps distinct,
  λ handle. ground (arith, fp_is_function_patched_lem handle t),
)
