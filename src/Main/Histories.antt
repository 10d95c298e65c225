-- ===== src/Main/Histories.antt =====
-- The module over time: calls and hooks one after the other, each on the console as it is then.
use function_patcher_module.Base.{
  ℕ, ◌≡◌, true, false, Bool-cases, inl, inr, none, List, [], ◌∷◌, ◌++◌, ◌||◌, ◌==◌, Option,
  contains, refl, sym, ◌∙◌, ap, arith, if_false,
}
use mathlib.Core.Path.{subst}
use function_patcher_module.Platform.{Platform, done}
use function_patcher_module.Patch.{State, remove}
use function_patcher_module.Export.Status.{patch_not_found}
use function_patcher_module.Export.Add.{ReplacementData, Added, fp_add_function_patch}
use function_patcher_module.Export.Adding.{
  fp_add_function_patch-IsAdded, fp_is_function_patched_lem,
}
use function_patcher_module.Export.Query.{fp_is_function_patched}
use function_patcher_module.Export.Remove.{Removed, fp_remove_function_patch}
use function_patcher_module.Export.Removing.{fp_remove_function_patch-list}
use function_patcher_module.Main.{
  NotifyReason, notify_callback, application_starts, application_ends,
}
use function_patcher_module.Main.Keeping.{notify_callback-Keeps, application_starts-Keeps}

-- `new` returns the address of no live object.
abbrev pub IsFresh : Platform → Type 0
IsFresh p = (live : List ℕ) → contains live (p.new_object live) ≡ false

-- What happens to the module's state: one call or one hook that returns. Which title runs, what is
-- loaded and what the heap answers may differ from step to step.
pub data Step : State → State → Type 0 where
  adds :
      (p : Platform)
      → IsFresh p
      → (x : Option ReplacementData) (heap_handle : ℕ) (s : State) (r : Added)
      → fp_add_function_patch p x heap_handle s ≡ done r
      → Step s r.state
  removes :
      (p : Platform) (handle : ℕ) (s : State) (r : Removed)
      → fp_remove_function_patch p handle s ≡ done r
      → Step s r.state
  notifies :
      (p : Platform) (handle : ℕ) (reason : NotifyReason) (s s' : State)
      → notify_callback p handle reason s ≡ done s'
      → Step s s'
  starts : (p : Platform) (s s' : State) → application_starts p s ≡ done s' → Step s s'
  ends : (s : State) → Step s (application_ends s)

-- Any number of steps.
pub data Steps : State → State → Type 0 where
  no_step : (s : State) → Steps s s
  followed : {s t u : State} → Steps s t → Step t u → Steps s u

-- No address stands twice in the list, so a handle means one patch.
abbrev pub AreDistinct : List ℕ → Type 0
AreDistinct [] = Unit {0}
AreDistinct (a ∷ xs) = (contains xs a ≡ false) × AreDistinct xs

pub contains-append :
    (xs : List ℕ) (a x : ℕ) → contains (xs ++ a ∷ []) x ≡ contains xs x || (a == x)
contains-append [] a x = ground arith
contains-append (b ∷ xs) a x = ground (arith, contains-append xs a x)

append-AreDistinct :
    (xs : List ℕ) (a : ℕ) → AreDistinct xs → contains xs a ≡ false → AreDistinct (xs ++ a ∷ [])
append-AreDistinct [] a distinct new = (refl, tt)
append-AreDistinct (b ∷ xs) a distinct new = (
  ground (arith, contains-append xs a b, distinct.0),
  append-AreDistinct xs a distinct.1 (ground arith),
)

pub contains-remove :
    (xs : List ℕ) (a x : ℕ) → contains xs x ≡ false → contains (remove a xs) x ≡ false
contains-remove [] a x h = refl
contains-remove (b ∷ xs) a x h = ground (arith, contains-remove xs a x)

remove-AreDistinct : (xs : List ℕ) (a : ℕ) → AreDistinct xs → AreDistinct (remove a xs)
remove-AreDistinct [] a distinct = tt
remove-AreDistinct (b ∷ xs) a distinct = elim (Bool-cases (b == a)) [
  | inl same ↦ rw same distinct.1
  | inr other ↦ rw other (contains-remove xs a b distinct.0, remove-AreDistinct xs a distinct.1)
]

pub remove-gone : (xs : List ℕ) (a : ℕ) → AreDistinct xs → contains (remove a xs) a ≡ false
remove-gone [] a distinct = refl
remove-gone (b ∷ xs) a distinct = elim (Bool-cases (b == a)) [
  | inl same ↦ ground arith
  | inr other ↦ ground (arith, remove-gone xs a distinct.1)
]

adds-AreDistinct :
    (p : Platform)
    → IsFresh p
    → (x : Option ReplacementData) (heap_handle : ℕ) (s : State) (r : Added)
    → fp_add_function_patch p x heap_handle s ≡ done r
    → AreDistinct s.patched_functions
    → AreDistinct r.state.patched_functions
adds-AreDistinct p fresh x heap_handle s r h distinct =
    elim (fp_add_function_patch-IsAdded p s x heap_handle r h) [
      | inl failed ↦ subst (λ t. AreDistinct t.patched_functions) (sym failed.1) distinct
      | inr (_, added) ↦ subst AreDistinct (sym added.appended) (
          append-AreDistinct s.patched_functions added.handle distinct
            (ap (contains s.patched_functions) added.new_handle ∙ fresh s.patched_functions))
    ]

removes-AreDistinct :
    (p : Platform) (handle : ℕ) (s : State) (r : Removed)
    → fp_remove_function_patch p handle s ≡ done r
    → AreDistinct s.patched_functions
    → AreDistinct r.state.patched_functions
removes-AreDistinct p handle s r h distinct =
    let removed = fp_remove_function_patch-list p s handle r h in
    elim (Bool-cases (contains s.patched_functions handle)) [
      | inl known ↦
          subst AreDistinct (sym (rw known at removed).1)
            (remove-AreDistinct s.patched_functions handle distinct)
      | inr unknown ↦
          subst (λ t. AreDistinct t.patched_functions) (sym (rw unknown at removed).1) distinct
    ]

Step-AreDistinct :
    {s t : State} → Step s t → AreDistinct s.patched_functions → AreDistinct t.patched_functions
unfolding application_ends
Step-AreDistinct (adds p fresh x heap_handle s r h) distinct =
    adds-AreDistinct p fresh x heap_handle s r h distinct
Step-AreDistinct (removes p handle s r h) distinct = removes-AreDistinct p handle s r h distinct
Step-AreDistinct (notifies p handle reason s s' h) distinct =
    subst AreDistinct (sym (notify_callback-Keeps p handle reason s s' h).list) distinct
Step-AreDistinct (starts p s s' h) distinct =
    subst AreDistinct (sym (application_starts-Keeps p s s' h).list) distinct
Step-AreDistinct (ends s) distinct = distinct

-- However calls and hooks follow each other, from a list in which no address stands twice, and
-- with a `new` that returns the address of no live object, no address ever stands twice in it.
pub Steps-AreDistinct :
    {s t : State} → Steps s t → AreDistinct s.patched_functions → AreDistinct t.patched_functions
Steps-AreDistinct (no_step s) distinct = distinct
Steps-AreDistinct (followed steps step) distinct =
    Step-AreDistinct step (Steps-AreDistinct steps distinct)

-- In every state that calls and hooks lead to from one with an empty list, with a `new` that
-- returns the address of no live object: after a call of `FPRemoveFunctionPatch` that returns,
-- `FPIsFunctionPatched` finds no patch with the handle.
pub fp_is_function_patched-fp_remove_function_patch :
    (s t : State)
    → s.patched_functions ≡ []
    → Steps s t
    → (p : Platform) (handle : ℕ) (r : Removed) → fp_remove_function_patch p handle t ≡ done r
    → fp_is_function_patched handle true r.state ≡ (patch_not_found, none)
fp_is_function_patched-fp_remove_function_patch s t empty steps p handle r h =
    let distinct = Steps-AreDistinct steps (subst AreDistinct (sym empty) tt) in
    let removed = fp_remove_function_patch-list p t handle r h in
    let gone : contains r.state.patched_functions handle ≡ false =
      elim (Bool-cases (contains t.patched_functions handle)) [
        | inl known ↦
            ap (λ xs. contains xs handle) (rw known at removed).1
            ∙ remove-gone t.patched_functions handle distinct
        | inr unknown ↦
            ap (λ x. contains x.patched_functions handle) (rw unknown at removed).1 ∙ unknown
      ] in
    fp_is_function_patched_lem handle r.state ∙ if_false _ _ gone
