-- ===== src/Export/Keeping.antt =====
-- What the operations on objects keep: the list, the heap and every object's buffers.
use mathlib.Core.Path.{subst}
use mathlib.Core.List.{reverse}
use function_patcher_module.Base.{
  ℕ, List, [], ◌∷◌, ◌≡◌, refl, sym, ◌∙◌, ap, arith, Bool-cases, inl, inr, if_true, if_false, ◌==◌,
}
use function_patcher_module.Platform.{Platform, Outcome, done, done-bind}
use function_patcher_module.Patch.{Patch, Machine, Run, State, store}
use function_patcher_module.PatchedFunctionData.Make.{destroy}
use function_patcher_module.FunctionPatcher.{patch_function, restore_function}
use function_patcher_module.FunctionPatcher.Install.{done-eq}
use function_patcher_module.FunctionPatcher.Setup.{
  SameSetup, SameSetup-trans, KeepsSetup, patch_function-KeepsSetup, restore_function-KeepsSetup,
}
use function_patcher_module.Export.Remove.{
  Search, erase_at, on_object, on_objects, take_out, put_in_again, release_object, remove_erased,
  erase_patch, remove_found,
}

pub record Keeps (s s' : State) : Type 0 where
  pub list : s'.patched_functions ≡ s.patched_functions
  pub heap : s'.machine.heap ≡ s.machine.heap
  pub blocks : (b : ℕ) → SameSetup (s.objects b) (s'.objects b)

pub Keeps-refl : (s : State) → Keeps s s
Keeps-refl s = record { list = refl; heap = refl; blocks = λ b. ground arith }

pub Keeps-trans : {s t u : State} → Keeps s t → Keeps t u → Keeps s u
Keeps-trans h k = record {
  list = k.list ∙ h.list;
  heap = k.heap ∙ h.heap;
  blocks = λ b. SameSetup-trans (h.blocks b) (k.blocks b);
}

store-SameSetup :
    (objects : ℕ → Patch) (a : ℕ) (d : Patch)
    → SameSetup (objects a) d
    → (b : ℕ) → SameSetup (objects b) (store objects a d b)
store-SameSetup objects a d same b = elim (Bool-cases (a == b)) [
  | inl here ↦ ground arith
  | inr there ↦ ground arith
]

module _ (operation : Patch → Machine → Outcome Run)
    (keeps : (d : Patch) (mc : Machine) (r : Run)
      → operation d mc ≡ done r
      → KeepsSetup d mc r) where
  pub on_object-Keeps : (s s' : State) (a : ℕ) → on_object operation s a ≡ done s' → Keeps s s'
  unfolding on_object
  on_object-Keeps s s' a h =
      let (r, e, h') = done-bind (operation (s.objects a) s.machine) _ h in
      let kept = keeps (s.objects a) s.machine r e in
      subst (Keeps s) (done-eq h') (record {
        list = refl;
        heap = kept.heap;
        blocks = store-SameSetup s.objects a r.patch kept.setup;
      })

  pub on_objects-Keeps :
      (xs : List ℕ) (s s' : State) → on_objects operation xs s ≡ done s' → Keeps s s'
  unfolding on_objects
  on_objects-Keeps [] s s' h = subst (Keeps s) (done-eq h) (Keeps-refl s)
  on_objects-Keeps (a ∷ xs) s s' h =
      let (t, e, h') = done-bind (on_object operation s a) _ h in
      Keeps-trans (on_object-Keeps s t a e) (on_objects-Keeps xs t s' h')

module _ (p : Platform) where
  pub take_out-Keeps :
      (a : ℕ) (later : List ℕ) (s s' : State) → take_out p a later s ≡ done s' → Keeps s s'
  unfolding take_out
  take_out-Keeps a later s s' h = elim (Bool-cases (s.objects a).is_patched) [
    | inl applied ↦
        let (t, e, h') =
          done-bind (on_objects (restore_function p) (reverse later) s) _
            (sym (if_true _ _ applied) ∙ h) in
        let restores = restore_function-KeepsSetup p in
        Keeps-trans (on_objects-Keeps (restore_function p) restores (reverse later) s t e)
          (on_object-Keeps (restore_function p) restores t s' a h')
    | inr not_applied ↦
        subst (Keeps s) (done-eq (sym (if_false _ _ not_applied) ∙ h)) (Keeps-refl s)
  ]

  pub put_in_again-Keeps :
      (a : ℕ) (later : List ℕ) (s s' : State) → put_in_again p a later s ≡ done s' → Keeps s s'
  unfolding put_in_again
  put_in_again-Keeps a later s s' h = elim (Bool-cases (s.objects a).is_patched) [
    | inl applied ↦
        on_objects-Keeps (patch_function p) (patch_function-KeepsSetup p) later s s'
          (sym (if_true _ _ applied) ∙ h)
    | inr not_applied ↦
        subst (Keeps s) (done-eq (sym (if_false _ _ not_applied) ∙ h)) (Keeps-refl s)
  ]

  destroy-same : (d d' : Patch) (heap : List ℕ) → SameSetup d d' → destroy d' heap ≡ destroy d heap
  unfolding destroy
  destroy-same d d' heap same = rw (same.jump_data, same.jump_to_original)

  -- The removed patch leaves the list and gives its blocks back; every object keeps its own.
  pub record Releases (a i : ℕ) (s s' : State) : Type 0 where
    pub list : s'.patched_functions ≡ erase_at i s.patched_functions
    pub heap : s'.machine.heap ≡ destroy (s.objects a) s.machine.heap
    pub blocks : (b : ℕ) → SameSetup (s.objects b) (s'.objects b)

  pub remove_found-Releases :
      (a : ℕ) (found : Search) (s s' : State)
      → remove_found p a found s ≡ done s'
      → Releases a found.erase_position s s'
  unfolding remove_found remove_erased release_object
  remove_found-Releases a found s s' h =
      let (t, e, h') = done-bind (take_out p a found.to_be_temp_restored s) _ h in
      let (u, e', h'') =
        done-bind (put_in_again p a found.to_be_temp_restored (erase_patch found.erase_position t))
          _ h' in
      let first = take_out-Keeps a found.to_be_temp_restored s t e in
      let again =
        put_in_again-Keeps a found.to_be_temp_restored (erase_patch found.erase_position t) u e' in
      let same : (b : ℕ) → SameSetup (s.objects b) (u.objects b) =
        λ b. SameSetup-trans (first.blocks b) (again.blocks b) in
      subst (Releases a found.erase_position s) (done-eq h'') (record {
        list = again.list ∙ ap (erase_at found.erase_position) first.list;
        heap =
            destroy-same (s.objects a) (u.objects a) u.machine.heap (same a)
            ∙ ap (destroy (s.objects a)) (again.heap ∙ first.heap);
        blocks = same;
      })
