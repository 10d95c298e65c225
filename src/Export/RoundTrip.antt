-- ===== src/Export/RoundTrip.antt =====
-- `FPAddFunctionPatch` and then `FPRemoveFunctionPatch`.
use function_patcher_module.Base.{
  ℕ, true, false, some, List, [], ◌∷◌, ◌++◌, ◌≡◌, ◌≢◌, refl, sym, ◌∙◌, ap, arith, if_true, contains,
  ==-self,
}
use mathlib.Core.Path.{subst}
use function_patcher_module.Platform.{Platform, Memory, done, bind-done}
use function_patcher_module.Patch.{Patch, Machine, State, store, remove}
use function_patcher_module.Utils.{IsPlatform, local_to_physical}
use function_patcher_module.FunctionPatcher.{source_to_physical, restore_target, restore_function}
use function_patcher_module.FunctionPatcher.Patching.{some_thread}
use function_patcher_module.FunctionPatcher.Restore.{IsRestorable}
use function_patcher_module.FunctionPatcher.RoundTrip.{restore_function-patch_function}
use function_patcher_module.PatchedFunctionData.Make.{destroy}
use function_patcher_module.PatchedFunctionData.Buffers.{blocks_over}
use function_patcher_module.Export.Status.{success}
use function_patcher_module.Export.Add.{ReplacementData, Added, fp_add_function_patch}
use function_patcher_module.Export.Applied.{IsApplying, fp_add_function_patch-IsApplying}
use function_patcher_module.Export.Remove.{
  Removed, on_object, on_objects, take_out, fp_remove_function_patch,
}
use function_patcher_module.Export.Searching.{behind, later_patches}
use function_patcher_module.Export.Removing.{
  fp_remove_function_patch-forgets, fp_remove_function_patch-Releases,
}

remove-last : (xs : List ℕ) (a : ℕ) → contains xs a ≡ false → remove a (xs ++ a ∷ []) ≡ xs
remove-last [] a new = ground arith
remove-last (b ∷ xs) a new = ground (arith, remove-last xs a)

behind-last : (xs : List ℕ) (a : ℕ) → contains xs a ≡ false → behind a (xs ++ a ∷ []) ≡ []
behind-last [] a new = ground arith
behind-last (b ∷ xs) a new = ground (arith, behind-last xs a)

contains-last : (xs : List ℕ) (a : ℕ) → contains (xs ++ a ∷ []) a ≡ true
contains-last [] a = ground arith
contains-last (b ∷ xs) a = ground (arith, contains-last xs a)

destroy-blocks_over : (d : Patch) (heap : List ℕ) → destroy d (blocks_over d heap) ≡ heap
unfolding destroy
destroy-blocks_over d heap = ground arith

later_patches-last :
    (objects : ℕ → Patch) (xs : List ℕ) (a : ℕ)
    → contains xs a ≡ false
    → later_patches objects a (xs ++ a ∷ []) ≡ []
later_patches-last objects xs a new = ground (arith, behind-last xs a)

module _ (p : Platform) where
  -- A patch with no later one is taken out by one call of `RestoreFunction`.
  take_out-one :
      (s : State) (a : ℕ) (m : Memory)
      → (s.objects a).is_patched ≡ true
      → restore_function p (s.objects a) s.machine
        ≡ done (record {
          result = true;
          patch = record (s.objects a) { is_patched = false };
          machine = record (s.machine) { memory = m };
        })
      → take_out p a [] s
        ≡ done (record s {
          machine = record (s.machine) { memory = m };
          objects = store s.objects a (record (s.objects a) { is_patched = false });
        })
  unfolding take_out on_objects on_object
  take_out-one s a m applied h = if_true _ _ applied ∙ bind-done _ h refl

module _ (p : Platform) (laws : IsPlatform p)
    (local : local_to_physical p p.replace_instruction_address ≢ 0) (created : some_thread p ≡ true)
    (s : State) (x : ReplacementData) (heap_handle : ℕ) (r : Added)
    (returned : fp_add_function_patch p (some x) heap_handle s ≡ done r)
    (reported : r.out_has_been_patched ≡ some true)
    (unused : contains s.patched_functions (p.new_object s.patched_functions) ≡ false) where
  abbrev handle : ℕ
  handle = p.new_object s.patched_functions

  abbrev new : Patch
  new = r.state.objects handle

  at : IsApplying p s x r
  at = fp_add_function_patch-IsApplying p s x heap_handle r returned reported

  module _ (able : IsRestorable p new) (source : source_to_physical p new ≢ 0)
      (target : restore_target p new ≡ new.real_physical_function_address) where
    abbrev Restores : Patch → Machine → Memory → Type 0
    Restores d mc m =
        restore_function p d mc
        ≡ done (record {
          result = true;
          patch = record d { is_patched = false };
          machine = record mc { memory = m };
        })

    restored :
        (m : Memory) × Restores new r.state.machine m
        × (m new.real_physical_function_address
            ≡ s.machine.memory new.real_physical_function_address)
    restored =
        let (m, e, back) =
          restore_function-patch_function p laws local created at.before at.machine at.run at.fresh
            at.patched at.ok (subst (IsRestorable p) at.object able)
            (subst (λ d. source_to_physical p d ≢ 0) at.object source)
            (subst (λ d. restore_target p d ≡ d.real_physical_function_address) at.object target) in
        (
          m,
          subst (λ d. Restores d r.state.machine m) (sym at.object)
              (subst (λ mc. Restores at.run.patch mc m) (sym at.after) e),
          subst
              (λ d.
                m d.real_physical_function_address
                ≡ s.machine.memory d.real_physical_function_address)
              (sym at.object)
              (back ∙ ap (λ n. n at.run.patch.real_physical_function_address) at.same_memory),
        )

    -- A patch that `FPAddFunctionPatch` has added and reported as applied, and that
    -- `FPRemoveFunctionPatch` takes away again: the call succeeds, the list and the live blocks of
    -- the jump heap are as they were before, and the function begins with the word that stood there.
    -- The new object's address is in no patch of the list, what was replaced is not the word 0, the
    -- patch's physical address is still that of the function, the locals and the field that are
    -- copied from have physical addresses, the console copies as `IsPlatform` says, and some core's
    -- writing thread has its memory.
    pub fp_remove_function_patch-fp_add_function_patch :
        (q : Removed) × (fp_remove_function_patch p handle r.state ≡ done q)
        × (q.status ≡ success)
        × (q.state.patched_functions ≡ s.patched_functions)
        × (q.state.machine.heap ≡ s.machine.heap)
        × (q.state.machine.memory new.real_physical_function_address
            ≡ s.machine.memory new.real_physical_function_address)
    fp_remove_function_patch-fp_add_function_patch =
        let (m, e, back) = restored in
        let xs : List ℕ = s.patched_functions in
        let applied : new.is_patched ≡ true = able.is_patched in
        let listed : contains r.state.patched_functions handle ≡ true =
          ap (λ ys. contains ys handle) at.appended ∙ contains-last xs handle in
        let none_later : later_patches r.state.objects handle r.state.patched_functions ≡ [] =
          ap (later_patches r.state.objects handle) at.appended
          ∙ later_patches-last r.state.objects xs handle unused in
        let t : State = record (r.state) {
          machine = record (r.state.machine) { memory = m };
          objects = store r.state.objects handle (record new { is_patched = false });
        } in
        let (q, returns, ok, list, objects, memory) =
          fp_remove_function_patch-forgets p r.state t handle listed
            (ap (λ later. take_out p handle later r.state) none_later
              ∙ take_out-one p r.state handle m applied e)
            (ap (λ (d : Patch). d.is_patched) (if_true _ _ (==-self handle))) in
        let released = fp_remove_function_patch-Releases p r.state handle q listed returns in
        (
          q,
          returns,
          ok,
          list ∙ ap (remove handle) at.appended ∙ remove-last xs handle unused,
          released.heap
              ∙ ap (destroy new) (ap (λ mc. mc.heap) at.after ∙ at.heap_grown)
              ∙ ap (λ d. destroy new (blocks_over d s.machine.heap)) (sym at.object)
              ∙ destroy-blocks_over new s.machine.heap,
          ap (λ n. n new.real_physical_function_address) memory ∙ back,
        )
