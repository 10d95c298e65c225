-- ===== src/Export/Adding.antt =====
-- What `FPAddFunctionPatch` and `FPIsFunctionPatched` promise.
use function_patcher_module.Base.{
  ℕ, true, Option, none, some, List, [], ◌∷◌, ◌++◌, ◌≡◌, ◌≢◌, refl, sym, ◌∙◌, ap, arith, ◌⊎◌,
  Bool-cases, inl, inr, if_true, if_false, ==-self, ◌==◌, ◌||◌, ltb, contains, if◌then◌else◌,
}
use mathlib.Core.Path.{subst}
use function_patcher_module.Platform.{Platform, Outcome, done, done-bind}
use function_patcher_module.Patch.{Patch, Run, State, store}
use function_patcher_module.FunctionPatcher.{patch_function}
use function_patcher_module.FunctionPatcher.Install.{done-eq}
use function_patcher_module.FunctionPatcher.Setup.{SameSetup, KeepsSetup, patch_function-KeepsSetup}
use function_patcher_module.FunctionPatcher.Flags.{patch_function-result}
use function_patcher_module.PatchedFunctionData.Buffers.{IsMade, blocks_over, make_shared_v3-IsMade}
use function_patcher_module.PatchedFunctionData.Versions.{upgrade, make_shared_v2-eq-make_shared_v3}
use function_patcher_module.Export.Status.{success, unknown_error, patch_not_found}
use function_patcher_module.Export.Add.{
  ReplacementData, Added, add_made, make_patch, add_checked, fp_add_function_patch, not_added,
}
use function_patcher_module.Export.Query.{find_is_patched, fp_is_function_patched}

find_is_patched-contains :
    (objects : ℕ → Patch) (handle : ℕ) (xs : List ℕ)
    → find_is_patched objects handle xs ≡ (
        if contains xs handle
        then (success, some (objects handle).is_patched)
        else (patch_not_found, none))
unfolding find_is_patched
find_is_patched-contains objects handle [] = refl
find_is_patched-contains objects handle (a ∷ xs) =
    ground (arith, find_is_patched-contains objects handle xs)

-- `FPIsFunctionPatched` with an out parameter reports the flag of the patch with the handle, and
-- PATCH_NOT_FOUND exactly where no patch of the list has it.
pub fp_is_function_patched_lem :
    (handle : ℕ) (s : State)
    → fp_is_function_patched handle true s ≡ (
        if contains s.patched_functions handle
        then (success, some (s.objects handle).is_patched)
        else (patch_not_found, none))
unfolding fp_is_function_patched
fp_is_function_patched_lem handle s = find_is_patched-contains s.objects handle s.patched_functions

-- A call that adds a patch: the new patch is the last of the list, its handle is the new object's
-- address, this and whether it is applied are what the out parameters are set to, the other objects
-- are as before, and the heap has the new patch's blocks more.
pub record IsAppended (p : Platform) (s : State) (r : Added) : Type 0 where
  pub handle : ℕ
  pub new_handle : handle ≡ p.new_object s.patched_functions
  pub out_handle : r.out_handle ≡ some handle
  pub appended : r.state.patched_functions ≡ s.patched_functions ++ handle ∷ []
  pub reported : r.out_has_been_patched ≡ some (r.state.objects handle).is_patched
  pub others : (a : ℕ) → a ≢ handle → r.state.objects a ≡ s.objects a
  pub heap_grown : r.state.machine.heap ≡ blocks_over (r.state.objects handle) s.machine.heap

-- A call that fails leaves the whole state as it was; one that succeeds appends a patch.
abbrev pub IsAdded : Platform → State → Added → Type 0
IsAdded p s r = ((r.status ≢ success) × (r.state ≡ s)) ⊎ ((r.status ≡ success) × IsAppended p s r)

module _ (p : Platform) (s : State) where
  abbrev pub with_heap : List ℕ → State
  with_heap heap = record s { machine = record (s.machine) { heap = heap } }

  abbrev added : Patch → Run → Added
  added d run = record {
    status = success;
    out_handle = some d.handle;
    out_has_been_patched = some run.result;
    state = record {
      machine = run.machine;
      objects = store s.objects d.handle run.patch;
      patched_functions = s.patched_functions ++ d.handle ∷ [];
    };
  }

  stored_blocks :
      (d d' : Patch)
      → SameSetup d d'
      → blocks_over d s.machine.heap
        ≡ blocks_over (store s.objects d.handle d' d.handle) s.machine.heap
  stored_blocks d d' same =
      rw (← same.jump_data, ← same.jump_to_original)
        (ap (λ x. blocks_over x s.machine.heap)
          (sym (if_true d' (s.objects d.handle) (==-self d.handle))))

  added-IsAppended :
      (d : Patch) (heap : List ℕ) (run : Run)
      → d.handle ≡ p.new_object s.patched_functions
      → heap ≡ blocks_over d s.machine.heap
      → KeepsSetup d (with_heap heap).machine run
      → run.patch.is_patched ≡ run.result
      → IsAppended p s (added d run)
  added-IsAppended d heap run new grown kept e = record {
    handle = d.handle;
    new_handle = new;
    out_handle = refl;
    appended = refl;
    reported = ground arith;
    others = λ a ne. ground arith;
    heap_grown = kept.heap ∙ grown ∙ stored_blocks d run.patch kept.setup;
  }

  add_made-IsAdded :
      (heap : List ℕ) (d : Patch) (r : Added)
      → d.handle ≡ p.new_object s.patched_functions
      → heap ≡ blocks_over d s.machine.heap
      → add_made p (with_heap heap) d ≡ done r
      → IsAdded p s r
  unfolding add_made
  add_made-IsAdded heap d r new grown h =
      let (run, q, h') = done-bind (patch_function p d (with_heap heap).machine) _ h in
      subst (IsAdded p s) (done-eq h') (
        inr (
          refl,
          added-IsAppended d heap run new grown
              (patch_function-KeepsSetup p d (with_heap heap).machine run q)
              (patch_function-result p d _ run q),
        ))

  -- What the constructors return, continued.
  unfoldable pub finish_add : (x : Option Patch × List ℕ) → Outcome Added
  finish_add x = elim (x.0) [
    | none ↦ done (not_added p unknown_error (with_heap x.1))
    | some d ↦ add_made p (with_heap x.1) d
  ]

  finish_add-IsAdded :
      (x : Option Patch × List ℕ) (r : Added)
      → IsMade p (p.new_object s.patched_functions) s.machine.heap x
      → finish_add x ≡ done r
      → IsAdded p s r
  unfolding finish_add
  finish_add-IsAdded (none, heap) r made h =
      subst (IsAdded p s) (done-eq h) (inl ((λ e. cc), ap with_heap made))
  finish_add-IsAdded (some d, heap) r made h = add_made-IsAdded heap d r made.3 made.1 h

  pub make_patch-IsMade :
      (x : ReplacementData) (heap_handle : ℕ) (r : Option Patch × List ℕ)
      → make_patch p x heap_handle s ≡ done r
      → IsMade p (p.new_object s.patched_functions) s.machine.heap r
  unfolding make_patch
  make_patch-IsMade x heap_handle r h =
      let object : ℕ = p.new_object s.patched_functions in
      let heap : List ℕ = s.machine.heap in
      elim (Bool-cases (x.version == 2)) [
        | inl two ↦
            subst (IsMade p object heap)
              (sym (
                  make_shared_v2-eq-make_shared_v3 p object x.as_v2 x.as_v3.replace_in_rpx
                    heap_handle heap)
                ∙ done-eq (sym (if_true _ _ two) ∙ h))
              (make_shared_v3-IsMade p object (some (upgrade x.as_v3.replace_in_rpx x.as_v2))
                heap_handle heap)
        | inr not_two ↦ elim (Bool-cases (x.version == 3)) [
          | inl three ↦
              subst (IsMade p object heap)
                (done-eq (sym (if_true _ _ three) ∙ sym (if_false _ _ not_two) ∙ h))
                (make_shared_v3-IsMade p object (some x.as_v3) heap_handle heap)
          | inr other ↦ cc (sym (if_false _ _ other) ∙ sym (if_false _ _ not_two) ∙ h)
        ]
      ]

  add_checked-IsAdded :
      (x : ReplacementData) (heap_handle : ℕ) (r : Added)
      → add_checked p x heap_handle s ≡ done r
      → IsAdded p s r
  unfolding add_checked finish_add
  add_checked-IsAdded x heap_handle r h =
      let (made, e, h') = done-bind (make_patch p x heap_handle s) _ h in
      finish_add-IsAdded made r (make_patch-IsMade x heap_handle made e) h'

  -- Every call of `FPAddFunctionPatch` that returns either fails and leaves the whole state as it
  -- was, the jump heap included, or succeeds and appends the new patch.
  pub fp_add_function_patch-IsAdded :
      (x : Option ReplacementData) (heap_handle : ℕ) (r : Added)
      → fp_add_function_patch p x heap_handle s ≡ done r
      → IsAdded p s r
  unfolding fp_add_function_patch
  fp_add_function_patch-IsAdded none heap_handle r h =
      subst (IsAdded p s) (done-eq h) (inl ((λ e. cc), refl))
  fp_add_function_patch-IsAdded (some x) heap_handle r h =
      elim (Bool-cases (ltb x.version 2 || ltb 3 x.version)) [
        | inl unsupported ↦
            subst (IsAdded p s) (done-eq (sym (if_true _ _ unsupported) ∙ h))
              (inl ((λ e. cc), refl))
        | inr supported ↦ add_checked-IsAdded x heap_handle r (sym (if_false _ _ supported) ∙ h)
      ]
