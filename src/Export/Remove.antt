-- ===== src/Export/Remove.antt =====
-- `FPRemoveFunctionPatch` and the older `FunctionPatcherRestoreFunction`.
use function_patcher_module.Export.Status.{
  FunctionPatcherStatus, success, patch_not_found, is_success,
}
use function_patcher_module.Base.{
  ℕ, zero, suc, ◌+◌, Bool, Option, none, some, List, [], ◌∷◌, ◌++◌, ◌==◌, if◌then◌else◌,
}
use mathlib.Core.List.{reverse}
use function_patcher_module.Platform.{Platform, Outcome, done, ◌>>=◌}
use function_patcher_module.Patch.{Patch, Machine, Run, State, store}
use function_patcher_module.PatchedFunctionData.Make.{destroy}
use function_patcher_module.FunctionPatcher.{patch_function, restore_function}

-- The result of `FPRemoveFunctionPatch`, with the state after.
pub record Removed : Type 0 where
  pub status : FunctionPatcherStatus
  pub state : State

-- An operation on the object at an address.
unfoldable pub on_object : (Patch → Machine → Outcome Run) → State → ℕ → Outcome State
on_object operation s a = do
  r ← operation (s.objects a) s.machine
  done (record s { machine = r.machine; objects = store s.objects a r.patch })

-- The same, on each of several in turn; the results are not looked at.
unfoldable pub on_objects : (Patch → Machine → Outcome Run) → List ℕ → State → Outcome State
unfolding on_object
on_objects operation [] s = done s
on_objects operation (a ∷ as') s = on_object operation s a >>= on_objects operation as'

-- What the loop of `FPRemoveFunctionPatch` has found: the patch to remove, the later patches of
-- the same function, and how many patches stand before it.
pub record Search : Type 0 where
  pub to_be_removed : Option ℕ
  pub to_be_temp_restored : List ℕ
  pub erase_position : ℕ

abbrev pub nothing_found : Search
nothing_found = record { to_be_removed = none; to_be_temp_restored = []; erase_position = 0 }

-- The body of the loop for a patch with another handle.
unfoldable pub search_other : (ℕ → Patch) → ℕ → Search → Search
search_other objects a found = elim found.to_be_removed [
  | none ↦ record found { erase_position = found.erase_position + 1 }
  | some b ↦
      if (objects a).real_physical_function_address == (objects b).real_physical_function_address
      then record found { to_be_temp_restored = found.to_be_temp_restored ++ a ∷ [] }
      else found
]

-- The loop. It ends early at a patch with the handle that is not applied.
unfoldable pub search_patch : (ℕ → Patch) → ℕ → List ℕ → Search → Search
unfolding search_other
search_patch objects handle [] found = found
search_patch objects handle (a ∷ rest) found =
    let found' = record found { to_be_removed = some a } in
    let after = search_patch objects handle rest found' in
    let next = search_patch objects handle rest (search_other objects a found) in
    if a == handle then (if (objects a).is_patched then after else found') else next

-- `vector::erase(begin() + i)`.
abbrev pub erase_at {ℓ} : {A : Type ℓ} → ℕ → List A → List A
erase_at i [] = []
erase_at zero (x ∷ xs) = xs
erase_at (suc i) (x ∷ xs) = x ∷ erase_at i xs

abbrev pub erase_patch : ℕ → State → State
erase_patch i s = record s { patched_functions = erase_at i s.patched_functions }

module _ (p : Platform) where
  -- The patch goes out of the function, after the later ones, the last first.
  unfoldable pub take_out : ℕ → List ℕ → State → Outcome State
  unfolding on_objects on_object
  take_out a later s =
      if (s.objects a).is_patched
      then (do
        s' ← on_objects (restore_function p) (reverse later) s
        on_object (restore_function p) s' a)
      else done s

  -- The later patches are applied again if the removed one is still applied.
  unfoldable pub put_in_again : ℕ → List ℕ → State → Outcome State
  unfolding on_objects
  put_in_again a later s =
      if (s.objects a).is_patched then on_objects (patch_function p) later s else done s

  -- The last pointer to the removed patch goes away.
  unfoldable pub release_object : ℕ → State → State
  release_object a s = record s {
    machine = record (s.machine) { heap = destroy (s.objects a) s.machine.heap };
  }

  -- What follows the erasing.
  unfoldable pub remove_erased : ℕ → List ℕ → State → Outcome State
  unfolding put_in_again release_object
  remove_erased a later s = do s' ← put_in_again a later s; done (release_object a s')

  unfoldable pub remove_found : ℕ → Search → State → Outcome State
  unfolding take_out remove_erased
  remove_found a found s = do
    s' ← take_out a found.to_be_temp_restored s
    remove_erased a found.to_be_temp_restored (erase_patch found.erase_position s')

  -- The call, with what its loop has found.
  unfoldable pub remove_searched : State → Search → Outcome Removed
  unfolding remove_found
  remove_searched s found = elim found.to_be_removed [
    | none ↦ done (record { status = patch_not_found; state = s })
    | some a ↦ (do s' ← remove_found a found s; done (record { status = success; state = s' }))
  ]

  unfoldable pub fp_remove_function_patch : ℕ → State → Outcome Removed
  unfolding search_patch remove_searched
  fp_remove_function_patch handle s =
      remove_searched s (search_patch s.objects handle s.patched_functions nothing_found)

unfoldable pub function_patcher_restore_function : Platform → ℕ → State → Outcome (Bool × Removed)
unfolding fp_remove_function_patch
function_patcher_restore_function p handle s = do
  r ← fp_remove_function_patch p handle s
  done (is_success r.status, r)
