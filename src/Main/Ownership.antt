-- ===== src/Main/Ownership.antt =====
-- Who owns the blocks of the jump heap, over every history of calls and hooks.
use function_patcher_module.Base.{
  ℕ, ◌+◌, false, Option, List, ◌≡◌, sym, ◌∙◌, ap, arith, Bool-cases, inl, inr, contains, count,
}
use mathlib.Core.Path.{subst}
use function_patcher_module.Platform.{Platform, done}
use function_patcher_module.Patch.{State, remove}
use function_patcher_module.Export.Add.{ReplacementData, Added, fp_add_function_patch}
use function_patcher_module.Export.Adding.{IsAppended, fp_add_function_patch-IsAdded}
use function_patcher_module.Export.Remove.{Removed, fp_remove_function_patch}
use function_patcher_module.Export.Blocks.{
  owned, count-blocks_over, count-destroy, owned-same, owned-others, count-owned-append,
  count-owned-remove,
}
use function_patcher_module.Export.Keeping.{Keeps}
use function_patcher_module.Export.Removing.{
  fp_remove_function_patch-list, fp_remove_function_patch-Releases,
}
use function_patcher_module.Main.{application_ends}
use function_patcher_module.Main.Keeping.{notify_callback-Keeps, application_starts-Keeps}
use function_patcher_module.Main.Histories.{
  IsFresh, Step, adds, removes, notifies, starts, ends, Steps, no_step, followed,
}

-- Every block that is live is a buffer of a patch in the list, as often as it is live.
abbrev pub IsBalanced : State → Type 0
IsBalanced s = (b : ℕ) → count b s.machine.heap ≡ count b (owned s.objects s.patched_functions)

-- With `extra` blocks that others own.
abbrev pub Balance : ℕ → ℕ → State → Type 0
Balance extra b s = count b s.machine.heap ≡ count b (owned s.objects s.patched_functions) + extra

pub Keeps-Balance : (extra b : ℕ) (s t : State) → Keeps s t → Balance extra b s → Balance extra b t
Keeps-Balance extra b s t kept balanced =
    let list = ap (count b) (
      ap (owned t.objects) kept.list
      ∙ owned-same s.objects t.objects s.patched_functions kept.blocks) in
    omega (arith, ap (count b) kept.heap, list)

Keeps-IsBalanced : (s t : State) → Keeps s t → IsBalanced s → IsBalanced t
Keeps-IsBalanced s t kept balanced b =
    let kept_b = Keeps-Balance 0 b s t kept (omega (arith, balanced b)) in omega arith

appended-IsBalanced :
    (p : Platform)
    → IsFresh p
    → (s : State) (r : Added) → IsAppended p s r
    → IsBalanced s
    → IsBalanced r.state
appended-IsBalanced p fresh s r at balanced b =
    let xs : List ℕ = s.patched_functions in
    let new : contains xs at.handle ≡ false = ap (contains xs) at.new_handle ∙ fresh xs in
    let others : owned r.state.objects xs ≡ owned s.objects xs =
      owned-others s.objects r.state.objects at.handle xs new at.others in
    let heap =
      ap (count b) at.heap_grown ∙ count-blocks_over b (r.state.objects at.handle) s.machine.heap in
    let list =
      ap (λ ys. count b (owned r.state.objects ys)) at.appended
      ∙ count-owned-append b r.state.objects xs at.handle in
    omega (arith, heap, list, ap (count b) others, balanced b)

adds-IsBalanced :
    (p : Platform)
    → IsFresh p
    → (x : Option ReplacementData) (heap_handle : ℕ) (s : State) (r : Added)
    → fp_add_function_patch p x heap_handle s ≡ done r
    → IsBalanced s
    → IsBalanced r.state
adds-IsBalanced p fresh x heap_handle s r h balanced =
    elim (fp_add_function_patch-IsAdded p s x heap_handle r h) [
      | inl failed ↦ subst IsBalanced (sym failed.1) balanced
      | inr (_, at) ↦ appended-IsBalanced p fresh s r at balanced
    ]

pub removes-Balance :
    (p : Platform) (handle extra b : ℕ) (s : State) (r : Removed)
    → fp_remove_function_patch p handle s ≡ done r
    → Balance extra b s
    → Balance extra b r.state
removes-Balance p handle extra b s r h balanced =
    let removed = fp_remove_function_patch-list p s handle r h in
    elim (Bool-cases (contains s.patched_functions handle)) [
      | inl known ↦
          let released = fp_remove_function_patch-Releases p s handle r known h in
          let heap =
            ap (count b) released.heap ∙ count-destroy b (s.objects handle) s.machine.heap in
          let list =
            ap (λ ys. count b (owned r.state.objects ys)) (rw known at removed).1
            ∙ ap (count b) (
                owned-same s.objects r.state.objects (remove handle s.patched_functions)
                  released.blocks) in
          omega (arith, heap, list, count-owned-remove b s.objects handle s.patched_functions known)
      | inr unknown ↦ subst (Balance extra b) (sym (rw unknown at removed).1) balanced
    ]

removes-IsBalanced :
    (p : Platform) (handle : ℕ) (s : State) (r : Removed)
    → fp_remove_function_patch p handle s ≡ done r
    → IsBalanced s
    → IsBalanced r.state
removes-IsBalanced p handle s r h balanced b =
    let removed = removes-Balance p handle 0 b s r h (omega (arith, balanced b)) in omega arith

Step-IsBalanced : {s t : State} → Step s t → IsBalanced s → IsBalanced t
unfolding application_ends
Step-IsBalanced (adds p fresh x heap_handle s r h) = adds-IsBalanced p fresh x heap_handle s r h
Step-IsBalanced (removes p handle s r h) = removes-IsBalanced p handle s r h
Step-IsBalanced (notifies p handle reason s s' h) =
    Keeps-IsBalanced s s' (notify_callback-Keeps p handle reason s s' h)
Step-IsBalanced (starts p s s' h) = Keeps-IsBalanced s s' (application_starts-Keeps p s s' h)
Step-IsBalanced (ends s) = λ balanced. balanced

-- However calls and hooks follow each other, from a state in which the live blocks of the jump heap
-- are the buffers of the listed patches, and with a `new` that returns the address of no live
-- object, the live blocks stay exactly those, each as often as patches own it.
pub Steps-IsBalanced : {s t : State} → Steps s t → IsBalanced s → IsBalanced t
Steps-IsBalanced (no_step s) balanced = balanced
Steps-IsBalanced (followed steps step) balanced =
    Step-IsBalanced step (Steps-IsBalanced steps balanced)
