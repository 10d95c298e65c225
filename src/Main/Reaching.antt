-- ===== src/Main/Reaching.antt =====
-- `OS_DYNLOAD_NOTIFY_LOADED` of source/main.cpp: what calls of the patched functions reach after all
-- listed patches have been visited.
use function_patcher_module.Base.{
  ℕ, true, false, List, [], ◌∷◌, ◌≡◌, ◌≢◌, sym, ◌∙◌, ap, arith, Bool-cases, inl, inr, if_true,
  if_false, ◌==◌, ==-self, contains,
}
use mathlib.Core.Path.{subst}
use function_patcher_module.Platform.{Platform, done, done-bind}
use function_patcher_module.Patch.{Patch, Run, State}
use function_patcher_module.Ppc.{Code}
use function_patcher_module.Utils.{IsPlatform, local_to_physical}
use function_patcher_module.FunctionPatcher.{patch_function}
use function_patcher_module.FunctionPatcher.Patching.{some_thread}
use function_patcher_module.FunctionPatcher.Install.{done-eq}
use function_patcher_module.FunctionPatcher.Placed.{HasRoom}
use function_patcher_module.FunctionPatcher.Flags.{patch_function-result}
use function_patcher_module.FunctionPatcher.Active.{IsActive, patch_function-IsActive}
use function_patcher_module.FunctionPatcher.Undisturbed.{IsApart, patch_function-IsApart}
use function_patcher_module.PatchedFunctionData.Make.{needs_trampoline}
use function_patcher_module.Export.Remove.{on_object, on_objects}
use function_patcher_module.Main.Histories.{AreDistinct}
use function_patcher_module.Main.Visiting.{
  visited, store-here, on_object-visited, patch_function-again, on_objects-applied,
  on_objects-other,
}

-- The patches lie apart from each other, and a trampoline that is needed has its room.
pub record LieApart (p : Platform) (listed : List ℕ) (objects : ℕ → Patch) : Type 0 where
  pub apart :
      (a b : ℕ)
      → contains listed a ≡ true
      → contains listed b ≡ true
      → (a == b) ≡ false
      → IsApart p (objects b) (objects a)
  pub room :
      (a : ℕ)
      → contains listed a ≡ true
      → needs_trampoline p (objects a) ≡ true
      → HasRoom p (objects a)

-- The branch of every listed patch that counts as applied stands in its function, and leads to the
-- trampoline or the replacement.
abbrev pub AllActive : Platform → Code → List ℕ → State → Type 0
AllActive p k listed s =
    (a : ℕ)
    → contains listed a ≡ true
    → (s.objects a).is_patched ≡ true
    → IsActive p k s.machine.memory (s.objects a)

module _ (p : Platform) (laws : IsPlatform p)
    (local : local_to_physical p p.replace_instruction_address ≢ 0) (k : Code)
    (created : some_thread p ≡ true) (listed : List ℕ) where
  -- The visited patch is active if it counts as applied.
  visited-here :
      (s : State) (a : ℕ) (r : Run)
      → AllActive p k listed s
      → contains listed a ≡ true
      → patch_function p (s.objects a) s.machine ≡ done r
      → (needs_trampoline p r.patch ≡ true → HasRoom p r.patch)
      → r.patch.is_patched ≡ true
      → IsActive p k r.machine.memory r.patch
  visited-here s a r active is_listed e room applied = elim (Bool-cases (s.objects a).is_patched) [
    | inl already ↦
        let again = patch_function-again p (s.objects a) s.machine r already e in
        subst (λ x. IsActive p k x.memory r.patch) (sym again.1)
          (subst (IsActive p k s.machine.memory) (sym again.0) (active a is_listed already))
    | inr fresh ↦
        patch_function-IsActive p laws local k (s.objects a) s.machine r created fresh e
          (sym (patch_function-result p (s.objects a) s.machine r e) ∙ applied) room
  ]

  -- One visit, where the objects will be `o` in the end.
  visited-AllActive :
      (s : State) (a : ℕ) (r : Run) (o : ℕ → Patch)
      → AllActive p k listed s
      → contains listed a ≡ true
      → patch_function p (s.objects a) s.machine ≡ done r
      → LieApart p listed o
      → o a ≡ r.patch
      → ((b : ℕ) → (s.objects b).is_patched ≡ true → o b ≡ s.objects b)
      → AllActive p k listed (visited s a r)
  visited-AllActive s a r o active is_listed e lie final stays b is_listed' applied =
      elim (Bool-cases (a == b)) [
        | inl here ↦
            let room =
              subst (λ x. needs_trampoline p x ≡ true → HasRoom p x) final (lie.room a is_listed) in
            let same : (visited s a r).objects b ≡ r.patch = if_true _ _ here in
            subst (IsActive p k r.machine.memory) (sym same) (
              visited-here s a r active is_listed e room
                (sym (ap (λ x. x.is_patched) same) ∙ applied))
        | inr there ↦
            let same : (visited s a r).objects b ≡ s.objects b = if_false _ _ there in
            let applied' = sym (ap (λ x. x.is_patched) same) ∙ applied in
            let apart = subst (IsApart p (s.objects b)) final (
              subst (λ x. IsApart p x (o a)) (stays b applied')
                (lie.apart a b is_listed is_listed' there)) in
            subst (IsActive p k r.machine.memory) (sym same) (
              patch_function-IsApart p laws local k (s.objects b) (s.objects a) s.machine r
                (active b is_listed' applied') e apart)
      ]

  pub on_objects-AllActive :
      (xs : List ℕ) (s s' : State)
      → AreDistinct xs
      → ((a : ℕ) → contains xs a ≡ true → contains listed a ≡ true)
      → on_objects (patch_function p) xs s ≡ done s'
      → LieApart p listed s'.objects
      → AllActive p k listed s
      → AllActive p k listed s'
  unfolding on_objects
  on_objects-AllActive [] s s' distinct within h lie active =
      subst (AllActive p k listed) (done-eq h) active
  on_objects-AllActive (a ∷ xs) s s' distinct within h lie active =
      let (t, e, h') = done-bind (on_object (patch_function p) s a) _ h in
      let (r, e', same) = on_object-visited p s t a e in
      let final : s'.objects a ≡ r.patch =
        on_objects-other p xs t s' a h' distinct.0
        ∙ sym (ap (λ x. x.objects a) same)
        ∙ store-here s.objects a r.patch in
      let stays : (b : ℕ) → (s.objects b).is_patched ≡ true → s'.objects b ≡ s.objects b =
        λ b applied. on_objects-applied p (a ∷ xs) s s' b h applied in
      let next =
        visited-AllActive s a r s'.objects active (within a (ground (arith, ==-self a))) e' lie
          final stays in
      on_objects-AllActive xs t s' distinct.1 (λ b h. within b (ground arith)) h' lie
        (subst (AllActive p k listed) same next)
