-- ===== src/Main/Visiting.antt =====
-- What `PatchFunction` of each of several objects in turn does to the objects.
use function_patcher_module.Base.{
  ℕ, true, false, List, [], ◌∷◌, ◌≡◌, sym, ◌∙◌, ap, arith, Bool-cases, inl, inr, if_true, if_false,
  ◌==◌, ==-self, ==-eq, contains,
}
use mathlib.Core.Path.{subst}
use function_patcher_module.Platform.{Platform, done, done-bind}
use function_patcher_module.Patch.{Patch, Machine, Run, State, store}
use function_patcher_module.FunctionPatcher.{patch_function}
use function_patcher_module.FunctionPatcher.Install.{done-eq}
use function_patcher_module.Export.Remove.{on_object, on_objects}

-- The state after `PatchFunction` of one object.
abbrev pub visited : State → ℕ → Run → State
visited s a r = record s { machine = r.machine; objects = store s.objects a r.patch }

pub store-here : (o : ℕ → Patch) (a : ℕ) (d : Patch) → store o a d a ≡ d
store-here o a d = if_true _ _ (==-self a)

module _ (p : Platform) where
  pub on_object-visited :
      (s t : State) (a : ℕ)
      → on_object (patch_function p) s a ≡ done t
      → (r : Run) × (patch_function p (s.objects a) s.machine ≡ done r) × (visited s a r ≡ t)
  unfolding on_object
  on_object-visited s t a h =
      let (r, e, h') = done-bind (patch_function p (s.objects a) s.machine) _ h in
      (r, e, done-eq h')

  pub patch_function-again :
      (d : Patch) (mc : Machine) (r : Run)
      → d.is_patched ≡ true
      → patch_function p d mc ≡ done r
      → (r.patch ≡ d) × (r.machine ≡ mc)
  unfolding patch_function
  patch_function-again d mc r already h =
      let end = done-eq (sym (if_true _ _ already) ∙ h) in
      (sym (ap (λ x. x.patch) end), sym (ap (λ x. x.machine) end))

  -- One visit changes no object that counts as applied.
  visited-applied :
      (s : State) (a b : ℕ) (r : Run)
      → patch_function p (s.objects a) s.machine ≡ done r
      → (s.objects b).is_patched ≡ true
      → (visited s a r).objects b ≡ s.objects b
  visited-applied s a b r e applied = elim (Bool-cases (a == b)) [
    | inl here ↦
        let same = ==-eq a b here in
        let already = subst (λ x. (s.objects x).is_patched ≡ true) (sym same) applied in
        if_true _ _ here
        ∙ (patch_function-again (s.objects a) s.machine r already e).0
        ∙ ap s.objects same
    | inr there ↦ if_false _ _ there
  ]

  pub on_objects-applied :
      (xs : List ℕ) (s s' : State) (b : ℕ)
      → on_objects (patch_function p) xs s ≡ done s'
      → (s.objects b).is_patched ≡ true
      → s'.objects b ≡ s.objects b
  unfolding on_objects
  on_objects-applied [] s s' b h applied = sym (ap (λ x. x.objects b) (done-eq h))
  on_objects-applied (a ∷ xs) s s' b h applied =
      let (t, e, h') = done-bind (on_object (patch_function p) s a) _ h in
      let (r, e', same) = on_object-visited s t a e in
      let kept : t.objects b ≡ s.objects b =
        sym (ap (λ x. x.objects b) same) ∙ visited-applied s a b r e' applied in
      on_objects-applied xs t s' b h' (ap (λ x. x.is_patched) kept ∙ applied) ∙ kept

  pub on_objects-other :
      (xs : List ℕ) (s s' : State) (b : ℕ)
      → on_objects (patch_function p) xs s ≡ done s'
      → contains xs b ≡ false
      → s'.objects b ≡ s.objects b
  unfolding on_objects
  on_objects-other [] s s' b h new = sym (ap (λ x. x.objects b) (done-eq h))
  on_objects-other (a ∷ xs) s s' b h new =
      let (t, e, h') = done-bind (on_object (patch_function p) s a) _ h in
      let (r, e', same) = on_object-visited s t a e in
      let there : (a == b) ≡ false = ground arith in
      on_objects-other xs t s' b h' (ground arith)
      ∙ sym (ap (λ x. x.objects b) same)
      ∙ if_false _ _ there
