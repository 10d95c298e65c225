-- ===== src/Main/Lifetime.antt =====
-- The module from its start on: `WUMS_INITIALIZE`, and then calls and hooks in any order.
use function_patcher_module.Base.{
  ℕ, ◌/◌, not, ◌∙◌, if_true, if_false, [], ◌≡◌, ◌==◌, refl, sym, ap, Bool-cases, inl, inr,
}
use mathlib.Core.Path.{subst}
use function_patcher_module.Platform.{Platform, Memory, done, done-bind}
use function_patcher_module.Patch.{State}
use function_patcher_module.FunctionPatcher.Install.{done-eq}
use function_patcher_module.Main.{patch_dyn_load_functions}
use function_patcher_module.Main.Initialize.{
  Startup, Started, initialize, set_up, clear_words, update_function_pointer, jump_heap_data_size,
}
use function_patcher_module.Main.Histories.{Steps, AreDistinct, Steps-AreDistinct}
use function_patcher_module.Main.Ownership.{IsBalanced, Steps-IsBalanced}

module _ (p : Platform) (u : Startup) where
  -- The heap's handle, and the memory once it is made.
  abbrev heap_made : Memory → ℕ × Memory
  heap_made m =
      u.create_heap u.jump_heap_data jump_heap_data_size 1
        (clear_words p u m u.jump_heap_data (jump_heap_data_size / 4))

  -- No patch is listed and no block is live.
  abbrev pub IsEmpty : State → Type 0
  IsEmpty s = (s.patched_functions ≡ []) × (s.machine.heap ≡ [])

  pub initialize-IsEmpty : (m : Memory) (r : Started) → initialize p u m ≡ done r → IsEmpty r.state
  unfolding initialize set_up
  initialize-IsEmpty m r h =
      let (t, e, rest) = done-bind (update_function_pointer p u m) (set_up p u m) h in
      let made = heap_made (patch_dyn_load_functions p m).1 in
      elim (Bool-cases (not (patch_dyn_load_functions p m).0)) [
        | inl refused ↦ cc (sym (if_true _ _ refused) ∙ rest)
        | inr patched ↦
            let rest' = sym (if_false _ _ patched) ∙ rest in
            elim (Bool-cases (made.0 == 0)) [
              | inl null ↦ cc (sym (if_true _ _ null) ∙ rest')
              | inr heap ↦
                  let rest'' = sym (if_false _ _ heap) ∙ rest' in
                  elim (Bool-cases (not u.provider_created)) [
                    | inl missing ↦ cc (sym (if_true _ _ missing) ∙ rest'')
                    | inr provider ↦
                        let e' = sym (done-eq (sym (if_false _ _ provider) ∙ rest'')) in
                        (ap (λ x. x.state.patched_functions) e', ap (λ x. x.state.machine.heap) e')
                  ]
            ]
      ]

  -- Where `WUMS_INITIALIZE` returns, in every state that calls and hooks lead to from there: no
  -- address stands twice in the list of patches, and the live blocks of the jump heap are the
  -- buffers of the listed patches. `new` returns the address of no live object.
  pub initialize-Steps :
      (m : Memory) (r : Started)
      → initialize p u m ≡ done r
      → (t : State) → Steps r.state t
      → AreDistinct t.patched_functions × IsBalanced t
  initialize-Steps m r h t steps =
      let empty = initialize-IsEmpty m r h in
      (
        Steps-AreDistinct steps (subst AreDistinct (sym empty.0) tt),
        Steps-IsBalanced steps (λ b. rw (empty.0, empty.1) refl),
      )
