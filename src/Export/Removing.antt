-- ===== src/Export/Removing.antt =====
-- What `FPRemoveFunctionPatch` does to the list, and to the later patches of the same function.
use mathlib.Core.Path.{subst}
use function_patcher_module.Base.{
  ℕ, ◌+◌, true, false, none, some, ◌≡◌, refl, sym, ◌∙◌, ap, arith, Bool-cases, inl, inr, if_false,
  contains, if◌then◌else◌,
}
use function_patcher_module.Platform.{Platform, done, ◌>>=◌, done-bind}
use function_patcher_module.Patch.{State, remove}
use function_patcher_module.FunctionPatcher.Install.{done-eq}
use function_patcher_module.Export.Status.{success, patch_not_found}
use function_patcher_module.Export.Remove.{
  Removed, Search, nothing_found, search_patch, erase_at, take_out, put_in_again, release_object,
  remove_erased, erase_patch, remove_found, remove_searched, fp_remove_function_patch,
}
use function_patcher_module.Export.Keeping.{take_out-Keeps, Releases, remove_found-Releases}
use function_patcher_module.Export.Searching.{
  index, erase_at-index, later_patches, search_patch-absent, search_patch-present,
}

module _ (p : Platform) where
  -- What the loop finds where a patch has the handle.
  abbrev pub found_patch : State → ℕ → Search
  found_patch s handle = record {
    to_be_removed = some handle;
    to_be_temp_restored = later_patches s.objects handle s.patched_functions;
    erase_position = index handle s.patched_functions;
  }

  search_patch-found_patch :
      (s : State) (handle : ℕ)
      → contains s.patched_functions handle ≡ true
      → search_patch s.objects handle s.patched_functions nothing_found ≡ found_patch s handle
  search_patch-found_patch s handle h =
      let zero_index : 0 + index handle s.patched_functions ≡ index handle s.patched_functions =
        omega arith in
      search_patch-present s.objects handle s.patched_functions 0 h
      ∙ ap
          (λ i. record {
            to_be_removed = some handle;
            to_be_temp_restored = later_patches s.objects handle s.patched_functions;
            erase_position = i;
          })
          zero_index

  remove_searched-none :
      (s : State) (found : Search)
      → found.to_be_removed ≡ none
      → remove_searched p s found ≡ done (record { status = patch_not_found; state = s })
  unfolding remove_searched
  remove_searched-none s found h = rw (h, remove_searched)

  -- With an unknown handle `FPRemoveFunctionPatch` reports it and changes nothing.
  fp_remove_function_patch-absent :
      (s : State) (handle : ℕ)
      → contains s.patched_functions handle ≡ false
      → fp_remove_function_patch p handle s ≡ done (record { status = patch_not_found; state = s })
  unfolding fp_remove_function_patch
  fp_remove_function_patch-absent s handle h =
      remove_searched-none s (search_patch s.objects handle s.patched_functions nothing_found)
        (search_patch-absent s.objects handle s.patched_functions 0 h)

  fp_remove_function_patch-present :
      (s : State) (handle : ℕ)
      → contains s.patched_functions handle ≡ true
      → fp_remove_function_patch p handle s ≡ (
          remove_found p handle (found_patch s handle) s >>= λ s'.
          done (record { status = success; state = s' }))
  unfolding fp_remove_function_patch
  fp_remove_function_patch-present s handle h =
      ap (remove_searched p s) (search_patch-found_patch s handle h)

  -- A call of `FPRemoveFunctionPatch` that returns removes the first patch with the handle from the
  -- list, keeps the others in their order and reports success; with an unknown handle it reports
  -- that and changes nothing at all.
  pub fp_remove_function_patch-list :
      (s : State) (handle : ℕ) (r : Removed)
      → fp_remove_function_patch p handle s ≡ done r
      → (if contains s.patched_functions handle
          then (r.status ≡ success)
            × (r.state.patched_functions ≡ remove handle s.patched_functions)
          else (r.status ≡ patch_not_found) × (r.state ≡ s))
  fp_remove_function_patch-list s handle r h =
      elim (Bool-cases (contains s.patched_functions handle)) [
        | inl known ↦
            let (t, e, h') =
              done-bind (remove_found p handle (found_patch s handle) s) _
                (sym (fp_remove_function_patch-present s handle known) ∙ h) in
            let end = done-eq h' in
            rw known (
              sym (ap (λ x. x.status) end),
              sym (ap (λ x. x.state.patched_functions) end)
                  ∙ (remove_found-Releases p handle (found_patch s handle) s t e).list
                  ∙ erase_at-index handle s.patched_functions,
            )
        | inr unknown ↦
            let end = done-eq (sym (fp_remove_function_patch-absent s handle unknown) ∙ h) in
            rw unknown (sym (ap (λ x. x.status) end), sym (ap (λ x. x.state) end))
      ]

  -- A removal that finds its patch gives that patch's blocks back and no others.
  pub fp_remove_function_patch-Releases :
      (s : State) (handle : ℕ) (r : Removed)
      → contains s.patched_functions handle ≡ true
      → fp_remove_function_patch p handle s ≡ done r
      → Releases p handle (index handle s.patched_functions) s r.state
  fp_remove_function_patch-Releases s handle r known h =
      let (t, e, h') =
        done-bind (remove_found p handle (found_patch s handle) s) _
          (sym (fp_remove_function_patch-present s handle known) ∙ h) in
      subst (λ x. Releases p handle (index handle s.patched_functions) s x.state) (done-eq h')
        (remove_found-Releases p handle (found_patch s handle) s t e)

  -- Once the removed patch has been taken out of the function, no later patch of that function is
  -- applied again: where taking out the later patches and then the removed one returns and leaves
  -- the removed one not applied, the call succeeds, and ends with the objects and the memory that
  -- the taking out left.
  pub fp_remove_function_patch-forgets :
      (s s' : State) (handle : ℕ)
      → contains s.patched_functions handle ≡ true
      → take_out p handle (later_patches s.objects handle s.patched_functions) s ≡ done s'
      → (s'.objects handle).is_patched ≡ false
      → (r : Removed) × (fp_remove_function_patch p handle s ≡ done r)
        × (r.status ≡ success)
        × (r.state.patched_functions ≡ remove handle s.patched_functions)
        × (r.state.objects ≡ s'.objects)
        × (r.state.machine.memory ≡ s'.machine.memory)
  unfolding remove_found remove_erased put_in_again release_object
  fp_remove_function_patch-forgets s s' handle known taken out =
      let i : ℕ = index handle s.patched_functions in
      let end : State = release_object p handle (erase_patch i s') in
      (
        record { status = success; state = end },
        fp_remove_function_patch-present s handle known
            ∙ ap
                (λ o.
                  (o >>= λ t.
                  remove_erased p handle (later_patches s.objects handle s.patched_functions)
                    (erase_patch i t))
                  >>= λ t. done (record { status = success; state = t }))
                taken
            ∙ ap
                (λ o. (o >>= λ t. done (release_object p handle t)) >>= λ t.
                  done (record { status = success; state = t }))
                (if_false _ (done (erase_patch i s')) out),
        refl,
        ap (erase_at i)
              (take_out-Keeps p handle (later_patches s.objects handle s.patched_functions) s s'
                taken).list
            ∙ erase_at-index handle s.patched_functions,
        refl,
        refl,
      )
