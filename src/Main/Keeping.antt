-- ===== src/Main/Keeping.antt =====
-- What the hooks keep: the list of patches, the heap and every object's buffers.
use function_patcher_module.Base.{
  ℕ, Option, none, some, List, [], ◌∷◌, ◌≡◌, refl, sym, ◌∙◌, not, Bool-cases, inl, inr, if_true,
  if_false, ap, ==-eq, ==-self, ◌==◌, ◌!=◌, ◌&&◌, ◌||◌, contains, holds,
}
use mathlib.Core.Path.{subst}
use mathlib.Core.List.{reverse}
use function_patcher_module.Platform.{Platform, LibraryName, Memory, done}
use function_patcher_module.Patch.{Patch, State}
use function_patcher_module.FunctionAddressProvider.{get_type_for_handle}
use function_patcher_module.Utils.{read_from_physical_address}
use function_patcher_module.FunctionPatcher.{patch_function}
use function_patcher_module.FunctionPatcher.Install.{done-eq}
use function_patcher_module.FunctionPatcher.Setup.{SameSetup, patch_function-KeepsSetup}
use function_patcher_module.Export.Keeping.{Keeps, Keeps-refl, Keeps-trans, on_objects-Keeps}
use function_patcher_module.Main.{
  Check, unpatch, check_read, check_patch, check_patches, is_by_library, unload_patches,
  check_if_patched_functions_are_still_in_memory, notify_loaded, forget_module, notify_unloaded,
  notify_callback, NotifyReason, os_dynload_notify_loaded, os_dynload_notify_unloaded,
  os_dynload_notify_other, application_starts,
}

-- The objects differ in the flag `isPatched` at most.
pub record SameButFlag (d d' : Patch) : Type 0 where
  pub same : d' ≡ record d { is_patched = d'.is_patched }

SameButFlag-refl : (d : Patch) → SameButFlag d d
SameButFlag-refl d = record { same = refl }

SameButFlag-trans : {a b c : Patch} → SameButFlag a b → SameButFlag b c → SameButFlag a c
SameButFlag-trans {c = c} h k = record {
  same = k.same ∙ ap (λ (x : Patch). record x { is_patched = c.is_patched }) h.same;
}

SameButFlag-SameSetup : {d d' : Patch} → SameButFlag d d' → SameSetup d d'
SameButFlag-SameSetup h = record {
  jump_data = ap (λ (x : Patch). x.jump_data) h.same;
  jump_to_original = ap (λ (x : Patch). x.jump_to_original) h.same;
  handle = ap (λ (x : Patch). x.handle) h.same;
  replacement = ap (λ (x : Patch). x.replacement_function_address) h.same;
  target = ap (λ (x : Patch). x.target_process) h.same;
}

unpatch-SameButFlag :
    (objects : ℕ → Patch) (a b : ℕ) → SameButFlag (objects b) (unpatch objects a b)
unpatch-SameButFlag objects a b = elim (Bool-cases (a == b)) [
  | inl here ↦ rw (==-eq a b here, ==-self b) (record { same = refl })
  | inr there ↦ rw there (SameButFlag-refl (objects b))
]

module _ (p : Platform) where
  check_read-SameButFlag :
      (c : Check) (a : ℕ) (r : Option ℕ × Memory) (b : ℕ)
      → SameButFlag (c.objects b) ((check_read p c a r).objects b)
  unfolding check_read
  check_read-SameButFlag c a (none, m) b = SameButFlag-refl (c.objects b)
  check_read-SameButFlag c a (some w, m) b =
      elim (Bool-cases (w == (c.objects a).replace_with_instruction)) [
        | inl same ↦ rw same (SameButFlag-refl (c.objects b))
        | inr other ↦ rw other (unpatch-SameButFlag c.objects a b)
      ]

  check_patch-SameButFlag :
      (c : Check) (a b : ℕ) → SameButFlag (c.objects b) ((check_patch p c a).objects b)
  unfolding check_patch
  check_patch-SameButFlag c a b =
      let physical = (c.objects a).real_physical_function_address in
      elim (Bool-cases (not (c.objects a).is_patched || contains c.unchanged physical)) [
        | inl skip ↦ rw skip (SameButFlag-refl (c.objects b))
        | inr look ↦ rw look (elim (Bool-cases (contains c.changed physical)) [
          | inl gone ↦ rw gone (unpatch-SameButFlag c.objects a b)
          | inr unknown ↦
              rw unknown
                (check_read-SameButFlag c a (read_from_physical_address p c.memory physical) b)
        ])
      ]

  check_patches-SameButFlag :
      (xs : List ℕ) (c : Check) (b : ℕ)
      → SameButFlag (c.objects b) ((check_patches p xs c).objects b)
  unfolding check_patches
  check_patches-SameButFlag [] c b = SameButFlag-refl (c.objects b)
  check_patches-SameButFlag (a ∷ xs) c b =
      SameButFlag-trans (check_patch-SameButFlag c a b)
        (check_patches-SameButFlag xs (check_patch p c a) b)

  pub check-SameButFlag :
      (s : State) (b : ℕ)
      → SameButFlag (s.objects b) ((check_if_patched_functions_are_still_in_memory p s).objects b)
  unfolding check_if_patched_functions_are_still_in_memory
  check-SameButFlag s =
      check_patches-SameButFlag (reverse s.patched_functions)
        (record { memory = s.machine.memory; objects = s.objects; unchanged = []; changed = [] })

  pub check-Keeps : (s : State) → Keeps s (check_if_patched_functions_are_still_in_memory p s)
  unfolding check_if_patched_functions_are_still_in_memory
  check-Keeps s = record {
    list = refl;
    heap = refl;
    blocks = λ b. SameButFlag-SameSetup (check-SameButFlag s b);
  }

  unload_patches-SameButFlag :
      (library : ℕ) (xs : List ℕ) (objects : ℕ → Patch) (b : ℕ)
      → SameButFlag (objects b) (unload_patches p library xs objects b)
  unfolding unload_patches
  unload_patches-SameButFlag library [] objects b = SameButFlag-refl (objects b)
  unload_patches-SameButFlag library (a ∷ xs) objects b =
      elim (Bool-cases (is_by_library p (objects a).type && holds (objects a).library library)) [
        | inl hit ↦ rw hit (
            SameButFlag-trans (unpatch-SameButFlag objects a b)
              (unload_patches-SameButFlag library xs (unpatch objects a) b))
        | inr miss ↦ rw miss (unload_patches-SameButFlag library xs objects b)
      ]

  pub forget_module-Keeps : (handle : ℕ) (s : State) → Keeps s (forget_module p handle s)
  unfolding forget_module
  forget_module-Keeps handle s =
      let library = get_type_for_handle p handle s.machine.rpl_handles in
      let other : ℕ = p.library_code LibraryName.library_other in
      record {
        list = refl;
        heap = refl;
        blocks = λ b. SameButFlag-SameSetup (elim (Bool-cases (library != other)) [
          | inl known ↦
              rw known (unload_patches-SameButFlag library s.patched_functions s.objects b)
          | inr unknown ↦ rw unknown (SameButFlag-refl (s.objects b))
        ]);
      }

  notify_unloaded-Keeps : (handle : ℕ) (s : State) → Keeps s (notify_unloaded p handle s)
  unfolding notify_unloaded
  notify_unloaded-Keeps handle s =
      Keeps-trans (forget_module-Keeps handle s) (check-Keeps (forget_module p handle s))

  notify_loaded-Keeps : (s s' : State) → notify_loaded p s ≡ done s' → Keeps s s'
  unfolding notify_loaded
  notify_loaded-Keeps s s' h =
      on_objects-Keeps (patch_function p) (patch_function-KeepsSetup p) s.patched_functions s s' h

  pub notify_callback-Keeps :
      (handle : ℕ) (reason : NotifyReason) (s s' : State)
      → notify_callback p handle reason s ≡ done s'
      → Keeps s s'
  unfolding notify_callback
  notify_callback-Keeps handle os_dynload_notify_loaded s s' h = notify_loaded-Keeps s s' h
  notify_callback-Keeps handle os_dynload_notify_unloaded s s' h =
      subst (Keeps s) (done-eq h) (notify_unloaded-Keeps handle s)
  notify_callback-Keeps handle os_dynload_notify_other s s' h =
      subst (Keeps s) (done-eq h) (Keeps-refl s)

  pub application_starts-Keeps : (s s' : State) → application_starts p s ≡ done s' → Keeps s s'
  unfolding application_starts
  application_starts-Keeps s s' h = elim (Bool-cases (p.upid != 2 && p.upid != 15)) [
    | inl other ↦ subst (Keeps s) (done-eq (sym (if_true _ _ other) ∙ h)) (Keeps-refl s)
    | inr title ↦ Keeps-trans (check-Keeps s) (
        on_objects-Keeps (patch_function p) (patch_function-KeepsSetup p) s.patched_functions
          (check_if_patched_functions_are_still_in_memory p s) s' (sym (if_false _ _ title) ∙ h))
  ]
