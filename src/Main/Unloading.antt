-- ===== src/Main/Unloading.antt =====
-- `notify_callback` when a module has been unloaded: whose patches count as applied afterwards.
use function_patcher_module.Base.{
  ℕ, Bool, true, false, not, List, [], ◌∷◌, ◌&&◌, ◌||◌, ◌==◌, ◌!=◌, ◌≡◌, ◌≢◌, refl, sym, ◌∙◌, ap,
  if◌then◌else◌, contains, arith, Bool-cases, inl, inr, if_true, if_false, ==-eq,
}
use mathlib.Core.Path.{fun_ext}
use mathlib.Core.List.{reverse, reverse_aux}
use function_patcher_module.Platform.{Platform, LibraryName}
use function_patcher_module.Patch.{Patch, State}
use function_patcher_module.Utils.{IsPlatform, local_to_physical}
use function_patcher_module.FunctionAddressProvider.{get_type_for_handle, reset_handle}
use function_patcher_module.FunctionAddressProvider.Handles.{
  IsDistinct, has_handle, reset_handle_lem,
}
use function_patcher_module.Main.{
  is_by_library, holds, unpatch, unload_patches, notify_unloaded,
  check_if_patched_functions_are_still_in_memory,
}
use function_patcher_module.Main.StillInMemory.{
  is_intact, check_if_patched_functions_are_still_in_memory_lem,
}

contains-reverse_aux :
    (xs ys : List ℕ) (a : ℕ) → contains (reverse_aux xs ys) a ≡ contains xs a || contains ys a
contains-reverse_aux [] ys a = refl
contains-reverse_aux (b ∷ xs) ys a = ground (arith, contains-reverse_aux xs (b ∷ ys) a)

pub contains-reverse : (xs : List ℕ) (a : ℕ) → contains (reverse xs) a ≡ contains xs a
contains-reverse xs a = ground (arith, contains-reverse_aux xs [] a)

module _ (p : Platform) where
  -- Whether the patch is one of a function of this library.
  abbrev pub is_of_library : ℕ → Patch → Bool
  is_of_library library d = is_by_library p d.type && holds d.library library

  -- The patch as it is without its library.
  abbrev pub forgotten : ℕ → Patch → Patch
  forgotten library d = record d { is_patched = d.is_patched && not (is_of_library library d) }

  with_flag : (d : Patch) (b : Bool) → d.is_patched ≡ b → record d { is_patched = b } ≡ d
  with_flag d b h = ap (λ (x : Bool). record d { is_patched = x }) (sym h)

  forgotten-other :
      (library : ℕ) (d : Patch) → is_of_library library d ≡ false → forgotten library d ≡ d
  forgotten-other library d h = with_flag d _ (ground arith)

  forgotten-of_library :
      (library : ℕ) (d : Patch)
      → is_of_library library d ≡ true
      → forgotten library d ≡ record d { is_patched = false }
  forgotten-of_library library d h = ap (λ (x : Bool). record d { is_patched = x }) (ground arith)

  forgotten-twice :
      (library : ℕ) (d : Patch) → forgotten library (forgotten library d) ≡ forgotten library d
  forgotten-twice library d = with_flag (forgotten library d) _ (ground arith)

  -- What one step of the loop makes of the objects.
  abbrev stepped : ℕ → ℕ → (ℕ → Patch) → ℕ → Patch
  stepped library b objects =
      if is_of_library library (objects b) then unpatch objects b else objects

  stepped_lem :
      (library b : ℕ) (objects : ℕ → Patch) (a : ℕ)
      → stepped library b objects a ≡ (if b == a then forgotten library (objects a) else objects a)
  stepped_lem library b objects a = elim (Bool-cases (is_of_library library (objects b))) [
    | inl hit ↦ rw hit (elim (Bool-cases (b == a)) [
      | inl here ↦
          if_true _ _ here
          ∙ sym (forgotten-of_library library (objects b) hit)
          ∙ ap (λ (x : ℕ). forgotten library (objects x)) (==-eq b a here)
          ∙ sym (if_true _ _ here)
      | inr there ↦ if_false _ _ there ∙ sym (if_false _ _ there)
    ])
    | inr miss ↦ rw miss (elim (Bool-cases (b == a)) [
      | inl here ↦
          ap objects (sym (==-eq b a here))
          ∙ sym (forgotten-other library (objects b) miss)
          ∙ ap (λ (x : ℕ). forgotten library (objects x)) (==-eq b a here)
          ∙ sym (if_true _ _ here)
      | inr there ↦ sym (if_false _ _ there)
    ])
  ]

  abbrev once_more : ℕ → Bool → Patch → Patch
  once_more library listed d = if listed then forgotten library d else d

  once_more-forgotten :
      (library : ℕ) (listed : Bool) (d : Patch)
      → once_more library listed (forgotten library d) ≡ forgotten library d
  once_more-forgotten library true d = forgotten-twice library d
  once_more-forgotten library false d = refl

  unload_patches_lem :
      (library : ℕ) (xs : List ℕ) (objects : ℕ → Patch) (a : ℕ)
      → unload_patches p library xs objects a
        ≡ (if contains xs a then forgotten library (objects a) else objects a)
  unfolding unload_patches
  unload_patches_lem library [] objects a = refl
  unload_patches_lem library (b ∷ xs) objects a =
      let rest = unload_patches_lem library xs (stepped library b objects) a in
      let first = stepped_lem library b objects a in
      elim (Bool-cases (b == a)) [
        | inl here ↦
            rest
            ∙ ap (once_more library (contains xs a)) (first ∙ if_true _ _ here)
            ∙ once_more-forgotten library (contains xs a) (objects a)
            ∙ sym (if_true {b = contains (b ∷ xs) a} _ _ (ground arith))
        | inr there ↦
            rest
            ∙ ap (once_more library (contains xs a)) (first ∙ if_false _ _ there)
            ∙ ap (λ (c : Bool). once_more library c (objects a)) (ground arith)
      ]

  -- The patches as they are without an unloaded module: every listed patch of its library, where
  -- the table has one for the handle, counts as not applied.
  abbrev pub without_module : ℕ → State → ℕ → Patch
  without_module handle s a =
      let library = get_type_for_handle p handle s.machine.rpl_handles in
      if library != p.library_code LibraryName.library_other && contains s.patched_functions a
      then forgotten library (s.objects a)
      else s.objects a

  without_module-physical :
      (handle : ℕ) (s : State) (a : ℕ)
      → (without_module handle s a).real_physical_function_address
        ≡ (s.objects a).real_physical_function_address
  without_module-physical handle s a = ground arith

  without_module-unlisted :
      (handle : ℕ) (s : State) (a : ℕ)
      → contains s.patched_functions a ≡ false
      → without_module handle s a ≡ s.objects a
  without_module-unlisted handle s a h =
      let library = get_type_for_handle p handle s.machine.rpl_handles in
      if_false
        {b = library != p.library_code LibraryName.library_other && contains s.patched_functions a}
        _ _ (ground arith)

  -- The objects that `notify_unloaded` hands to the check.
  abbrev unloaded_objects : ℕ → State → ℕ → Patch
  unloaded_objects handle s =
      let library = get_type_for_handle p handle s.machine.rpl_handles in
      if library != p.library_code LibraryName.library_other
      then unload_patches p library s.patched_functions s.objects
      else s.objects

  unloaded_objects_lem :
      (handle : ℕ) (s : State) (a : ℕ) → unloaded_objects handle s a ≡ without_module handle s a
  unloaded_objects_lem handle s a =
      let library = get_type_for_handle p handle s.machine.rpl_handles in
      ground (arith, unload_patches_lem library s.patched_functions s.objects a)

  -- After a module has been unloaded, a listed patch counts as applied exactly where it did before,
  -- it is not one of the module's library, and the last applied patch of its function, without those
  -- of the library, still stands in the memory; every other patch keeps its flag. The table has the
  -- handle no more. The handle is not null and stands in the table once at most, the local variable
  -- that instructions are read into has a physical address, no patch's function lies there, and the
  -- console copies as `IsPlatform` says.
  pub notify_unloaded_lem :
      IsPlatform p
      → local_to_physical p p.current_instruction_address ≢ 0
      → (handle : ℕ) (s : State) → handle ≢ 0
      → IsDistinct s.machine.rpl_handles
      → ((a : ℕ)
          → (s.objects a).real_physical_function_address ≢ p.mmu p.current_instruction_address)
      → ((a : ℕ)
          → ((notify_unloaded p handle s).objects a).is_patched ≡ (
              if contains s.patched_functions a
              then (without_module handle s a).is_patched
                && is_intact s.machine.memory
                    (without_module handle s)
                    (reverse s.patched_functions)
                    (s.objects a).real_physical_function_address
              else (s.objects a).is_patched))
        × (has_handle handle (notify_unloaded p handle s).machine.rpl_handles ≡ false)
  unfolding notify_unloaded
  notify_unloaded_lem laws can_read handle s known distinct far =
      let handles = (reset_handle handle s.machine.rpl_handles).1 in
      let w : ℕ → Patch = without_module handle s in
      let state = λ (o : ℕ → Patch). record s {
        machine = record (s.machine) { rpl_handles = handles };
        objects = o;
      } in
      let xs : List ℕ = s.patched_functions in
      let same : unloaded_objects handle s ≡ w = fun_ext (unloaded_objects_lem handle s) in
      let checked =
        λ (o : ℕ → Patch). (check_if_patched_functions_are_still_in_memory p (state o)).objects in
      let lem =
        check_if_patched_functions_are_still_in_memory_lem p laws can_read (state w)
          (λ b e. far b (sym (without_module-physical handle s b) ∙ e)) in
      (
        λ a. ap (λ o. (checked o a).is_patched) same ∙ lem a ∙ elim (Bool-cases (contains xs a)) [
          | inl listed ↦
              if_true _ _ (contains-reverse xs a ∙ listed)
              ∙ ap (λ x. (w a).is_patched && is_intact s.machine.memory w (reverse xs) x)
                  (without_module-physical handle s a)
              ∙ sym (if_true _ _ listed)
          | inr unlisted ↦
              if_false _ _ (contains-reverse xs a ∙ unlisted)
              ∙ ap (λ d. d.is_patched) (without_module-unlisted handle s a unlisted)
              ∙ sym (if_false _ _ unlisted)
        ],
        (reset_handle_lem p handle s.machine.rpl_handles known distinct).1,
      )
