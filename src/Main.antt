-- ===== src/Main.antt =====
-- source/main.cpp: the module's hooks, and the patches' state as libraries come and go.
pub mod StillInMemory
pub mod Keeping
pub mod Histories
pub mod Registry
pub mod Ownership
pub mod DynLoad
pub mod Initialize
pub mod Starting
pub mod Lifetime
pub mod Unloading
pub mod Visiting
pub mod Reaching
pub mod Reapplying
use function_patcher_module.Base.{
  ℕ, ◌+◌, Bool, true, false, not, Option, none, some, List, [], ◌∷◌, ◌&&◌, ◌||◌, ◌==◌, ◌!=◌,
  if◌then◌else◌, holds, contains,
}
use mathlib.Core.List.{reverse}
use function_patcher_module.Platform.{
  Platform, LibraryName, Memory, write, Outcome, done, fatal, ◌>>=◌,
}
use function_patcher_module.Patch.{
  FunctionType, by_lib_or_address, executable_by_name, executable_by_address, unlisted, Patch,
  Machine, State, store,
}
use function_patcher_module.Utils.{read_from_physical_address}
use function_patcher_module.FunctionAddressProvider.{
  get_type_for_handle, reset_handle, reset_handles,
}
use function_patcher_module.FunctionPatcher.{patch_function}
use function_patcher_module.Export.Remove.{on_objects}

-- The variables of the loop in `CheckIfPatchedFunctionsAreStillInMemory`.
pub record Check : Type 0 where
  pub memory : Memory
  pub objects : ℕ → Patch
  pub unchanged : List ℕ
  pub changed : List ℕ

abbrev pub unpatch : (ℕ → Patch) → ℕ → ℕ → Patch
unpatch objects a = store objects a (record (objects a) { is_patched = false })

-- Why `notify_callback` is called.
pub data NotifyReason : Type 0 where
  os_dynload_notify_loaded os_dynload_notify_unloaded os_dynload_notify_other : NotifyReason

module _ (p : Platform) where
  -- The end of the loop's body: the instruction has been read.
  unfoldable pub check_read : Check → ℕ → Option ℕ × Memory → Check
  check_read c a (none, m) = record c { memory = m }
  check_read c a (some w, m) =
      let physical = (c.objects a).real_physical_function_address in
      if w == (c.objects a).replace_with_instruction
      then record c { memory = m; unchanged = physical ∷ c.unchanged }
      else record c { memory = m; objects = unpatch c.objects a; changed = physical ∷ c.changed }

  unfoldable pub check_patch : Check → ℕ → Check
  unfolding check_read
  check_patch c a =
      let physical = (c.objects a).real_physical_function_address in
      if not (c.objects a).is_patched || contains c.unchanged physical
      then c
      else if contains c.changed physical
      then record c { objects = unpatch c.objects a }
      else check_read c a (read_from_physical_address p c.memory physical)

  unfoldable pub check_patches : List ℕ → Check → Check
  check_patches [] c = c
  check_patches (a ∷ rest) c = check_patches rest (check_patch c a)

  unfoldable pub check_if_patched_functions_are_still_in_memory : State → State
  unfolding check_patches check_patch
  check_if_patched_functions_are_still_in_memory s =
      let c =
        check_patches (reverse s.patched_functions) (record {
          memory = s.machine.memory;
          objects = s.objects;
          unchanged = [];
          changed = [];
        }) in
      record s { machine = record (s.machine) { memory = c.memory }; objects = c.objects }

  -- `PatchInstruction`: the result and the memory. The replacement goes through the argument.
  unfoldable pub patch_instruction : Memory → ℕ → ℕ → ℕ → Bool × Memory
  patch_instruction m instr original replacement =
      let current = m (p.mmu instr) in
      if current != original then (current == replacement, m) else (
        true,
        p.kernel_copy_data (write m (p.mmu p.replacement_address) replacement)
            (p.effective_to_physical instr) (p.effective_to_physical p.replacement_address) 4,
      )

  unfoldable pub patch_dyn_load_functions : Memory → Bool × Memory
  unfolding patch_instruction
  patch_dyn_load_functions m =
      let first = patch_instruction m (p.get_number_of_rpls_code + 24) 0x41820038 0x60000000 in
      let second = patch_instruction (first.1) (p.get_rpl_info_code + 88) 0x41820100 0x60000000 in
      if not (first.0)
      then (false, first.1)
      else if not (second.0)
      then (false, second.1)
      else (true, second.1)

  -- The loop of `notify_callback` over the patches of an unloaded library.
  abbrev pub is_by_library : FunctionType → Bool
  is_by_library by_lib_or_address = true
  is_by_library executable_by_name = false
  is_by_library executable_by_address = false
  is_by_library (unlisted n) = false

  unfoldable pub unload_patches : ℕ → List ℕ → (ℕ → Patch) → ℕ → Patch
  unload_patches library [] objects = objects
  unload_patches library (a ∷ rest) objects = unload_patches library rest (
      if is_by_library (objects a).type && holds (objects a).library library
      then unpatch objects a
      else objects)

  -- `notify_callback` for OS_DYNLOAD_NOTIFY_LOADED.
  unfoldable pub notify_loaded : State → Outcome State
  unfolding on_objects
  notify_loaded s = on_objects (patch_function p) s.patched_functions s

  -- `notify_callback` for OS_DYNLOAD_NOTIFY_UNLOADED, up to the check: the flags of the module's
  -- patches, and its handle.
  unfoldable pub forget_module : ℕ → State → State
  unfolding unload_patches
  forget_module handle s =
      let library = get_type_for_handle p handle s.machine.rpl_handles in
      let objects =
        if library != p.library_code LibraryName.library_other
        then unload_patches library s.patched_functions s.objects
        else s.objects in
      let handles = (reset_handle handle s.machine.rpl_handles).1 in
      record s { machine = record (s.machine) { rpl_handles = handles }; objects = objects }

  unfoldable pub notify_unloaded : ℕ → State → State
  unfolding forget_module check_if_patched_functions_are_still_in_memory
  notify_unloaded handle s = check_if_patched_functions_are_still_in_memory (forget_module handle s)

  unfoldable pub notify_callback : ℕ → NotifyReason → State → Outcome State
  unfolding notify_loaded notify_unloaded
  notify_callback handle os_dynload_notify_loaded s = notify_loaded s
  notify_callback handle os_dynload_notify_unloaded s = done (notify_unloaded handle s)
  notify_callback handle os_dynload_notify_other s = done s

  -- `WUMS_APPLICATION_STARTS`.
  unfoldable pub application_starts : State → Outcome State
  unfolding on_objects check_if_patched_functions_are_still_in_memory
  application_starts s =
      if p.upid != 2 && p.upid != 15
      then done s
      else on_objects (patch_function p) s.patched_functions
          (check_if_patched_functions_are_still_in_memory s)

-- `WUMS_APPLICATION_ENDS`.
unfoldable pub application_ends : State → State
unfolding reset_handles
application_ends s = record s {
  machine = record (s.machine) { rpl_handles = reset_handles s.machine.rpl_handles };
}
