-- ===== src/PatchedFunctionData/Request.antt =====
-- What the constructors take over from the caller's description.
use function_patcher_module.Base.{
  ℕ, false, Option, none, some, List, ◌≡◌, ◌==◌, arith, refl, Bool-cases, inl, inr,
}
use function_patcher_module.Platform.{Platform}
use function_patcher_module.Patch.{
  Patch, FunctionType, by_lib_or_address, executable_by_name, executable_by_address, unlisted,
  new_patch,
}
use function_patcher_module.PatchedFunctionData.Make.{
  ReplacementDataV3, allocate_data_for_jumps, finish_make, set_target, make_shared_v3,
}

-- A patch that is made is not applied, and has this replacement and this process.
abbrev pub IsRequested : ℕ → ℕ → Option Patch → Type 0
IsRequested replacement target none = Unit {0}
IsRequested replacement target (some d) =
    (d.is_patched ≡ false)
    × (d.replacement_function_address ≡ replacement)
    × (d.target_process ≡ target)

module _ (p : Platform) where
  finish_make-IsRequested :
      (d : Patch) (heap : List ℕ) (replacement target : ℕ)
      → IsRequested replacement target (some d)
      → IsRequested replacement target (finish_make p (allocate_data_for_jumps p d heap)).0
  unfolding finish_make allocate_data_for_jumps
  finish_make-IsRequested d heap replacement target h = ground arith

  set_target-IsRequested :
      (d : Patch) (x : ReplacementDataV3) (t : FunctionType)
      → d.is_patched ≡ false
      → IsRequested d.replacement_function_address d.target_process (some (set_target p d x t))
  unfolding set_target
  set_target-IsRequested d x by_lib_or_address h = ground arith
  set_target-IsRequested d x executable_by_name h = ground arith
  set_target-IsRequested d x executable_by_address h = ground arith
  set_target-IsRequested d x (unlisted n) h = ground arith

  pub make_shared_v3-IsRequested :
      (object : ℕ) (x : ReplacementDataV3) (heap_handle : ℕ) (heap : List ℕ)
      → IsRequested x.replace_addr x.target_process
          (make_shared_v3 p object (some x) heap_handle heap).0
  unfolding make_shared_v3
  make_shared_v3-IsRequested object x heap_handle heap = elim (Bool-cases (object == 0)) [
    | inl failed ↦ rw failed tt
    | inr new ↦
        let start : Patch = record (new_patch object) {
          heap_handle = heap_handle;
          replacement_function_address = x.replace_addr;
          real_call_function_address_ptr = x.replace_call;
          target_process = x.target_process;
          type = x.type;
        } in
        rw new (
          finish_make-IsRequested (set_target p start x x.type) heap x.replace_addr x.target_process
            (set_target-IsRequested start x x.type refl))
  ]
