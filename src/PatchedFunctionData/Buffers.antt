-- ===== src/PatchedFunctionData/Buffers.antt =====
-- The buffers of a patch: who has them, and where they go.
use mathlib.Core.Path.{subst}
use function_patcher_module.Base.{
  ℕ, ◌-◌, ◌*◌, ◌≤◌, true, false, not, Option, none, some, List, ◌≡◌, ◌≢◌, ◌==◌, arith, refl, leb,
  length, Bool-cases, inl, inr, if_true, if_false, ne-==, ap, ◌∙◌,
}
use function_patcher_module.Platform.{Platform, Memory, done}
use function_patcher_module.Patch.{
  Patch, FunctionType, by_lib_or_address, executable_by_name, executable_by_address, unlisted,
  new_patch,
}
use function_patcher_module.PatchedFunctionData.Make.{
  ReplacementDataV3, needs_trampoline, allocate_data_for_jumps, destroy, with_block, finish_make,
  set_target, make_shared_v3,
}
use function_patcher_module.PatchedFunctionData.Jumps.{
  generate_jump_to_original, generate_replacement_jump, in_branch_range, replacement_jump_code,
}
use function_patcher_module.PatchedFunctionData.Execution.{length-replacement_jump_code}

-- The patch has the buffers that its jumps are written to.
pub record HasBuffers (p : Platform) (d : Patch) : Type 0 where
  pub original : d.jump_to_original ≢ 0
  pub trampoline : needs_trampoline p d ≡ true → d.jump_data ≢ 0
  pub size : d.jump_data_size ≡ 15

-- The heap with a patch's blocks on top.
abbrev pub blocks_over : Patch → List ℕ → List ℕ
blocks_over d heap = with_block d.jump_to_original (with_block d.jump_data heap)

-- What a constructor's end promises: the patch with its handle and its buffers, whose blocks are
-- what the heap has more, and which the destructor gives back exactly, or no patch and the heap as
-- it was.
abbrev pub IsMade : Platform → ℕ → List ℕ → Option Patch × List ℕ → Type 0
IsMade p object heap (none, heap') = heap' ≡ heap
IsMade p object heap (some d, heap') =
    HasBuffers p d × (heap' ≡ blocks_over d heap) × (destroy d heap' ≡ heap) × (d.handle ≡ object)

module _ (p : Platform) where
  finish_make-IsMade :
      (d : Patch) (heap : List ℕ)
      → d.jump_data ≡ 0
      → d.jump_to_original ≡ 0
      → d.jump_data_size ≡ 15
      → IsMade p d.handle heap (finish_make p (allocate_data_for_jumps p d heap))
  unfolding finish_make allocate_data_for_jumps
  finish_make-IsMade d heap e e' e'' = ground arith

  -- The setting of the target leaves the buffers and the handle alone.
  set_target-buffers :
      (d : Patch) (x : ReplacementDataV3) (t : FunctionType)
      → ((set_target p d x t).jump_data ≡ d.jump_data)
        × ((set_target p d x t).jump_to_original ≡ d.jump_to_original)
        × ((set_target p d x t).jump_data_size ≡ d.jump_data_size)
        × ((set_target p d x t).handle ≡ d.handle)
  unfolding set_target
  set_target-buffers d x by_lib_or_address = ground arith
  set_target-buffers d x executable_by_name = ground arith
  set_target-buffers d x executable_by_address = ground arith
  set_target-buffers d x (unlisted n) = ground arith

  -- `make_shared_v3` keeps its promise: a patch comes with the object's address as its handle, a block for the jump to the original,
  -- and one for the trampoline if it needs one, and destroying it gives the heap back; if there is
  -- no patch, no block stays behind.
  pub make_shared_v3-IsMade :
      (object : ℕ) (x : Option ReplacementDataV3) (heap_handle : ℕ) (heap : List ℕ)
      → IsMade p object heap (make_shared_v3 p object x heap_handle heap)
  unfolding make_shared_v3
  make_shared_v3-IsMade object none heap_handle heap = refl
  make_shared_v3-IsMade object (some x) heap_handle heap = elim (Bool-cases (object == 0)) [
    | inl failed ↦ rw failed refl
    | inr new ↦
        let start : Patch = record (new_patch object) {
          heap_handle = heap_handle;
          replacement_function_address = x.replace_addr;
          real_call_function_address_ptr = x.replace_call;
          target_process = x.target_process;
          type = x.type;
        } in
        let kept = set_target-buffers start x x.type in
        rw new (
          subst
            (λ h.
              IsMade p h heap
                (finish_make p (allocate_data_for_jumps p (set_target p start x x.type) heap)))
            kept.3 (finish_make-IsMade (set_target p start x x.type) heap kept.0 kept.1 kept.2))
  ]

  generate_jump_to_original-done :
      (d : Patch) (m : Memory)
      → HasBuffers p d
      → (m' : Memory) × (generate_jump_to_original p d m ≡ done m')
  unfolding generate_jump_to_original
  generate_jump_to_original-done d m b = (_, if_false _ _ (ne-== _ _ b.original))

  generate_replacement_jump-done :
      (d : Patch) (m : Memory)
      → HasBuffers p d
      → (needs_trampoline p d ≡ true → in_branch_range d.jump_data ≡ true)
      → (r : Patch × Memory) × (generate_replacement_jump p d m ≡ done r)
  unfolding generate_replacement_jump
  generate_replacement_jump-done d m b reach = elim (Bool-cases (needs_trampoline p d)) [
    | inl needed ↦
        let fits : leb d.jump_data_size (length (replacement_jump_code p d) - 1) ≡ false =
          ground (arith, b.size, length-replacement_jump_code p d) in
        (
          _,
          if_false _ _ (ap not needed)
              ∙ if_false _ _ (ne-== _ _ (b.trampoline needed))
              ∙ if_false _ _ fits
              ∙ if_false _ _ (ap not (reach needed)),
        )
    | inr direct ↦ (_, if_true _ _ (ap not direct))
  ]

  -- With its buffers, and a trampoline that one branch can reach, a patch gets both its jumps: the
  -- calls return, and the trampoline's words fit its buffer of 60 bytes.
  pub generate_jumps-done :
      (d : Patch) (m : Memory)
      → HasBuffers p d
      → (needs_trampoline p d ≡ true → in_branch_range d.jump_data ≡ true)
      → ((m' : Memory) × (generate_jump_to_original p d m ≡ done m'))
        × ((r : Patch × Memory) × (generate_replacement_jump p d m ≡ done r))
        × (4 * length (replacement_jump_code p d) ≤ 60)
  generate_jumps-done d m b reach = (
    generate_jump_to_original-done d m b,
    generate_replacement_jump-done d m b reach,
    omega (arith, length-replacement_jump_code p d),
  )
