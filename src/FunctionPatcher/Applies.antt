-- ===== src/FunctionPatcher/Applies.antt =====
-- `PatchFunction` returns, and when it applies the patch.
use function_patcher_module.Base.{
  ℕ, Bool, true, false, ◌&&◌, ◌≡◌, ◌≢◌, refl, sym, ◌∙◌, arith, Bool-cases, inl, inr, if_true,
  if_false, List, if◌then◌else◌,
}
use mathlib.Core.Path.{subst}
use function_patcher_module.Platform.{write, Platform, Memory, done, bind-done}
use function_patcher_module.Patch.{Patch, Machine, Run, RplHandling}
use function_patcher_module.Utils.{IsPlatform, local_to_physical, read_from_physical_address}
use function_patcher_module.FunctionPatcher.{install, patch_located, patch_wanted, patch_function}
use function_patcher_module.FunctionPatcher.Patching.{read_from_physical_address-some}
use function_patcher_module.PatchedFunctionData.Make.{needs_trampoline}
use function_patcher_module.PatchedFunctionData.Title.{should_be_patched}
use function_patcher_module.PatchedFunctionData.Address.{Updated, update_function_addresses}
use function_patcher_module.PatchedFunctionData.Buffers.{HasBuffers, generate_jumps-done}
use function_patcher_module.PatchedFunctionData.Jumps.{in_branch_range}

-- A patch whose jumps can be generated: its buffers are there, and a branch reaches its trampoline.
pub record HasJumps (p : Platform) (d : Patch) : Type 0 where
  pub buffers : HasBuffers p d
  pub reach : needs_trampoline p d ≡ true → in_branch_range d.jump_data ≡ true

module _ (p : Platform) where
  -- The lookup changes no field but the two addresses.
  update-fields :
      (m : Memory) (d : Patch) (handles : List RplHandling) (u : Updated)
      → update_function_addresses p m d handles ≡ done u
      → (u.patch ≡ record d {
        real_effective_function_address = u.patch.real_effective_function_address;
        real_physical_function_address = u.patch.real_physical_function_address;
      })
  unfolding update_function_addresses
  update-fields m d handles u h = ground arith

  HasJumps-addresses :
      (d : Patch) (e q w : ℕ)
      → HasJumps p d
      → HasJumps p (record d {
        real_effective_function_address = e;
        real_physical_function_address = q;
        replaced_instruction = w;
      })
  HasJumps-addresses d e q w jumps = record {
    buffers = record {
      original = jumps.buffers.original;
      trampoline = jumps.buffers.trampoline;
      size = jumps.buffers.size;
    };
    reach = jumps.reach;
  }

  install-done :
      (d : Patch) (mc : Machine)
      → HasJumps p d
      → (r : Run) × (install p d mc ≡ done r)
        × (r.result ≡ true)
        × (r.machine.rpl_handles ≡ mc.rpl_handles)
  unfolding install
  install-done d mc jumps =
      let (m, e) = (generate_jumps-done p d mc.memory jumps.buffers jumps.reach).0 in
      let (x, e') = (generate_jumps-done p d m jumps.buffers jumps.reach).1 in
      (_, bind-done _ e (bind-done _ e' refl), refl, refl)

  module _ (laws : IsPlatform p)
      (local : local_to_physical p p.current_instruction_address ≢ 0) where
    patch_located-done :
        (d : Patch) (mc : Machine)
        → HasJumps p
            (record d { replaced_instruction = mc.memory d.real_physical_function_address })
        → (r : Run) × (patch_located p d mc ≡ done r)
          × (r.result ≡ true)
          × (r.machine.rpl_handles ≡ mc.rpl_handles)
    unfolding patch_located
    patch_located-done d mc jumps =
        let physical = d.real_physical_function_address in
        let read = read_from_physical_address-some p laws mc.memory physical local in
        let (r, e, ok, same) =
          install-done (record d { replaced_instruction = mc.memory physical })
            (record mc {
              memory =
                  write (read_from_physical_address p mc.memory physical).1
                    (p.mmu (p.replaced_instruction_address d.handle)) (mc.memory physical);
            })
            jumps in
        (r, rw (read, patch_located) e, ok, same)

    patch_wanted-done :
        (d : Patch) (mc : Machine) (u : Updated)
        → HasJumps p d
        → update_function_addresses p mc.memory d mc.rpl_handles ≡ done u
        → (r : Run) × (patch_wanted p d mc ≡ done r)
          × (r.result ≡ u.result)
          × (r.machine.rpl_handles ≡ u.rpl_handles)
    unfolding patch_wanted
    patch_wanted-done d mc u jumps h = elim (Bool-cases u.result) [
      | inl found ↦
          let fields = update-fields mc.memory d mc.rpl_handles u h in
          let q : ℕ = u.patch.real_physical_function_address in
          let ready =
            HasJumps-addresses d u.patch.real_effective_function_address q (mc.memory q) jumps in
          let ready' =
            subst (λ x. HasJumps p (record x { replaced_instruction = mc.memory q })) (sym fields)
              ready in
          let (r, e, ok, same) =
            patch_located-done u.patch (record mc { rpl_handles = u.rpl_handles }) ready' in
          (r, bind-done _ h (if_true _ _ found ∙ e), ok ∙ sym found, same)
      | inr missing ↦ (_, bind-done _ h (if_false _ _ missing), sym missing, refl)
    ]

    -- `PatchFunction` of a patch that is not applied returns, reports whether the patch is wanted and
    -- its function was found, and leaves the handles that the lookup left, if it was made. The two
    -- questions, whether the patch is wanted and where its function lies, are answered, the patch has
    -- its jumps, the console copies as `IsPlatform` says, and the local variable that the instruction
    -- is read into has a physical address.
    pub patch_function-done :
        (d : Patch) (mc : Machine) (wanted : Bool) (u : Updated)
        → HasJumps p d
        → d.is_patched ≡ false
        → should_be_patched p d ≡ done wanted
        → update_function_addresses p mc.memory d mc.rpl_handles ≡ done u
        → (r : Run) × (patch_function p d mc ≡ done r)
          × (r.result ≡ wanted && u.result)
          × (r.machine.rpl_handles ≡ (if wanted then u.rpl_handles else mc.rpl_handles))
    unfolding patch_function
    patch_function-done d mc true u jumps fresh want h =
        let (r, e, ok, same) = patch_wanted-done d mc u jumps h in
        (r, if_false _ _ fresh ∙ bind-done _ want e, ok, same)
    patch_function-done d mc false u jumps fresh skip h =
        (_, if_false _ _ fresh ∙ bind-done _ skip refl, refl, refl)
