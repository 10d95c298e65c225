-- ===== src/FunctionPatcher/Active.antt =====
-- An applied patch as it stands in memory: the branch, and what the branch leads to. A call of its
-- function, run on the processor of `Ppc`.
use function_patcher_module.Base.{
  ℕ, ◌+◌, ◌%◌, ◌^◌, ◌<◌, bit_and, true, false, ◌≡◌, ◌≢◌, arith, refl, ◌∙◌, ap, ==-eq, Bool-cases,
  inl, inr,
}
use mathlib.Core.Path.{subst}
use function_patcher_module.Base.Bits.{offset_mask}
use function_patcher_module.Platform.{Platform, Memory, done, done-bind}
use function_patcher_module.Patch.{Patch, Machine, Run}
use function_patcher_module.Ppc.{Cpu, Code, execute, Runs, stop, Lies}
use function_patcher_module.Ppc.Forms.{execute-branch}
use function_patcher_module.Utils.{IsPlatform, local_to_physical}
use function_patcher_module.FunctionPatcher.{install, patch_function}
use function_patcher_module.FunctionPatcher.Patching.{some_thread, generate_replacement_jump-fields}
use function_patcher_module.FunctionPatcher.Install.{done-eq, patch_function-IsPatchedOver}
use function_patcher_module.FunctionPatcher.Placed.{
  HasRoom, patch_function-IsPlaced, patch_function-installs,
}
use function_patcher_module.PatchedFunctionData.Make.{needs_trampoline}
use function_patcher_module.PatchedFunctionData.Jumps.{
  branch_to, in_branch_range, original_continuation, replacement_jump_code,
  generate_jump_to_original, generate_replacement_jump,
}
use function_patcher_module.PatchedFunctionData.InMemory.{code_in}
use function_patcher_module.PatchedFunctionData.Trampoline.{run, jumped}
use function_patcher_module.PatchedFunctionData.ProcessCheck.{IsProcessCheck, is_target}
use function_patcher_module.PatchedFunctionData.Execution.{
  run-replacement_jump_code-target, run-replacement_jump_code-other,
}

-- The branch goes to a trampoline that lies in the memory.
pub record IsTrampoline (p : Platform) (k : Code) (m : Memory) (d : Patch) : Type 0 where
  pub in_range : in_branch_range d.jump_data ≡ true
  pub branch : d.replace_with_instruction ≡ branch_to d.jump_data
  pub lies : Lies (code_in p k m) d.jump_data (replacement_jump_code p d)

-- The branch stands in the function, and goes to the trampoline or to the replacement.
pub record IsActive (p : Platform) (k : Code) (m : Memory) (d : Patch) : Type 0 where
  pub in_place : m d.real_physical_function_address ≡ d.replace_with_instruction
  pub trampoline : needs_trampoline p d ≡ true → IsTrampoline p k m d
  pub direct :
      needs_trampoline p d ≡ false
      → d.replace_with_instruction ≡ branch_to d.replacement_function_address

module _ (p : Platform) (laws : IsPlatform p)
    (local : local_to_physical p p.replace_instruction_address ≢ 0) where
  -- Without a trampoline the branch goes to the replacement.
  generate_replacement_jump-direct :
      (d d' : Patch) (m m' : Memory)
      → needs_trampoline p d ≡ false
      → generate_replacement_jump p d m ≡ done (d', m')
      → d'.replace_with_instruction ≡ branch_to d'.replacement_function_address
  unfolding generate_replacement_jump
  generate_replacement_jump-direct d d' m m' needs h = ground arith

  install-direct :
      (d : Patch) (mc : Machine) (r : Run)
      → install p d mc ≡ done r
      → needs_trampoline p r.patch ≡ false
      → r.patch.replace_with_instruction ≡ branch_to r.patch.replacement_function_address
  unfolding install
  install-direct d mc r h =
      let (m, _, h') = done-bind (generate_jump_to_original p d mc.memory) _ h in
      let ((d', m'), e, h'') = done-bind (generate_replacement_jump p d m) _ h' in
      let same = generate_replacement_jump-fields p d d' m m' e in
      subst
        (λ x.
          needs_trampoline p x.patch ≡ false
          → x.patch.replace_with_instruction ≡ branch_to x.patch.replacement_function_address)
        (done-eq h'')
        (λ needs.
          generate_replacement_jump-direct d d' m m'
            (subst (λ x. needs_trampoline p x ≡ false) same needs) e)

  -- A successful `PatchFunction` of a patch that was not applied leaves it active.
  pub patch_function-IsActive :
      (k : Code) (d : Patch) (mc : Machine) (r : Run)
      → some_thread p ≡ true
      → d.is_patched ≡ false
      → patch_function p d mc ≡ done r
      → r.result ≡ true
      → (needs_trampoline p r.patch ≡ true → HasRoom p r.patch)
      → IsActive p k r.machine.memory r.patch
  patch_function-IsActive k d mc r created fresh patched ok room =
      let over = patch_function-IsPatchedOver p laws local created d mc r fresh patched ok in
      let (d', mc', installs) = patch_function-installs p d mc r fresh patched ok in
      record {
        in_place = over.in_place;
        trampoline = λ needs.
            let placed =
              patch_function-IsPlaced p laws k local d mc r fresh patched ok needs (room needs) in
            record { in_range = placed.in_range; branch = placed.branch; lies = placed.lies };
        direct = install-direct d' mc' r installs;
      }

module _ (p : Platform) (k : Code) (m : Memory) (d : Patch) (active : IsActive p k m d)
    (check : IsProcessCheck p (code_in p k m) d) where
  abbrev code : Code
  code = code_in p k m

  -- The function's first word takes the processor to the address that its branch can reach.
  enters :
      (a : ℕ) (c e : Cpu)
      → p.mmu c.pc ≡ d.real_physical_function_address
      → d.replace_with_instruction ≡ branch_to a
      → bit_and a 0x01fffffc ≡ a
      → Runs code (record c { pc = a }) e
      → Runs code c e
  enters a c e at branch near rest =
      run code (branch_to a) (ap m at ∙ active.in_place ∙ branch) (execute-branch code a c)
        (rw near rest)

  -- A process that the patch is for reaches the replacement.
  pub run-IsActive-target :
      (c : Cpu)
      → p.mmu c.pc ≡ d.real_physical_function_address
      → d.replacement_function_address < 2 ^ 32
      → d.replacement_function_address % 4 ≡ 0
      → is_target p d p.upid ≡ true
      → (e : Cpu) × Runs code c e
        × (e.pc ≡ d.replacement_function_address)
        × (e.registers ≡ c.registers)
  run-IsActive-target c at lt aligned hit = elim (Bool-cases (needs_trampoline p d)) [
    | inl needs ↦
        let placed = active.trampoline needs in
        let jump : ℕ = d.jump_data in
        let near : bit_and jump 0x01fffffc ≡ jump = ==-eq _ jump placed.in_range in
        let mask = offset_mask jump in
        let (e, runs, there, same) =
          run-replacement_jump_code-target p code d check (record c { pc = jump }) (omega arith) lt
            aligned hit placed.lies in
        (e, enters jump c e at placed.branch near runs, there, same)
    | inr direct ↦
        let a : ℕ = d.replacement_function_address in
        let mask = offset_mask a in
        let near : bit_and a 0x01fffffc ≡ a = ground arith in
        (record c { pc = a }, enters a c _ at (active.direct direct) near (stop _), refl, refl)
  ]

  -- Any other process executes the replaced instruction and goes on behind it.
  pub run-IsActive-other :
      (c : Cpu)
      → p.mmu c.pc ≡ d.real_physical_function_address
      → is_target p d p.upid ≡ false
      → ((e : Cpu) → (execute code d.replaced_instruction e).pc ≡ e.pc + 4)
      → d.real_effective_function_address % 4 ≡ 0
      → (e : Cpu) × (e.registers ≡ c.registers)
        × (e.ctr ≡ c.ctr)
        × Runs code c (jumped (original_continuation d) (execute code d.replaced_instruction e))
  run-IsActive-other c at miss falls aligned =
      let needs : needs_trampoline p d ≡ true = ground arith in
      let placed = active.trampoline needs in
      let jump : ℕ = d.jump_data in
      let near : bit_and jump 0x01fffffc ≡ jump = ==-eq _ jump placed.in_range in
      let (e, same, ctr, runs) =
        run-replacement_jump_code-other p code d check (record c { pc = jump }) miss falls aligned
          placed.lies in
      (e, same, ctr, enters jump c _ at placed.branch near runs)
