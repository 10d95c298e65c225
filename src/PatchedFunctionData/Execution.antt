-- ===== src/PatchedFunctionData/Execution.antt =====
-- What the generated code does when it is run: the trampoline and the jump to the original.
use function_patcher_module.Base.{
  ℕ, ◌+◌, ◌*◌, ◌%◌, ◌^◌, ◌<◌, ◌≤◌, bit_or, bit_and, true, false, ◌≡◌, ◌==◌, arith, refl, List, ◌∷◌,
  ◌++◌, Bool-cases, inl, inr, length, length-append,
}
use function_patcher_module.Base.Bits.{low_half}
use function_patcher_module.Platform.{Platform}
use function_patcher_module.Patch.{Patch}
use function_patcher_module.Ppc.{Cpu, Code, execute, Runs, stop, Lies}
use function_patcher_module.Ppc.Forms.{execute-lis, execute-lwz}
use function_patcher_module.PatchedFunctionData.Jumps.{
  original_continuation, jump_code, compare_code, process_check_code, replacement_jump_code,
}
use function_patcher_module.PatchedFunctionData.Trampoline.{
  jumped, Runs-trans, run, run-jump_code, length-jump_code, Lies-append,
}
use function_patcher_module.PatchedFunctionData.ProcessCheck.{
  is_target, IsProcessCheck, compare_code_taken, compare_code_passed,
}

length-compare_code : (p : Platform) (d : Patch) → length (compare_code p d) ≤ 4
unfolding compare_code
length-compare_code p d = ground arith

length-jump_code-le : (a : ℕ) → length (jump_code a) ≤ 4
unfolding jump_code
length-jump_code-le a = ground arith

length-process_check_code : (p : Platform) (d : Patch) → length (process_check_code p d) ≤ 11
unfolding process_check_code
length-process_check_code p d = ground (
  arith,
  length-compare_code p d,
  length-jump_code-le (original_continuation d),
  length-append {0} (compare_code p d)
      (d.replaced_instruction ∷ jump_code (original_continuation d)),
)

-- The words fit the buffer that `allocateDataForJumps` asks for.
pub length-replacement_jump_code :
    (p : Platform) (d : Patch) → length (replacement_jump_code p d) ≤ 15
unfolding replacement_jump_code
length-replacement_jump_code p d = omega (
  arith,
  length-process_check_code p d,
  length-jump_code-le d.replacement_function_address,
  length-append {0} (process_check_code p d) (jump_code d.replacement_function_address),
)

module _ (p : Platform) (k : Code) (d : Patch) (check : IsProcessCheck p k d) where
  -- The state with the process's number in r11.
  abbrev checked : Cpu → Cpu
  checked c = record c { pc = c.pc + 4 + 4; r11 = p.upid }

  load_upid :
      (c : Cpu)
      → k.fetch c.pc ≡ bit_or 0x3d600000 (bit_and (p.upid_code 0) 0xffff)
      → k.fetch (c.pc + 4) ≡ bit_or 0x816b0000 (bit_and (p.upid_code 1) 0xffff)
      → Runs k c (checked c)
  load_upid c f g =
      let high : Cpu = record c { pc = c.pc + 4; r11 = p.upid_code 0 % 2 ^ 16 * 2 ^ 16 } in
      let number = rw (low_half (p.upid_code 0), low_half (p.upid_code 1)) at check.reads_upid in
      run k _ f (execute-lis k (p.upid_code 0) c)
        (run k _ {c = high} g (execute-lwz k (p.upid_code 1) high) (rw number (stop _)))

  abbrev replaced_at : Cpu → ℕ
  replaced_at c = c.pc + 4 + 4 + 4 * length (compare_code p d)

  abbrev jump_at : Cpu → ℕ
  jump_at c = replaced_at c + 4 * (1 + length (jump_code (original_continuation d)))

  -- The parts of the trampoline of a patch for some processes only.
  record Parts (c : Cpu) : Type 0 where
    lis : k.fetch c.pc ≡ bit_or 0x3d600000 (bit_and (p.upid_code 0) 0xffff)
    lwz : k.fetch (c.pc + 4) ≡ bit_or 0x816b0000 (bit_and (p.upid_code 1) 0xffff)
    compare : Lies k (c.pc + 4 + 4) (compare_code p d)
    replaced : k.fetch (replaced_at c) ≡ d.replaced_instruction
    back : Lies k (replaced_at c + 4) (jump_code (original_continuation d))
    jump : Lies k (jump_at c) (jump_code d.replacement_function_address)

  parts :
      (c : Cpu)
      → (d.target_process == p.process_all) ≡ false
      → Lies k c.pc (replacement_jump_code p d)
      → Parts c
  unfolding replacement_jump_code
  parts c some lies =
      let way_back : List ℕ = d.replaced_instruction ∷ jump_code (original_continuation d) in
      let (f, (g, rest)) = rw some at lies in
      let outer =
        Lies-append k (compare_code p d ++ way_back) (jump_code d.replacement_function_address)
          (c.pc + 4 + 4) (jump_at c) (omega (arith, length-append {0} (compare_code p d) way_back))
          rest in
      let inner =
        Lies-append k (compare_code p d) way_back (c.pc + 4 + 4) (replaced_at c) (omega arith)
          outer.0 in
      record {
        lis = f;
        lwz = g;
        compare = inner.0;
        replaced = inner.1.0;
        back = inner.1.1;
        jump = outer.1;
      }

  run_taken :
      (c : Cpu)
      → c.pc + 60 < 2 ^ 32
      → (d.target_process == p.process_all) ≡ false
      → is_target p d p.upid ≡ true
      → Parts c
      → Runs k c (record (checked c) { pc = jump_at c; equal = true })
  run_taken c room some hit at = Runs-trans k (load_upid c at.lis at.lwz) (
      compare_code_taken p k d check (checked c) (jump_at c) some hit
        (omega (arith, length-jump_code k (original_continuation d)))
        (omega (arith, length-compare_code p d, length-jump_code-le (original_continuation d)))
        at.compare)

  -- A target process runs the replacement: from the trampoline's first word the processor reaches
  -- the replacement, a word-aligned 32-bit address, with all registers but r11, CTR and the
  -- condition as they were, where the trampoline does not reach over the end of the address space,
  -- the process codes are small and OSGetUPID begins with the load of its result.
  pub run-replacement_jump_code-target :
      (c : Cpu)
      → c.pc + 60 < 2 ^ 32
      → d.replacement_function_address < 2 ^ 32
      → d.replacement_function_address % 4 ≡ 0
      → is_target p d p.upid ≡ true
      → Lies k c.pc (replacement_jump_code p d)
      → (e : Cpu) × Runs k c e
        × (e.pc ≡ d.replacement_function_address)
        × (e.registers ≡ c.registers)
  unfolding replacement_jump_code
  run-replacement_jump_code-target c room lt aligned hit lies =
      let a : ℕ = d.replacement_function_address in
      elim (Bool-cases (d.target_process == p.process_all)) [
        | inl all ↦ (
          jumped a c,
          run-jump_code k a c lt aligned (rw all at lies),
          ground arith,
          ground arith,
        )
        | inr some ↦
            let at = parts c some lies in
            let arrived : Cpu = record (checked c) { pc = jump_at c; equal = true } in
            (
              jumped a arrived,
              Runs-trans k (run_taken c room some hit at)
                  (run-jump_code k a arrived lt aligned at.jump),
              ground arith,
              ground arith,
            )
      ]

  -- Any other process runs the original function: the processor executes the replaced instruction
  -- with all registers but r11 and the condition as they were at the trampoline's first word, and
  -- goes on behind it, as long as that instruction goes on to the next one, the function's address
  -- is word-aligned, the process codes are small and OSGetUPID begins with the load of its result.
  pub run-replacement_jump_code-other :
      (c : Cpu)
      → is_target p d p.upid ≡ false
      → ((e : Cpu) → (execute k d.replaced_instruction e).pc ≡ e.pc + 4)
      → d.real_effective_function_address % 4 ≡ 0
      → Lies k c.pc (replacement_jump_code p d)
      → (e : Cpu) × (e.registers ≡ c.registers)
        × (e.ctr ≡ c.ctr)
        × Runs k c (jumped (original_continuation d) (execute k d.replaced_instruction e))
  run-replacement_jump_code-other c miss falls aligned lies =
      let some : (d.target_process == p.process_all) ≡ false = ground arith in
      let at = parts c some lies in
      let e : Cpu = record (checked c) { pc = replaced_at c; equal = false } in
      let after : Cpu = execute k d.replaced_instruction e in
      (
        e,
        refl,
        refl,
        Runs-trans k (load_upid c at.lis at.lwz) (
            Runs-trans k
              (compare_code_passed p k d check (checked c) (replaced_at c) some miss refl
                at.compare)
              (run k d.replaced_instruction {c = e} at.replaced refl (
                run-jump_code k (original_continuation d) after (omega arith) (omega arith)
                  (rw (falls e) at.back)))),
      )
