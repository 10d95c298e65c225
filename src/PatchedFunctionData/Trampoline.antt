-- ===== src/PatchedFunctionData/Trampoline.antt =====
-- The generated code, run on the processor of `Ppc`.
use function_patcher_module.Base.{
  ℕ, ◌+◌, ◌*◌, ◌/◌, ◌%◌, ◌^◌, ◌<◌, bit_and, ◌≡◌, arith, if◌then◌else◌, refl, List, [], ◌∷◌, ◌++◌,
  Bool-cases, inl, inr, ==-eq, length,
}
use function_patcher_module.Ppc.{Cpu, Code, execute, Runs, stop, go, Lies}
use function_patcher_module.Ppc.Forms.{
  execute-lis, execute-ori, execute-mtctr, execute-bctr, execute-branch,
}
use function_patcher_module.PatchedFunctionData.Jumps.{
  in_branch_range, branch_to, lis_r11, ori_r11, mtctr_r11, bctr, jump_code,
}

-- The state after a jump to `a`: a long jump goes through r11 and CTR.
abbrev pub jumped : ℕ → Cpu → Cpu
jumped a c =
    if in_branch_range a then record c { pc = a } else record c { pc = a; r11 = a; ctr = a }

module _ (k : Code) where
  pub Runs-trans : {a b c : Cpu} → Runs k a b → Runs k b c → Runs k a c
  Runs-trans (stop a) s = s
  Runs-trans (go r) s = go (Runs-trans r s)

  -- One step, by the word at the program counter.
  pub run : (w : ℕ) {c e d : Cpu} → k.fetch c.pc ≡ w → execute k w c ≡ e → Runs k e d → Runs k c d
  run w {c} {e} {d} f x r = go (rw (f, x) r)

  -- `lis`, `ori` of a whole address.
  pub load_address :
      (a : ℕ) (c d : Cpu)
      → a < 2 ^ 32
      → k.fetch c.pc ≡ lis_r11 a
      → k.fetch (c.pc + 4) ≡ ori_r11 a
      → Runs k (record c { pc = c.pc + 4 + 4; r11 = a }) d
      → Runs k c d
  load_address a c d lt f g r =
      let high = record c { pc = c.pc + 4; r11 = a / 2 ^ 16 % 2 ^ 16 * 2 ^ 16 } in
      let e : a / 2 ^ 16 % 2 ^ 16 * 2 ^ 16 + a % 2 ^ 16 ≡ a = omega arith in
      run (lis_r11 a) f (execute-lis k (a / 2 ^ 16) c)
        (run (ori_r11 a) {c = high} g (execute-ori k a (a / 2 ^ 16 % 2 ^ 16) high refl) (rw e r))

  long_jump :
      (a : ℕ) (c : Cpu)
      → a < 2 ^ 32
      → a % 4 ≡ 0
      → Lies k c.pc (lis_r11 a ∷ ori_r11 a ∷ mtctr_r11 ∷ bctr ∷ [])
      → Runs k c (record c { pc = a; r11 = a; ctr = a })
  long_jump a c lt aligned (f, (g, (h, (i, _)))) =
      let at_mtctr : Cpu = record c { pc = c.pc + 4 + 4; r11 = a } in
      let at_bctr : Cpu = record c { pc = c.pc + 4 + 4 + 4; r11 = a; ctr = a } in
      let e : a / 4 * 4 ≡ a = omega arith in
      load_address a c _ lt f g (
        run mtctr_r11 {c = at_mtctr} h (execute-mtctr k at_mtctr)
          (run bctr {c = at_bctr} i (execute-bctr k at_bctr) (rw e (stop _))))

  -- The jump code reaches its address and changes nothing but r11 and CTR.
  pub run-jump_code :
      (a : ℕ) (c : Cpu) → a < 2 ^ 32 → a % 4 ≡ 0 → Lies k c.pc (jump_code a) → Runs k c (jumped a c)
  unfolding jump_code
  run-jump_code a c lt aligned lies = elim (Bool-cases (in_branch_range a)) [
    | inl short ↦
        let there : bit_and a 0x01fffffc ≡ a = ==-eq _ a short in
        let word : k.fetch c.pc ≡ branch_to a = (rw short at lies).0 in
        rw short (run (branch_to a) word (execute-branch k a c) (rw there (stop _)))
    | inr long ↦ rw long (long_jump a c lt aligned (rw long at lies))
  ]

  pub length-jump_code : (a : ℕ) → length (jump_code a) ≡ (if in_branch_range a then 1 else 4)
  unfolding jump_code
  length-jump_code a = ground arith

  pub Lies-append :
      (xs ys : List ℕ) (base end : ℕ)
      → end ≡ base + 4 * length xs
      → Lies k base (xs ++ ys)
      → Lies k base xs × Lies k end ys
  Lies-append [] ys base end e lies = (tt, let e' : end ≡ base = omega arith in rw e' lies)
  Lies-append (x ∷ xs) ys base end e (f, lies) =
      let rest = Lies-append xs ys (base + 4) end (omega arith) lies in ((f, rest.0), rest.1)
