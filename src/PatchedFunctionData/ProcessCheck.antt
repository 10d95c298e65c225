-- ===== src/PatchedFunctionData/ProcessCheck.antt =====
-- The process check at the head of the trampoline, run on the processor of `Ppc`.
use function_patcher_module.Base.{
  ℕ, ◌+◌, ◌*◌, ◌%◌, ◌^◌, ◌<◌, bit_or, bit_and, Bool, true, false, ◌||◌, ◌≡◌, ◌==◌, arith,
  if◌then◌else◌, List, [], ◌∷◌, Bool-cases, inl, inr, length,
}
use function_patcher_module.Platform.{Platform}
use function_patcher_module.Patch.{Patch}
use function_patcher_module.Ppc.{Cpu, Code, Runs, stop, Lies, sign_extend16}
use function_patcher_module.Ppc.Forms.{execute-cmpwi, execute-beq}
use function_patcher_module.PatchedFunctionData.Jumps.{
  in_branch_range, original_continuation, compare_code,
}
use function_patcher_module.PatchedFunctionData.Trampoline.{Runs-trans, run}

-- Whether a target process means the process `u`.
abbrev pub is_meant : Platform → ℕ → ℕ → Bool
is_meant p target u =
    if target == p.process_all
    then true
    else if target == p.process_game_and_menu
    then u == p.process_wii_u_menu || u == p.process_game
    else u == target

-- Whether the patch is for the process `u`.
abbrev pub is_target : Platform → Patch → ℕ → Bool
is_target p d u = is_meant p d.target_process u

-- The process codes are small, and OSGetUPID begins with the `lis` and the `lwz` of its result.
pub record IsProcessCheck (p : Platform) (k : Code) (d : Patch) : Type 0 where
  pub menu_fits : p.process_wii_u_menu < 0x8000
  pub game_fits : p.process_game < 0x8000
  pub target_fits : d.target_process < 0x8000
  pub reads_upid :
      k.load (
        (bit_and (p.upid_code 0) 0xffff * 2 ^ 16 + sign_extend16 (bit_and (p.upid_code 1) 0xffff))
        % 2 ^ 32)
      ≡ p.upid

module _ (k : Code) where
  -- `cmpwi` and `beq`: the branch is taken where r11 is the value.
  pub compare_taken :
      (v off : ℕ) (c : Cpu)
      → v < 0x8000
      → off < 0x8000
      → (c.r11 == v) ≡ true
      → k.fetch c.pc ≡ bit_or 0x2c0b0000 v
      → k.fetch (c.pc + 4) ≡ bit_or 0x41820000 off
      → Runs k c (record c { pc = (c.pc + 4 + off) % 2 ^ 32; equal = true })
  compare_taken v off c hv ho e f g =
      let at_beq : Cpu = record c { pc = c.pc + 4; equal = true } in
      run k (bit_or 0x2c0b0000 v) f (rw e at (execute-cmpwi k v c hv))
        (run k (bit_or 0x41820000 off) {c = at_beq} g (execute-beq k off at_beq ho) (stop _))

  pub compare_passed :
      (v off : ℕ) (c : Cpu)
      → v < 0x8000
      → off < 0x8000
      → (c.r11 == v) ≡ false
      → k.fetch c.pc ≡ bit_or 0x2c0b0000 v
      → k.fetch (c.pc + 4) ≡ bit_or 0x41820000 off
      → Runs k c (record c { pc = c.pc + 4 + 4; equal = false })
  compare_passed v off c hv ho e f g =
      let at_beq : Cpu = record c { pc = c.pc + 4; equal = false } in
      run k (bit_or 0x2c0b0000 v) f (rw e at (execute-cmpwi k v c hv))
        (run k (bit_or 0x41820000 off) {c = at_beq} g (execute-beq k off at_beq ho) (stop _))

  -- The same, to a given address; `short` says which of the two ways back lies between.
  abbrev pub way_back : Bool → ℕ
  way_back short = if short then 1 else 4

  abbrev pub one_process : ℕ → Bool → List ℕ
  one_process v short = bit_or 0x2c0b0000 v ∷ bit_or 0x41820000 (if short then 0xc else 0x18) ∷ []

  abbrev pub two_processes : ℕ → ℕ → Bool → List ℕ
  two_processes v w short =
      bit_or 0x2c0b0000 v ∷ bit_or 0x41820000 (if short then 0x14 else 0x20) ∷ one_process w short

  pub one_process_taken :
      (v : ℕ) (short : Bool) (c : Cpu) (end : ℕ)
      → v < 0x8000
      → (c.r11 == v) ≡ true
      → end ≡ c.pc + 4 * (3 + way_back short)
      → end < 2 ^ 32
      → Lies k c.pc (one_process v short)
      → Runs k c (record c { pc = end; equal = true })
  one_process_taken v true c end hv hit e lt (f, (g, _)) =
      let there : (c.pc + 4 + 0xc) % 2 ^ 32 ≡ end = omega arith in
      rw there at (compare_taken v 0xc c hv (omega arith) hit f g)
  one_process_taken v false c end hv hit e lt (f, (g, _)) =
      let there : (c.pc + 4 + 0x18) % 2 ^ 32 ≡ end = omega arith in
      rw there at (compare_taken v 0x18 c hv (omega arith) hit f g)

  pub one_process_passed :
      (v : ℕ) (short : Bool) (c : Cpu)
      → v < 0x8000
      → (c.r11 == v) ≡ false
      → Lies k c.pc (one_process v short)
      → Runs k c (record c { pc = c.pc + 4 + 4; equal = false })
  one_process_passed v true c hv miss (f, (g, _)) = compare_passed v 0xc c hv (omega arith) miss f g
  one_process_passed v false c hv miss (f, (g, _)) =
      compare_passed v 0x18 c hv (omega arith) miss f g

  first_taken :
      (v w : ℕ) (short : Bool) (c : Cpu) (end : ℕ)
      → v < 0x8000
      → (c.r11 == v) ≡ true
      → end ≡ c.pc + 4 * (5 + way_back short)
      → end < 2 ^ 32
      → Lies k c.pc (two_processes v w short)
      → Runs k c (record c { pc = end; equal = true })
  first_taken v w true c end hv hit e lt (f, (g, _)) =
      let there : (c.pc + 4 + 0x14) % 2 ^ 32 ≡ end = omega arith in
      rw there at (compare_taken v 0x14 c hv (omega arith) hit f g)
  first_taken v w false c end hv hit e lt (f, (g, _)) =
      let there : (c.pc + 4 + 0x20) % 2 ^ 32 ≡ end = omega arith in
      rw there at (compare_taken v 0x20 c hv (omega arith) hit f g)

  first_passed :
      (v w : ℕ) (short : Bool) (c : Cpu)
      → v < 0x8000
      → (c.r11 == v) ≡ false
      → Lies k c.pc (two_processes v w short)
      → Runs k c (record c { pc = c.pc + 4 + 4; equal = false })
  first_passed v w true c hv miss (f, (g, _)) = compare_passed v 0x14 c hv (omega arith) miss f g
  first_passed v w false c hv miss (f, (g, _)) = compare_passed v 0x20 c hv (omega arith) miss f g

  pub two_processes_taken :
      (v w : ℕ) (short : Bool) (c : Cpu) (end : ℕ)
      → v < 0x8000
      → w < 0x8000
      → (c.r11 == v || c.r11 == w) ≡ true
      → end ≡ c.pc + 4 * (5 + way_back short)
      → end < 2 ^ 32
      → Lies k c.pc (two_processes v w short)
      → Runs k c (record c { pc = end; equal = true })
  two_processes_taken v w short c end hv hw hit e lt lies = elim (Bool-cases (c.r11 == v)) [
    | inl first ↦ first_taken v w short c end hv first e lt lies
    | inr other ↦ Runs-trans k (first_passed v w short c hv other lies) (
        one_process_taken w short (record c { pc = c.pc + 4 + 4; equal = false }) end hw
          (rw other at hit) (omega arith) lt lies.1.1)
  ]

  pub two_processes_passed :
      (v w : ℕ) (short : Bool) (c : Cpu)
      → v < 0x8000
      → w < 0x8000
      → (c.r11 == v || c.r11 == w) ≡ false
      → Lies k c.pc (two_processes v w short)
      → Runs k c (record c { pc = c.pc + 4 + 4 + 4 + 4; equal = false })
  two_processes_passed v w short c hv hw miss lies =
      Runs-trans k (first_passed v w short c hv (ground arith) lies) (
        one_process_passed w short (record c { pc = c.pc + 4 + 4; equal = false }) hw (ground arith)
          lies.1.1)

module _ (p : Platform) (k : Code) (d : Patch) (check : IsProcessCheck p k d) where
  abbrev pub short : Bool
  short = in_branch_range (original_continuation d)

  -- Past the way back to the original function lies the jump to the replacement.
  pub compare_code_taken :
      (c : Cpu) (end : ℕ)
      → (d.target_process == p.process_all) ≡ false
      → is_target p d c.r11 ≡ true
      → end ≡ c.pc + 4 * (length (compare_code p d) + 1 + way_back k short)
      → end < 2 ^ 32
      → Lies k c.pc (compare_code p d)
      → Runs k c (record c { pc = end; equal = true })
  unfolding compare_code
  compare_code_taken c end all hit e lt lies =
      elim (Bool-cases (d.target_process == p.process_game_and_menu)) [
        | inl two ↦
            two_processes_taken k p.process_wii_u_menu p.process_game short c end check.menu_fits
              check.game_fits (ground arith) (ground arith) lt (rw two at lies)
        | inr one ↦
            one_process_taken k d.target_process short c end check.target_fits (ground arith)
              (ground arith) lt (rw one at lies)
      ]

  pub compare_code_passed :
      (c : Cpu) (end : ℕ)
      → (d.target_process == p.process_all) ≡ false
      → is_target p d c.r11 ≡ false
      → end ≡ c.pc + 4 * length (compare_code p d)
      → Lies k c.pc (compare_code p d)
      → Runs k c (record c { pc = end; equal = false })
  unfolding compare_code
  compare_code_passed c end all miss e lies =
      elim (Bool-cases (d.target_process == p.process_game_and_menu)) [
        | inl two ↦
            let there : c.pc + 4 + 4 + 4 + 4 ≡ end = ground arith in
            rw there at (
              two_processes_passed k p.process_wii_u_menu p.process_game short c check.menu_fits
                check.game_fits (ground arith) (rw two at lies))
        | inr one ↦
            let there : c.pc + 4 + 4 ≡ end = ground arith in
            rw there at (
              one_process_passed k d.target_process short c check.target_fits (ground arith)
                (rw one at lies))
      ]
