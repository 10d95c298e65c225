-- ===== src/Main/DynLoad.antt =====
-- `PatchDynLoadFunctions`: the two tests in the loader that the module takes out.
use function_patcher_module.Base.{ℕ, ◌+◌, ◌∙◌, ◌≡◌, ◌≢◌, true, arith, Bool-cases, inl, inr}
use function_patcher_module.Platform.{Platform, Memory, write}
use function_patcher_module.Utils.{IsPlatform}
use function_patcher_module.Main.{patch_instruction, patch_dyn_load_functions}

module _ (p : Platform) where
  abbrev pub number_test : ℕ
  number_test = p.get_number_of_rpls_code + 24

  abbrev pub info_test : ℕ
  info_test = p.get_rpl_info_code + 88

module _ (p : Platform) (laws : IsPlatform p)
    (argument : p.effective_to_physical p.replacement_address ≢ 0) where
  -- Where it succeeds, the instruction is the replacement, and only the instruction and the
  -- argument change.
  patch_instruction-true :
      (m : Memory) (instr original replacement : ℕ)
      → p.effective_to_physical instr ≢ 0
      → (patch_instruction p m instr original replacement).0 ≡ true
      → ((patch_instruction p m instr original replacement).1 (p.mmu instr) ≡ replacement)
        × ((a : ℕ)
            → a ≢ p.mmu instr
            → a ≢ p.mmu p.replacement_address
            → (patch_instruction p m instr original replacement).1 a ≡ m a)
  unfolding patch_instruction
  patch_instruction-true m instr original replacement known ok = (
    ground (
      arith,
      laws.effective_to_physical-mmu instr,
      laws.effective_to_physical-mmu p.replacement_address,
      laws.copy_to (write m (p.mmu p.replacement_address) replacement)
          (p.effective_to_physical instr) (p.effective_to_physical p.replacement_address),
    ),
    λ a ne ne'. ground (
      arith,
      laws.effective_to_physical-mmu instr,
      laws.copy_other (write m (p.mmu p.replacement_address) replacement)
          (p.effective_to_physical instr) (p.effective_to_physical p.replacement_address) a,
    ),
  )

  -- Where `PatchDynLoadFunctions` succeeds, both of the loader's tests are the instruction nop. The
  -- physical addresses of the two instructions and of the argument are known, and the first
  -- instruction lies apart from the second and from the argument.
  pub patch_dyn_load_functions_lem :
      (m : Memory)
      → p.effective_to_physical (number_test p) ≢ 0
      → p.effective_to_physical (info_test p) ≢ 0
      → p.mmu (number_test p) ≢ p.mmu (info_test p)
      → p.mmu (number_test p) ≢ p.mmu p.replacement_address
      → (patch_dyn_load_functions p m).0 ≡ true
      → ((patch_dyn_load_functions p m).1 (p.mmu (number_test p)) ≡ 0x60000000)
        × ((patch_dyn_load_functions p m).1 (p.mmu (info_test p)) ≡ 0x60000000)
  unfolding patch_dyn_load_functions
  patch_dyn_load_functions_lem m known known' apart apart' ok =
      let one = patch_instruction p m (number_test p) 0x41820038 0x60000000 in
      let two = patch_instruction p (one.1) (info_test p) 0x41820100 0x60000000 in
      let first = patch_instruction-true m (number_test p) 0x41820038 0x60000000 known in
      let second = patch_instruction-true (one.1) (info_test p) 0x41820100 0x60000000 known' in
      elim (Bool-cases one.0) [
        | inl hit ↦ elim (Bool-cases two.0) [
          | inl hit' ↦
              rw (hit, hit')
                (
                  (second hit').1 (p.mmu (number_test p)) apart apart' ∙ (first hit).0,
                  (second hit').0,
                )
          | inr miss' ↦ cc (rw (hit, miss') at ok)
        ]
        | inr miss ↦ cc (rw miss at ok)
      ]
