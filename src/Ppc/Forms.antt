-- ===== src/Ppc/Forms.antt =====
-- Each generated instruction, executed.
use function_patcher_module.Base.{
  ℕ, ◌+◌, ◌*◌, ◌/◌, ◌%◌, ◌^◌, ◌<◌, bit_or, bit_and, ◌≡◌, ◌==◌, arith, if◌then◌else◌,
}
use function_patcher_module.Base.Bits.{tagged_half, offset_mask, branch_tag, low_half}
use function_patcher_module.Ppc.{Cpu, Code, execute, sign_extend16}

module _ (k : Code) where
  pub execute-lis :
      (x : ℕ) (c : Cpu)
      → execute k (bit_or 0x3d600000 (bit_and x 0xffff)) c
        ≡ record c { pc = c.pc + 4; r11 = x % 2 ^ 16 * 2 ^ 16 }
  unfolding execute
  execute-lis x c = rw (low_half x, tagged_half 0x3d60 (x % 2 ^ 16) (omega arith)) (ground arith)

  pub execute-lwz :
      (x : ℕ) (c : Cpu)
      → execute k (bit_or 0x816b0000 (bit_and x 0xffff)) c
        ≡ record c { pc = c.pc + 4; r11 = k.load ((c.r11 + sign_extend16 (x % 2 ^ 16)) % 2 ^ 32) }
  unfolding execute
  execute-lwz x c = rw (low_half x, tagged_half 0x816b (x % 2 ^ 16) (omega arith)) (ground arith)

  pub execute-ori :
      (x q : ℕ) (c : Cpu)
      → c.r11 ≡ q * 2 ^ 16
      → execute k (bit_or 0x616b0000 (bit_and x 0xffff)) c
        ≡ record c { pc = c.pc + 4; r11 = q * 2 ^ 16 + x % 2 ^ 16 }
  unfolding execute
  execute-ori x q c e =
      rw (low_half x, tagged_half 0x616b (x % 2 ^ 16) (omega arith))
        (ground (arith, tagged_half q (x % 2 ^ 16)))

  pub execute-cmpwi :
      (v : ℕ) (c : Cpu)
      → v < 0x8000
      → execute k (bit_or 0x2c0b0000 v) c ≡ record c { pc = c.pc + 4; equal = c.r11 == v }
  unfolding execute
  execute-cmpwi v c h = rw (tagged_half 0x2c0b v (omega arith)) (ground arith)

  pub execute-beq :
      (v : ℕ) (c : Cpu)
      → v < 0x8000
      → execute k (bit_or 0x41820000 v) c
        ≡ record c { pc = if c.equal then (c.pc + v) % 2 ^ 32 else c.pc + 4 }
  unfolding execute
  execute-beq v c h = rw (tagged_half 0x4182 v (omega arith)) (ground arith)

  pub execute-mtctr : (c : Cpu) → execute k 0x7d6903a6 c ≡ record c { pc = c.pc + 4; ctr = c.r11 }
  unfolding execute
  execute-mtctr c = ground arith

  pub execute-bctr : (c : Cpu) → execute k 0x4e800420 c ≡ record c { pc = c.ctr / 4 * 4 }
  unfolding execute
  execute-bctr c = ground arith

  -- An absolute branch goes to its operand's bits 2 to 24.
  pub execute-branch :
      (a : ℕ) (c : Cpu)
      → execute k (bit_or 0x48000002 (bit_and a 0x01fffffc)) c
        ≡ record c { pc = bit_and a 0x01fffffc }
  unfolding execute
  execute-branch a c = rw (offset_mask a, branch_tag (a / 4 % 2 ^ 23) (omega arith)) (ground arith)
