-- ===== src/Ppc.antt =====
-- The processor's side of the generated code, as the specification that it is held to: the forms of
-- PowerPC instructions that the module writes, each by its fields in the word. Every other word, a
-- replaced instruction among them, does what the parameter `other` says.
pub mod Forms
use function_patcher_module.Base.{
  ℕ, zero, suc, ◌+◌, ◌*◌, ◌/◌, ◌%◌, ◌^◌, bit_or, Bool, ◌&&◌, List, [], ◌∷◌, ◌==◌, ltb, ◌≡◌,
  if◌then◌else◌,
}

pub record Cpu : Type 0 where
  pub pc : ℕ
  pub r11 : ℕ
  pub ctr : ℕ
  -- the bit EQ of the condition register's field 0
  pub equal : Bool
  -- all other registers
  pub registers : ℕ → ℕ

-- A signed half-word, and the 26-bit offset of a branch, as 32-bit words.
abbrev pub sign_extend16 : ℕ → ℕ
sign_extend16 h = if ltb h 0x8000 then h else h + 0xffff0000

abbrev pub sign_extend26 : ℕ → ℕ
sign_extend26 h = if ltb h 0x2000000 then h else h + 0xfc000000

-- What the processor reads, as an instruction and as data, and the other instructions.
pub record Code : Type 0 where
  pub fetch : ℕ → ℕ
  pub load : ℕ → ℕ
  pub other : ℕ → Cpu → Cpu

module _ (k : Code) where
  -- The immediate forms, by the upper half-word: lis, ori, lwz and cmpwi with r11, and beq.
  unfoldable pub execute_half : ℕ → ℕ → ℕ → Cpu → Cpu
  execute_half w high low c =
      if high == 0x3d60
      then record c { pc = c.pc + 4; r11 = low * 2 ^ 16 }
      else if high == 0x616b
      then record c { pc = c.pc + 4; r11 = bit_or c.r11 low }
      else if high == 0x816b
      then record c { pc = c.pc + 4; r11 = k.load ((c.r11 + sign_extend16 low) % 2 ^ 32) }
      else if high == 0x2c0b
      then record c { pc = c.pc + 4; equal = c.r11 == sign_extend16 low }
      else if high == 0x4182
      then record c { pc = if c.equal then (c.pc + sign_extend16 low) % 2 ^ 32 else c.pc + 4 }
      else k.other w c

  -- mtctr r11, bctr, an absolute branch, and the immediate forms.
  unfoldable pub execute : ℕ → Cpu → Cpu
  unfolding execute_half
  execute w c =
      if w == 0x7d6903a6
      then record c { pc = c.pc + 4; ctr = c.r11 }
      else if w == 0x4e800420
      then record c { pc = c.ctr / 4 * 4 }
      else if w / 2 ^ 26 == 18 && w % 4 == 2
      then record c { pc = sign_extend26 (w / 4 % 2 ^ 24 * 4) }
      else execute_half w (w / 2 ^ 16) (w % 2 ^ 16) c

  abbrev pub step : Cpu → Cpu
  step c = execute (k.fetch c.pc) c

  -- Some number of steps leads from one state to another.
  pub data Runs : Cpu → Cpu → Type 0 where
    stop : (c : Cpu) → Runs c c
    go : {c d : Cpu} → Runs (step c) d → Runs c d

  -- A list of words lies at an address.
  abbrev pub Lies : ℕ → List ℕ → Type 0
  Lies base [] = Unit {0}
  Lies base (w ∷ ws) = (k.fetch base ≡ w) × Lies (base + 4) ws
