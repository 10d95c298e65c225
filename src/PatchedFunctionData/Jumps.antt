-- ===== src/PatchedFunctionData/Jumps.antt =====
-- `generateJumpToOriginal` and `generateReplacementJump`. A run of stores `buffer[offset++] = w` is
-- the list of the words, stored from the buffer's start; the offset after it is the list's length.
use Prim.Native.Nat.{bit_or}
use function_patcher_module.Base.{
  ℕ, ◌+◌, ◌-◌, ◌/◌, ◌%◌, ◌^◌, bit_and, Bool, List, [], ◌∷◌, ◌++◌, ◌==◌, leb, not, if◌then◌else◌,
  length,
}
use function_patcher_module.Platform.{
  Platform, Memory, write, Outcome, done, fatal, no_jump_to_original, no_jump_data, too_much_data,
  jump_impossible,
}
use function_patcher_module.Patch.{Patch}
use function_patcher_module.PatchedFunctionData.Make.{needs_trampoline}

-- Whether one absolute branch can reach an address.
abbrev pub in_branch_range : ℕ → Bool
in_branch_range a = bit_and a 0x01fffffc == a

abbrev pub branch_to : ℕ → ℕ
branch_to a = bit_or 0x48000002 (bit_and a 0x01fffffc)

-- `lis` and `ori` of an address into r11.
abbrev pub lis_r11 : ℕ → ℕ
lis_r11 a = bit_or 0x3d600000 (bit_and (a / 2 ^ 16) 0xffff)

abbrev pub ori_r11 : ℕ → ℕ
ori_r11 a = bit_or 0x616b0000 (bit_and a 0xffff)

abbrev pub mtctr_r11 : ℕ
mtctr_r11 = 0x7d6903a6

abbrev pub bctr : ℕ
bctr = 0x4e800420

-- The address behind the replaced instruction.
abbrev pub original_continuation : Patch → ℕ
original_continuation d = (d.real_effective_function_address + 4) % 2 ^ 32

unfoldable pub jump_to_original_code : Patch → List ℕ
jump_to_original_code d =
    let a = original_continuation d in
    if not (in_branch_range a)
    then lis_r11 a ∷ ori_r11 a ∷ mtctr_r11 ∷ d.replaced_instruction ∷ bctr ∷ []
    else d.replaced_instruction ∷ branch_to a ∷ []

-- A jump that changes nothing but r11 and CTR.
unfoldable pub jump_code : ℕ → List ℕ
jump_code a =
    if not (in_branch_range a)
    then lis_r11 a ∷ ori_r11 a ∷ mtctr_r11 ∷ bctr ∷ []
    else branch_to a ∷ []

module _ (p : Platform) where
  unfoldable pub write_words : Memory → ℕ → List ℕ → Memory
  write_words m base [] = m
  write_words m base (w ∷ ws) = write_words (write m (p.mmu base) w) (base + 4) ws

  -- The comparison with the target process, each with its branch to the jump at the end.
  unfoldable pub compare_code : Patch → List ℕ
  compare_code d =
      let short = in_branch_range (original_continuation d) in
      if d.target_process == p.process_game_and_menu
      then bit_or 0x2c0b0000 p.process_wii_u_menu
        ∷ bit_or 0x41820000 (if short then 0x14 else 0x20)
        ∷ bit_or 0x2c0b0000 p.process_game
        ∷ bit_or 0x41820000 (if short then 0xc else 0x18)
        ∷ []
      else bit_or 0x2c0b0000 d.target_process ∷ bit_or 0x41820000 (if short then 0xc else 0x18) ∷ []

  -- What a process that is not the target runs.
  unfoldable pub process_check_code : Patch → List ℕ
  unfolding compare_code jump_code
  process_check_code d =
      if d.target_process == p.process_all
      then []
      else bit_or 0x3d600000 (bit_and (p.upid_code 0) 0xffff)
        ∷ bit_or 0x816b0000 (bit_and (p.upid_code 1) 0xffff)
        ∷ (compare_code d ++ d.replaced_instruction ∷ jump_code (original_continuation d))

  unfoldable pub replacement_jump_code : Patch → List ℕ
  unfolding process_check_code
  replacement_jump_code d = process_check_code d ++ jump_code d.replacement_function_address

  unfoldable pub generate_jump_to_original : Patch → Memory → Outcome Memory
  unfolding write_words jump_to_original_code
  generate_jump_to_original d m =
      if d.jump_to_original == 0
      then fatal no_jump_to_original
      else done (
          write (write_words m d.jump_to_original (jump_to_original_code d))
            (p.mmu d.real_call_function_address_ptr) d.jump_to_original)

  unfoldable pub generate_replacement_jump : Patch → Memory → Outcome (Patch × Memory)
  unfolding write_words replacement_jump_code
  generate_replacement_jump d m =
      if not (needs_trampoline p d)
      then done
          (record d { replace_with_instruction = branch_to d.replacement_function_address }, m)
      else if d.jump_data == 0
      then fatal no_jump_data
      else if leb d.jump_data_size (length (replacement_jump_code d) - 1)
      then fatal too_much_data
      else if not (in_branch_range d.jump_data)
      then fatal jump_impossible
      else done (
        record d { replace_with_instruction = branch_to d.jump_data },
        write_words m d.jump_data (replacement_jump_code d),
      )
