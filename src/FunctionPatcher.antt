-- ===== src/FunctionPatcher.antt =====
-- source/function_patcher.cpp: a patch is put into the function's first word, and taken out. The
-- data and instruction caches are not modelled: a flush or an invalidation changes no word.
pub mod Restore
pub mod Patching
pub mod Install
pub mod RoundTrip
pub mod Flags
pub mod Setup
pub mod Applies
pub mod Frame
pub mod NoThread
pub mod Placed
pub mod RestoreFrame
pub mod Active
pub mod Calling
pub mod Undisturbed
use function_patcher_module.Base.{
  ℕ, ◌+◌, ◌-◌, ◌&&◌, Bool, true, false, Option, none, some, ◌==◌, ◌!=◌, ◌||◌, if◌then◌else◌, holds,
  not,
}
use function_patcher_module.Platform.{
  Platform, LibraryName, Memory, write, in_application_range, Outcome, done, fatal, ◌>>=◌,
  read_failed, no_source_address,
}
use function_patcher_module.Patch.{Patch, Machine, Run}
use function_patcher_module.Utils.{local_to_physical, read_from_physical_address, run_on_all_cores}
use function_patcher_module.PatchedFunctionData.Title.{should_be_patched}
use function_patcher_module.PatchedFunctionData.Address.{Updated, update_function_addresses}
use function_patcher_module.PatchedFunctionData.Jumps.{
  generate_jump_to_original, generate_replacement_jump,
}

module _ (p : Platform) where
  -- The instruction goes through a local variable of the thread.
  unfoldable pub write_data_and_flush_ic : Patch → Memory → Memory
  unfolding local_to_physical
  write_data_and_flush_ic d m =
      p.kernel_copy_data (write m (p.mmu p.replace_instruction_address) d.replace_with_instruction)
        d.real_physical_function_address (local_to_physical p p.replace_instruction_address) 4

  abbrev pub not_patched : Patch → Machine → Outcome Run
  not_patched d mc = done (record { result = false; patch = d; machine = mc })

  -- The replaced instruction is known: both jumps are generated and the branch is written.
  unfoldable pub install : Patch → Machine → Outcome Run
  unfolding write_data_and_flush_ic run_on_all_cores
  install d mc = do
    m ← generate_jump_to_original p d mc.memory
    r ← generate_replacement_jump p d m
    done (record {
      result = true;
      patch = record (r.0) { is_patched = true };
      machine = record mc { memory = run_on_all_cores p (write_data_and_flush_ic r.0) r.1 };
    })

  -- The address is known: the instruction there is read, into a field of the object.
  unfoldable pub patch_located : Patch → Machine → Outcome Run
  unfolding install
  patch_located d mc =
      let read = read_from_physical_address p mc.memory d.real_physical_function_address in
      elim (read.0) [
        | none ↦ fatal read_failed
        | some w ↦
            install (record d { replaced_instruction = w })
              (record mc {
                memory = write (read.1) (p.mmu (p.replaced_instruction_address d.handle)) w;
              })
      ]

  unfoldable pub patch_wanted : Patch → Machine → Outcome Run
  unfolding patch_located
  patch_wanted d mc = do
    u ← update_function_addresses p mc.memory d mc.rpl_handles
    let mc' = record mc { rpl_handles = u.rpl_handles }
    if u.result then patch_located u.patch mc' else not_patched u.patch mc'

  unfoldable pub patch_function : Patch → Machine → Outcome Run
  unfolding patch_wanted
  patch_function d mc =
      if d.is_patched
      then done (record { result = true; patch = d; machine = mc })
      else do wanted ← should_be_patched p d; if wanted then patch_wanted d mc else not_patched d mc

  -- The physical address of the field `replacedInstruction`; 0 where there is none.
  unfoldable pub source_to_physical : Patch → ℕ
  source_to_physical d =
      let source = p.replaced_instruction_address d.handle in
      let physical = p.effective_to_physical source in
      if physical == 0 && in_application_range source
      then source + (0x30800000 - 0x00800000)
      else physical

  unfoldable pub restore_target : Patch → ℕ
  restore_target d =
      if holds d.library (p.library_code LibraryName.library_other)
      then d.real_physical_function_address
      else p.effective_to_physical d.real_effective_function_address

  -- The copy that puts the replaced instruction back. The field lies in memory at its address.
  unfoldable pub put_back : Patch → Memory → Memory
  unfolding source_to_physical restore_target
  put_back d m =
      p.kernel_copy_data
        (write m (p.mmu (p.replaced_instruction_address d.handle)) d.replaced_instruction)
        (restore_target d) (source_to_physical d) 4

  -- The instruction that stands in the function has been read.
  unfoldable pub restore_read : Patch → Machine → ℕ → Outcome Run
  unfolding put_back source_to_physical
  restore_read d mc current =
      if current != d.replace_with_instruction
      then not_patched d mc
      else if source_to_physical d == 0
      then fatal no_source_address
      else done (record {
        result = true;
        patch = record d { is_patched = false };
        machine = record mc { memory = put_back d mc.memory };
      })

  unfoldable pub restore_function : Patch → Machine → Outcome Run
  unfolding restore_read
  restore_function d mc =
      if not d.is_patched
      then done (record { result = true; patch = d; machine = mc })
      else if d.replaced_instruction == 0 || d.real_effective_function_address == 0
      then not_patched d mc
      else (let read = read_from_physical_address p mc.memory d.real_physical_function_address in
          elim (read.0) [
            | none ↦ not_patched d mc
            | some w ↦ restore_read d (record mc { memory = read.1 }) w
          ])
