-- ===== src/PatchedFunctionData/Make.antt =====
-- `make_shared_v2`, `make_shared_v3`, `allocateDataForJumps` and the destructor.
use function_patcher_module.Base.{
  ℕ, zero, suc, ◌+◌, Bool, true, false, ◌&&◌, ◌||◌, Option, none, some, List, ◌∷◌, Text, ◌==◌, ◌!=◌,
  ltb, if◌then◌else◌, contains,
}
use function_patcher_module.Platform.{Platform, LibraryName}
use function_patcher_module.Patch.{
  FunctionType, by_lib_or_address, executable_by_name, executable_by_address, unlisted, Patch,
  new_patch, remove,
}

-- `function_replacement_data_v2_t`.
pub record ReplacementDataV2 : Type 0 where
  pub physical_addr : ℕ
  pub virtual_addr : ℕ
  pub replace_addr : ℕ
  pub replace_call : ℕ
  pub library : ℕ
  pub function_name : Text
  pub target_process : ℕ

pub record ReplaceInRpl : Type 0 where
  pub function_name : Text
  pub library : ℕ

pub record ReplaceInRpx : Type 0 where
  pub target_title_ids : ℕ → ℕ
  pub target_title_ids_count : ℕ
  pub version_min : ℕ
  pub version_max : ℕ
  pub executable_name : Text
  pub text_offset : ℕ
  pub function_name : Text

-- `function_replacement_data_v3_t`, by the fields that the code reads.
pub record ReplacementDataV3 : Type 0 where
  pub type : FunctionType
  pub physical_addr : ℕ
  pub virtual_addr : ℕ
  pub replace_addr : ℕ
  pub replace_call : ℕ
  pub target_process : ℕ
  pub replace_in_rpl : ReplaceInRpl
  pub replace_in_rpx : ReplaceInRpx

-- The patch and the live blocks of the jump heap after a call, with its result.
pub record Allocated : Type 0 where
  pub result : Bool
  pub patch : Patch
  pub heap : List ℕ

abbrev pub with_block : ℕ → List ℕ → List ℕ
with_block a heap = if a == 0 then heap else a ∷ heap

-- `titleIds.insert(id)`.
abbrev pub insert : ℕ → List ℕ → List ℕ
insert id ids = if contains ids id then ids else id ∷ ids

-- The loop over the target titles, from the index `i` on.
unfoldable pub insert_titles : (ℕ → ℕ) → ℕ → ℕ → List ℕ → List ℕ
insert_titles targets zero i ids = ids
insert_titles targets (suc left) i ids = insert_titles targets left (i + 1) (insert (targets i) ids)

unfoldable pub free_pointer : ℕ → List ℕ → List ℕ
free_pointer a heap = if a == 0 then heap else remove a heap

-- The destructor: the blocks that it frees.
unfoldable pub destroy : Patch → List ℕ → List ℕ
unfolding free_pointer
destroy d heap = free_pointer d.jump_data (free_pointer d.jump_to_original heap)

module _ (p : Platform) where
  -- Whether a patch jumps through a trampoline in `jumpData`.
  abbrev pub needs_trampoline : Patch → Bool
  needs_trampoline d =
      ltb 0x01fffffc d.replacement_function_address || d.target_process != p.process_all

  unfoldable pub allocate_jump_to_original : Patch → List ℕ → Allocated
  allocate_jump_to_original d heap =
      let a = p.allocate heap d.heap_handle 20 4 in
      record {
        result = a != 0;
        patch = record d { jump_to_original = a };
        heap = with_block a heap;
      }

  unfoldable pub allocate_data_for_jumps : Patch → List ℕ → Allocated
  unfolding allocate_jump_to_original
  allocate_data_for_jumps d heap =
      if d.jump_data != 0 && d.jump_to_original != 0
      then record { result = true; patch = d; heap = heap }
      else if needs_trampoline d
      then (let a = p.allocate heap d.heap_handle 60 4 in
          let d' = record d { jump_data_size = 15; jump_data = a } in
          if a == 0
          then record { result = false; patch = d'; heap = heap }
          else allocate_jump_to_original d' (a ∷ heap))
      else allocate_jump_to_original d heap

  -- The end of both constructors: a patch whose buffers cannot be allocated is destroyed.
  unfoldable pub finish_make : Allocated → Option Patch × List ℕ
  unfolding destroy
  finish_make r = if r.result then (some r.patch, r.heap) else (none, destroy r.patch r.heap)

  abbrev pub is_library_other : ℕ → Bool
  is_library_other library = library == p.library_code LibraryName.library_other

  -- The function to replace, given by library and name or by its two addresses.
  unfoldable pub set_library : Patch → ℕ → Text → ℕ → ℕ → Patch
  set_library d library function_name virtual_addr physical_addr =
      let d' = record d { library = some library } in
      if is_library_other library
      then record d' {
        real_effective_function_address = virtual_addr;
        real_physical_function_address = physical_addr;
      }
      else record d' { function_name = some function_name }

  unfoldable pub set_executable : Patch → ReplaceInRpx → Patch
  unfolding insert_titles
  set_executable d x = record d {
    library = none;
    title_ids = insert_titles x.target_title_ids x.target_title_ids_count 0 d.title_ids;
    title_version_min = x.version_min;
    title_version_max = x.version_max;
    executable_name = some x.executable_name;
  }

  -- The `switch` on the type.
  unfoldable pub set_target : Patch → ReplacementDataV3 → FunctionType → Patch
  unfolding set_library set_executable
  set_target d x by_lib_or_address =
      set_library d x.replace_in_rpl.library x.replace_in_rpl.function_name x.virtual_addr
        x.physical_addr
  set_target d x executable_by_name = record (set_executable d x.replace_in_rpx) {
    function_name = some x.replace_in_rpx.function_name;
  }
  set_target d x executable_by_address = record (set_executable d x.replace_in_rpx) {
    text_offset = x.replace_in_rpx.text_offset;
  }
  set_target d x (unlisted n) = d

  -- The new object's address comes first; 0 where `new` failed.
  unfoldable pub make_shared_v3 : ℕ → Option ReplacementDataV3 → ℕ → List ℕ → Option Patch × List ℕ
  unfolding new_patch set_target allocate_data_for_jumps finish_make
  make_shared_v3 object none heap_handle heap = (none, heap)
  make_shared_v3 object (some x) heap_handle heap =
      if object == 0
      then (none, heap)
      else (let d = record (new_patch object) {
        heap_handle = heap_handle;
        replacement_function_address = x.replace_addr;
        real_call_function_address_ptr = x.replace_call;
        target_process = x.target_process;
        type = x.type;
      } in
          finish_make (allocate_data_for_jumps (set_target d x x.type) heap))

  unfoldable pub make_shared_v2 : ℕ → Option ReplacementDataV2 → ℕ → List ℕ → Option Patch × List ℕ
  unfolding new_patch set_library allocate_data_for_jumps finish_make
  make_shared_v2 object none heap_handle heap = (none, heap)
  make_shared_v2 object (some x) heap_handle heap =
      if object == 0
      then (none, heap)
      else (let d = record (new_patch object) {
        type = by_lib_or_address;
        heap_handle = heap_handle;
        target_process = x.target_process;
        replacement_function_address = x.replace_addr;
        real_call_function_address_ptr = x.replace_call;
      } in
          finish_make (
            allocate_data_for_jumps
              (set_library d x.library x.function_name x.virtual_addr x.physical_addr) heap))
