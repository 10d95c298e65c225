-- ===== src/Patch.antt =====
-- source/PatchedFunctionData.h and the structures that a caller hands in: the data of one patch,
-- the state of the module, and small updates of them.
use function_patcher_module.Base.{
  ℕ, Bool, false, Option, none, List, [], ◌∷◌, Text, ◌==◌, if◌then◌else◌,
}
use function_patcher_module.Platform.{Memory}

-- `FunctionPatcherFunctionType`; an integer that is no enumerator is `unlisted`.
pub data FunctionType : Type 0 where
  by_lib_or_address executable_by_name executable_by_address : FunctionType
  unlisted : ℕ → FunctionType

-- A `PatchedFunctionData`. The pointers `jump_to_original`, `jump_data` and
-- `real_call_function_address_ptr` are addresses, 0 for null.
pub record Patch : Type 0 where
  pub handle : ℕ
  pub jump_to_original : ℕ
  pub jump_data : ℕ
  pub real_effective_function_address : ℕ
  pub real_physical_function_address : ℕ
  pub real_call_function_address_ptr : ℕ
  pub replacement_function_address : ℕ
  pub replaced_instruction : ℕ
  pub replace_with_instruction : ℕ
  pub jump_data_size : ℕ
  pub heap_handle : ℕ
  pub type : FunctionType
  pub title_ids : List ℕ
  pub title_version_min : ℕ
  pub title_version_max : ℕ
  pub executable_name : Option Text
  pub text_offset : ℕ
  pub is_patched : Bool
  pub library : Option ℕ
  pub target_process : ℕ
  pub function_name : Option Text

-- The members' initialisers, for the object at this address.
unfoldable pub new_patch : ℕ → Patch
new_patch handle = record {
  handle = handle;
  jump_to_original = 0;
  jump_data = 0;
  real_effective_function_address = 0;
  real_physical_function_address = 0;
  real_call_function_address_ptr = 0;
  replacement_function_address = 0;
  replaced_instruction = 0;
  replace_with_instruction = 0;
  jump_data_size = 15;
  heap_handle = 0;
  type = by_lib_or_address;
  title_ids = [];
  title_version_min = 0;
  title_version_max = 0xffff;
  executable_name = none;
  text_offset = 0;
  is_patched = false;
  library = none;
  target_process = 0;
  function_name = none;
}

-- One entry of `rpl_handles`.
pub record RplHandling : Type 0 where
  pub library : ℕ
  pub rplname : Text
  pub handle : ℕ

-- What the operations on one patch change beside the patch: the memory, the live blocks of the
-- jump heap, and the handles of the `FunctionAddressProvider`.
pub record Machine : Type 0 where
  pub memory : Memory
  pub heap : List ℕ
  pub rpl_handles : List RplHandling

-- A patch after an operation, the machine, and the operation's result.
pub record Run : Type 0 where
  pub result : Bool
  pub patch : Patch
  pub machine : Machine

-- The module's globals. `gPatchedFunctions` holds pointers, so the objects stand apart from it.
pub record State : Type 0 where
  pub machine : Machine
  pub objects : ℕ → Patch
  pub patched_functions : List ℕ

abbrev pub store : (ℕ → Patch) → ℕ → Patch → ℕ → Patch
store objects a x b = if a == b then x else objects b

-- `std::set::insert` and `vector::erase` of one element.
abbrev pub remove : ℕ → List ℕ → List ℕ
remove a [] = []
remove a (x ∷ xs) = if x == a then xs else x ∷ remove a xs
