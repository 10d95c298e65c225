-- ===== src/Tests/Console.antt =====
-- A console on which the theorems are tried: addresses are physical but in the application's
-- range, and memory for the jumps is handed out block after block from there.
use function_patcher_module.Base.{
  ℕ, ◌+◌, ◌*◌, true, false, none, some, [], ◌∷◌, length, text, if◌then◌else◌, arith, ◌==◌,
}
use function_patcher_module.Elf.{ElfSectionHeader, ElfSymbol}
use function_patcher_module.Platform.{
  Platform, LibraryName, write, in_application_range, Outcome, done, fatal,
}
use function_patcher_module.Patch.{Patch, Machine, Run, by_lib_or_address}
use function_patcher_module.Utils.{IsPlatform}

abbrev pub codes : LibraryName → ℕ
codes n = elim n [ LibraryName.coreinit ↦ 2 | LibraryName.library_other ↦ 0 | _ ↦ 1 ]

abbrev pub empty_section : ElfSectionHeader
empty_section = record {
  name = 0;
  type = 0;
  flags = 0;
  addr = 0;
  offset = 0;
  size = 0;
  link = 0;
  info = 0;
  addralign = 0;
  entsize = 0;
}

-- Every symbol is a function of section 1, and lies behind its own entry.
abbrev symbol : ℕ → ElfSymbol
symbol a = record { name = 8; value = a + 100; size = 4; info = 2; other = 0; shndx = 1 }

abbrev pub console : Platform
console = record {
  library_code = codes;
  process_all = 0;
  process_wii_u_menu = 2;
  process_game = 15;
  process_game_and_menu = 16;
  kernel_copy_data = λ m to from size. write m to (m from);
  effective_to_physical = λ a. if in_application_range a then 0 else a;
  mmu = λ a. if in_application_range a then a + 0x30000000 else a;
  current_instruction_address = 0x10000100;
  replace_instruction_address = 0x10000200;
  replaced_instruction_address = λ handle. handle + 0x1c;
  replacement_address = 0x10000300;
  get_number_of_rpls_code = 0x02000000;
  get_rpl_info_code = 0x02000400;
  allocate = λ live heap size align. 0x00900000 + 64 * length live;
  new_object = λ live. 0x10001000 + 256 * length live;
  thread_created = λ affinity. true;
  number_of_rpls = 1;
  rpl_info = λ n. some (record { name = text "app.rpx"; text_addr = 0x02000000 } ∷ []);
  is_module_loaded = λ name. (true, 77);
  find_export = λ handle name. 0x02001000;
  ram_pid = some (1, 5);
  loaded_rpls = [];
  text_at = λ a. text "main";
  section_header_at = λ a. empty_section;
  symbol_at = symbol;
  sht_symtab = 2;
  stt_func = 2;
  title_id = 42;
  title_info = λ id. (0, 16);
  upid = 15;
  upid_code = λ i. if i == 0 then 0x3c600123 else 0x80634567;
}

pub console-IsPlatform : IsPlatform console
unfolding in_application_range
console-IsPlatform = record {
  copy_to = λ m to from. ground arith;
  copy_other = λ m to from a h. ground arith;
  effective_to_physical-mmu = λ a h. ground arith;
  application_range-mmu = λ a h. ground arith;
}

-- A patch by address, of a function at 0x20000000 for games only, with its buffers.
abbrev pub game_patch : Patch
game_patch = record {
  handle = 0x10001000;
  jump_to_original = 0x00900040;
  jump_data = 0x00900000;
  real_effective_function_address = 0x20000000;
  real_physical_function_address = 0x20000000;
  real_call_function_address_ptr = 0x10002000;
  replacement_function_address = 0x00800100;
  replaced_instruction = 0;
  replace_with_instruction = 0;
  jump_data_size = 15;
  heap_handle = 9;
  type = by_lib_or_address;
  title_ids = [];
  title_version_min = 0;
  title_version_max = 0xffff;
  executable_name = none;
  text_offset = 0;
  is_patched = false;
  library = some 0;
  target_process = 15;
  function_name = none;
}

-- `stwu r1, -8(r1)` stands in every function.
abbrev pub machine : Machine
machine = record { memory = λ a. 0x9421fff8; heap = 0x00900040 ∷ 0x00900000 ∷ []; rpl_handles = [] }

abbrev pub idle_run : Run
idle_run = record { result = false; patch = game_patch; machine = machine }

abbrev pub returned : Outcome Run → Run
returned (done r) = r
returned (fatal e) = idle_run
