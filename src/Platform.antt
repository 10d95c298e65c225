-- ===== src/Platform.antt =====
-- What the module runs on: the types of source/FunctionAddressProvider.h, of the public headers
-- and of the loader that the code reads, and the services of the console and of libkernel as one
-- record of parameters. Every word is a number below 2 ^ 32 where the statements say so, and
-- addresses are those of whole, aligned words.
use function_patcher_module.Base.{
  ℕ, Bool, ◌&&◌, Option, List, Text, ltb, leb, ◌==◌, if◌then◌else◌, ◌≡◌, refl,
}
use function_patcher_module.Elf.{ElfSectionHeader, ElfSymbol, LoadedRpl}

-- The names of `function_replacement_library_type_t` that the code uses.
pub data LibraryName : Type 0 where
  avm camera coreinit dc dmae drmapp erreula gx2 h264 lzma920 mic nfc : LibraryName
  nio_prof nlibcurl nlibnss nlibnss2 nn_ac nn_acp nn_act nn_aoc nn_boss nn_ccr : LibraryName
  nn_cmpt nn_dlp nn_ec nn_fp nn_hai nn_hpad nn_idbe nn_ndm nn_nets2 nn_nfp nn_nim : LibraryName
  nn_olv nn_pdm nn_save nn_sl nn_spm nn_temp nn_uds nn_vctl nsysccr nsyshid nsyskbd : LibraryName
  nsysnet nsysuhs nsysuvd ntag padscore proc_ui sndcore2 snduser2 snd_core : LibraryName
  snd_user swkbd sysapp tcl tve uac uac_rpl usb_mic uvc uvd vpad vpadbase zlib125 : LibraryName
  library_other : LibraryName

-- A loaded module as `OSDynLoad_GetRPLInfo` reports it.
pub record NotifyData : Type 0 where
  pub name : Text
  pub text_addr : ℕ

-- The console's memory: the word at each physical address. Left out is what `runOnAllCores` takes for
-- its threads, and clears and gives back before it returns: that is in `Thread`.
abbrev pub Memory : Type 0
Memory = ℕ → ℕ

abbrev pub write : Memory → ℕ → ℕ → Memory
write m a w b = if a == b then w else m b

pub record Platform : Type 0 where
  -- the integers behind the enumerators
  pub library_code : LibraryName → ℕ
  pub process_all : ℕ
  pub process_wii_u_menu : ℕ
  pub process_game : ℕ
  pub process_game_and_menu : ℕ
  -- memory: KernelCopyData(to, from, size), OSEffectiveToPhysical, the address translation of the
  -- processor itself, and the addresses of the locals whose address the code takes
  pub kernel_copy_data : Memory → ℕ → ℕ → ℕ → Memory
  pub effective_to_physical : ℕ → ℕ
  pub mmu : ℕ → ℕ
  pub current_instruction_address : ℕ
  pub replace_instruction_address : ℕ
  pub replaced_instruction_address : ℕ → ℕ
  pub replacement_address : ℕ
  -- the code of OSDynLoad_GetNumberOfRPLs and OSDynLoad_GetRPLInfo
  pub get_number_of_rpls_code : ℕ
  pub get_rpl_info_code : ℕ
  -- MEMAllocFromExpHeapEx(heap, size, align) with the live blocks, `new` with the live objects;
  -- 0 is the null pointer
  pub allocate : List ℕ → ℕ → ℕ → ℕ → ℕ
  pub new_object : List ℕ → ℕ
  -- whether the memory of a thread with this affinity could be allocated
  pub thread_created : ℕ → Bool
  -- the loader
  pub number_of_rpls : ℕ
  pub rpl_info : ℕ → Option (List NotifyData)
  pub is_module_loaded : Text → Bool × ℕ
  pub find_export : ℕ → Text → ℕ
  -- the kernel: KernelGetRAMPID (`none` for -1, else its result and the current id), the loaded
  -- modules, what its view of memory holds at an address, and two constants of elf.h
  pub ram_pid : Option (ℕ × ℕ)
  pub loaded_rpls : List LoadedRpl
  pub text_at : ℕ → Text
  pub section_header_at : ℕ → ElfSectionHeader
  pub symbol_at : ℕ → ElfSymbol
  pub sht_symtab : ℕ
  pub stt_func : ℕ
  -- the running title, and MCP_GetTitleInfo with its result code and the version
  pub title_id : ℕ
  pub title_info : ℕ → ℕ × ℕ
  -- OSGetUPID: its result, and the words of its code
  pub upid : ℕ
  pub upid_code : ℕ → ℕ

-- The range of the application's address space for which OSEffectiveToPhysical is not asked.
unfoldable pub in_application_range : ℕ → Bool
in_application_range a = leb 0x00800000 a && ltb a 0x01000000

-- Why the module halts the console.
pub data Fatal : Type 0 where
  no_rpls no_rpl_info no_function_name unexpected_type no_library bad_physical_address : Fatal
  no_jump_to_original no_jump_data too_much_data jump_impossible read_failed : Fatal
  no_source_address no_title_version unknown_version : Fatal
  no_coreinit no_allocator no_deallocator loader_not_patched no_jump_heap no_provider : Fatal

-- A call that returns, or `OSFatal`, which does not.
pub data Outcome {ℓ} (A : Type ℓ) : Type ℓ where
  done : A → Outcome A
  fatal : Fatal → Outcome A

infixl 5 ◌>>=◌
abbrev pub ◌>>=◌ {ℓ κ} : {A : Type ℓ} {B : Type κ} → Outcome A → (A → Outcome B) → Outcome B
done a >>= f = f a
fatal e >>= f = fatal e

-- A chain that returns has a first part that returns.
pub done-bind {ℓ κ} :
    {A : Type ℓ} {B : Type κ} (m : Outcome A) (f : A → Outcome B) {b : B}
    → (m >>= f) ≡ done b
    → (a : A) × (m ≡ done a) × (f a ≡ done b)
done-bind (done a) f h = (a, refl, h)
done-bind (fatal e) f h = cc

-- A chain whose parts return returns.
pub bind-done {ℓ κ} :
    {A : Type ℓ} {B : Type κ} {m : Outcome A} (f : A → Outcome B) {a : A} {o : Outcome B}
    → m ≡ done a
    → f a ≡ o
    → (m >>= f) ≡ o
bind-done f e h = rw e h
