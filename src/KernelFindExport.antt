-- ===== src/KernelFindExport.antt =====
-- source/utils/KernelFindExport.cpp: the address of a function by its name, from the symbol tables
-- of the loaded modules.

pub mod Names
pub mod Symbols
pub mod Sections
pub mod Search
pub mod InMemory
use function_patcher_module.Base.{
  ℕ, zero, suc, bit_and, ◌+◌, ◌-◌, ◌*◌, ◌/◌, ◌%◌, ◌^◌, Bool, true, false, ◌&&◌, ◌||◌, Option, none,
  some, List, [], ◌∷◌, ◌==◌, ◌!=◌, if◌then◌else◌, Text, text, text_eq, ends_with, take, length,
}
use function_patcher_module.Elf.{ElfSectionHeader, LoadedRpl}
use function_patcher_module.Platform.{Platform}

module _ (p : Platform) where
  -- `sectionHeaderBuffer + shentsize * i`, in 32 bits.
  abbrev pub section_header : LoadedRpl → ℕ → ElfSectionHeader
  section_header rpl i =
      p.section_header_at ((rpl.section_header_buffer + rpl.elf_header.shentsize * i) % 2 ^ 32)

  abbrev pub section_name : LoadedRpl → ℕ → Text
  section_name rpl i =
      p.text_at (
        (rpl.section_address_buffer rpl.elf_header.shstrndx + (section_header rpl i).name) % 2 ^ 32)

  -- The first loop: the index of the last loaded section named ".text", from the index `i` on.
  unfoldable pub text_section : LoadedRpl → ℕ → ℕ → ℕ → ℕ
  text_section rpl zero i found = found
  text_section rpl (suc left) i found = text_section rpl left (i + 1) (
      if rpl.section_address_buffer i == 0
      then found
      else if rpl.elf_header.shstrndx == 0
      then found
      else if text_eq (section_name rpl i) (text ".text")
      then i
      else found)

  -- The loop over a symbol table's entries, from the index `j` on.
  unfoldable pub find_symbol : ℕ → ℕ → ℕ → ℕ → Text → ℕ → ℕ → Option ℕ
  find_symbol table entsize str_tab text_index function_name zero j = none
  find_symbol table entsize str_tab text_index function_name (suc left) j =
      let symbol = p.symbol_at ((table + j * entsize) % 2 ^ 32) in
      let rest = find_symbol table entsize str_tab text_index function_name left (j + 1) in
      if (symbol.shndx == text_index && bit_and symbol.info 0xf == p.stt_func)
        && text_eq (p.text_at ((str_tab + symbol.name) % 2 ^ 32)) function_name
      then some symbol.value
      else rest

  abbrev pub entry_size : ElfSectionHeader → ℕ
  entry_size h = if h.entsize == 0 then 0x10 else h.entsize

  abbrev pub find_in_section : LoadedRpl → ℕ → Text → ℕ → Option ℕ
  find_in_section rpl text_index function_name i =
      let h = section_header rpl i in
      find_symbol (rpl.section_address_buffer i) (entry_size h) (rpl.section_address_buffer h.link)
        text_index function_name (h.size / entry_size h) 0

  -- The second loop: the symbol tables, up to the first that has the function.
  unfoldable pub find_in_sections : LoadedRpl → ℕ → Text → ℕ → ℕ → Option ℕ
  find_in_sections rpl text_index function_name zero i = none
  find_in_sections rpl text_index function_name (suc left) i =
      let rest = find_in_sections rpl text_index function_name left (i + 1) in
      if rpl.section_address_buffer i == 0
      then rest
      else if (section_header rpl i).type == p.sht_symtab
      then elim (find_in_section rpl text_index function_name i) [ some v ↦ some v | none ↦ rest ]
      else rest

  unfoldable pub find_in_rpl : LoadedRpl → Text → ℕ
  unfolding text_section find_in_sections find_symbol
  find_in_rpl rpl function_name =
      elim (find_in_sections rpl (text_section rpl rpl.elf_header.shnum 0 0xffffffff) function_name
        rpl.elf_header.shnum 0) [ some v ↦ v | none ↦ 0 ]

  -- The loop over the loaded modules, up to the first of this name.
  unfoldable pub find_in_rpls : List LoadedRpl → Text → Text → ℕ
  find_in_rpls [] rpl_name function_name = 0
  find_in_rpls (rpl ∷ rpls) rpl_name function_name =
      if text_eq rpl.module_name_buffer rpl_name
      then find_in_rpl rpl function_name
      else find_in_rpls rpls rpl_name function_name

  -- The result, and the values given to KernelSetRAMPID in turn. A null name is `none`.
  unfoldable pub find_export_kernel : Option Text → Option Text → ℕ × List ℕ
  find_export_kernel none function_name = (0, [])
  find_export_kernel (some rpl_name) none = (0, [])
  find_export_kernel (some rpl_name) (some function_name) = elim p.ram_pid [
    | none ↦ (0, [])
    | some (err, current) ↦ (find_in_rpls p.loaded_rpls rpl_name function_name, 2 ∷ current ∷ [])
  ]

  unfoldable pub kernel_find_export : Text → Text → ℕ
  kernel_find_export rpl_name function_name =
      if ends_with rpl_name (text ".rpx") || ends_with rpl_name (text ".rpl")
      then (find_export_kernel (some (take (length rpl_name - 4) rpl_name)) (some function_name)).0
      else (find_export_kernel (some rpl_name) (some function_name)).0
