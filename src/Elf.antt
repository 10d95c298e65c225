-- ===== src/Elf.antt =====
-- source/utils/KernelFindExport.h: the structures of a loaded module.
pub mod Layout
pub mod Encoding
use function_patcher_module.Base.{ℕ, List, Text}

pub record ElfSectionHeader : Type 0 where
  pub name : ℕ
  pub type : ℕ
  pub flags : ℕ
  pub addr : ℕ
  pub offset : ℕ
  pub size : ℕ
  pub link : ℕ
  pub info : ℕ
  pub addralign : ℕ
  pub entsize : ℕ

pub record ElfSymbol : Type 0 where
  pub name : ℕ
  pub value : ℕ
  pub size : ℕ
  pub info : ℕ
  pub other : ℕ
  pub shndx : ℕ

pub record ElfHeader : Type 0 where
  pub magic : List ℕ
  pub file_class : ℕ
  pub encoding : ℕ
  pub elf_version : ℕ
  pub abi : ℕ
  pub abi_version : ℕ
  pub pad : List ℕ
  pub type : ℕ
  pub machine : ℕ
  pub version : ℕ
  pub entry : ℕ
  pub phoff : ℕ
  pub shoff : ℕ
  pub flags : ℕ
  pub ehsize : ℕ
  pub phentsize : ℕ
  pub phnum : ℕ
  pub shentsize : ℕ
  pub shnum : ℕ
  pub shstrndx : ℕ

-- `LOADED_RPL`. The list through `nextLoadedRpl` is a list of these.
pub record LoadedRpl : Type 0 where
  pub module_name_buffer : Text
  pub elf_header : ElfHeader
  pub section_header_buffer : ℕ
  pub section_address_buffer : ℕ → ℕ
