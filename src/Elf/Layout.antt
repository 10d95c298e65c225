-- ===== src/Elf/Layout.antt =====
-- source/utils/KernelFindExport.h: the structures as they lie in memory, at the offsets that the
-- file checks. The console stores the most significant byte of a number first.
use function_patcher_module.Base.{
  ℕ, zero, suc, ◌+◌, ◌*◌, ◌%◌, ◌^◌, true, false, List, [], ◌∷◌, ◌==◌, Text,
}
use function_patcher_module.Elf.{ElfSectionHeader, ElfSymbol, ElfHeader, LoadedRpl}

-- The byte at each address. A structure does not reach over the end of the address space.
abbrev pub Bytes : Type 0
Bytes = ℕ → ℕ

abbrev pub byte_at : Bytes → ℕ → ℕ → ℕ
byte_at b a offset = b (a + offset)

abbrev pub half_at : Bytes → ℕ → ℕ → ℕ
half_at b a offset = b (a + offset) * 0x100 + b (a + (offset + 1))

abbrev pub word_at : Bytes → ℕ → ℕ → ℕ
word_at b a offset =
    b (a + offset) * 0x1000000
    + b (a + (offset + 1)) * 0x10000
    + b (a + (offset + 2)) * 0x100
    + b (a + (offset + 3))

-- An array of bytes.
abbrev pub bytes_at : Bytes → ℕ → ℕ → ℕ → List ℕ
bytes_at b a offset zero = []
bytes_at b a offset (suc n) = b (a + offset) ∷ bytes_at b a (offset + 1) n

unfoldable pub section_header_in : Bytes → ℕ → ElfSectionHeader
section_header_in b a = record {
  name = word_at b a 0x00;
  type = word_at b a 0x04;
  flags = word_at b a 0x08;
  addr = word_at b a 0x0c;
  offset = word_at b a 0x10;
  size = word_at b a 0x14;
  link = word_at b a 0x18;
  info = word_at b a 0x1c;
  addralign = word_at b a 0x20;
  entsize = word_at b a 0x24;
}

unfoldable pub symbol_in : Bytes → ℕ → ElfSymbol
symbol_in b a = record {
  name = word_at b a 0x00;
  value = word_at b a 0x04;
  size = word_at b a 0x08;
  info = byte_at b a 0x0c;
  other = byte_at b a 0x0d;
  shndx = half_at b a 0x0e;
}

unfoldable pub elf_header_in : Bytes → ℕ → ElfHeader
elf_header_in b a = record {
  magic = bytes_at b a 0x00 4;
  file_class = byte_at b a 0x04;
  encoding = byte_at b a 0x05;
  elf_version = byte_at b a 0x06;
  abi = byte_at b a 0x07;
  abi_version = byte_at b a 0x08;
  pad = bytes_at b a 0x09 7;
  type = half_at b a 0x10;
  machine = half_at b a 0x12;
  version = word_at b a 0x14;
  entry = word_at b a 0x18;
  phoff = word_at b a 0x1c;
  shoff = word_at b a 0x20;
  flags = word_at b a 0x24;
  ehsize = half_at b a 0x28;
  phentsize = half_at b a 0x2a;
  phnum = half_at b a 0x2c;
  shentsize = half_at b a 0x2e;
  shnum = half_at b a 0x30;
  shstrndx = half_at b a 0x32;
}

-- The text at a pointer, up to its first byte 0 or the limit.
unfoldable pub text_in : Bytes → ℕ → ℕ → Text
text_in b zero a = []
text_in b (suc limit) a = elim (b a == 0) [ true ↦ [] | false ↦ b a ∷ text_in b limit (a + 1) ]

-- A `LOADED_RPL`, with what its pointers lead to.
unfoldable pub loaded_rpl_in : Bytes → ℕ → ℕ → LoadedRpl
unfolding text_in elf_header_in
loaded_rpl_in b limit a = record {
  module_name_buffer = text_in b limit (word_at b a 0x08);
  elf_header = elf_header_in b (a + 0x1c);
  section_header_buffer = word_at b a 0x50;
  section_address_buffer = λ i. word_at b ((word_at b a 0xf4 + 4 * i) % 2 ^ 32) 0;
}

abbrev pub next_loaded_rpl : Bytes → ℕ → ℕ
next_loaded_rpl b a = word_at b a 0x114
