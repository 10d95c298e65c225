-- ===== src/Tests/Image.antt =====
-- The loader's memory as bytes: a module "app" with one symbol table, behind a module "lib".
use function_patcher_module.Base.{
  ℕ, ◌+◌, ◌-◌, Option, none, some, List, [], ◌∷◌, ◌++◌, ltb, leb, length, ◌&&◌, if◌then◌else◌, ◌≡◌,
  ◌∙◌, refl, ap, arith, get_elem?, text, text_eq,
}
use function_patcher_module.Elf.{ElfSectionHeader, ElfSymbol}
use function_patcher_module.Elf.Layout.{
  Bytes, section_header_in, symbol_in, elf_header_in, text_in, loaded_rpl_in,
}
use function_patcher_module.Elf.Encoding.{
  IsSectionHeader, IsSymbol, AreAt, word_bytes, section_header_bytes, symbol_bytes,
  section_header_in-symbol_in-bytes,
}
use function_patcher_module.Platform.{Platform}
use function_patcher_module.KernelFindExport.{
  find_export_kernel, find_in_rpl, find_in_sections, find_symbol, text_section,
}
use function_patcher_module.KernelFindExport.InMemory.{
  IsChain, IsTextAt, in_bytes, find_from, find_export_in_memory, find_export_in_memory_lem,
  text_in-IsTextAt,
}
use function_patcher_module.Tests.Console.{console, empty_section}

-- These bytes from address 0 on.
abbrev bytes : List ℕ → Bytes
bytes xs a = elim (get_elem? xs a) [ some x ↦ x | none ↦ 0 ]

bytes-AreAt : (xs : List ℕ) → AreAt (bytes xs) 0 xs
bytes-AreAt xs i x h =
    ap (bytes xs) (omega arith) ∙ ap (λ (o : Option ℕ). elim o [ some c ↦ c | none ↦ 0 ]) h

abbrev symtab : ElfSectionHeader
symtab = record empty_section { name = 11; type = 2; size = 32; link = 2; entsize = 16 }

abbrev main_symbol : ElfSymbol
main_symbol = record { name = 7; value = 0x02001234; size = 8; info = 0x12; other = 0; shndx = 1 }

symtab-IsSectionHeader : IsSectionHeader symtab
symtab-IsSectionHeader = record {
  name = omega arith;
  type = omega arith;
  flags = omega arith;
  addr = omega arith;
  offset = omega arith;
  size = omega arith;
  link = omega arith;
  info = omega arith;
  addralign = omega arith;
  entsize = omega arith;
}

main_symbol-IsSymbol : IsSymbol main_symbol
main_symbol-IsSymbol = record {
  name = omega arith;
  value = omega arith;
  size = omega arith;
  shndx = omega arith;
}

section_header_in-symbol_in-bytes_example :
    (section_header_in (bytes (section_header_bytes symtab)) 0 ≡ symtab)
    × (symbol_in (bytes (symbol_bytes main_symbol)) 0 ≡ main_symbol)
section_header_in-symbol_in-bytes_example =
    section_header_in-symbol_in-bytes (bytes (section_header_bytes symtab))
      (bytes (symbol_bytes main_symbol)) 0 0 symtab main_symbol symtab-IsSectionHeader
      main_symbol-IsSymbol (bytes-AreAt (section_header_bytes symtab))
      (bytes-AreAt (symbol_bytes main_symbol))

-- Pieces of memory, each from its address on, with 0 between them.
abbrev pieces : List (ℕ × List ℕ) → Bytes
pieces [] a = 0
pieces ((start, xs) ∷ rest) a =
    let behind = pieces rest a in
    if leb start a && ltb a (start + length xs) then bytes xs (a - start) else behind

-- "lib" at 0x1000, and "app" at 0x1200.
abbrev image : Bytes
image = pieces (
    (0x1008, word_bytes 0x2010)
    ∷ (0x1114, word_bytes 0x1200)
    ∷ (0x1208, word_bytes 0x2000)
    ∷ (0x124a, 0 ∷ 40 ∷ 0 ∷ 4 ∷ 0 ∷ 2 ∷ word_bytes 0x3000)
    ∷ (0x12f4, word_bytes 0x2100)
    ∷ (0x2000, text "app")
    ∷ (0x2010, text "lib")
    ∷ (0x2104, word_bytes 0x02000000 ++ (word_bytes 0x4000 ++ word_bytes 0x5000))
    ∷ (0x3028, section_header_bytes (record empty_section { name = 1; type = 1 }))
    ∷ (0x3078, section_header_bytes symtab)
    ∷ (0x4001, text ".text")
    ∷ (0x4007, text "main")
    ∷ (0x5010, symbol_bytes main_symbol)
    ∷ [])

abbrev loader : Platform
loader = record console {
  loaded_rpls = loaded_rpl_in image 16 0x1000 ∷ loaded_rpl_in image 16 0x1200 ∷ [];
}

main_in_memory :
    find_export_in_memory loader image 16 3 0x1000 (some (text "app")) (some (text "main"))
    ≡ some (0x02001234, 2 ∷ 5 ∷ [])
unfolding find_export_in_memory find_from find_in_rpl find_in_sections find_symbol text_section
    section_header_in symbol_in text_in loaded_rpl_in elf_header_in text_eq
main_in_memory = refl

image-IsChain : IsChain image 0x1000 (0x1000 ∷ 0x1200 ∷ [])
unfolding IsChain
image-IsChain = (refl, omega arith, (refl, omega arith, refl))

find_export_in_memory_lem_example :
    find_export_in_memory loader image 16 3 0x1000 (some (text "app")) (some (text "main"))
    ≡ some (find_export_kernel (in_bytes loader image 16) (some (text "app")) (some (text "main")))
find_export_in_memory_lem_example =
    find_export_in_memory_lem loader image 16 (0x1000 ∷ 0x1200 ∷ []) 3 0x1000 (some (text "app"))
      (some (text "main")) image-IsChain refl (omega arith)

dot_text-IsTextAt : IsTextAt image 0x4001 (text ".text")
unfolding IsTextAt
dot_text-IsTextAt = (
  refl,
  omega arith,
  (refl, omega arith, (refl, omega arith, (refl, omega arith, (refl, omega arith, refl)))),
)

dot_text_read : text_in image 16 0x4001 ≡ text ".text"
dot_text_read = text_in-IsTextAt image 16 0x4001 (text ".text") (omega arith) dot_text-IsTextAt
