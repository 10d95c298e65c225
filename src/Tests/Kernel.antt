-- ===== src/Tests/Kernel.antt =====
-- The search of a kernel with one loaded module, whose third section is its symbol table.
use function_patcher_module.Base.{ℕ, some, [], ◌∷◌, ◌≡◌, ◌==◌, if◌then◌else◌, refl, text, text_eq}
use function_patcher_module.Elf.{ElfHeader, ElfSectionHeader, LoadedRpl}
use function_patcher_module.Platform.{Platform}
use function_patcher_module.KernelFindExport.{
  find_export_kernel, find_in_rpls, find_in_rpl, find_in_sections, find_symbol, text_section,
}
use function_patcher_module.KernelFindExport.Search.{IsFoundIn, find_export_kernel_lem}
use function_patcher_module.Tests.Console.{console, empty_section}

abbrev headers : ℕ → ElfSectionHeader
headers a =
    if a == 0x5028
    then record empty_section { name = 1; type = 1 }
    else if a == 0x5050
    then record empty_section { name = 9; type = 2; size = 32; link = 3 }
    else empty_section

abbrev header : ElfHeader
header = record {
  magic = 0x7f ∷ 0x45 ∷ 0x4c ∷ 0x46 ∷ [];
  file_class = 1;
  encoding = 2;
  elf_version = 1;
  abi = 0xca;
  abi_version = 0xfe;
  pad = 0 ∷ 0 ∷ 0 ∷ 0 ∷ 0 ∷ 0 ∷ 0 ∷ [];
  type = 0xfe01;
  machine = 20;
  version = 1;
  entry = 0x02000000;
  phoff = 0;
  shoff = 0x40;
  flags = 0;
  ehsize = 52;
  phentsize = 0;
  phnum = 0;
  shentsize = 40;
  shnum = 4;
  shstrndx = 3;
}

abbrev app : LoadedRpl
app = record {
  module_name_buffer = text "app";
  elf_header = header;
  section_header_buffer = 0x5000;
  section_address_buffer =
      λ i. if i == 1 then 0x02000000 else if i == 2 then 0x4000 else if i == 3 then 0x3000 else 0;
}

abbrev kernel : Platform
kernel = record console {
  loaded_rpls = record app { module_name_buffer = text "other" } ∷ app ∷ [];
  text_at = λ a. if a == 0x3001 then text ".text" else text "main";
  section_header_at = headers;
}

-- The first of the two entries is found.
main_found : (find_export_kernel kernel (some (text "app")) (some (text "main"))).0 ≡ 0x4064
unfolding find_export_kernel find_in_rpls find_in_rpl find_in_sections find_symbol text_section
    text_eq
main_found = refl

find_export_kernel_lem_example :
    ((find_export_kernel kernel (some (text "app")) (some (text "main"))).1 ≡ 2 ∷ 5 ∷ [])
    × IsFoundIn kernel
        (text "main")
        kernel.loaded_rpls
        (text "app")
        (find_export_kernel kernel (some (text "app")) (some (text "main"))).0
find_export_kernel_lem_example = find_export_kernel_lem kernel (text "main") (text "app") 1 5 refl
