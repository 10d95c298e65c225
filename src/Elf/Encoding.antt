-- ===== src/Elf/Encoding.antt =====
-- The structures written down field after field, with nothing between the fields, and read back.
use function_patcher_module.Base.{
  ℕ, ◌+◌, ◌/◌, ◌%◌, ◌^◌, ◌<◌, some, List, [], ◌∷◌, ◌++◌, ◌≡◌, refl, arith, get_elem?,
}
use function_patcher_module.Elf.{ElfSectionHeader, ElfSymbol}
use function_patcher_module.Elf.Layout.{Bytes, half_at, word_at, section_header_in, symbol_in}

abbrev pub half_bytes : ℕ → List ℕ
half_bytes n = n / 0x100 % 0x100 ∷ n % 0x100 ∷ []

abbrev pub word_bytes : ℕ → List ℕ
word_bytes n = n / 0x1000000 % 0x100 ∷ n / 0x10000 % 0x100 ∷ n / 0x100 % 0x100 ∷ n % 0x100 ∷ []

abbrev pub section_header_bytes : ElfSectionHeader → List ℕ
section_header_bytes h =
    word_bytes h.name
    ++ (word_bytes h.type
        ++ (word_bytes h.flags
            ++ (word_bytes h.addr
                ++ (word_bytes h.offset
                    ++ (word_bytes h.size
                        ++ (word_bytes h.link
                            ++ (word_bytes h.info
                                ++ (word_bytes h.addralign ++ word_bytes h.entsize))))))))

abbrev pub symbol_bytes : ElfSymbol → List ℕ
symbol_bytes y =
    word_bytes y.name
    ++ (word_bytes y.value ++ (word_bytes y.size ++ (y.info ∷ y.other ∷ half_bytes y.shndx)))

-- These bytes lie at an address.
abbrev pub AreAt : Bytes → ℕ → List ℕ → Type 0
AreAt b a xs = (i x : ℕ) → get_elem? xs i ≡ some x → b (a + i) ≡ x

pub record IsSectionHeader (h : ElfSectionHeader) : Type 0 where
  pub name : h.name < 2 ^ 32
  pub type : h.type < 2 ^ 32
  pub flags : h.flags < 2 ^ 32
  pub addr : h.addr < 2 ^ 32
  pub offset : h.offset < 2 ^ 32
  pub size : h.size < 2 ^ 32
  pub link : h.link < 2 ^ 32
  pub info : h.info < 2 ^ 32
  pub addralign : h.addralign < 2 ^ 32
  pub entsize : h.entsize < 2 ^ 32

pub record IsSymbol (y : ElfSymbol) : Type 0 where
  pub name : y.name < 2 ^ 32
  pub value : y.value < 2 ^ 32
  pub size : y.size < 2 ^ 32
  pub shndx : y.shndx < 2 ^ 16

module _ (b : Bytes) (a : ℕ) (xs : List ℕ) (at : AreAt b a xs) where
  word :
      (off n : ℕ)
      → n < 2 ^ 32
      → get_elem? xs off ≡ some (n / 0x1000000 % 0x100)
      → get_elem? xs (off + 1) ≡ some (n / 0x10000 % 0x100)
      → get_elem? xs (off + 2) ≡ some (n / 0x100 % 0x100)
      → get_elem? xs (off + 3) ≡ some (n % 0x100)
      → word_at b a off ≡ n
  word off n n<2^32 e0 e1 e2 e3 =
      ground (arith, n<2^32, at off _ e0, at (off + 1) _ e1, at (off + 2) _ e2, at (off + 3) _ e3)

  half :
      (off n : ℕ)
      → n < 2 ^ 16
      → get_elem? xs off ≡ some (n / 0x100 % 0x100)
      → get_elem? xs (off + 1) ≡ some (n % 0x100)
      → half_at b a off ≡ n
  half off n n<2^16 e0 e1 = ground (arith, n<2^16, at off _ e0, at (off + 1) _ e1)

module _ (b : Bytes) (a : ℕ) where
  section_header_in-bytes :
      (h : ElfSectionHeader)
      → IsSectionHeader h
      → AreAt b a (section_header_bytes h)
      → section_header_in b a ≡ h
  unfolding section_header_in
  section_header_in-bytes h bounds at = λ i. record {
    name = word b a (section_header_bytes h) at 0x00 h.name bounds.name refl refl refl refl i;
    type = word b a (section_header_bytes h) at 0x04 h.type bounds.type refl refl refl refl i;
    flags = word b a (section_header_bytes h) at 0x08 h.flags bounds.flags refl refl refl refl i;
    addr = word b a (section_header_bytes h) at 0x0c h.addr bounds.addr refl refl refl refl i;
    offset = word b a (section_header_bytes h) at 0x10 h.offset bounds.offset refl refl refl refl i;
    size = word b a (section_header_bytes h) at 0x14 h.size bounds.size refl refl refl refl i;
    link = word b a (section_header_bytes h) at 0x18 h.link bounds.link refl refl refl refl i;
    info = word b a (section_header_bytes h) at 0x1c h.info bounds.info refl refl refl refl i;
    addralign =
        word b a (section_header_bytes h) at 0x20 h.addralign bounds.addralign refl refl refl refl
          i;
    entsize =
        word b a (section_header_bytes h) at 0x24 h.entsize bounds.entsize refl refl refl refl i;
  }

  symbol_in-bytes : (y : ElfSymbol) → IsSymbol y → AreAt b a (symbol_bytes y) → symbol_in b a ≡ y
  unfolding symbol_in
  symbol_in-bytes y bounds at = λ i. record {
    name = word b a (symbol_bytes y) at 0x00 y.name bounds.name refl refl refl refl i;
    value = word b a (symbol_bytes y) at 0x04 y.value bounds.value refl refl refl refl i;
    size = word b a (symbol_bytes y) at 0x08 y.size bounds.size refl refl refl refl i;
    info = at 0x0c y.info refl i;
    other = at 0x0d y.other refl i;
    shndx = half b a (symbol_bytes y) at 0x0e y.shndx bounds.shndx refl refl i;
  }

-- A section header and a symbol that are laid out field after field, the most significant byte of a
-- field first, are read back, where every field fits in its width.
pub section_header_in-symbol_in-bytes :
    (b c : Bytes) (a d : ℕ) (h : ElfSectionHeader) (y : ElfSymbol)
    → IsSectionHeader h
    → IsSymbol y
    → AreAt b a (section_header_bytes h)
    → AreAt c d (symbol_bytes y)
    → (section_header_in b a ≡ h) × (symbol_in c d ≡ y)
section_header_in-symbol_in-bytes b c a d h y h_bounds y_bounds h_at y_at =
    (section_header_in-bytes b a h h_bounds h_at, symbol_in-bytes c d y y_bounds y_at)
