-- ===== src/KernelFindExport/Symbols.antt =====
-- The search of a symbol table.
use function_patcher_module.Base.{
  ℕ, zero, suc, ◌+◌, ◌*◌, ◌%◌, ◌^◌, ◌≤◌, ◌<◌, bit_and, Bool, true, false, ◌&&◌, Option, none, some,
  ◌≡◌, ◌==◌, inl, inr, Text, text_eq, Bool-cases, arith, refl,
}
use function_patcher_module.Platform.{Platform}
use function_patcher_module.KernelFindExport.{find_symbol}

module _ (p : Platform) (table entsize str_tab text_index : ℕ) (function_name : Text) where
  -- The entry `i` is a function of this name in the text section.
  abbrev pub is_wanted : ℕ → Bool
  is_wanted i =
      let symbol = p.symbol_at ((table + i * entsize) % 2 ^ 32) in
      (symbol.shndx == text_index && bit_and symbol.info 0xf == p.stt_func)
      && text_eq (p.text_at ((str_tab + symbol.name) % 2 ^ 32)) function_name

  -- The first wanted entry among `left` from `j` on has the value; `none` if there is none.
  abbrev pub IsFirst : ℕ → ℕ → Option ℕ → Type 0
  IsFirst left j none = (i : ℕ) → j ≤ i → i < j + left → is_wanted i ≡ false
  IsFirst left j (some v) =
      (i : ℕ) × (j ≤ i)
      × (i < j + left)
      × (is_wanted i ≡ true)
      × ((p.symbol_at ((table + i * entsize) % 2 ^ 32)).value ≡ v)
      × ((h : ℕ) → j ≤ h → h < i → is_wanted h ≡ false)

  IsFirst-next :
      (left j : ℕ) (r : Option ℕ)
      → is_wanted j ≡ false
      → IsFirst left (j + 1) r
      → IsFirst (suc left) j r
  IsFirst-next left j none skip h = λ i lo hi. elim (Bool-cases (i == j)) [
    | inl same ↦ ground arith
    | inr other ↦ h i (ground arith) (omega arith)
  ]
  IsFirst-next left j (some v) skip (i, lo, hi, hit, value, first) = (
    i,
    omega arith,
    omega arith,
    hit,
    value,
    λ h p q. elim (Bool-cases (h == j)) [
      | inl same ↦ ground arith
      | inr other ↦ first h (ground arith) q
    ],
  )

  -- The loop over a symbol table finds the first entry of the name that is a function in the text
  -- section, and nothing only where there is none.
  pub find_symbol-IsFirst :
      (left j : ℕ)
      → IsFirst left j (find_symbol p table entsize str_tab text_index function_name left j)
  unfolding find_symbol
  find_symbol-IsFirst zero j = λ i lo hi. absurd (omega arith)
  find_symbol-IsFirst (suc left) j = elim (Bool-cases (is_wanted j)) [
    | inl hit ↦ rw hit (j, omega arith, omega arith, hit, refl, λ h p q. absurd (omega arith))
    | inr miss ↦ rw miss (IsFirst-next left j _ miss (find_symbol-IsFirst left (j + 1)))
  ]
