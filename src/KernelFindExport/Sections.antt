-- ===== src/KernelFindExport/Sections.antt =====
-- The two loops over a module's sections.
use function_patcher_module.Base.{
  ℕ, zero, suc, ◌+◌, ◌/◌, ◌≤◌, ◌<◌, Bool, true, false, ◌&&◌, Option, none, some, ◌≡◌, ◌==◌, ◌!=◌,
  inl, inr, ◌⊎◌, Text, text, text_eq, Bool-cases, arith, refl, ◌∙◌, ==-eq, sym, ap, if◌then◌else◌,
  if_true, if_false,
}
use mathlib.Core.Path.{subst}
use function_patcher_module.Elf.{LoadedRpl}
use function_patcher_module.Platform.{Platform}
use function_patcher_module.KernelFindExport.{
  section_header, section_name, text_section, entry_size, find_in_section, find_in_sections,
}
use function_patcher_module.KernelFindExport.Symbols.{IsFirst, find_symbol-IsFirst}

-- The last index of `left` from `i` on that passes a test, or `found` where there is none.
abbrev pub IsLast : (ℕ → Bool) → ℕ → ℕ → ℕ → ℕ → Type 0
IsLast test left i found r =
    ((r ≡ found) × ((h : ℕ) → i ≤ h → h < i + left → test h ≡ false))
    ⊎ ((i ≤ r)
        × (r < i + left)
        × (test r ≡ true)
        × ((h : ℕ) → r < h → h < i + left → test h ≡ false))

IsLast-hit :
    (test : ℕ → Bool) (left i found r : ℕ)
    → test i ≡ true
    → IsLast test left (i + 1) i r
    → IsLast test (suc left) i found r
IsLast-hit test left i found r hit (inl (same, after)) =
    inr (ground arith, ground arith, rw same hit, λ h lo hi. after h (ground arith) (omega arith))
IsLast-hit test left i found r hit (inr (lo, hi, ok, after)) =
    inr (omega arith, omega arith, ok, λ h lo' hi'. after h lo' (omega arith))

-- An index that is not counted, with those after it.
skipped :
    (test : ℕ → Bool) (i n : ℕ)
    → test i ≡ false
    → ((h : ℕ) → i + 1 ≤ h → h < n → test h ≡ false)
    → (h : ℕ) → i ≤ h
    → h < n
    → test h ≡ false
skipped test i n miss after h lo hi = elim (Bool-cases (h == i)) [
  | inl same ↦ ground arith
  | inr other ↦ after h (ground arith) hi
]

IsLast-miss :
    (test : ℕ → Bool) (left i found r : ℕ)
    → test i ≡ false
    → IsLast test left (i + 1) found r
    → IsLast test (suc left) i found r
IsLast-miss test left i found r miss (inl (same, after)) =
    inl (same, skipped test i (i + suc left) miss (λ h lo hi. after h lo (omega arith)))
IsLast-miss test left i found r miss (inr (lo, hi, ok, after)) =
    inr (omega arith, omega arith, ok, λ h lo' hi'. after h lo' (omega arith))

module _ (p : Platform) (rpl : LoadedRpl) where
  -- The section is loaded, and its name, where sections have names, is ".text".
  abbrev pub is_text : ℕ → Bool
  is_text i =
      (rpl.section_address_buffer i != 0 && rpl.elf_header.shstrndx != 0)
      && text_eq (section_name p rpl i) (text ".text")

  text_section-IsLast_next :
      (left i found : ℕ)
      → text_section p rpl (suc left) i found
        ≡ text_section p rpl left (i + 1) (if is_text i then i else found)
  unfolding text_section
  text_section-IsLast_next left i found = ap (text_section p rpl left (i + 1)) (ground arith)

  pub text_section-IsLast :
      (left i found : ℕ) → IsLast is_text left i found (text_section p rpl left i found)
  unfolding text_section
  text_section-IsLast zero i found = inl (refl, λ h lo hi. absurd (omega arith))
  text_section-IsLast (suc left) i found = elim (Bool-cases (is_text i)) [
    | inl hit ↦
        subst (IsLast is_text (suc left) i found)
          (sym (
            text_section-IsLast_next left i found
            ∙ ap (text_section p rpl left (i + 1)) (if_true _ _ hit)))
          (IsLast-hit is_text left i found _ hit (text_section-IsLast left (i + 1) i))
    | inr miss ↦
        subst (IsLast is_text (suc left) i found)
          (sym (
            text_section-IsLast_next left i found
            ∙ ap (text_section p rpl left (i + 1)) (if_false _ _ miss)))
          (IsLast-miss is_text left i found _ miss (text_section-IsLast left (i + 1) found))
  ]

  -- The section is loaded and a symbol table.
  abbrev pub is_table : ℕ → Bool
  is_table i = rpl.section_address_buffer i != 0 && (section_header p rpl i).type == p.sht_symtab

  module _ (text_index : ℕ) (function_name : Text) where
    -- What the search of this section's entries finds.
    abbrev pub IsFirstOf : ℕ → Option ℕ → Type 0
    IsFirstOf i r =
        let h = section_header p rpl i in
        IsFirst p (rpl.section_address_buffer i) (entry_size p h)
          (rpl.section_address_buffer h.link) text_index function_name (h.size / entry_size p h) 0 r

    -- A symbol table here has no such entry.
    abbrev IsPassed : ℕ → Type 0
    IsPassed i = is_table i ≡ true → IsFirstOf i none

    -- The first symbol table that has the function, among `left` sections from `i` on.
    abbrev pub IsFirstTable : ℕ → ℕ → Option ℕ → Type 0
    IsFirstTable left i none = (h : ℕ) → i ≤ h → h < i + left → IsPassed h
    IsFirstTable left i (some v) =
        (t : ℕ) × (i ≤ t)
        × (t < i + left)
        × (is_table t ≡ true)
        × IsFirstOf t (some v)
        × ((h : ℕ) → i ≤ h → h < t → IsPassed h)

    IsFirstTable-skip :
        (left i : ℕ) (r : Option ℕ)
        → IsPassed i
        → IsFirstTable left (i + 1) r
        → IsFirstTable (suc left) i r
    IsFirstTable-skip left i none miss h = λ t lo hi ok. elim (Bool-cases (t == i)) [
      | inl same ↦ subst IsPassed (sym (==-eq t i same)) miss ok
      | inr other ↦ h t (ground arith) (omega arith) ok
    ]
    IsFirstTable-skip left i (some v) miss (t, lo, hi, ok, value, first) = (
      t,
      omega arith,
      omega arith,
      ok,
      value,
      λ h p q ok'. elim (Bool-cases (h == i)) [
        | inl same ↦ subst IsPassed (sym (==-eq h i same)) miss ok'
        | inr other ↦ first h (ground arith) q ok'
      ],
    )

    first_found :
        (left i : ℕ) (o r : Option ℕ)
        → is_table i ≡ true
        → IsFirstOf i o
        → IsFirstTable left (i + 1) r
        → IsFirstTable (suc left) i (elim o [ some v ↦ some v | none ↦ r ])
    first_found left i none r hit here rest = IsFirstTable-skip left i r (λ ok. here) rest
    first_found left i (some v) r hit here rest =
        (i, omega arith, omega arith, hit, here, λ h lo hi. absurd (omega arith))

    find_in_sections-skip :
        (left i : ℕ)
        → is_table i ≡ false
        → find_in_sections p rpl text_index function_name (suc left) i
          ≡ find_in_sections p rpl text_index function_name left (i + 1)
    unfolding find_in_sections
    find_in_sections-skip left i miss = elim (Bool-cases (rpl.section_address_buffer i == 0)) [
      | inl unloaded ↦ if_true _ _ unloaded
      | inr loaded ↦
          if_false _ _ loaded
          ∙ if_false {b = (section_header p rpl i).type == p.sht_symtab} _ _ (ground arith)
    ]

    find_in_sections-table :
        (left i : ℕ)
        → is_table i ≡ true
        → find_in_sections p rpl text_index function_name (suc left) i
          ≡ (elim (find_in_section p rpl text_index function_name i) [
            | some v ↦ some v
            | none ↦ find_in_sections p rpl text_index function_name left (i + 1)
          ])
    unfolding find_in_sections
    find_in_sections-table left i hit =
        if_false {b = rpl.section_address_buffer i == 0} _ _ (ground arith)
        ∙ if_true {b = (section_header p rpl i).type == p.sht_symtab} _ _ (ground arith)

    pub find_in_sections-IsFirstTable :
        (left i : ℕ) → IsFirstTable left i (find_in_sections p rpl text_index function_name left i)
    unfolding find_in_sections
    find_in_sections-IsFirstTable zero i = λ h lo hi. absurd (omega arith)
    find_in_sections-IsFirstTable (suc left) i = elim (Bool-cases (is_table i)) [
      | inl hit ↦
          let h = section_header p rpl i in
          let here : IsFirstOf i (find_in_section p rpl text_index function_name i) =
            find_symbol-IsFirst p (rpl.section_address_buffer i) (entry_size p h)
              (rpl.section_address_buffer h.link) text_index function_name (h.size / entry_size p h)
              0 in
          subst (IsFirstTable (suc left) i) (sym (find_in_sections-table left i hit))
            (first_found left i _ _ hit here (find_in_sections-IsFirstTable left (i + 1)))
      | inr miss ↦
          subst (IsFirstTable (suc left) i) (sym (find_in_sections-skip left i miss))
            (IsFirstTable-skip left i _ (λ ok. cc) (find_in_sections-IsFirstTable left (i + 1)))
    ]
