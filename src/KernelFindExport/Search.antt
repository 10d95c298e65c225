-- ===== src/KernelFindExport/Search.antt =====
-- `FindExportKernel` as a whole: which module, which section and which symbol it finds.
use function_patcher_module.Base.{
  ℕ, none, some, List, [], ◌∷◌, ◌++◌, All, ◌≡◌, ◌≢◌, ◌⊎◌, inl, inr, Option, Text, text_eq,
  text_eq-eq, text_eq_self, Bool-cases, refl, sym, ap, if_true, if_false,
}
use mathlib.Core.Path.{subst}
use function_patcher_module.Elf.{LoadedRpl}
use function_patcher_module.Platform.{Platform}
use function_patcher_module.KernelFindExport.{
  text_section, find_in_rpl, find_in_rpls, find_export_kernel,
}
use function_patcher_module.KernelFindExport.Sections.{
  IsLast, is_text, text_section-IsLast, IsFirstTable, find_in_sections-IsFirstTable,
}

module _ (p : Platform) (function_name : Text) where
  -- With `t` for the module's text section, or 0xffffffff where it has none, the value is the one of
  -- the first matching symbol of the first table that has one, or 0 where no table has one.
  abbrev pub IsFound : LoadedRpl → ℕ → Type 0
  IsFound rpl v =
      (t : ℕ) × IsLast (is_text p rpl) rpl.elf_header.shnum 0 0xffffffff t
      × (((v ≡ 0) × IsFirstTable p rpl t function_name rpl.elf_header.shnum 0 none)
          ⊎ IsFirstTable p rpl t function_name rpl.elf_header.shnum 0 (some v))

  abbrev value_or_0 : Option ℕ → ℕ
  value_or_0 o = elim o [ some v ↦ v | none ↦ 0 ]

  found_or_not :
      (rpl : LoadedRpl) (t : ℕ) (o : Option ℕ)
      → IsFirstTable p rpl t function_name rpl.elf_header.shnum 0 o
      → ((value_or_0 o ≡ 0) × IsFirstTable p rpl t function_name rpl.elf_header.shnum 0 none)
        ⊎ IsFirstTable p rpl t function_name rpl.elf_header.shnum 0 (some (value_or_0 o))
  found_or_not rpl t none h = inl (refl, h)
  found_or_not rpl t (some v) h = inr h

  find_in_rpl-IsFound : (rpl : LoadedRpl) → IsFound rpl (find_in_rpl p rpl function_name)
  unfolding find_in_rpl
  find_in_rpl-IsFound rpl =
      let n = rpl.elf_header.shnum in
      let t = text_section p rpl n 0 0xffffffff in
      (
        t,
        text_section-IsLast p rpl n 0 0xffffffff,
        found_or_not rpl t _ (find_in_sections-IsFirstTable p rpl t function_name n 0),
      )

  -- The first loaded module of this name has been searched; where there is none, the value is 0.
  abbrev pub IsFoundIn : List LoadedRpl → Text → ℕ → Type 0
  IsFoundIn rpls name v =
      (All (λ (r : LoadedRpl). r.module_name_buffer ≢ name) rpls × (v ≡ 0))
      ⊎ ((before : List LoadedRpl) × (rpl : LoadedRpl) × (after : List LoadedRpl) × (rpls
            ≡ before ++ rpl ∷ after)
          × All (λ (r : LoadedRpl). r.module_name_buffer ≢ name) before
          × (rpl.module_name_buffer ≡ name)
          × IsFound rpl v)

  IsFoundIn-next :
      (r : LoadedRpl) (rpls : List LoadedRpl) (name : Text) (v : ℕ)
      → r.module_name_buffer ≢ name
      → IsFoundIn rpls name v
      → IsFoundIn (r ∷ rpls) name v
  IsFoundIn-next r rpls name v other (inl (none_named, zero)) = inl ((other, none_named), zero)
  IsFoundIn-next r rpls name v other (inr (before, rpl, after, split, others, named, found)) =
      inr (r ∷ before, rpl, after, ap (λ xs. r ∷ xs) split, (other, others), named, found)

  find_in_rpls-IsFoundIn :
      (rpls : List LoadedRpl) (name : Text)
      → IsFoundIn rpls name (find_in_rpls p rpls name function_name)
  unfolding find_in_rpls
  find_in_rpls-IsFoundIn [] name = inl (tt, refl)
  find_in_rpls-IsFoundIn (r ∷ rpls) name = elim (Bool-cases (text_eq r.module_name_buffer name)) [
    | inl same ↦ inr (
      [],
      r,
      rpls,
      refl,
      tt,
      text_eq-eq r.module_name_buffer name same,
      subst (IsFound r) (sym (if_true _ _ same)) (find_in_rpl-IsFound r),
    )
    | inr differs ↦ subst (IsFoundIn (r ∷ rpls) name) (sym (if_false _ _ differs)) (
        IsFoundIn-next r rpls name _ (λ e. cc (differs, text_eq_self name, e))
          (find_in_rpls-IsFoundIn rpls name))
  ]

  searched :
      (name : Text) (err current : ℕ)
      → p.ram_pid ≡ some (err, current)
      → find_export_kernel p (some name) (some function_name)
        ≡ (find_in_rpls p p.loaded_rpls name function_name, 2 ∷ current ∷ [])
  unfolding find_export_kernel
  searched name err current h =
      ap
        (λ (o : Option (ℕ × ℕ)). elim o [
          | none ↦ (0, [])
          | some (e, c) ↦ (find_in_rpls p p.loaded_rpls name function_name, 2 ∷ c ∷ [])
        ])
        h

  -- Where the kernel names the address space in use, `FindExportKernel` puts that one back after the
  -- loader's, and its result is 0 where no loaded module has the name; otherwise, for the first
  -- module of the name, the value of the first function of the name in the last text section, from
  -- the first symbol table that has one, or 0 where no symbol table has one.
  pub find_export_kernel_lem :
      (name : Text) (err current : ℕ)
      → p.ram_pid ≡ some (err, current)
      → ((find_export_kernel p (some name) (some function_name)).1 ≡ 2 ∷ current ∷ [])
        × IsFoundIn p.loaded_rpls name (find_export_kernel p (some name) (some function_name)).0
  find_export_kernel_lem name err current h =
      let run = searched name err current h in
      (
        ap (λ r. r.1) run,
        subst (IsFoundIn p.loaded_rpls name) (sym (ap (λ r. r.0) run))
            (find_in_rpls-IsFoundIn p.loaded_rpls name),
      )
