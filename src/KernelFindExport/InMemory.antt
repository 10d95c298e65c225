-- ===== src/KernelFindExport/InMemory.antt =====
-- source/utils/KernelFindExport.cpp with the loaded modules read from the loader's memory, through
-- `nextLoadedRpl`.
use function_patcher_module.Base.{
  ℕ, zero, suc, ◌+◌, ◌<◌, true, false, Option, none, some, List, [], ◌∷◌, map, ◌==◌, ◌≡◌, ◌≢◌, refl,
  ap, arith, Text, text_eq, length,
}
use function_patcher_module.Elf.Layout.{
  Bytes, section_header_in, symbol_in, text_in, loaded_rpl_in, next_loaded_rpl,
}
use function_patcher_module.Platform.{Platform}
use function_patcher_module.KernelFindExport.{find_in_rpl, find_in_rpls, find_export_kernel}

-- Each address of the list is the `nextLoadedRpl` of the one before, and the last one's is null.
unfoldable pub IsChain : Bytes → ℕ → List ℕ → Type 0
IsChain b head [] = head ≡ 0
IsChain b head (a ∷ rpls) = (head ≡ a) × (a ≢ 0) × IsChain b (next_loaded_rpl b a) rpls

-- A text and the byte 0 after it lie at an address.
unfoldable pub IsTextAt : Bytes → ℕ → Text → Type 0
IsTextAt b a [] = b a ≡ 0
IsTextAt b a (c ∷ t) = (b a ≡ c) × (c ≢ 0) × IsTextAt b (a + 1) t

-- A text is read up to its byte 0, whatever the limit beyond its length.
pub text_in-IsTextAt :
    (b : Bytes) (limit a : ℕ) (t : Text) → length t < limit → IsTextAt b a t → text_in b limit a ≡ t
unfolding text_in IsTextAt
text_in-IsTextAt b zero a t lt h = ground arith
text_in-IsTextAt b (suc limit) a [] lt h = ground (arith, h)
text_in-IsTextAt b (suc limit) a (c ∷ t) lt (first, not_end, rest) =
    let tail = text_in-IsTextAt b limit (a + 1) t (omega arith) rest in
    ground (arith, first, not_end, tail)

module _ (p : Platform) (b : Bytes) (limit : ℕ) where
  -- The kernel's view of memory, in these bytes.
  abbrev pub in_bytes : Platform
  in_bytes = record p {
    text_at = text_in b limit;
    section_header_at = section_header_in b;
    symbol_at = symbol_in b;
  }

  -- The loop from the module at `rpl` on: `none` where the fuel is out.
  unfoldable pub find_from : ℕ → ℕ → Text → Text → Option ℕ
  find_from zero rpl rpl_name function_name = none
  find_from (suc fuel) rpl rpl_name function_name = elim (rpl == 0) [
    | true ↦ some 0
    | false ↦ elim (text_eq (loaded_rpl_in b limit rpl).module_name_buffer rpl_name) [
      | true ↦ some (find_in_rpl in_bytes (loaded_rpl_in b limit rpl) function_name)
      | false ↦ find_from fuel (next_loaded_rpl b rpl) rpl_name function_name
    ]
  ]

  -- `FindExportKernel`, `head` being what KernelGetLoadedRPL(0) returns.
  unfoldable pub find_export_in_memory : ℕ → ℕ → Option Text → Option Text → Option (ℕ × List ℕ)
  find_export_in_memory fuel head none function_name = some (0, [])
  find_export_in_memory fuel head (some rpl_name) none = some (0, [])
  find_export_in_memory fuel head (some rpl_name) (some function_name) = elim p.ram_pid [
    | none ↦ some (0, [])
    | some (err, current) ↦ elim (find_from fuel head rpl_name function_name) [
      | none ↦ none
      | some v ↦ some (v, 2 ∷ current ∷ [])
    ]
  ]

  find_from_lem :
      (rpls : List ℕ) (fuel head : ℕ) (name function_name : Text)
      → IsChain b head rpls
      → length rpls < fuel
      → find_from fuel head name function_name
        ≡ some (find_in_rpls in_bytes (map (loaded_rpl_in b limit) rpls) name function_name)
  unfolding find_from find_in_rpls IsChain
  find_from_lem rpls zero head name function_name chain lt = ground arith
  find_from_lem [] (suc fuel) head name function_name chain lt = ground (arith, chain)
  find_from_lem (a ∷ rpls) (suc fuel) head name function_name (at, not_null, chain) lt =
      let rest = find_from_lem rpls fuel _ name function_name chain (omega arith) in
      ground (arith, at, not_null, rest)

  -- Where the loader's list ends and holds `loaded_rpls`, fuel for one step more than its length is
  -- enough: `FindExportKernel` returns, with the result of the search through `loaded_rpls`.
  pub find_export_in_memory_lem :
      (rpls : List ℕ) (fuel head : ℕ) (rpl_name function_name : Option Text)
      → IsChain b head rpls
      → p.loaded_rpls ≡ map (loaded_rpl_in b limit) rpls
      → length rpls < fuel
      → find_export_in_memory fuel head rpl_name function_name
        ≡ some (find_export_kernel in_bytes rpl_name function_name)
  unfolding find_export_in_memory find_export_kernel
  find_export_in_memory_lem rpls fuel head none function_name chain loaded lt = refl
  find_export_in_memory_lem rpls fuel head (some name) none chain loaded lt = refl
  find_export_in_memory_lem rpls fuel head (some name) (some function_name) chain loaded lt =
      let run = find_from_lem rpls fuel head name function_name chain lt in
      let listed = ap (λ xs. find_in_rpls in_bytes xs name function_name) loaded in
      ground (arith, run, listed)
