-- ===== src/PatchedFunctionData/Address.antt =====
-- `getAddressForExecutable` and `updateFunctionAddresses`. Only an export's stub is read from
-- memory, so the memory is as before.
use function_patcher_module.Base.{
  ℕ, ◌+◌, ◌%◌, ◌^◌, Bool, true, false, Option, none, some, List, [], ◌∷◌, Text, ends_with, ◌==◌,
  if◌then◌else◌,
}
use function_patcher_module.Platform.{
  Platform, LibraryName, NotifyData, Memory, Outcome, done, fatal, ◌>>=◌, no_rpls, no_rpl_info,
  no_function_name, unexpected_type, no_library, bad_physical_address,
}
use function_patcher_module.Patch.{
  FunctionType, by_lib_or_address, executable_by_name, executable_by_address, unlisted, Patch,
  RplHandling,
}
use function_patcher_module.FunctionAddressProvider.{get_effective_address_of_function}
use function_patcher_module.KernelFindExport.{kernel_find_export}

-- The result, the patch and the provider's handles after `updateFunctionAddresses`.
pub record Updated : Type 0 where
  pub result : Bool
  pub patch : Patch
  pub rpl_handles : List RplHandling

-- The loop over the loaded modules: the code address of the first whose name ends so.
unfoldable pub find_rpl : List NotifyData → Text → Option ℕ
find_rpl [] executable_name = none
find_rpl (rpl ∷ rpls) executable_name =
    if ends_with rpl.name executable_name then some rpl.text_addr else find_rpl rpls executable_name

module _ (p : Platform) where
  -- `none` is the result `false`.
  unfoldable pub address_by_offset : Patch → Text → Outcome (Option ℕ)
  unfolding find_rpl
  address_by_offset d executable_name =
      if p.number_of_rpls == 0 then fatal no_rpls else elim (p.rpl_info p.number_of_rpls) [
        | none ↦ fatal no_rpl_info
        | some rpls ↦ elim (find_rpl rpls executable_name) [
          | none ↦ done none
          | some text_addr ↦ done (some ((text_addr + d.text_offset) % 2 ^ 32))
        ]
      ]

  unfoldable pub address_by_name : Text → Option Text → Outcome (Option ℕ)
  address_by_name executable_name none = fatal no_function_name
  address_by_name executable_name (some function_name) =
      let result = kernel_find_export p executable_name function_name in
      done (if result == 0 then none else some result)

  unfoldable pub address_by_type : Patch → Text → FunctionType → Outcome (Option ℕ)
  unfolding address_by_offset address_by_name
  address_by_type d executable_name executable_by_address = address_by_offset d executable_name
  address_by_type d executable_name executable_by_name =
      address_by_name executable_name d.function_name
  address_by_type d executable_name by_lib_or_address = fatal unexpected_type
  address_by_type d executable_name (unlisted n) = fatal unexpected_type

  unfoldable pub get_address_for_executable : Patch → Outcome (Option ℕ)
  unfolding address_by_type
  get_address_for_executable d = elim d.executable_name [
    | none ↦ done none
    | some executable_name ↦ address_by_type d executable_name d.type
  ]

  -- The end of `updateFunctionAddresses`, with the address that was found.
  unfoldable pub set_addresses : Patch → List RplHandling → ℕ → Outcome Updated
  set_addresses d handles address =
      let physical = p.effective_to_physical address in
      if physical == 0
      then fatal bad_physical_address
      else done (record {
        result = true;
        patch = record d {
          real_effective_function_address = address;
          real_physical_function_address = physical;
        };
        rpl_handles = handles;
      })

  unfoldable pub not_updated : Patch → List RplHandling → Outcome Updated
  not_updated d handles = done (record { result = false; patch = d; rpl_handles = handles })

  unfoldable pub update_executable : Patch → List RplHandling → Outcome Updated
  unfolding get_address_for_executable set_addresses not_updated
  update_executable d handles = do
    found ← get_address_for_executable d
    elim found [ none ↦ not_updated d handles | some address ↦ set_addresses d handles address ]

  unfoldable pub update_by_name :
      Memory → Patch → List RplHandling → ℕ → Option Text → Outcome Updated
  unfolding set_addresses not_updated
  update_by_name m d handles library none = fatal no_function_name
  update_by_name m d handles library (some name) =
      let (address, handles') = get_effective_address_of_function p m handles library name in
      if address == 0 then not_updated d handles' else set_addresses d handles' address

  unfoldable pub update_library : Memory → Patch → List RplHandling → Outcome Updated
  unfolding update_by_name
  update_library m d handles = elim d.library [
    | none ↦ fatal no_library
    | some library ↦
        if library == p.library_code LibraryName.library_other
        then done (record { result = true; patch = d; rpl_handles = handles })
        else update_by_name m d handles library d.function_name
  ]

  unfoldable pub update_by_type : Memory → Patch → List RplHandling → FunctionType → Outcome Updated
  unfolding update_executable update_library
  update_by_type m d handles executable_by_name = update_executable d handles
  update_by_type m d handles executable_by_address = update_executable d handles
  update_by_type m d handles by_lib_or_address = update_library m d handles
  update_by_type m d handles (unlisted n) = update_library m d handles

  unfoldable pub update_function_addresses : Memory → Patch → List RplHandling → Outcome Updated
  unfolding update_by_type
  update_function_addresses m d handles = update_by_type m d handles d.type
