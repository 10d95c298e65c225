-- ===== src/PatchedFunctionData/Title.antt =====
-- `shouldBePatched`.
use Prim.Native.Nat.{bit_or}
use function_patcher_module.Base.{
  ℕ, bit_and, Bool, true, false, not, ◌||◌, ◌==◌, ◌!=◌, ltb, if◌then◌else◌, contains,
}
use function_patcher_module.Platform.{Platform, Outcome, done, fatal, no_title_version}
use function_patcher_module.Patch.{
  FunctionType, by_lib_or_address, executable_by_name, executable_by_address, unlisted, Patch,
}

-- Whether the patch is for an executable.
abbrev pub is_executable : FunctionType → Bool
is_executable by_lib_or_address = false
is_executable executable_by_name = true
is_executable executable_by_address = true
is_executable (unlisted n) = false

module _ (p : Platform) where
  -- The result code and the version of the running title, of its update where there is one.
  unfoldable pub query_title : ℕ × ℕ
  query_title =
      let update = p.title_info (bit_or p.title_id 0x0000000e00000000) in
      if bit_and p.title_id 0x0000000f00000000 == 0
      then (if update.0 == 0 then update else p.title_info p.title_id)
      else p.title_info p.title_id

  unfoldable pub should_be_patched : Patch → Outcome Bool
  unfolding query_title
  should_be_patched d =
      if is_executable d.type
      then (if contains d.title_ids p.title_id
          then (let (res, version) = query_title in
              if res != 0
              then fatal no_title_version
              else done (not (ltb version d.title_version_min || ltb d.title_version_max version)))
          else done false)
      else done true
