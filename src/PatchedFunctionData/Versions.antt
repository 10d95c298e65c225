-- ===== src/PatchedFunctionData/Versions.antt =====
-- The two structure versions.
use function_patcher_module.Base.{ℕ, some, List, ◌≡◌, refl}
use function_patcher_module.Platform.{Platform}
use function_patcher_module.Patch.{by_lib_or_address}
use function_patcher_module.PatchedFunctionData.Make.{
  ReplacementDataV2, ReplacementDataV3, ReplaceInRpx, make_shared_v2, make_shared_v3,
}

-- The newer structure that says the same; what it says of an executable does not matter.
abbrev pub upgrade : ReplaceInRpx → ReplacementDataV2 → ReplacementDataV3
upgrade unused x = record {
  type = by_lib_or_address;
  physical_addr = x.physical_addr;
  virtual_addr = x.virtual_addr;
  replace_addr = x.replace_addr;
  replace_call = x.replace_call;
  target_process = x.target_process;
  replace_in_rpl = record { function_name = x.function_name; library = x.library };
  replace_in_rpx = unused;
}

-- A patch of the older structure is the patch of the newer one, on every branch.
pub make_shared_v2-eq-make_shared_v3 :
    (p : Platform) (object : ℕ) (x : ReplacementDataV2) (unused : ReplaceInRpx) (heap_handle : ℕ)
    (heap : List ℕ)
    → make_shared_v2 p object (some x) heap_handle heap
      ≡ make_shared_v3 p object (some (upgrade unused x)) heap_handle heap
unfolding make_shared_v2 make_shared_v3
make_shared_v2-eq-make_shared_v3 p object x unused heap_handle heap = refl
