-- ===== src/Tests/DynLoad.antt =====
-- `PatchDynLoadFunctions` on a loader with both of its tests.
use function_patcher_module.Base.{◌≡◌, ◌==◌, if◌then◌else◌, refl, arith}
use function_patcher_module.Platform.{Memory, in_application_range}
use function_patcher_module.Main.{patch_dyn_load_functions}
use function_patcher_module.Main.DynLoad.{patch_dyn_load_functions_lem}
use function_patcher_module.Tests.Console.{console, console-IsPlatform}

abbrev pub loader : Memory
loader a = if a == 0x02000018 then 0x41820038 else if a == 0x02000458 then 0x41820100 else 0

patch_dyn_load_functions_lem_example :
    ((patch_dyn_load_functions console loader).1 0x02000018 ≡ 0x60000000)
    × ((patch_dyn_load_functions console loader).1 0x02000458 ≡ 0x60000000)
unfolding patch_dyn_load_functions in_application_range
patch_dyn_load_functions_lem_example =
    patch_dyn_load_functions_lem console console-IsPlatform (omega arith) loader (omega arith)
      (omega arith) (omega arith) (omega arith) refl
