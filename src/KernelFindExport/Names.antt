-- ===== src/KernelFindExport/Names.antt =====
-- How `KernelFindExport` reads the name of a module.
use function_patcher_module.Base.{
  ◌-◌, true, ◌||◌, ◌++◌, some, ◌≡◌, Text, text, ends_with, take, length, ends_with-append,
  take-stem, arith, if_true, ◌∙◌, ap,
}
use function_patcher_module.Platform.{Platform}
use function_patcher_module.KernelFindExport.{find_export_kernel, kernel_find_export}

cut :
    (p : Platform) (name function_name : Text)
    → (ends_with name (text ".rpx") || ends_with name (text ".rpl")) ≡ true
    → kernel_find_export p name function_name
      ≡ (find_export_kernel p (some (take (length name - 4) name)) (some function_name)).0
unfolding kernel_find_export
cut p name function_name h = if_true _ _ h

-- A module is looked up by its name without the ending ".rpx" or ".rpl".
kernel_find_export-append :
    (p : Platform) (stem function_name : Text)
    → (kernel_find_export p (stem ++ text ".rpx") function_name
        ≡ (find_export_kernel p (some stem) (some function_name)).0)
      × (kernel_find_export p (stem ++ text ".rpl") function_name
          ≡ (find_export_kernel p (some stem) (some function_name)).0)
kernel_find_export-append p stem function_name =
    let by_stem = λ (t : Text). (find_export_kernel p (some t) (some function_name)).0 in
    (
      cut p (stem ++ text ".rpx") function_name
            (ground (arith, ends_with-append stem (text ".rpx")))
          ∙ ap by_stem (take-stem stem (text ".rpx")),
      cut p (stem ++ text ".rpl") function_name
            (ground (arith, ends_with-append stem (text ".rpl")))
          ∙ ap by_stem (take-stem stem (text ".rpl")),
    )
