-- ===== src/PatchedFunctionData/Original.antt =====
-- The jump to the original, run on the processor of `Ppc`.
use function_patcher_module.Patch.{Patch}
