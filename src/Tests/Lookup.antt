-- ===== src/Tests/Lookup.antt =====
-- A branch at the head of an import's stub.
use function_patcher_module.Base.{◌≡◌, arith}
use function_patcher_module.FunctionAddressProvider.{follow_branch}
use function_patcher_module.FunctionAddressProvider.Branch.{follow_branch_lem}

-- A branch back by eight bytes.
follow_branch_lem_example : follow_branch 0x02000010 0x4bfffff8 ≡ 0x02000008
follow_branch_lem_example = follow_branch_lem 0x02000010 0x4bfffff8 (omega arith) (omega arith)
