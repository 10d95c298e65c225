-- ===== src/FunctionAddressProvider/Branch.antt =====
-- The branch that `getEffectiveAddressOfFunction` follows, against the processor's reading of it.
use function_patcher_module.Base.{ℕ, ◌+◌, ◌/◌, ◌%◌, ◌^◌, ◌<◌, ◌&&◌, ◌≡◌, ◌==◌, if◌then◌else◌, arith}
use function_patcher_module.Base.Bits.{opcode_mask, sign_mask, offset_mask}
use function_patcher_module.Ppc.{sign_extend26}
use function_patcher_module.FunctionAddressProvider.{follow_branch}

-- At a relative branch without link the address is that of its target, computed modulo 2 ^ 32 from
-- the signed 26-bit offset; at any other word it is unchanged.
pub follow_branch_lem :
    (address word : ℕ)
    → word < 2 ^ 32
    → address < 2 ^ 32
    → follow_branch address word ≡ (
        if word / 2 ^ 26 == 18 && word % 4 == 0
        then (address + sign_extend26 (word % 2 ^ 26)) % 2 ^ 32
        else address)
unfolding follow_branch
follow_branch_lem address word h h' =
    rw (opcode_mask word h, sign_mask word, offset_mask word) (ground arith)
