-- ===== src/Base/Bits.antt =====
-- `&` and `|` at variables. Both act block by block, so a mask or a tag becomes a quotient, a
-- remainder or a sum, which the arithmetic tactics read.
mod Digits
use Digits.{bit_and_digit, bit_or_digit}
use Prim.Native.Nat.{
  ℕ, zero, suc, ◌+◌, ◌-◌, ◌*◌, ◌/◌, ◌%◌, ◌^◌, ◌≤◌, ◌<◌, bit_and, bit_or, min, max,
}
use Prim.Native.Nat.{bit_or-bitwise}
use mathlib.Core.Path.{◌≡◌, refl, ap}
use native.Mathlib.Nat.{pow-suc, one-le-pow}
use native.Mathlib.Omega.{arith}

scale : (q k : ℕ) → q * 2 ^ suc k ≡ q * 2 ^ k * 2
scale q k = omega (arith, ap (λ (t : ℕ). q * t) (pow-suc 2 k))

module _ (op f : ℕ → ℕ → ℕ) (none : op 0 0 ≡ 0)
    (digit : (a b : ℕ) → op a b ≡ op (a / 2) (b / 2) * 2 + f (a % 2) (b % 2)) where
  -- The `k` low digits and the digits above them do not meet.
  blocks :
      (k q q' r r' : ℕ)
      → r < 2 ^ k
      → r' < 2 ^ k
      → op (q * 2 ^ k + r) (q' * 2 ^ k + r') ≡ op q q' * 2 ^ k + op r r'
  blocks zero q q' r r' hr hr' = ground (arith, none)
  blocks (suc k) q q' r r' hr hr' = ground (
    arith,
    pow-suc 2 k,
    scale q k,
    scale q' k,
    scale (op q q') k,
    digit (q * 2 ^ suc k + r) (q' * 2 ^ suc k + r'),
    digit r r',
    blocks k q q' (r / 2) (r' / 2),
  )

  split : (k a b : ℕ) → op a b ≡ op (a / 2 ^ k) (b / 2 ^ k) * 2 ^ k + op (a % 2 ^ k) (b % 2 ^ k)
  split k a b =
      ground (arith, one-le-pow k 2, blocks k (a / 2 ^ k) (b / 2 ^ k) (a % 2 ^ k) (b % 2 ^ k))

pub bit_and_split :
    (k a b : ℕ)
    → bit_and a b ≡ bit_and (a / 2 ^ k) (b / 2 ^ k) * 2 ^ k + bit_and (a % 2 ^ k) (b % 2 ^ k)
bit_and_split = split bit_and min refl bit_and_digit

pub bit_or_split :
    (k a b : ℕ)
    → bit_or a b ≡ bit_or (a / 2 ^ k) (b / 2 ^ k) * 2 ^ k + bit_or (a % 2 ^ k) (b % 2 ^ k)
bit_or_split = split bit_or max refl bit_or_digit

and_zero_count : (n a : ℕ) → a ≤ n → bit_and a 0 ≡ 0
and_zero_count n zero h = refl
and_zero_count zero (suc a) h = absurd (omega arith)
and_zero_count (suc n) (suc a) h =
    omega (arith, bit_and_digit (suc a) 0, and_zero_count n (suc a / 2) (omega arith))

pub bit_and-zero : (a : ℕ) → bit_and a 0 ≡ 0
bit_and-zero a = and_zero_count a a (omega arith)

or_zero_count : (n a : ℕ) → a ≤ n → bit_or a 0 ≡ a
or_zero_count n zero h = refl
or_zero_count zero (suc a) h = absurd (omega arith)
or_zero_count (suc n) (suc a) h =
    omega (arith, bit_or_digit (suc a) 0, or_zero_count n (suc a / 2) (omega arith))

pub bit_or-zero : (a : ℕ) → bit_or a 0 ≡ a
bit_or-zero a = or_zero_count a a (omega arith)

pub zero-bit_or : (b : ℕ) → bit_or 0 b ≡ b
zero-bit_or b = simp bit_or-bitwise

-- A mask of ones at the bottom.
ones_count : (k a : ℕ) → a < 2 ^ k → bit_and a (2 ^ k - 1) ≡ a
ones_count zero a h = ground (arith, bit_and-zero a)
ones_count (suc k) a h =
    ground
      (arith, pow-suc 2 k, one-le-pow k 2, bit_and_digit a (2 ^ suc k - 1), ones_count k (a / 2))

-- `a & 0xffff` keeps the low half-word.
pub low_half : (a : ℕ) → bit_and a 0xffff ≡ a % 0x10000
low_half a = omega (
  arith,
  bit_and_split 16 a 0xffff,
  bit_and-zero (a / 2 ^ 16),
  ones_count 16 (a % 2 ^ 16) (omega arith),
)

-- `tag | v` is the sum where the tag is above the low 16 bits and `v` is within them.
pub tagged_half : (q v : ℕ) → v < 2 ^ 16 → bit_or (q * 2 ^ 16) v ≡ q * 2 ^ 16 + v
tagged_half q v h =
    ground (arith, blocks bit_or max refl bit_or_digit 16 q 0 0 v, bit_or-zero q, zero-bit_or v)

-- `x & 0x01fffffc`: a word-aligned offset of 25 bits.
pub offset_mask : (x : ℕ) → bit_and x 0x01fffffc ≡ x / 4 % 2 ^ 23 * 4
offset_mask x = omega (
  arith,
  bit_and_split 25 x 0x01fffffc,
  bit_and-zero (x / 2 ^ 25),
  bit_and_split 2 (x % 2 ^ 25) 0x01fffffc,
  bit_and-zero (x % 2 ^ 25 % 2 ^ 2),
  ones_count 23 (x % 2 ^ 25 / 2 ^ 2) (omega arith),
)

-- `0x48000002 | y` for such an offset.
pub branch_tag : (y : ℕ) → y < 2 ^ 23 → bit_or 0x48000002 (y * 4) ≡ 0x48000002 + y * 4
branch_tag y h =
    let low : y * 4 % 4 ≡ 0 = omega arith in
    let high : y * 4 / 4 ≡ y = omega arith in
    let top : y / 2 ^ 23 ≡ 0 = omega arith in
    let rest : y % 2 ^ 23 ≡ y = omega arith in
    rw
      (
        bit_or_split 2 0x48000002 (y * 4),
        low,
        high,
        bit_or_split 23 0x12000000 y,
        top,
        rest,
        zero-bit_or y,
      )
      (omega arith)

-- `x & 0xfc000003`: the six top and the two bottom bits of a word.
pub opcode_mask : (x : ℕ) → x < 2 ^ 32 → bit_and x 0xfc000003 ≡ x / 2 ^ 26 * 2 ^ 26 + x % 4
opcode_mask x h = omega (
  arith,
  bit_and_split 26 x 0xfc000003,
  ones_count 6 (x / 2 ^ 26) (omega arith),
  bit_and_split 2 (x % 2 ^ 26) 3,
  bit_and-zero (x % 2 ^ 26 / 2 ^ 2),
  ones_count 2 (x % 2 ^ 26 % 2 ^ 2) (omega arith),
)

-- `x & 0x02000000`: the sign bit of a branch offset.
pub sign_mask : (x : ℕ) → bit_and x 0x02000000 ≡ x / 2 ^ 25 % 2 * 2 ^ 25
sign_mask x = omega (
  arith,
  bit_and_split 25 x 0x02000000,
  bit_and_split 1 (x / 2 ^ 25) 1,
  bit_and-zero (x % 2 ^ 25),
  bit_and-zero (x / 2 ^ 25 / 2 ^ 1),
  ones_count 1 (x / 2 ^ 25 % 2 ^ 1) (omega arith),
)
