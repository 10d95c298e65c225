-- ===== src/Base/Bits/Digits.antt =====
-- The law of the lowest digit, from the recursion that the native operations stand for.
use Prim.Native.Nat.{
  ℕ, zero, suc, ◌+◌, ◌*◌, ◌/◌, ◌%◌, ◌≤◌, bit_and, bit_or, min, max, digits, bit_and-bitwise,
  bit_or-bitwise,
}
use mathlib.Core.Path.{◌≡◌, refl}
use native.Mathlib.Omega.{arith}

module _ (rest : ℕ → ℕ) (f : ℕ → ℕ → ℕ) where
  -- Once the count reaches the first number, a greater count changes nothing.
  spare_count : (n m a b : ℕ) → a ≤ n → a ≤ m → digits rest f n a b ≡ digits rest f m a b
  spare_count (suc n) (suc m) (suc a) b enough enough' =
      rw (spare_count n m (suc a / 2) (b / 2) (omega arith) (omega arith))
  spare_count (suc n) (suc m) zero b enough enough' = refl
  spare_count (suc n) zero zero b enough enough' = refl
  spare_count zero (suc m) zero b enough enough' = refl
  spare_count zero zero a b enough enough' = refl
  spare_count zero (suc m) (suc a) b enough enough' = absurd (omega arith)
  spare_count (suc n) zero (suc a) b enough enough' = absurd (omega arith)

pub bit_and_digit : (a b : ℕ) → bit_and a b ≡ bit_and (a / 2) (b / 2) * 2 + min (a % 2) (b % 2)
bit_and_digit zero b = simp bit_and-bitwise (omega arith)
bit_and_digit (suc a) b =
    simp bit_and-bitwise
      (rw (spare_count (λ b. 0) min a (suc a / 2) (suc a / 2) (b / 2) (omega arith) (omega arith)))

pub bit_or_digit : (a b : ℕ) → bit_or a b ≡ bit_or (a / 2) (b / 2) * 2 + max (a % 2) (b % 2)
bit_or_digit zero b = simp bit_or-bitwise (omega arith)
bit_or_digit (suc a) b =
    simp bit_or-bitwise
      (rw (spare_count (λ b. b) max a (suc a / 2) (suc a / 2) (b / 2) (omega arith) (omega arith)))
