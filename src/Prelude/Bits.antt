-- ===== src/Prelude/Bits.antt =====
-- Masking by a row of ones, at every width.
use Prim.Native.Nat.{
  ℕ, zero, suc, ◌+◌, ◌-◌, ◌*◌, ◌/◌, ◌^◌, ◌≤◌, ◌<◌, min, bit_and, digits, bit_and-bitwise,
}
use mathlib.Core.Path.{◌≡◌, refl, ap}
use native.Mathlib.Omega.{arith}

-- A row of ones is a number whose halving keeps it so.
ones : ℕ → ℕ
ones zero = 0
ones (suc k) = 2 * ones k + 1

-- The digits that `bit_and` computes on such a mask are those of the number.
masked_digits : (n k a : ℕ) → a ≤ n → a ≤ ones k → digits (λ _. 0) min n a (ones k) ≡ a
unfolding ones
masked_digits zero k a small fits = omega arith
masked_digits (suc n) k zero small fits = refl
masked_digits (suc n) zero (suc a) small fits = absurd (omega arith)
masked_digits (suc n) (suc k) (suc a) small fits =
    let half : (2 * ones k + 1) / 2 ≡ ones k = omega arith in
    let rest = masked_digits n k (suc a / 2) (omega arith) (omega arith) in
    omega (arith, ap (digits (λ _. 0) min n (suc a / 2)) half, rest)

bit_and-ones : (k a : ℕ) → a ≤ ones k → bit_and a (ones k) ≡ a
bit_and-ones k a fits =
    omega (arith, bit_and-bitwise a (ones k), masked_digits a k a (omega arith) fits)

pub bit_and-u64_max : (a : ℕ) → a < 2 ^ 64 → bit_and a (2 ^ 64 - 1) ≡ a
unfolding ones
bit_and-u64_max a h = bit_and-ones 64 a (omega arith)
