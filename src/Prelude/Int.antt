-- ===== src/Prelude/Int.antt =====
-- Signed integers over the native numbers, under the library's names. `negsuc n` is -(n + 1).
use Prim.Native.Nat.{ℕ, ◌-◌, ◌%◌, ◌^◌}
use mathlib.Core.Bool.{Bool, true, false}
use usbscope.Prelude.Tests.{ltb, leb, ◌==◌, if◌then◌else◌}

pub data ℤ : Type 0 where
  pos : ℕ → ℤ
  negsuc : ℕ → ℤ

-- -n
abbrev pub neg_ℕ : ℕ → ℤ
neg_ℕ n = if n == 0 then pos 0 else negsuc (n - 1)

abbrev pub ltb_ℤ : ℤ → ℤ → Bool
ltb_ℤ (pos a) (pos b) = ltb a b
ltb_ℤ (pos a) (negsuc b) = false
ltb_ℤ (negsuc a) (pos b) = true
ltb_ℤ (negsuc a) (negsuc b) = ltb b a

abbrev pub leb_ℤ : ℤ → ℤ → Bool
leb_ℤ (pos a) (pos b) = leb a b
leb_ℤ (pos a) (negsuc b) = false
leb_ℤ (negsuc a) (pos b) = true
leb_ℤ (negsuc a) (negsuc b) = leb b a

abbrev pub eqb_ℤ : ℤ → ℤ → Bool
eqb_ℤ (pos a) (pos b) = a == b
eqb_ℤ (negsuc a) (negsuc b) = a == b
eqb_ℤ _ _ = false

-- `n as i32` of a u32, `n as i64` of a u64: the number that a w-bit pattern stands for.
abbrev pub signed : ℕ → ℕ → ℤ
signed w n = if ltb n (2 ^ (w - 1)) then pos n else negsuc (2 ^ w - n - 1)

-- `z as uW`: the w-bit pattern of an integer.
abbrev pub unsigned : ℕ → ℤ → ℕ
unsigned w (pos n) = n % 2 ^ w
unsigned w (negsuc n) = 2 ^ w - 1 - n % 2 ^ w
