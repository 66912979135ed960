-- ===== src/Prelude/Bytes.antt =====
-- Numbers as little-endian bytes. A byte is a number below 256.
use Prim.Native.Nat.{ℕ, zero, suc, ◌+◌, ◌*◌, ◌/◌, ◌%◌, ◌<◌}
use mathlib.Core.List.{List, [], ◌∷◌}

-- uW::from_le_bytes
abbrev pub from_le : List ℕ → ℕ
from_le [] = 0
from_le (b ∷ bs) = b + 256 * from_le bs

-- uW::to_le_bytes, for w bytes
abbrev pub to_le : ℕ → ℕ → List ℕ
to_le zero n = []
to_le (suc w) n = n % 256 ∷ to_le w (n / 256)

-- uW::from_be_bytes
abbrev pub from_be : ℕ → List ℕ → ℕ
from_be acc [] = acc
from_be acc (b ∷ bs) = from_be (acc * 256 + b) bs

abbrev pub IsByte : ℕ → Type 0
IsByte b = b < 256
