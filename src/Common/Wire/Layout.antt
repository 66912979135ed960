-- ===== src/Common/Wire/Layout.antt =====
-- What is published is little-endian on every host.
use mathlib.Core.List.{reverse, reverse-reverse, reverse-append}
use native.Mathlib.Nat.{pow-suc}
use usbscope.Prelude.{
  ℕ, zero, suc, ◌+◌, ◌*◌, ◌/◌, ◌%◌, ◌^◌, ◌<◌, ◌≡◌, refl, ap, sym, subst, ◌∙◌, List, [], ◌∷◌, ◌++◌,
  arith, length, length-append, All, All-append,
}
use usbscope.Prelude.Bytes.{from_le, to_le, IsByte}
use usbscope.Common.Wire.{Endian, little, big, publish}

pub from_le-to_le : (w n : ℕ) → n < 256 ^ w → from_le (to_le w n) ≡ n
from_le-to_le zero n h = omega arith
from_le-to_le (suc w) n h =
    omega (arith, pow-suc 256 w, from_le-to_le w (n / 256) (omega (arith, pow-suc 256 w)))

pub length-to_le : (w n : ℕ) → length (to_le w n) ≡ w
length-to_le zero n = refl
length-to_le (suc w) n = ap suc (length-to_le w (n / 256))

pub to_le-IsByte : (w n : ℕ) → All IsByte (to_le w n)
to_le-IsByte zero n = tt
to_le-IsByte (suc w) n = (omega arith, to_le-IsByte w (n / 256))

to_le-from_le : (bs : List ℕ) → All IsByte bs → to_le (length bs) (from_le bs) ≡ bs
to_le-from_le [] h = refl
to_le-from_le (b ∷ bs) h =
    let digit : (b + 256 * from_le bs) % 256 ≡ b = omega (arith, h.0) in
    let rest : (b + 256 * from_le bs) / 256 ≡ from_le bs = omega (arith, h.0) in
    rw (digit, rest, to_le-from_le bs h.1)

reverse-cons : (b : ℕ) (bs : List ℕ) → reverse (b ∷ bs) ≡ reverse bs ++ (b ∷ [])
reverse-cons b bs = reverse-append (b ∷ []) bs

All-reverse : (bs : List ℕ) → All IsByte bs → All IsByte (reverse bs)
All-reverse [] h = tt
All-reverse (b ∷ bs) h =
    subst (All IsByte) (sym (reverse-cons b bs))
      (All-append IsByte (reverse bs) (b ∷ []) (All-reverse bs h.1) (h.0, tt))

length-reverse : (bs : List ℕ) → length (reverse bs) ≡ length bs
length-reverse [] = refl
length-reverse (b ∷ bs) =
    ap length (reverse-cons b bs)
    ∙ omega (arith, length-append (reverse bs) (b ∷ []), length-reverse bs)

to_le-reverse : (w n : ℕ) → to_le w (from_le (reverse (to_le w n))) ≡ reverse (to_le w n)
to_le-reverse w n =
    let swapped = reverse (to_le w n) in
    let e : length swapped ≡ w = length-reverse (to_le w n) ∙ length-to_le w n in
    subst (λ k. to_le k (from_le swapped) ≡ swapped) e
      (to_le-from_le swapped (All-reverse (to_le w n) (to_le-IsByte w n)))

-- A published scalar is little-endian, whatever the byte order of the host.
pub publish_lem : (host : Endian) (w n : ℕ) → publish host w n ≡ to_le w n
unfolding publish
publish_lem little w n = refl
publish_lem big w n = ap reverse (to_le-reverse w n) ∙ reverse-reverse (to_le w n)
