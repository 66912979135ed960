-- ===== src/Capture/Pcapng/Total.antt =====
-- crates/usbscope-capture/src/pcapng_read.rs: the reading of each block ends, and consumes input.
use usbscope.Prelude.{
  ℕ, zero, suc, ◌+◌, ◌-◌, ◌<◌, ◌≤◌, ◌≡◌, refl, arith, true, false, Bool, Bool-cases, inl, inr, List,
  [], ◌∷◌, length, leb, leb→le, ltb, ◌==◌, min, length-take, length-drop, get_or,
}
use usbscope.Prelude.Result.{
  Error, is_genuine, ok, context, Yields, yields, fails, Yields-bind, Yields-ensure, Yields-if,
  Yields-context, Yields-imp, ◌>>=◌, Result,
}
use usbscope.Common.Wire.{Endian}
use usbscope.Capture.Archive.{read_exact}
use usbscope.Capture.Reassembler.State.{same_bytes}
use usbscope.Capture.Pcapng.Reader.{
  Reader, Interface, OptionsRead, endian_u16, skip, footer, byte_order, read_section, apply_option,
  next_option, read_option, read_options, read_interface, timestamp_units,
}

-- What a read of n bytes gives of an input.
pub record Splits (n : ℕ) (input : List ℕ) (found : List ℕ × List ℕ) : Type 0 where
  pub size : length found.0 ≡ n
  pub rest : length found.1 + n ≡ length input

pub read_exact-Splits :
    (n : ℕ) (input : List ℕ) (e : Error)
    → is_genuine e ≡ true
    → Yields (Splits n input) (context (read_exact n input) e)
unfolding read_exact
read_exact-Splits n input e g = elim (Bool-cases (leb n (length input))) [
  | inl h ↦
      let k = leb→le n (length input) h in
      rw h (
        yields record {
          size = omega (arith, length-take n input, k);
          rest = omega (arith, length-drop n input, k);
        })
  | inr h ↦ rw h (fails g)
]

pub skip-Yields :
    (count : ℕ) (input : List ℕ)
    → Yields (λ rest. length rest + count ≡ length input) (skip count input)
unfolding skip
skip-Yields count input = elim (Bool-cases (min count (length input) == count)) [
  | inl h ↦
      let k : count ≤ length input = ground arith in
      rw h (yields (omega (arith, length-drop count input, k)))
  | inr h ↦ rw h (fails refl)
]

pub footer-Yields :
    (e : Endian) (size : ℕ) (input : List ℕ)
    → Yields (λ rest. length rest ≤ length input) (footer e size input)
unfolding footer
footer-Yields e size input =
    Yields-bind (read_exact-Splits 4 input _ refl)
      λ found s. Yields-ensure _ _ refl (yields (omega (arith, s.rest)))

-- A reader that has no more input than this.
unfoldable pub Consumed : ℕ → Reader → Type 0
Consumed n r = length r.input ≤ n

pub skip-footer-Yields :
    (e : Endian) (count size : ℕ) (input : List ℕ) (r : List ℕ → Reader)
    → ((rest : List ℕ) → length (r rest).input ≡ length rest)
    → Yields
        (Consumed (length input))
        (skip count input >>= λ rest. footer e size rest >>= λ rest. ok (r rest))
unfolding Consumed
skip-footer-Yields e count size input r same = Yields-bind (skip-Yields count input) λ rest s.
    Yields-bind (footer-Yields e size rest) λ rest' t. yields (omega (arith, s, t, same rest'))

byte_order-Yields : (magic : List ℕ) → Yields (λ _. Unit {0}) (byte_order magic)
unfolding byte_order
byte_order-Yields magic =
    Yields-if (same_bytes magic (77 ∷ 60 ∷ 43 ∷ 26 ∷ [])) (yields tt)
      (Yields-if (same_bytes magic (26 ∷ 43 ∷ 60 ∷ 77 ∷ [])) (yields tt) (fails refl))

pub read_section-Yields :
    (r : Reader) (header input : List ℕ)
    → Yields (Consumed (length input)) (read_section r header input)
unfolding read_section Consumed
read_section-Yields r header input = Yields-bind (read_exact-Splits 4 input _ refl) λ magic s.
    Yields-bind (byte_order-Yields magic.0) λ e u. Yields-ensure _ _ refl (
      Yields-bind (read_exact-Splits 4 magic.1 _ refl) λ version t. Yields-ensure _ _ refl (
        Yields-imp (skip-footer-Yields e _ _ version.1 _ (λ rest. refl))
          λ r' c. omega (arith, c, s.rest, t.rest)))

apply_option-Yields :
    (e : Endian) (code : ℕ) (value : List ℕ) (i : Interface)
    → Yields (λ _. Unit {0}) (apply_option e code value i)
unfolding apply_option
apply_option-Yields e code value i =
    Yields-if (code == 9)
      (Yields-ensure (length value == 1) _ refl
        (Yields-bind (Yields-context (timestamp_units (get_or value 0 0)) _ refl) λ u t. yields tt))
      (Yields-if (code == 14) (Yields-ensure _ _ refl (yields tt))
        (Yields-if (code == 0) (Yields-ensure _ _ refl (yields tt)) (yields tt)))

Rests : List ℕ → OptionsRead → Type 0
Rests input found = length found.2 ≤ length input

-- An option takes at least four of the bytes that remain.
record Shortens (remaining : ℕ) (input : List ℕ) (found : Bool × OptionsRead) : Type 0 where
  pub remains : found.1.1 ≤ remaining - 4
  pub rests : Rests input found.1

read_option-Shortens :
    (e : Endian) (i : Interface) (remaining : ℕ) (input : List ℕ)
    → Yields (Shortens remaining input) (read_option e i remaining input)
unfolding read_option Rests
read_option-Shortens e i remaining input =
    Yields-bind (read_exact-Splits 4 input _ refl) λ option s. Yields-ensure _ _ refl (
      Yields-bind (read_exact-Splits _ option.1 _ refl) λ value t.
        Yields-bind (skip-Yields _ value.1) λ rest u.
          Yields-bind (apply_option-Yields e (endian_u16 e option.0) value.0 i) λ applied v.
            yields record { remains = omega arith; rests = omega (arith, s.rest, t.rest, u) })

next_option-Rests :
    (more : Interface → ℕ → List ℕ → Result OptionsRead) (remaining : ℕ) (input : List ℕ)
    (found : Bool × OptionsRead)
    → Shortens remaining input found
    → ((i : Interface) (left : ℕ) (rest : List ℕ)
        → left ≤ remaining - 4
        → Yields (Rests rest) (more i left rest))
    → Yields (Rests input) (next_option more found)
unfolding Rests
next_option-Rests more remaining input (true, found) s h = yields s.rests
next_option-Rests more remaining input (false, (i, left, rest)) s h =
    Yields-imp (h i left rest s.remains) λ found k. omega (arith, k, s.rests)

read_options-Rests :
    (e : Endian) (fuel : ℕ) (i : Interface) (remaining : ℕ) (input : List ℕ)
    → remaining < fuel
    → Yields (Rests input) (read_options e fuel i remaining input)
unfolding read_options Rests
read_options-Rests e zero i remaining input h = absurd (omega (arith, h))
read_options-Rests e (suc fuel) i remaining input h = elim (Bool-cases (ltb remaining 4)) [
  | inl small ↦ rw small (yields (omega arith))
  | inr large ↦
      let four : 4 ≤ remaining = ground (arith, large) in
      rw large (
        Yields-bind (read_option-Shortens e i remaining input) λ found s.
          next_option-Rests (read_options e fuel) remaining input found s
            λ j left rest k. read_options-Rests e fuel j left rest (omega (arith, h, four, k)))
]

pub read_interface-Yields :
    (r : Reader) (size : ℕ) (input : List ℕ)
    → Yields (Consumed (length input)) (read_interface r size input)
unfolding read_interface Consumed Rests
read_interface-Yields r size input = Yields-ensure (leb 20 size) _ refl (
    Yields-bind (read_exact-Splits 8 input _ refl) λ body s.
      Yields-bind (read_options-Rests r.endian (suc (size - 20)) _ (size - 20) body.1 (omega arith))
        λ found t. Yields-bind (skip-Yields found.1 found.2) λ rest u. Yields-ensure _ _ refl (
          Yields-bind (footer-Yields r.endian size rest)
            λ rest' v. yields (omega (arith, s.rest, t, u, v))))
