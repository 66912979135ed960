-- ===== src/Filter/Parser/Progress.antt =====
-- crates/usbscope-capture/src/filter.rs: the steps of the parser over tokens only move forward.
use usbscope.Prelude.{
  ℕ, ◌+◌, ◌-◌, ◌≤◌, ◌<◌, ◌≡◌, refl, inl, inr, Option-cases, not, ◌==◌, ◌%◌, true, Option, none,
  some, List, [], ◌∷◌, length, get_elem?, get_elem?-length, arith,
}
use usbscope.Prelude.Int.{ℤ}
use usbscope.Prelude.Text.{String, str_eq, strip_0x, utf8}
use usbscope.Prelude.Result.{
  Error, is_genuine, invalid_hex_byte, pattern_needs_quote_or_hex, hex_pattern_whole_bytes,
  empty_pattern, payload_width_1_2_4_8, invalid_payload_width, payload_offset_fits_u64,
  mask_fits_u64, Yields, fails, yields, Yields-bind, Yields-ensure, Yields-context, Yields-if,
  Yields-imp,
}
use usbscope.Filter.Syntax.{Field}
use usbscope.Filter.Tokens.{Token}
use usbscope.Filter.Numbers.{number-Yields, duration-Yields}
use usbscope.Filter.Parser.Predicates.{
  Parser, peek, take, sees, accept, expect, fits, is_empty, hex_byte, hex_bytes, pattern_bytes,
  take_unsigned, contains_pattern, payload_width, payload_field, mask, comparison_of, comparison,
  named_value, numeric_value, literal, test_of, payload_predicate, named_predicate, any_predicate,
}

-- The tokens that are left.
abbrev pub left : Parser → ℕ
left p = length p.tokens - p.position

-- At least k tokens less are left.
abbrev pub Advances {ℓ} : {A : Type ℓ} → ℕ → Parser → A × Parser → Type 0
Advances k p (_, q) = left q + k ≤ left p

pub take-Advances : (p : Parser) → Yields (Advances 1 p) (take p)
unfolding take
take-Advances p = elim (Option-cases (get_elem? p.tokens p.position)) [
  | inl e ↦ rw (e, take) (fails refl)
  | inr (t, e) ↦
      let inside = get_elem?-length p.tokens p.position t e in
      rw (e, take) (yields (omega (arith, inside)))
]

sees-inside : (text : String) (p : Parser) → sees text p ≡ true → p.position < length p.tokens
unfolding sees
sees-inside text p h = elim (Option-cases (get_elem? p.tokens p.position)) [
  | inl e ↦ absurd (ground (arith, h, e))
  | inr (t, e) ↦ get_elem?-length p.tokens p.position t e
]

pub accept-Advances :
    (text : String) (p : Parser) → (accept text p).0 ≡ true → left (accept text p).1 + 1 ≤ left p
unfolding accept
accept-Advances text p h = ground (arith, sees-inside text p)

pub accept-left : (text : String) (p : Parser) → left (accept text p).1 ≤ left p
unfolding accept
accept-left text p = ground arith

pub expect-Advances : (text : String) (p : Parser) → Yields (λ q. left q ≤ left p) (expect text p)
unfolding expect
expect-Advances text p = Yields-ensure (accept text p).0 _ refl (yields (accept-left text p))

pub take_unsigned-Advances :
    (w : ℕ) (e : Error) (p : Parser)
    → is_genuine e ≡ true
    → Yields (Advances 1 p) (take_unsigned w e p)
unfolding take_unsigned
take_unsigned-Advances w e p g = Yields-bind (take-Advances p) λ taken less.
    Yields-bind (number-Yields taken.0.text)
      λ v _. Yields-bind (Yields-context (fits w v) e g) λ n _. yields less

hex_bytes-Yields : (bs : List ℕ) → Yields (λ _. Unit {0}) (hex_bytes bs)
unfolding hex_bytes
hex_bytes-Yields [] = yields tt
hex_bytes-Yields (a ∷ []) = yields tt
hex_bytes-Yields (a ∷ b ∷ rest) =
    Yields-bind (Yields-context (hex_byte a b) invalid_hex_byte refl)
      λ byte _. Yields-bind (hex_bytes-Yields rest) λ bytes _. yields tt

pattern_bytes-Yields : (t : Token) → Yields (λ _. Unit {0}) (pattern_bytes t)
unfolding pattern_bytes
pattern_bytes-Yields t = Yields-if t.quoted (yields tt) (
    Yields-bind (Yields-context (strip_0x t.text) pattern_needs_quote_or_hex refl) λ hex _.
      Yields-ensure (length (utf8 hex) % 2 == 0) hex_pattern_whole_bytes refl
        (hex_bytes-Yields (utf8 hex)))

contains_pattern-Advances : (p : Parser) → Yields (Advances 1 p) (contains_pattern p)
unfolding contains_pattern
contains_pattern-Advances p = Yields-bind (take-Advances p) λ taken less.
    Yields-bind (pattern_bytes-Yields taken.0)
      λ bytes _. Yields-ensure (not (is_empty bytes)) empty_pattern refl (yields less)

payload_width-Advances : (p : Parser) → Yields (Advances 0 p) (payload_width p)
unfolding payload_width
payload_width-Advances p =
    let on = accept-left ":" p in
    Yields-if (accept ":" p).0
      (Yields-imp (take_unsigned-Advances 8 invalid_payload_width (accept ":" p).1 refl)
        λ found less. omega (arith, less, on))
      (yields (omega (arith, on)))

payload_field-Advances : (p : Parser) → Yields (Advances 0 p) (payload_field p)
unfolding payload_field
payload_field-Advances p = Yields-bind (expect-Advances "[" p) λ p₁ l₁.
    Yields-bind (take_unsigned-Advances 64 payload_offset_fits_u64 p₁ refl) λ offset l₂.
      Yields-bind (payload_width-Advances offset.1) λ size l₃.
        Yields-ensure _ payload_width_1_2_4_8 refl
          (Yields-bind (expect-Advances "]" size.1) λ p₄ l₄. yields (omega (arith, l₁, l₂, l₃, l₄)))

mask-Advances : (p : Parser) → Yields (Advances 0 p) (mask p)
unfolding mask
mask-Advances p =
    let on = accept-left "&" p in
    Yields-if (accept "&" p).0
      (Yields-bind (take_unsigned-Advances 64 mask_fits_u64 (accept "&" p).1 refl)
        λ n less. yields (omega (arith, less, on)))
      (yields (omega (arith, on)))

comparison-Advances : (p : Parser) → Yields (Advances 0 p) (comparison p)
unfolding comparison
comparison-Advances p = elim (Option-cases (peek p)) [
  | inl e ↦ rw (e, comparison) (yields (omega arith))
  | inr (t, e) ↦ elim (Option-cases (comparison_of t)) [
    | inl f ↦ rw (e, f, comparison) (yields (omega arith))
    | inr (c, f) ↦
        rw (e, f, comparison)
          (Yields-bind (take-Advances p) λ taken less. yields (omega (arith, less)))
  ]
]

numeric_value-Yields : (f : Field) (t : String) → Yields (λ _. Unit {0}) (numeric_value f t)
unfolding numeric_value
numeric_value-Yields Field.latency t = duration-Yields t
numeric_value-Yields _ t = number-Yields t

literal-Yields : (f : Field) (t : String) → Yields (λ _. Unit {0}) (literal f t)
unfolding literal
literal-Yields f t = elim (Option-cases (named_value f t)) [
  | inr (v, e) ↦ rw (e, literal) (yields tt)
  | inl e ↦ rw (e, literal) (numeric_value-Yields f t)
]

test_of-Advances : (f : Field) (p : Parser) → Yields (Advances 0 p) (test_of f p)
unfolding test_of
test_of-Advances f p = Yields-bind (mask-Advances p) λ m l₁.
    Yields-bind (comparison-Advances m.1) λ c l₂. Yields-bind (take-Advances c.1) λ taken l₃.
      Yields-bind (literal-Yields f taken.0.text) λ v _. yields (omega (arith, l₁, l₂, l₃))

payload_predicate-Advances : (p : Parser) → Yields (Advances 0 p) (payload_predicate p)
unfolding payload_predicate
payload_predicate-Advances p =
    let on = accept-left "contains" p in
    Yields-if (accept "contains" p).0
      (Yields-imp (contains_pattern-Advances (accept "contains" p).1)
        λ found less. omega (arith, less, on))
      (Yields-bind (payload_field-Advances (accept "contains" p).1) λ field l₁.
        Yields-imp (test_of-Advances field.0 field.1) λ found l₂. omega (arith, l₁, l₂, on))

named_predicate-Advances :
    (o : Option (Field × Option ℤ)) (p : Parser) → Yields (Advances 0 p) (named_predicate o p)
unfolding named_predicate
named_predicate-Advances none p = fails refl
named_predicate-Advances (some (f, none)) p = test_of-Advances f p
named_predicate-Advances (some (f, some v)) p = yields (omega arith)

-- A predicate takes a token at least.
pub any_predicate-Advances : (p : Parser) → Yields (Advances 1 p) (any_predicate p)
unfolding any_predicate
any_predicate-Advances p = Yields-bind (take-Advances p) λ taken l₁.
    Yields-if (str_eq taken.0.text "payload")
      (Yields-imp (payload_predicate-Advances taken.1) λ found l₂. omega (arith, l₁, l₂))
      (Yields-imp (named_predicate-Advances _ taken.1) λ found l₂. omega (arith, l₁, l₂))
