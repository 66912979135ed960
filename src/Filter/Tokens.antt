-- ===== src/Filter/Tokens.antt =====
-- crates/usbscope-capture/src/filter.rs: `tokenize`. The iterator over the characters is the text
-- that is left; the fuel bounds the rounds of the outer loop, each of which takes a character.
use usbscope.Prelude.{
  Bool-cases, inl, inr, ℕ, zero, suc, ◌≤◌, ◌≡◌, refl, Bool, true, false, ◌&&◌, ◌||◌, not, List, [],
  ◌∷◌, arith, ◌==◌, if◌then◌else◌,
}
use usbscope.Prelude.Text.{String, Char, code, size, has_char, is_whitespace}
use usbscope.Prelude.Result.{
  Result, ok, err, unfinished_quoted_escape, unterminated_quoted_string, out_of_fuel, ◌>>=◌, Yields,
  fails, yields, Yields-bind, Yields-if, Yields-imp,
}

pub record Token : Type 0 where
  pub text : String
  pub quoted : Bool

-- A quoted string up to its closing quote, after a backslash where `escaped`.
unfoldable pub quoted_text : ℕ → Bool → String → Result (String × String)
quoted_text quote escaped String.[] =
    err (if escaped then unfinished_quoted_escape else unterminated_quoted_string)
quoted_text quote escaped (String.◌∷◌ c s) =
    let rest = quoted_text quote (not escaped && code c == b'\\') s in
    if not escaped && code c == quote
    then ok (String.[], s)
    else if not escaped && code c == b'\\'
    then rest
    else (do (text, s') ← rest; ok (String.◌∷◌ c text, s'))

abbrev pub symbols : String
symbols = "()[]:&|!=<>"

-- An operator, with the character behind it where the two make one operator.
unfoldable pub operator : Char → String → String × String
operator c String.[] = (String.◌∷◌ c String.[], String.[])
operator c (String.◌∷◌ d s) =
    if code d == b'=' && has_char (code c) "!=<>" || code d == code c && has_char (code c) "&|"
    then (String.◌∷◌ c (String.◌∷◌ d String.[]), s)
    else (String.◌∷◌ c String.[], String.◌∷◌ d s)

unfoldable pub word : String → String × String
word String.[] = (String.[], String.[])
word (String.◌∷◌ c s) =
    let rest = word s in
    if not (is_whitespace (code c)) && not (has_char (code c) "()[]:&|!=<>\"'")
    then (String.◌∷◌ c rest.0, rest.1)
    else (String.[], String.◌∷◌ c s)

abbrev starting : Char → String × String → String × String
starting c (text, s) = (String.◌∷◌ c text, s)

-- A token that is not quoted.
unfoldable pub plain : Char → String → String × String
plain c s = if has_char (code c) symbols then operator c s else starting c (word s)

unfoldable pub tokens : ℕ → String → Result (List Token)
unfolding is_whitespace quoted_text plain
tokens fuel String.[] = ok []
tokens zero (String.◌∷◌ c s) = err out_of_fuel
tokens (suc fuel) (String.◌∷◌ c s) = elim (is_whitespace (code c)) [
  | true ↦ tokens fuel s
  | false ↦ elim (code c == b'\'' || code c == b'"') [
    | true ↦ (do
      (text, s') ← quoted_text (code c) false s
      rest ← tokens fuel s'
      ok (record { text = text; quoted = true } ∷ rest))
    | false ↦
        let found = plain c s in
        tokens fuel found.1 >>= λ rest. ok (record { text = found.0; quoted = false } ∷ rest)
  ]
]

unfoldable pub tokenize : String → Result (List Token)
tokenize input = tokens (size input) input

-- A text that is left has no more characters than the text it is left of.
abbrev Within : {A : Type 0} → ℕ → A × String → Type 0
Within n (a, s) = size s ≤ n

quoted_text-shortens :
    (quote : ℕ) (escaped : Bool) (s : String)
    → Yields (Within (size s)) (quoted_text quote escaped s)
unfolding quoted_text
quoted_text-shortens quote true String.[] = fails refl
quoted_text-shortens quote false String.[] = fails refl
quoted_text-shortens quote escaped (String.◌∷◌ c s) =
    let shorter = quoted_text-shortens quote (not escaped && code c == b'\\') s in
    Yields-if (not escaped && code c == quote) (yields (omega arith)) (
      Yields-if (not escaped && code c == b'\\')
        (Yields-imp shorter λ found small. omega (arith, small))
        (Yields-bind shorter λ found small. yields (omega (arith, small))))

operator-shortens : (c : Char) (s : String) → size (operator c s).1 ≤ size s
unfolding operator
operator-shortens c String.[] = omega arith
operator-shortens c (String.◌∷◌ d s) = ground arith

word-shortens : (s : String) → size (word s).1 ≤ size s
unfolding word
word-shortens String.[] = omega arith
word-shortens (String.◌∷◌ c s) = ground (arith, word-shortens s)

plain-shortens : (c : Char) (s : String) → size (plain c s).1 ≤ size s
unfolding plain
plain-shortens c s = elim (Bool-cases (has_char (code c) symbols)) [
  | inl e ↦ rw e (operator-shortens c s)
  | inr e ↦ rw e (word-shortens s)
]

tokens-Yields : (fuel : ℕ) (s : String) → size s ≤ fuel → Yields (λ _. Unit {0}) (tokens fuel s)
unfolding tokens
tokens-Yields fuel String.[] enough = yields tt
tokens-Yields zero (String.◌∷◌ c s) enough = absurd (omega arith)
tokens-Yields (suc fuel) (String.◌∷◌ c s) enough = elim (Bool-cases (is_whitespace (code c))) [
  | inl space ↦ rw (space, tokens) (tokens-Yields fuel s (omega arith))
  | inr no_space ↦ elim (Bool-cases (code c == b'\'' || code c == b'"')) [
    | inl e ↦
        rw (no_space, e, tokens)
          (Yields-bind (quoted_text-shortens (code c) false s) λ found small.
            Yields-bind (tokens-Yields fuel found.1 (omega (arith, small))) λ rest done. yields tt)
    | inr e ↦
        let shorter = plain-shortens c s in
        rw (no_space, e, tokens)
          (Yields-bind (tokens-Yields fuel (plain c s).1 (omega (arith, shorter)))
            λ rest done. yields tt)
  ]
]

-- Enough fuel is given: the only errors are those of quoted strings.
pub tokenize-Yields : (input : String) → Yields (λ _. Unit) (tokenize input)
unfolding tokenize
tokenize-Yields input = tokens-Yields (size input) input (omega arith)

-- A text with its quotes and backslashes escaped, a closing quote, and what follows.
unfoldable escape : String → String → String
escape String.[] tail = String.◌∷◌ "\"" tail
escape (String.◌∷◌ c s) tail =
    if code c == b'"' || code c == b'\\'
    then String.◌∷◌ "\\" (String.◌∷◌ c (escape s tail))
    else String.◌∷◌ c (escape s tail)

unfoldable pub quote : String → String
unfolding escape
quote s = String.◌∷◌ "\"" (escape s String.[])

quoted_text-escape : (s tail : String) → quoted_text b'"' false (escape s tail) ≡ ok (s, tail)
unfolding escape quoted_text
quoted_text-escape String.[] tail = refl
quoted_text-escape (String.◌∷◌ c s) tail = ground (arith, quoted_text-escape s tail)

-- A text in double quotes, with its quotes and backslashes escaped, is read as one quoted token
-- that has this text.
pub tokenize-quote :
    (s : String) → tokenize (quote s) ≡ ok (record { text = s; quoted = true } ∷ [])
unfolding tokenize tokens quote is_whitespace
tokenize-quote s = rw (quoted_text-escape s String.[]) refl
