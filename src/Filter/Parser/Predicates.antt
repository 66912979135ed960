-- ===== src/Filter/Parser/Predicates.antt =====
-- crates/usbscope-capture/src/filter.rs: the state of `Parser`, its steps over tokens, and
-- `predicate`. A method returns its result with the new state; an error ends the parsing, and the
-- state is dropped.
use usbscope.Prelude.{
  ℕ, ◌+◌, ◌*◌, ◌%◌, ◌^◌, Bool, true, false, ◌||◌, not, Option, none, some, List, [], ◌∷◌, length,
  get_elem?, ltb, ◌==◌, if◌then◌else◌,
}
use usbscope.Prelude.Int.{ℤ, pos, negsuc}
use usbscope.Prelude.Text.{String, str_eq, strip_0x, utf8}
use usbscope.Prelude.Result.{
  Result, ok, err, Error, ◌>>=◌, ◌>>◌, ensure, context, unexpected_end_of_filter, expected_token,
  unknown_field, pattern_needs_quote_or_hex, hex_pattern_whole_bytes, invalid_hex_byte,
  empty_pattern, payload_offset_fits_u64, invalid_payload_width, payload_width_1_2_4_8,
  mask_fits_u64,
}
use usbscope.Filter.Syntax.{Field, Compare, eq, ne, lt, le, gt, ge, Expr, predicate, contains}
use usbscope.Filter.Tokens.{Token}
use usbscope.Filter.Numbers.{to_digit, number, duration}

pub record Parser : Type 0 where
  pub tokens : List Token
  pub position : ℕ
  pub depth : ℕ

unfoldable pub peek : Parser → Option String
peek p = elim (get_elem? p.tokens p.position) [ none ↦ none | some t ↦ some t.text ]

unfoldable pub take : Parser → Result (Token × Parser)
take p = context (get_elem? p.tokens p.position) unexpected_end_of_filter >>= λ t.
    ok (t, record p { position = p.position + 1 })

-- self.peek() == Some(text)
unfoldable pub sees : String → Parser → Bool
unfolding peek
sees text p = elim (peek p) [ none ↦ false | some t ↦ str_eq t text ]

unfoldable pub accept : String → Parser → Bool × Parser
unfolding sees
accept text p = if sees text p then (true, record p { position = p.position + 1 }) else (false, p)

unfoldable pub expect : String → Parser → Result Parser
unfolding accept
expect text p = let (found, p') = accept text p in ensure found expected_token >> ok p'

-- u8::from_str_radix(pair, 16): a leading plus is accepted.
unfoldable pub hex_byte : ℕ → ℕ → Option ℕ
hex_byte a b =
    let low = to_digit 16 b in
    if a == b'+' then low else elim (to_digit 16 a) [
      | none ↦ none
      | some high ↦ elim low [ none ↦ none | some digit ↦ some (high * 16 + digit) ]
    ]

-- as_bytes().chunks(2), of an even number of bytes
unfoldable pub hex_bytes : List ℕ → Result (List ℕ)
unfolding hex_byte
hex_bytes (a ∷ b ∷ rest) = do
  byte ← context (hex_byte a b) invalid_hex_byte
  bytes ← hex_bytes rest
  ok (byte ∷ bytes)
hex_bytes _ = ok []

unfoldable pub pattern_bytes : Token → Result (List ℕ)
unfolding hex_bytes
pattern_bytes token = if token.quoted then ok (utf8 token.text) else (do
  hex ← context (strip_0x token.text) pattern_needs_quote_or_hex
  ensure (length (utf8 hex) % 2 == 0) hex_pattern_whole_bytes
  hex_bytes (utf8 hex))

abbrev pub is_empty : List ℕ → Bool
is_empty [] = true
is_empty (_ ∷ _) = false

-- try_into of an i128 to an unsigned type of w bits
abbrev pub fits : ℕ → ℤ → Option ℕ
fits w (pos n) = if ltb n (2 ^ w) then some n else none
fits w (negsuc n) = none

-- The value of the next token, as an unsigned number of w bits.
unfoldable pub take_unsigned : ℕ → Error → Parser → Result (ℕ × Parser)
unfolding take
take_unsigned w e p = do (t, p') ← take p; v ← number t.text; n ← context (fits w v) e; ok (n, p')

unfoldable pub contains_pattern : Parser → Result (Expr × Parser)
unfolding take pattern_bytes
contains_pattern p = do
  (t, p') ← take p
  bytes ← pattern_bytes t
  ensure (not (is_empty bytes)) empty_pattern
  ok (contains bytes, p')

-- The width of a byte extraction, 1 where it is not written.
unfoldable pub payload_width : Parser → Result (ℕ × Parser)
unfolding accept take_unsigned
payload_width p =
    let (found, p') = accept ":" p in
    if found then take_unsigned 8 invalid_payload_width p' else ok (1, p')

unfoldable pub payload_field : Parser → Result (Field × Parser)
unfolding expect take_unsigned payload_width
payload_field p = do
  p₁ ← expect "[" p
  (offset, p₂) ← take_unsigned 64 payload_offset_fits_u64 p₁
  (size, p₃) ← payload_width p₂
  ensure (size == 1 || size == 2 || size == 4 || size == 8) payload_width_1_2_4_8
  p₄ ← expect "]" p₃
  ok (Field.payload offset size, p₄)

unfoldable pub mask : Parser → Result (Option ℕ × Parser)
unfolding accept take_unsigned
mask p =
    let (found, p') = accept "&" p in
    if found
    then (do (n, p₂) ← take_unsigned 64 mask_fits_u64 p'; ok (some n, p₂))
    else ok (none, p')

unfoldable pub comparison_of : String → Option Compare
comparison_of t =
    if str_eq t "=" || str_eq t "=="
    then some eq
    else if str_eq t "!="
    then some ne
    else if str_eq t "<"
    then some lt
    else if str_eq t "<="
    then some le
    else if str_eq t ">"
    then some gt
    else if str_eq t ">="
    then some ge
    else none

unfoldable pub comparison : Parser → Result (Compare × Parser)
unfolding peek comparison_of take
comparison p = elim (peek p) [
  | none ↦ ok (eq, p)
  | some t ↦ elim (comparison_of t) [ none ↦ ok (eq, p) | some c ↦ do (_, p') ← take p; ok (c, p') ]
]

abbrev transfer_name : String → Option ℤ
transfer_name t =
    if str_eq t "iso" || str_eq t "isoc"
    then some (pos 0)
    else if str_eq t "interrupt" || str_eq t "intr"
    then some (pos 1)
    else if str_eq t "control" || str_eq t "ctrl"
    then some (pos 2)
    else if str_eq t "bulk"
    then some (pos 3)
    else none

-- A value that has a name for this field.
unfoldable pub named_value : Field → String → Option ℤ
named_value Field.direction t =
    if str_eq t "in" then some (pos 1) else if str_eq t "out" then some (pos 0) else none
named_value Field.transfer t = transfer_name t
named_value Field.event t =
    if str_eq t "S" || str_eq t "submit"
    then some (pos b'S')
    else if str_eq t "C" || str_eq t "complete"
    then some (pos b'C')
    else if str_eq t "E" || str_eq t "error"
    then some (pos b'E')
    else none
named_value _ t = none

unfoldable pub numeric_value : Field → String → Result ℤ
numeric_value Field.latency t = duration t
numeric_value _ t = number t

unfoldable pub literal : Field → String → Result ℤ
unfolding named_value numeric_value
literal f t = elim (named_value f t) [ some v ↦ ok v | none ↦ numeric_value f t ]

-- What follows the name of a field.
unfoldable pub test_of : Field → Parser → Result (Expr × Parser)
unfolding mask comparison take literal
test_of field p = do
  (m, p₁) ← mask p
  (c, p₂) ← comparison p₁
  (t, p₃) ← take p₂
  v ← literal field t.text
  ok (predicate (record { field = field; mask = m; comparison = c; value = v }), p₃)

-- The fields by name, other than the payload, with the value that a shorthand stands for.
abbrev field_names : List (String × Field × Option ℤ)
field_names =
    ("bus", Field.bus, none)
    ∷ ("dev", Field.device, none)
    ∷ ("device", Field.device, none)
    ∷ ("vid", Field.vid, none)
    ∷ ("pid", Field.pid, none)
    ∷ ("ep", Field.endpoint, none)
    ∷ ("endpoint", Field.endpoint, none)
    ∷ ("epnum", Field.ep_num, none)
    ∷ ("in", Field.direction, some (pos 1))
    ∷ ("out", Field.direction, some (pos 0))
    ∷ ("dir", Field.direction, none)
    ∷ ("direction", Field.direction, none)
    ∷ ("iso", Field.transfer, some (pos 0))
    ∷ ("isoc", Field.transfer, some (pos 0))
    ∷ ("interrupt", Field.transfer, some (pos 1))
    ∷ ("intr", Field.transfer, some (pos 1))
    ∷ ("control", Field.transfer, some (pos 2))
    ∷ ("ctrl", Field.transfer, some (pos 2))
    ∷ ("bulk", Field.transfer, some (pos 3))
    ∷ ("type", Field.transfer, none)
    ∷ ("requested", Field.requested, none)
    ∷ ("actual", Field.actual, none)
    ∷ ("len", Field.length, none)
    ∷ ("length", Field.length, none)
    ∷ ("captured", Field.captured, none)
    ∷ ("frames", Field.frames, none)
    ∷ ("status", Field.status, none)
    ∷ ("event", Field.event, none)
    ∷ ("interval", Field.interval, none)
    ∷ ("start_frame", Field.start_frame, none)
    ∷ ("errors", Field.errors, none)
    ∷ ("urb", Field.urb_id, none)
    ∷ ("setup.request", Field.request, none)
    ∷ ("setup.type", Field.request_type, none)
    ∷ ("setup.value", Field.value, none)
    ∷ ("setup.index", Field.index, none)
    ∷ ("setup.length", Field.setup_length, none)
    ∷ ("latency", Field.latency, none)
    ∷ []

unfoldable pub field_named : List (String × Field × Option ℤ) → String → Option (Field × Option ℤ)
field_named [] name = none
field_named ((n, f, v) ∷ rest) name = if str_eq n name then some (f, v) else field_named rest name

unfoldable pub payload_predicate : Parser → Result (Expr × Parser)
unfolding accept contains_pattern payload_field test_of
payload_predicate p =
    let (found, p') = accept "contains" p in
    if found then contains_pattern p' else (do (f, p₂) ← payload_field p'; test_of f p₂)

unfoldable pub named_predicate : Option (Field × Option ℤ) → Parser → Result (Expr × Parser)
unfolding test_of
named_predicate none p = err unknown_field
named_predicate (some (f, none)) p = test_of f p
named_predicate (some (f, some v)) p =
    ok (predicate (record { field = f; mask = none; comparison = eq; value = v }), p)

-- Parser::predicate
unfoldable pub any_predicate : Parser → Result (Expr × Parser)
unfolding take payload_predicate field_named named_predicate
any_predicate p = do
  (t, p') ← take p
  (if str_eq t.text "payload"
      then payload_predicate p'
      else named_predicate (field_named field_names t.text) p')
