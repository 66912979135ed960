-- ===== src/Filter/Numbers.antt =====
-- crates/usbscope-capture/src/filter.rs: `number` and `duration`.
use usbscope.Prelude.{
  Bool-cases, Option-cases, inl, inr, ap, List, [], ◌∷◌, ℕ, ◌+◌, ◌-◌, ◌*◌, ◌^◌, ◌≤◌, ◌≡◌, refl, ◌≢◌,
  Bool, true, ◌&&◌, Option, none, some, arith, ltb, leb, ◌==◌, if◌then◌else◌,
}
use native.Mathlib.Nat.{mul-le-mul}
use usbscope.Prelude.Int.{ℤ, pos, negsuc, neg_ℕ, leb_ℤ}
use usbscope.Prelude.Text.{String, code, strip_0x, strip_suffix}
use usbscope.Prelude.Result.{
  Result, ok, err, invalid_hex_number, invalid_number, number_out_of_range, duration_overflow,
  ◌>>=◌, ◌>>◌, ensure, context, Yields, fails, yields, Yields-bind, Yields-imp,
}

-- char::to_digit in base 10 or 16
unfoldable pub to_digit : ℕ → ℕ → Option ℕ
to_digit base c =
    if leb b'0' c && leb c b'9'
    then some (c - b'0')
    else if base == 16 && leb b'a' c && leb c b'f'
    then some (c - b'a' + 10)
    else if base == 16 && leb b'A' c && leb c b'F'
    then some (c - b'A' + 10)
    else none

unfoldable pub digits : ℕ → ℕ → String → Option ℕ
unfolding to_digit
digits base acc String.[] = some acc
digits base acc (String.◌∷◌ c s) = elim (to_digit base (code c)) [
  | none ↦ none
  | some d ↦ digits base (acc * base + d) s
]

unfoldable pub some_digits : ℕ → String → Option ℕ
unfolding digits
some_digits base String.[] = none
some_digits base (String.◌∷◌ c s) = digits base 0 (String.◌∷◌ c s)

-- uW::from_str_radix, less the test that the number fits the type: a leading plus is accepted.
unfoldable pub unsigned_radix : ℕ → String → Option ℕ
unfolding some_digits
unsigned_radix base String.[] = none
unsigned_radix base (String.◌∷◌ c s) =
    if code c == b'+' then some_digits base s else some_digits base (String.◌∷◌ c s)

-- u64::from_str_radix(hex, 16)
unfoldable pub hex_u64 : String → Option ℕ
unfolding unsigned_radix
hex_u64 s = elim (unsigned_radix 16 s) [
  | none ↦ none
  | some n ↦ if ltb n (2 ^ 64) then some n else none
]

-- str::parse::<i128>
unfoldable pub parse_i128 : String → Option ℤ
unfolding unsigned_radix
parse_i128 String.[] = none
parse_i128 (String.◌∷◌ c s) =
    if code c == b'-'
    then elim (some_digits 10 s) [
      | none ↦ none
      | some n ↦ if leb n (2 ^ 127) then some (neg_ℕ n) else none
    ]
    else elim (unsigned_radix 10 (String.◌∷◌ c s)) [
      | none ↦ none
      | some n ↦ if ltb n (2 ^ 127) then some (pos n) else none
    ]

-- The range from i64::MIN to u64::MAX.
abbrev pub in_number_range : ℤ → Bool
in_number_range v = leb_ℤ (negsuc (2 ^ 63 - 1)) v && leb_ℤ v (pos (2 ^ 64 - 1))

unfoldable pub number : String → Result ℤ
unfolding hex_u64 parse_i128
number text = elim (strip_0x text) [
  | some hex ↦ context (hex_u64 hex) invalid_hex_number >>= λ n. ok (pos n)
  | none ↦ (do
    value ← context (parse_i128 text) invalid_number
    ensure (in_number_range value) number_out_of_range
    ok value)
]

-- v * k
abbrev pub scale : ℤ → ℕ → ℤ
scale (pos n) k = pos (n * k)
scale (negsuc n) k = neg_ℕ ((n + 1) * k)

-- i128::checked_mul, by a positive number
unfoldable pub checked_mul : ℤ → ℕ → Option ℤ
checked_mul v k =
    let product = scale v k in
    if leb_ℤ (negsuc (2 ^ 127 - 1)) product && leb_ℤ product (pos (2 ^ 127 - 1))
    then some product
    else none

unfoldable pub scaled : String → ℕ → Result ℤ
unfolding number checked_mul
scaled text k = number text >>= λ value. context (checked_mul value k) duration_overflow

unfoldable pub duration : String → Result ℤ
unfolding scaled
duration text = elim (strip_suffix "ns" text) [
  | some value ↦ scaled value 1
  | none ↦ elim (strip_suffix "us" text) [
    | some value ↦ scaled value 1000
    | none ↦ elim (strip_suffix "ms" text) [
      | some value ↦ scaled value 1000000
      | none ↦ elim (strip_suffix "s" text) [
        | some value ↦ scaled value 1000000000
        | none ↦ number text
      ]
    ]
  ]
]

-- The unit that a text ends in, as the text before it and its nanoseconds.
abbrev units : List (String × ℕ)
units = ("ns", 1) ∷ ("us", 1000) ∷ ("ms", 1000000) ∷ ("s", 1000000000) ∷ []

unfoldable split_unit : List (String × ℕ) → String → String × ℕ
split_unit [] text = (text, 1)
split_unit ((suffix, factor) ∷ us) text = elim (strip_suffix suffix text) [
  | some before ↦ (before, factor)
  | none ↦ split_unit us text
]

-- What a duration means: the number before the first unit that fits, times its nanoseconds.
unfoldable pub nanoseconds : String → Result ℤ
unfolding split_unit
nanoseconds text = let found = split_unit units text in number found.0 >>= λ v. ok (scale v found.1)

two_ms : duration "2ms" ≡ ok (pos 2000000)
unfolding duration
two_ms = refl

minus : number "-115" ≡ ok (negsuc 114)
unfolding number
minus = refl

hex : number "0xfF" ≡ ok (pos 255)
unfolding number
hex = refl

hex_u64-bound : (s : String) (n : ℕ) → hex_u64 s ≡ some n → n ≤ 2 ^ 64 - 1
unfolding hex_u64
hex_u64-bound s n h = ground arith

checked_mul-Fits :
    (v : ℤ) (k : ℕ) → in_number_range v ≡ true → k ≤ 1000000000 → checked_mul v k ≡ some (scale v k)
unfolding checked_mul
checked_mul-Fits (pos n) k h small =
    let n_small : n ≤ 2 ^ 64 = ground arith in
    let bound : n * k ≤ 2 ^ 64 * 1000000000 = mul-le-mul n_small small in ground arith
checked_mul-Fits (negsuc n) k h small =
    let n_small : n + 1 ≤ 2 ^ 64 = ground arith in
    let bound : (n + 1) * k ≤ 2 ^ 64 * 1000000000 = mul-le-mul n_small small in ground arith

-- Every number that is read is in the range from i64::MIN to u64::MAX.
number-InRange : (text : String) → Yields (λ v. in_number_range v ≡ true) (number text)
unfolding number
number-InRange text = elim (Option-cases (strip_0x text)) [
  | inl e ↦ elim (Option-cases (parse_i128 text)) [
    | inl failed ↦ rw (e, failed, number) (fails refl)
    | inr (v, parsed) ↦ elim (Bool-cases (in_number_range v)) [
      | inl fits ↦ rw (e, parsed, fits, number) (yields fits)
      | inr too_big ↦ rw (e, parsed, too_big, number) (fails refl)
    ]
  ]
  | inr (s, e) ↦ elim (Option-cases (hex_u64 s)) [
    | inl failed ↦ rw (e, failed, number) (fails refl)
    | inr (n, parsed) ↦
        let bound = hex_u64-bound s n parsed in rw (e, parsed, number) (yields (ground arith))
  ]
]

number-ne-overflow : (text : String) → number text ≢ err duration_overflow
unfolding number
number-ne-overflow text h = ground arith

-- A multiplication by the factor of a unit never overflows.
scaled-exact :
    (text : String) (k : ℕ) → k ≤ 1000000000 → scaled text k ≡ (number text >>= λ v. ok (scale v k))
unfolding scaled
scaled-exact text k small = exact (number-InRange text)
  where
    exact :
        {r : Result ℤ}
        → Yields (λ v. in_number_range v ≡ true) r
        → (r >>= λ v. context (checked_mul v k) duration_overflow) ≡ (r >>= λ v. ok (scale v k))
    exact (fails h) = refl
    exact (yields h) = rw (checked_mul-Fits _ k h small) refl

scale_one : (r : Result ℤ) → r ≡ (r >>= λ v. ok (scale v 1))
scale_one (err e) = refl
scale_one (ok (pos n)) = ap (λ m. ok (pos m)) (omega arith)
scale_one (ok (negsuc n)) = ground arith

-- A duration is the number before its unit, in nanoseconds; the test for overflow never fails.
pub duration_lem : (text : String) → duration text ≡ nanoseconds text
unfolding duration nanoseconds
duration_lem text = elim (Option-cases (strip_suffix "ns" text)) [
  | inr (s, ns) ↦ rw (ns, duration, split_unit) (scaled-exact s 1 (omega arith))
  | inl no_ns ↦ elim (Option-cases (strip_suffix "us" text)) [
    | inr (s, us) ↦ rw (no_ns, us, duration, split_unit) (scaled-exact s 1000 (omega arith))
    | inl no_us ↦ elim (Option-cases (strip_suffix "ms" text)) [
      | inr (s, ms) ↦
          rw (no_ns, no_us, ms, duration, split_unit) (scaled-exact s 1000000 (omega arith))
      | inl no_ms ↦ elim (Option-cases (strip_suffix "s" text)) [
        | inr (s, sec) ↦
            rw (no_ns, no_us, no_ms, sec, duration, split_unit)
              (scaled-exact s 1000000000 (omega arith))
        | inl no_s ↦ rw (no_ns, no_us, no_ms, no_s, duration, split_unit) (scale_one (number text))
      ]
    ]
  ]
]

-- Neither reading a number nor a duration panics.
pub number-Yields : (text : String) → Yields (λ _. Unit {0}) (number text)
number-Yields text = Yields-imp (number-InRange text) λ v fits. tt

pub duration-Yields : (text : String) → Yields (λ _. Unit {0}) (duration text)
unfolding nanoseconds
duration-Yields text =
    rw (duration_lem text)
      (Yields-bind (number-Yields (split_unit units text).0) λ v fits. yields tt)
