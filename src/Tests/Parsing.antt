-- ===== src/Tests/Parsing.antt =====
-- Filter texts: their tokens, numbers and expressions.
use usbscope.Prelude.{◌≡◌, refl, arith, true, false, none, some, List, [], ◌∷◌, All}
use usbscope.Prelude.Int.{ℤ, pos, negsuc}
use usbscope.Prelude.Result.{ok, err, Yields, unterminated_quoted_string}
use usbscope.Filter.Syntax.{Predicate, Expr, predicate, contains, conj, disj, negation, eq, gt, ne}
use usbscope.Filter.Syntax
use usbscope.Filter.Tokens
use usbscope.Filter.Numbers
use usbscope.Filter.Tokens.{Token, tokenize, quote, tokenize-quote}
use usbscope.Filter.Numbers.{duration, nanoseconds, duration_lem}
use usbscope.Filter.Balance.{balanced, height, Shallow, Balances, balanced-Balances}
use usbscope.Filter.Parser.Grammar.{parse}
use usbscope.Filter.Parser.Total.{parse-Yields}
use usbscope.Tests.Memory.{bulk_event}

abbrev test_one : Syntax.Field → ℤ → Expr
test_one f v = predicate (record { field = f; mask = none; comparison = eq; value = v })

-- Adjacent predicates imply `and`, which binds tighter than `or`.
reads_precedence :
    parse "in bulk or not ep 0x81"
    ≡ ok (
        disj
          (conj (test_one Syntax.Field.direction (pos 1)) (test_one Syntax.Field.transfer (pos 3)))
          (negation (test_one Syntax.Field.endpoint (pos 129))))
unfolding parse Tokens.tokens Tokens.word Tokens.operator Numbers.number Numbers.to_digit
reads_precedence = refl

reads_pattern :
    parse "status != -115 && payload contains \"a b\""
    ≡ ok (
        conj
          (predicate (record {
            field = Syntax.Field.status;
            mask = none;
            comparison = ne;
            value = negsuc 114;
          }))
          (contains (97 ∷ 32 ∷ 98 ∷ [])))
unfolding parse Tokens.tokens Tokens.word Tokens.operator Numbers.number Numbers.to_digit
reads_pattern = refl

reads_nothing_open : parse "'a" ≡ err unterminated_quoted_string
unfolding parse Tokens.tokens Tokens.word Tokens.operator Numbers.number Numbers.to_digit
reads_nothing_open = refl

-- A sign is accepted as a hexadecimal digit pair's first half.
reads_signed_pair : parse "payload contains 0x+a" ≡ ok (contains (10 ∷ []))
unfolding parse Tokens.tokens Tokens.word Tokens.operator Numbers.number Numbers.to_digit
reads_signed_pair = refl

tokenize-quote_example :
    tokenize (quote "say \"hi\"") ≡ ok (record { text = "say \"hi\""; quoted = true } ∷ [])
tokenize-quote_example = tokenize-quote "say \"hi\""

duration_lem_example : duration "2ms" ≡ nanoseconds "2ms"
duration_lem_example = duration_lem "2ms"

abbrev three : List Expr
three =
    test_one Syntax.Field.bus (pos 2)
    ∷ test_one Syntax.Field.device (pos 3)
    ∷ test_one Syntax.Field.vid (pos 4)
    ∷ []

three-Shallow : All (Shallow 0) three
unfolding height
three-Shallow = (omega arith, (omega arith, (omega arith, tt)))

balanced-Balances_example :
    (e : Expr) × (balanced false three ≡ some e) × Balances bulk_event none false 0 2 three e
balanced-Balances_example =
    balanced-Balances bulk_event none false 0 2 (test_one Syntax.Field.bus (pos 2))
      (test_one Syntax.Field.device (pos 3) ∷ test_one Syntax.Field.vid (pos 4) ∷ []) (omega arith)
      three-Shallow

parse-Yields_example : Yields (λ _. Unit {0}) (parse "bus 1 and (dev 2 or ep 3)")
parse-Yields_example = parse-Yields "bus 1 and (dev 2 or ep 3)"
