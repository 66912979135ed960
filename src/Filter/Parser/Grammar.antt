-- ===== src/Filter/Parser/Grammar.antt =====
-- crates/usbscope-capture/src/filter.rs: `or`, `and` and `unary` of `Parser`, and `Filter::parse`.
-- The fuel bounds the calls of these methods and the rounds of their loops.
use usbscope.Prelude.{
  ℕ, zero, suc, ◌+◌, ◌-◌, ◌*◌, Bool, true, false, ◌||◌, none, some, List, [], ◌∷◌, length, leb,
  if◌then◌else◌,
}
use usbscope.Prelude.Text.{String, str_eq}
use usbscope.Prelude.Result.{
  Result, ok, err, ◌>>=◌, ◌>>◌, ensure, context, nesting_limit, unexpected_token, out_of_fuel,
  panicked,
}
use usbscope.Filter.Syntax.{Expr, everything, negation}
use usbscope.Filter.Tokens.{Token, tokenize}
use usbscope.Filter.Balance.{balanced}
use usbscope.Filter.Parser.Predicates.{Parser, peek, accept, expect, any_predicate}

-- The parser's limit of nesting.
abbrev pub max_depth : ℕ
max_depth = 128

-- self.accept(a) || self.accept(b)
unfoldable pub accept_either : String → String → Parser → Bool × Parser
unfolding accept
accept_either a b p = let (found, p') = accept a p in if found then (true, p') else accept b p

-- Where a conjunction ends.
unfoldable pub ends_conjunction : Parser → Bool
unfolding peek
ends_conjunction p = elim (peek p) [
  | none ↦ true
  | some t ↦ str_eq t ")" || str_eq t "or" || str_eq t "||"
]

-- The nodes of a loop joined, with the parser's state.
unfoldable pub joined : Bool → List Expr × Parser → Result (Expr × Parser)
unfolding balanced
joined is_and (nodes, p) = context (balanced is_and nodes) panicked >>= λ e. ok (e, p)

unfoldable mutual
  unfolding accept expect any_predicate accept_either ends_conjunction joined

  -- Parser::or
  pub disjunction : ℕ → Parser → Result (Expr × Parser)
  disjunction zero p = err out_of_fuel
  disjunction (suc fuel) p = do
    (first, p₁) ← conjunction fuel p
    found ← more_disjuncts fuel p₁
    joined false (first ∷ found.0, found.1)

  -- The loop of `or`: the nodes after the first.
  pub more_disjuncts : ℕ → Parser → Result (List Expr × Parser)
  more_disjuncts zero p = err out_of_fuel
  more_disjuncts (suc fuel) p =
      let (found, p₁) = accept_either "or" "||" p in
      elim found [
        | false ↦ ok ([], p₁)
        | true ↦ (do
          (node, p₂) ← conjunction fuel p₁
          rest ← more_disjuncts fuel p₂
          ok (node ∷ rest.0, rest.1))
      ]

  -- Parser::and
  pub conjunction : ℕ → Parser → Result (Expr × Parser)
  conjunction zero p = err out_of_fuel
  conjunction (suc fuel) p = do
    (first, p₁) ← unary fuel p
    found ← more_conjuncts fuel p₁
    joined true (first ∷ found.0, found.1)

  -- The loop of `and`: the nodes after the first.
  pub more_conjuncts : ℕ → Parser → Result (List Expr × Parser)
  more_conjuncts zero p = err out_of_fuel
  more_conjuncts (suc fuel) p = elim (ends_conjunction p) [
    | true ↦ ok ([], p)
    | false ↦ (do
      (node, p₂) ← unary fuel (accept_either "and" "&&" p).1
      rest ← more_conjuncts fuel p₂
      ok (node ∷ rest.0, rest.1))
  ]

  -- Parser::unary
  pub unary : ℕ → Parser → Result (Expr × Parser)
  unary zero p = err out_of_fuel
  unary (suc fuel) p = do
    ensure (leb (p.depth + 1) max_depth) nesting_limit
    (node, p₁) ← operand fuel (record p { depth = p.depth + 1 })
    ok (node, record p₁ { depth = p₁.depth - 1 })

  -- The branches of `unary`.
  pub operand : ℕ → Parser → Result (Expr × Parser)
  operand zero p = err out_of_fuel
  operand (suc fuel) p =
      let (negated, p₁) = accept_either "not" "!" p in
      elim negated [
        | true ↦ (do (inner, p₂) ← unary fuel p₁; ok (negation inner, p₂))
        | false ↦
            let (nested, p₂) = accept "(" p₁ in
            elim nested [
              | true ↦ (do (node, p₃) ← disjunction fuel p₂; p₄ ← expect ")" p₃; ok (node, p₄))
              | false ↦ any_predicate p₂
            ]
      ]

-- parser.peek().is_none()
unfoldable pub is_done : Parser → Bool
unfolding peek
is_done p = elim (peek p) [ none ↦ true | some _ ↦ false ]

-- Filter::parse, of tokens
unfoldable pub parse_tokens : List Token → Result Expr
unfolding disjunction is_done
parse_tokens [] = ok everything
parse_tokens (t ∷ ts) = do
  (e, p) ←
      disjunction (4 * length (t ∷ ts) + 4) (record { tokens = t ∷ ts; position = 0; depth = 0 })
  ensure (is_done p) unexpected_token
  ok e

-- Filter::parse
unfoldable pub parse : String → Result Expr
unfolding tokenize parse_tokens
parse source = tokenize source >>= parse_tokens
