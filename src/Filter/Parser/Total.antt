-- ===== src/Filter/Parser/Total.antt =====
-- crates/usbscope-capture/src/filter.rs: `Filter::parse` ends, without a panic, on every text.
use usbscope.Prelude.{
  ℕ, zero, suc, ◌+◌, ◌*◌, ◌≤◌, ◌≡◌, refl, inl, inr, Bool-cases, Bool, true, false, List, [], ◌∷◌,
  leb, arith,
}
use usbscope.Prelude.Text.{String}
use usbscope.Prelude.Result.{
  nesting_limit, unexpected_token, Yields, yields, Yields-bind, Yields-ensure, Yields-imp,
}
use usbscope.Filter.Syntax.{Expr}
use usbscope.Filter.Tokens.{Token, tokenize-Yields}
use usbscope.Filter.Balance.{balanced_total}
use usbscope.Filter.Parser.Predicates.{Parser, accept}
use usbscope.Filter.Parser.Progress.{
  left, Advances, accept-Advances, accept-left, expect-Advances, any_predicate-Advances,
}
use usbscope.Filter.Parser.Grammar.{
  max_depth, accept_either, ends_conjunction, joined, disjunction, more_disjuncts, conjunction,
  more_conjuncts, unary, operand, is_done, parse_tokens, parse,
}

accept_either-left : (a b : String) (p : Parser) → left (accept_either a b p).1 ≤ left p
unfolding accept_either
accept_either-left a b p = elim (Bool-cases (accept a p).0) [
  | inl e ↦ rw e (accept-left a p)
  | inr e ↦ rw e (accept-left b p)
]

accept_either-Advances :
    (a b : String) (p : Parser)
    → (accept_either a b p).0 ≡ true
    → left (accept_either a b p).1 + 1 ≤ left p
unfolding accept_either
accept_either-Advances a b p h = elim (Bool-cases (accept a p).0) [
  | inl e ↦ rw e (accept-Advances a p e)
  | inr e ↦ rw e (accept-Advances b p (ground (arith, e, h)))
]

joined-Advances :
    (is_and : Bool) (n : Expr) (ns : List Expr) (p q : Parser)
    → left q + 1 ≤ left p
    → Yields (Advances 1 p) (joined is_and (n ∷ ns, q))
unfolding joined
joined-Advances is_and n ns p q less =
    let (e, found) = balanced_total is_and n ns in rw found (yields less)

mutual
  unfolding disjunction

  disjunction-Advances :
      (fuel : ℕ) (p : Parser) → 4 * left p + 4 ≤ fuel → Yields (Advances 1 p) (disjunction fuel p)
  disjunction-Advances zero p enough = absurd (omega arith)
  disjunction-Advances (suc fuel) p enough =
      Yields-bind (conjunction-Advances fuel p (omega arith)) λ first l₁.
        Yields-bind (more_disjuncts-Advances fuel first.1 (omega (arith, l₁)))
          λ found l₂. joined-Advances false first.0 found.0 p found.1 (omega (arith, l₁, l₂))

  more_disjuncts-Advances :
      (fuel : ℕ) (p : Parser)
      → 4 * left p + 1 ≤ fuel
      → Yields (Advances 0 p) (more_disjuncts fuel p)
  more_disjuncts-Advances zero p enough = absurd (omega arith)
  more_disjuncts-Advances (suc fuel) p enough = elim (Bool-cases (accept_either "or" "||" p).0) [
    | inr e ↦
        let on = accept_either-left "or" "||" p in
        rw (e, more_disjuncts) (yields (omega (arith, on)))
    | inl e ↦
        let on = accept_either-Advances "or" "||" p e in
        let p₁ = (accept_either "or" "||" p).1 in
        rw (e, more_disjuncts)
          (Yields-bind (conjunction-Advances fuel p₁ (omega (arith, on))) λ node l₁.
            Yields-bind (more_disjuncts-Advances fuel node.1 (omega (arith, on, l₁)))
              λ rest l₂. yields (omega (arith, on, l₁, l₂)))
  ]

  conjunction-Advances :
      (fuel : ℕ) (p : Parser) → 4 * left p + 3 ≤ fuel → Yields (Advances 1 p) (conjunction fuel p)
  conjunction-Advances zero p enough = absurd (omega arith)
  conjunction-Advances (suc fuel) p enough =
      Yields-bind (unary-Advances fuel p (omega arith)) λ first l₁.
        Yields-bind (more_conjuncts-Advances fuel first.1 (omega (arith, l₁)))
          λ found l₂. joined-Advances true first.0 found.0 p found.1 (omega (arith, l₁, l₂))

  more_conjuncts-Advances :
      (fuel : ℕ) (p : Parser)
      → 4 * left p + 3 ≤ fuel
      → Yields (Advances 0 p) (more_conjuncts fuel p)
  more_conjuncts-Advances zero p enough = absurd (omega arith)
  more_conjuncts-Advances (suc fuel) p enough = elim (Bool-cases (ends_conjunction p)) [
    | inl e ↦ rw (e, more_conjuncts) (yields (omega arith))
    | inr e ↦
        let on = accept_either-left "and" "&&" p in
        let p₁ = (accept_either "and" "&&" p).1 in
        rw (e, more_conjuncts)
          (Yields-bind (unary-Advances fuel p₁ (omega (arith, on))) λ node l₁.
            Yields-bind (more_conjuncts-Advances fuel node.1 (omega (arith, on, l₁)))
              λ rest l₂. yields (omega (arith, on, l₁, l₂)))
  ]

  unary-Advances :
      (fuel : ℕ) (p : Parser) → 4 * left p + 2 ≤ fuel → Yields (Advances 1 p) (unary fuel p)
  unary-Advances zero p enough = absurd (omega arith)
  unary-Advances (suc fuel) p enough =
      Yields-ensure (leb (p.depth + 1) max_depth) nesting_limit refl (
        Yields-bind (operand-Advances fuel (record p { depth = p.depth + 1 }) (omega arith))
          λ node less. yields less)

  operand-Advances :
      (fuel : ℕ) (p : Parser) → 4 * left p + 1 ≤ fuel → Yields (Advances 1 p) (operand fuel p)
  operand-Advances zero p enough = absurd (omega arith)
  operand-Advances (suc fuel) p enough =
      let p₁ = (accept_either "not" "!" p).1 in
      elim (Bool-cases (accept_either "not" "!" p).0) [
        | inl e ↦
            let on = accept_either-Advances "not" "!" p e in
            rw (e, operand)
              (Yields-bind (unary-Advances fuel p₁ (omega (arith, on)))
                λ inner l₁. yields (omega (arith, on, l₁)))
        | inr e ↦
            let on = accept_either-left "not" "!" p in
            elim (Bool-cases (accept "(" p₁).0) [
              | inl f ↦
                  let inside = accept-Advances "(" p₁ f in
                  rw (e, f, operand)
                    (Yields-bind
                      (disjunction-Advances fuel (accept "(" p₁).1 (omega (arith, on, inside)))
                      λ node l₁.
                        Yields-bind (expect-Advances ")" node.1)
                          λ p₄ l₂. yields (omega (arith, on, inside, l₁, l₂)))
              | inr f ↦
                  let inside = accept-left "(" p₁ in
                  rw (e, f, operand)
                    (Yields-imp (any_predicate-Advances (accept "(" p₁).1)
                      λ found less. omega (arith, on, inside, less))
            ]
      ]

abbrev start : List Token → Parser
start ts = record { tokens = ts; position = 0; depth = 0 }

parse_tokens-Yields : (ts : List Token) → Yields (λ _. Unit {0}) (parse_tokens ts)
unfolding parse_tokens
parse_tokens-Yields [] = yields tt
parse_tokens-Yields (t ∷ ts) =
    Yields-bind (disjunction-Advances _ (start (t ∷ ts)) (omega arith))
      λ found less. Yields-ensure (is_done found.1) unexpected_token refl (yields tt)

-- Filter::parse ends on every text, with an expression or an error of its own: the fuel that the
-- model gives to the tokenizer and to the parser is never used up, and joining nodes never panics.
pub parse-Yields : (source : String) → Yields (λ _. Unit {0}) (parse source)
unfolding parse
parse-Yields source = Yields-bind (tokenize-Yields source) λ ts _. parse_tokens-Yields ts
