-- ===== src/Filter/Pushdown/Required.antt =====
-- What a filter that matches says of the predicates that it needs.
use mathlib.Core.Bool.{decide}
use usbscope.Prelude.{
  ℕ, Bool, true, false, not, ◌||◌, Option, none, some, List, [], ◌∷◌, ◌++◌, ◌≡◌, subst, arith, ◌⊎◌,
  All, All-append, inl, inr, Bool-cases, if◌then◌else◌,
}
use usbscope.Prelude.Int.{ℤ}
use usbscope.Prelude.Result.{Result, ok, err, ◌>>=◌}
use usbscope.Capture.Event.{Spool, Event}
use usbscope.Filter.Truth.{
  Truth, is_match, no_match, negate, both, either, from_bool, is_true, is_false,
}
use usbscope.Filter.Syntax.{
  Predicate, Compare, Expr, everything, predicate, contains, conj, disj, negation, invert, compares,
  Predicate-discrete,
}
use usbscope.Filter.Evaluate.{evaluate, evaluate_predicate, value, test, masked}
use usbscope.Filter.Pushdown.{has, union, common, required}

pub compares-invert : (c : Compare) (a b : ℤ) → compares (invert c) a b ≡ not (compares c a b)
unfolding compares invert
compares-invert c a b = ground arith

module _ {ℓ} (P : Predicate → Type ℓ) where
  has-All : (qs : List Predicate) (p : Predicate) → has qs p ≡ true → All P qs → P p
  unfolding has decide
  has-All [] p h k = cc
  has-All (q ∷ qs) p h k =
      elim (Predicate-discrete q p) as (λ d. (decide d || has qs p) ≡ true → P p) [
        | yes e ↦ λ _. subst P e k.0
        | no _ ↦ λ h'. has-All qs p h' k.1
      ]
        h

  union-All : (xs ys : List Predicate) → All P xs → All P ys → All P (union xs ys)
  unfolding union
  union-All xs [] h k = h
  union-All xs (y ∷ ys) h k = elim (Bool-cases (has xs y)) [
    | inl e ↦ rw e (union-All xs ys h k.1)
    | inr e ↦ rw e (union-All (xs ++ (y ∷ [])) ys (All-append P xs _ h (k.0, tt)) k.1)
  ]

  common-All_left : (xs ys : List Predicate) → All P xs → All P (common xs ys)
  unfolding common
  common-All_left [] ys h = tt
  common-All_left (x ∷ xs) ys h = elim (Bool-cases (has ys x)) [
    | inl e ↦ rw e (h.0, common-All_left xs ys h.1)
    | inr e ↦ rw e (common-All_left xs ys h.1)
  ]

  common-All_right : (xs ys : List Predicate) → All P ys → All P (common xs ys)
  unfolding common
  common-All_right [] ys h = tt
  common-All_right (x ∷ xs) ys h = elim (Bool-cases (has ys x)) [
    | inl e ↦ rw e (has-All ys x e h, common-All_right xs ys h)
    | inr e ↦ rw e (common-All_right xs ys h)
  ]

-- The two connectives on results, as `evaluate` computes them.
abbrev conj_result : Result Truth → Result Truth → Result Truth
conj_result r s = r >>= λ t. if is_false t then ok t else (s >>= λ u. ok (both t u))

abbrev disj_result : Result Truth → Result Truth → Result Truth
disj_result r s = r >>= λ t. if is_true t then ok t else (s >>= λ u. ok (either t u))

conj-is_match :
    (r s : Result Truth) → conj_result r s ≡ ok is_match → (r ≡ ok is_match) × (s ≡ ok is_match)
conj-is_match r s h = ground arith

conj-no_match :
    (r s : Result Truth) → conj_result r s ≡ ok no_match → (r ≡ ok no_match) ⊎ (s ≡ ok no_match)
conj-no_match r s h = ground arith

disj-no_match :
    (r s : Result Truth) → disj_result r s ≡ ok no_match → (r ≡ ok no_match) × (s ≡ ok no_match)
disj-no_match r s h = ground arith

disj-is_match :
    (r s : Result Truth) → disj_result r s ≡ ok is_match → (r ≡ ok is_match) ⊎ (s ≡ ok is_match)
disj-is_match r s h = ground arith

negate-eq :
    (r : Result Truth) (b : Bool)
    → (r >>= λ t. ok (negate t)) ≡ ok (from_bool (not b))
    → r ≡ ok (from_bool (not (not b)))
negate-eq r b h = ground arith

invert-test :
    (p : Predicate) (r : Result (Option ℤ))
    → (r >>= λ v. ok (test p v)) ≡ ok no_match
    → (r >>= λ v. ok (test (record p { comparison = invert p.comparison }) v)) ≡ ok is_match
invert-test p (err e) h = cc
invert-test p (ok none) h = cc
invert-test p (ok (some v)) h =
    ground (arith, compares-invert p.comparison (masked p.mask v) p.value)

module _ {S : Spool} (event : Event S) (latency : Option ℕ) where
  abbrev pub Holds : Predicate → Type 0
  Holds p = evaluate_predicate event latency p ≡ ok is_match

  invert-Holds :
      (p : Predicate)
      → evaluate_predicate event latency p ≡ ok no_match
      → Holds (record p { comparison = invert p.comparison })
  unfolding evaluate_predicate
  invert-Holds p h = invert-test p (value event latency p.field) h

  -- Where an expression matches, so does every predicate that it requires; where it is false, so
  -- does every predicate that its negation requires.
  pub required-Holds :
      (e : Expr) (negated : Bool)
      → evaluate event latency e ≡ ok (from_bool (not negated))
      → All Holds (required e negated)
  unfolding required evaluate
  required-Holds everything negated h = tt
  required-Holds (contains needle) negated h = tt
  required-Holds (predicate p) true h = (invert-Holds p h, tt)
  required-Holds (predicate p) false h = (h, tt)
  required-Holds (negation inner) negated h =
      required-Holds inner (not negated) (negate-eq (evaluate event latency inner) negated h)
  required-Holds (conj a b) true h =
      elim (conj-no_match (evaluate event latency a) (evaluate event latency b) h) [
        | inl k ↦ common-All_left Holds _ _ (required-Holds a true k)
        | inr k ↦ common-All_right Holds _ _ (required-Holds b true k)
      ]
  required-Holds (conj a b) false h =
      let k = conj-is_match (evaluate event latency a) (evaluate event latency b) h in
      union-All Holds _ _ (required-Holds a false k.0) (required-Holds b false k.1)
  required-Holds (disj a b) true h =
      let k = disj-no_match (evaluate event latency a) (evaluate event latency b) h in
      union-All Holds _ _ (required-Holds a true k.0) (required-Holds b true k.1)
  required-Holds (disj a b) false h =
      elim (disj-is_match (evaluate event latency a) (evaluate event latency b) h) [
        | inl k ↦ common-All_left Holds _ _ (required-Holds a false k)
        | inr k ↦ common-All_right Holds _ _ (required-Holds b false k)
      ]
