-- ===== src/Filter/Latency.antt =====
-- crates/usbscope-capture/src/filter.rs and src/main.rs: the capture loop computes no latency where
-- the filter does not need one.
use usbscope.Prelude.{ℕ, ◌≡◌, refl, ap, Bool, false, ◌||◌, Option, arith}
use usbscope.Prelude.Result.{ok, ◌>>=◌}
use usbscope.Capture.Event.{Spool, Event}
use usbscope.Filter.Truth.{is_true}
use usbscope.Filter.Syntax.{
  Field, Expr, everything, predicate, contains, conj, disj, negation, is_latency,
}
use usbscope.Filter.Evaluate.{
  evaluate, evaluate_predicate, test, value, field_value, matches, needs_latency,
}

or_false : (a b : Bool) → (a || b) ≡ false → (a ≡ false) × (b ≡ false)
or_false a b h = ground (arith, h)

module _ {S : Spool} (event : Event S) (l₁ l₂ : Option ℕ) where
  value_same : (f : Field) → is_latency f ≡ false → value event l₁ f ≡ value event l₂ f
  unfolding value field_value
  value_same Field.latency h = cc
  value_same _ h = refl

  evaluate_same : (e : Expr) → needs_latency e ≡ false → evaluate event l₁ e ≡ evaluate event l₂ e
  unfolding needs_latency evaluate evaluate_predicate
  evaluate_same everything h = refl
  evaluate_same (predicate p) h = ap (λ r. r >>= λ v. ok (test p v)) (value_same p.field h)
  evaluate_same (contains needle) h = refl
  evaluate_same (negation e) h = rw (evaluate_same e h) refl
  evaluate_same (conj a b) h =
      let both = or_false (needs_latency a) (needs_latency b) h in
      rw (evaluate_same a both.0, evaluate_same b both.1) refl
  evaluate_same (disj a b) h =
      let both = or_false (needs_latency a) (needs_latency b) h in
      rw (evaluate_same a both.0, evaluate_same b both.1) refl

  -- A filter that needs no latency has the same outcome, an error included, whatever latency it is
  -- given.
  pub matches-needs_latency :
      (e : Expr) → needs_latency e ≡ false → matches event l₁ e ≡ matches event l₂ e
  unfolding matches
  matches-needs_latency e h = ap (λ r. r >>= λ t. ok (is_true t)) (evaluate_same e h)
