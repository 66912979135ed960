-- ===== src/Tests/Filtering.antt =====
-- Filters on concrete events.
use usbscope.Prelude.{
  ◌≡◌, refl, arith, true, false, false, none, some, List, [], ◌∷◌, length, All, ◌^◌, ◌-◌,
}
use usbscope.Prelude.Int.{pos, negsuc}
use usbscope.Prelude.Result.{ok}
use usbscope.Filter.Truth.{is_match, from_bool}
use usbscope.Filter.Syntax.{Predicate, Expr, predicate, contains, conj, disj, negation, eq, gt}
use usbscope.Filter.Syntax
use usbscope.Filter.Evaluate
use usbscope.Filter.Evaluate.{needs_latency, evaluate, evaluate_predicate}
use usbscope.Filter.Pushdown.{kernel_predicates, kernel_predicate, required}
use usbscope.Filter.Latency.{matches-needs_latency}
use usbscope.Filter.Pushdown.Required.{Holds, required-Holds}
use usbscope.Filter.Pushdown.Exact.{SameRequest, matches-exact}
use usbscope.Filter.Pushdown.Sound.{prefilter_sound}
use usbscope.Common.KernelPredicate
use usbscope.Common.KernelPredicate.{KernelPredicate}
use usbscope.Kernel.Prefilter.{fresh_filter, install, prefilter}
use usbscope.Tests.Memory.{bulk_event, bulk_submit, bulk_submit-InRange}

abbrev bus_one : Predicate
bus_one = record { field = Syntax.Field.bus; mask = none; comparison = eq; value = pos 1 }

-- bus 1 and (status > -1 or payload contains 0x61)
abbrev sample : Expr
sample = conj (predicate bus_one) (
    disj
      (predicate
        (record { field = Syntax.Field.status; mask = none; comparison = gt; value = negsuc 0 }))
      (contains (0x61 ∷ [])))

sample-matches : Evaluate.matches bulk_event none sample ≡ ok true
unfolding Evaluate.matches evaluate Evaluate.evaluate_predicate Evaluate.value Evaluate.field_value
    Evaluate.is_hidden Syntax.compares
sample-matches = refl

same_request : SameRequest bulk_event bulk_submit
same_request = omega arith

abbrev bus_one_pushed : KernelPredicate
bus_one_pushed = record { value = 1; mask = 2 ^ 64 - 1; field = 1; comparison = 0 }

bus_one_pushable : kernel_predicate bus_one ≡ some bus_one_pushed
unfolding kernel_predicate Syntax.code
bus_one_pushable = refl

bus_known : Evaluate.is_hidden bulk_event Syntax.Field.bus ≡ false
unfolding Evaluate.is_hidden
bus_known = refl

sample_evaluates : evaluate bulk_event none sample ≡ ok is_match
unfolding evaluate Evaluate.evaluate_predicate Evaluate.value Evaluate.field_value
    Evaluate.is_hidden Syntax.compares
sample_evaluates = refl

prefilter_sound_example :
    (filter : List KernelPredicate) × (install 0 (kernel_predicates sample) fresh_filter
      ≡ ok filter)
    × (prefilter filter false bulk_submit (length (kernel_predicates sample)) ≡ true)
prefilter_sound_example =
    prefilter_sound bulk_event none bulk_submit sample false same_request bulk_submit-InRange
      sample-matches

matches-exact_example :
    evaluate_predicate bulk_event none bus_one
    ≡ ok (from_bool (KernelPredicate.matches bus_one_pushed bulk_submit))
matches-exact_example =
    matches-exact bulk_event none bulk_submit bus_one bus_one_pushed same_request
      bulk_submit-InRange bus_one_pushable bus_known

required-Holds_example : All (Holds bulk_event none) (required sample false)
required-Holds_example = required-Holds bulk_event none sample false sample_evaluates

sample_needs_none : needs_latency sample ≡ false
unfolding needs_latency
sample_needs_none = refl

matches-needs_latency_example :
    Evaluate.matches bulk_event none sample ≡ Evaluate.matches bulk_event (some 5) sample
matches-needs_latency_example =
    matches-needs_latency bulk_event none (some 5) sample sample_needs_none
