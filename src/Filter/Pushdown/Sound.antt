-- ===== src/Filter/Pushdown/Sound.antt =====
-- The kernel's prefilter against the filter in userspace.
use usbscope.Prelude.{
  ℕ, zero, suc, ◌+◌, ◌≤◌, min, Bool, true, false, Option, none, some, List, [], ◌∷◌, ◌≡◌, refl,
  arith, All, All-take, All-set, All-replicate, All-get_elem?, get_elem?, set, length, length-take,
  length-set, Option-cases, inl, inr, ltb, lt→ltb,
}
use usbscope.Prelude.Result.{ok}
use usbscope.Common.Meta.{EventMeta, MetaInRange, max_kernel_predicates}
use usbscope.Common.KernelPredicate.{KernelPredicate, default_predicate, matches, field_value}
use usbscope.Capture.Event.{Spool, Event}
use usbscope.Filter.Syntax.{Predicate, Expr}
use usbscope.Filter.Evaluate
use usbscope.Filter.Evaluate.{evaluate, evaluate_predicate}
use usbscope.Filter.Pushdown.{required, pushed, prepend, kernel_predicate, kernel_predicates}
use usbscope.Filter.Pushdown.Required.{Holds, required-Holds}
use usbscope.Filter.Pushdown.Exact.{SameRequest, matches-Holds}
use usbscope.Kernel.Prefilter.{fresh_filter, install, stops, accepted, prefilter}

abbrev Passes : EventMeta → KernelPredicate → Type 0
Passes m k = matches k m ≡ true

prepend-Passes :
    (m : EventMeta) (o : Option KernelPredicate) (ks : List KernelPredicate)
    → ((k : KernelPredicate) → o ≡ some k → Passes m k)
    → All (Passes m) ks
    → All (Passes m) (prepend o ks)
prepend-Passes m none ks f h = h
prepend-Passes m (some k) ks f h = (f k refl, h)

module _ {S : Spool} (event : Event S) (latency : Option ℕ) (m : EventMeta)
    (same : SameRequest event m) (fits : MetaInRange m) where
  pushed-Passes : (ps : List Predicate) → All (Holds event latency) ps → All (Passes m) (pushed ps)
  unfolding pushed
  pushed-Passes [] h = tt
  pushed-Passes (p ∷ ps) h =
      prepend-Passes m (kernel_predicate p) (pushed ps)
        (λ k e. matches-Holds event latency m p k same fits e h.0) (pushed-Passes ps h.1)

  kernel_predicates-Passes :
      (f : Expr) → Evaluate.matches event latency f ≡ ok true → All (Passes m) (kernel_predicates f)
  unfolding kernel_predicates Evaluate.matches
  kernel_predicates-Passes f h =
      All-take (Passes m) max_kernel_predicates (pushed (required f false))
        (pushed-Passes (required f false) (required-Holds event latency f false (ground arith)))

pub length-kernel_predicates : (f : Expr) → length (kernel_predicates f) ≤ max_kernel_predicates
unfolding kernel_predicates
length-kernel_predicates f =
    omega (arith, length-take max_kernel_predicates (pushed (required f false)))

-- Room for every predicate in the map: the installation succeeds, and keeps what holds of all.
install-All :
    (P : KernelPredicate → Type 0) (index : ℕ) (ps filter : List KernelPredicate)
    → index + length ps ≤ length filter
    → All P ps
    → All P filter
    → (filter' : List KernelPredicate) × (install index ps filter ≡ ok filter') × All P filter'
unfolding install
install-All P index [] filter h k l = (filter, refl, l)
install-All P index (p ∷ ps) filter h k l =
    let fits : ltb index (length filter) ≡ true = lt→ltb index (length filter) (omega arith) in
    rw fits (
      install-All P (index + 1) ps (set filter index p) (omega (arith, length-set filter index p))
        k.1 (All-set P filter index p l k.0))

stops-Passes :
    (m : EventMeta) (filter : List KernelPredicate) (index : ℕ)
    → All (Passes m) filter
    → stops filter m index ≡ false
unfolding stops
stops-Passes m filter index h = elim (Option-cases (get_elem? filter index)) [
  | inl e ↦ ground arith
  | inr (p, e) ↦ ground (arith, All-get_elem? (Passes m) filter index p e h)
]

accepted-Passes :
    (m : EventMeta) (filter : List KernelPredicate) (rounds index : ℕ)
    → All (Passes m) filter
    → accepted filter m rounds index ≡ true
unfolding accepted
accepted-Passes m filter zero index h = refl
accepted-Passes m filter (suc rounds) index h =
    rw (stops-Passes m filter index h) (accepted-Passes m filter rounds (index + 1) h)

default-Passes : (m : EventMeta) → Passes m default_predicate
unfolding matches field_value
default-Passes m = refl

-- The predicates of a filter fit into the FILTER map, and if the filter matches an event of a
-- request, the kernel accepts the submission of that request, also where bpf_loop refuses to run:
-- no matching event is lost by prefiltering.
pub prefilter_sound :
    {S : Spool} (event : Event S) (latency : Option ℕ) (submission : EventMeta) (f : Expr)
    (refused : Bool)
    → SameRequest event submission
    → MetaInRange submission
    → Evaluate.matches event latency f ≡ ok true
    → (filter : List KernelPredicate) × (install 0 (kernel_predicates f) fresh_filter ≡ ok filter)
      × (prefilter filter refused submission (length (kernel_predicates f)) ≡ true)
unfolding prefilter
prefilter_sound event latency m f refused same fits h =
    let (filter, installed, passes) =
      install-All (Passes m) 0 (kernel_predicates f) fresh_filter
        (omega (arith, length-kernel_predicates f))
        (kernel_predicates-Passes event latency m same fits f h)
        (All-replicate (Passes m) max_kernel_predicates default_predicate (default-Passes m)) in
    (
      filter,
      installed,
      ground (
        arith,
        accepted-Passes m filter (min (length (kernel_predicates f)) max_kernel_predicates) 0
            passes,
      ),
    )
