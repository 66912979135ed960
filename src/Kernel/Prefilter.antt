-- ===== src/Kernel/Prefilter.antt =====
-- crates/usbscope-ebpf/src/main.rs, `prefilter`, and src/live.rs, where the FILTER map is filled.
-- bpf_loop is the kernel's: that it refuses to run at all is an argument of the model.
use usbscope.Prelude.{
  ℕ, zero, suc, ◌+◌, min, Bool, true, false, not, none, some, List, [], ◌∷◌, get_elem?, set, length,
  replicate, ltb, ◌==◌, if◌then◌else◌,
}
use usbscope.Prelude.Result.{Result, ok, err, io}
use usbscope.Common.Meta.{EventMeta, max_kernel_predicates}
use usbscope.Common.KernelPredicate.{KernelPredicate, default_predicate, matches}

-- The FILTER map as the object is loaded.
abbrev pub fresh_filter : List KernelPredicate
fresh_filter = replicate max_kernel_predicates default_predicate

-- for (index, predicate) in options.predicates: filter.set(index, predicate), which is refused
-- behind the end of the map.
unfoldable pub install :
    ℕ → List KernelPredicate → List KernelPredicate → Result (List KernelPredicate)
install index [] filter = ok filter
install index (p ∷ ps) filter =
    let rest = install (index + 1) ps (set filter index p) in
    if ltb index (length filter) then rest else err io

-- filter_predicate, for the indices from one on: whether it stops the loop
unfoldable pub stops : List KernelPredicate → EventMeta → ℕ → Bool
stops filter m index = elim (get_elem? filter index) [ none ↦ false | some p ↦ not (matches p m) ]

-- context.accepted after the loop
unfoldable pub accepted : List KernelPredicate → EventMeta → ℕ → ℕ → Bool
accepted filter m zero index = true
accepted filter m (suc rounds) index =
    let rest = accepted filter m rounds (index + 1) in if stops filter m index then false else rest

unfoldable pub prefilter : List KernelPredicate → Bool → EventMeta → ℕ → Bool
prefilter filter refused m count =
    if count == 0
    then true
    else if refused
    then true
    else accepted filter m (min count max_kernel_predicates) 0
