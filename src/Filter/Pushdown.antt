-- ===== src/Filter/Pushdown.antt =====
-- crates/usbscope-capture/src/filter.rs: the predicates that a filter needs, and those of them that
-- the kernel can test on a submission.
pub mod Required
pub mod Sound
pub mod Exact
use mathlib.Core.Bool.{decide}
use usbscope.Prelude.{
  ℕ, zero, suc, ◌-◌, ◌^◌, Bool, true, false, not, ◌||◌, Option, none, some, List, [], ◌∷◌, ◌++◌,
  take, ltb, if◌then◌else◌,
}
use usbscope.Prelude.Int.{ℤ, pos, negsuc}
use usbscope.Common.Meta.{max_kernel_predicates}
use usbscope.Common.KernelPredicate.{KernelPredicate}
use usbscope.Filter.Syntax.{
  Field, Predicate, Expr, everything, predicate, contains, conj, disj, negation, invert, code,
  Predicate-discrete,
}

-- Vec::contains
unfoldable pub has : List Predicate → Predicate → Bool
has [] p = false
has (q ∷ qs) p = decide (Predicate-discrete q p) || has qs p

-- for p in right { if !result.contains(&p) { result.push(p) } }
unfoldable pub union : List Predicate → List Predicate → List Predicate
union result [] = result
union result (p ∷ right) = union (if has result p then result else result ++ (p ∷ [])) right

-- left.into_iter().filter(|p| right.contains(p))
unfoldable pub common : List Predicate → List Predicate → List Predicate
common [] right = []
common (p ∷ left) right = let rest = common left right in if has right p then p ∷ rest else rest

-- Expr::required
unfoldable pub required : Expr → Bool → List Predicate
required (predicate p) negated =
    (if negated then record p { comparison = invert p.comparison } else p) ∷ []
required (negation inner) negated = required inner (not negated)
required (conj a b) true = common (required a true) (required b true)
required (conj a b) false = union (required a false) (required b false)
required (disj a b) true = union (required a true) (required b true)
required (disj a b) false = common (required a false) (required b false)
required _ negated = []

unfoldable pub kernel_field : Field → Option ℕ
kernel_field Field.bus = some 1
kernel_field Field.device = some 2
kernel_field Field.vid = some 3
kernel_field Field.pid = some 4
kernel_field Field.endpoint = some 5
kernel_field Field.ep_num = some 6
kernel_field Field.direction = some 7
kernel_field Field.transfer = some 8
kernel_field Field.requested = some 9
kernel_field Field.frames = some 10
kernel_field _ = none

-- u64::try_from(i128)
unfoldable pub to_u64 : ℤ → Option ℕ
to_u64 (pos n) = if ltb n (2 ^ 64) then some n else none
to_u64 (negsuc n) = none

-- p.mask.unwrap_or(u64::MAX)
abbrev pub mask_or_all : Option ℕ → ℕ
mask_or_all none = 2 ^ 64 - 1
mask_or_all (some mask) = mask

unfoldable pub kernel_predicate : Predicate → Option KernelPredicate
unfolding kernel_field to_u64
kernel_predicate p = elim (kernel_field p.field) [
  | none ↦ none
  | some f ↦ elim (to_u64 p.value) [
    | none ↦ none
    | some v ↦
        some (record {
          value = v;
          mask = mask_or_all p.mask;
          field = f;
          comparison = code p.comparison;
        })
  ]
]

abbrev pub prepend : Option KernelPredicate → List KernelPredicate → List KernelPredicate
prepend none ks = ks
prepend (some k) ks = k ∷ ks

-- .filter_map(…)
unfoldable pub pushed : List Predicate → List KernelPredicate
pushed [] = []
pushed (p ∷ ps) = prepend (kernel_predicate p) (pushed ps)

-- Filter::kernel_predicates
unfoldable pub kernel_predicates : Expr → List KernelPredicate
kernel_predicates e = take max_kernel_predicates (pushed (required e false))
