-- ===== src/Filter/Syntax.antt =====
-- crates/usbscope-capture/src/filter.rs: fields, comparisons, predicates and expressions.
use native.Mathlib.Decide.{ℕ_discrete}
use usbscope.Prelude.{ℕ, Bool, true, false, not, Option, List}
use usbscope.Prelude.Int.{ℤ, ltb_ℤ, leb_ℤ, eqb_ℤ}

pub data Field : Type 0 where
  bus device vid pid endpoint ep_num direction transfer requested actual length captured : Field
  frames status event interval start_frame errors urb_id request request_type value index : Field
  setup_length latency : Field
  payload : ℕ → ℕ → Field

pub data Compare : Type 0 where
  eq ne lt le gt ge : Compare

-- Compare::matches
unfoldable pub compares : Compare → ℤ → ℤ → Bool
compares eq a b = eqb_ℤ a b
compares ne a b = not (eqb_ℤ a b)
compares lt a b = ltb_ℤ a b
compares le a b = leb_ℤ a b
compares gt a b = ltb_ℤ b a
compares ge a b = leb_ℤ b a

-- Compare::invert
unfoldable pub invert : Compare → Compare
invert eq = ne
invert ne = eq
invert lt = ge
invert le = gt
invert gt = le
invert ge = lt

-- Compare::code
unfoldable pub code : Compare → ℕ
code eq = 0
code ne = 1
code lt = 2
code le = 3
code gt = 4
code ge = 5

pub record Predicate : Type 0 where
  pub field : Field
  pub mask : Option ℕ
  pub comparison : Compare
  pub value : ℤ

pub data Expr : Type 0 where
  everything : Expr
  predicate : Predicate → Expr
  contains : List ℕ → Expr
  conj disj : Expr → Expr → Expr
  negation : Expr → Expr

-- The derived equality of predicates.
unfoldable pub Predicate-discrete : Discrete Predicate
Predicate-discrete = hlevel ℕ_discrete

-- `p.field == Field::Latency`
abbrev pub is_latency : Field → Bool
is_latency latency = true
is_latency _ = false
