-- ===== src/Common/KernelPredicate.antt =====
-- crates/usbscope-common/src/lib.rs: the predicates that the kernel side evaluates on a submission.
use usbscope.Prelude.{
  ℕ, ◌/◌, ◌%◌, ◌^◌, Bool, true, Option, none, some, not, ltb, leb, ◌==◌, if◌then◌else◌, bit_and,
}
use usbscope.Common.Meta.{EventMeta}

pub record KernelPredicate : Type 0 where
  pub value : ℕ
  pub mask : ℕ
  pub field : ℕ
  pub comparison : ℕ

abbrev pub default_predicate : KernelPredicate
default_predicate = record { value = 0; mask = 0; field = 0; comparison = 0 }

-- The match on `self.field`; `none` is its `return true`.
unfoldable pub field_value : ℕ → EventMeta → Option ℕ
field_value f m =
    if f == 1
    then some m.bus
    else if f == 2
    then some m.device
    else if f == 3
    then some m.vid
    else if f == 4
    then some m.pid
    else if f == 5
    then some m.endpoint
    else if f == 6
    then some (m.endpoint % 2 ^ 4)
    else if f == 7
    then some (m.endpoint / 2 ^ 7)
    else if f == 8
    then some m.transfer_type
    else if f == 9
    then some m.requested_len
    else if f == 10
    then some m.iso_count
    else none

unfoldable pub compare_code : ℕ → ℕ → ℕ → Bool
compare_code c a b =
    if c == 0
    then a == b
    else if c == 1
    then not (a == b)
    else if c == 2
    then ltb a b
    else if c == 3
    then leb a b
    else if c == 4
    then ltb b a
    else if c == 5
    then leb b a
    else true

unfoldable pub masked_matches : KernelPredicate → Option ℕ → Bool
masked_matches p none = true
masked_matches p (some v) = compare_code p.comparison (bit_and v p.mask) p.value

-- KernelPredicate::matches
unfoldable pub matches : KernelPredicate → EventMeta → Bool
unfolding masked_matches
matches p m = masked_matches p (field_value p.field m)
