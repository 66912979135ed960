-- ===== src/Filter/Truth.antt =====
-- crates/usbscope-capture/src/filter.rs: three-valued logic.
use usbscope.Prelude.{Bool, true, false}

pub data Truth : Type 0 where
  no_match is_match unknown : Truth

-- Truth::not
abbrev pub negate : Truth → Truth
negate no_match = is_match
negate is_match = no_match
negate unknown = unknown

-- Truth::and
abbrev pub both : Truth → Truth → Truth
both no_match _ = no_match
both is_match no_match = no_match
both is_match is_match = is_match
both is_match unknown = unknown
both unknown no_match = no_match
both unknown is_match = unknown
both unknown unknown = unknown

-- Truth::or
abbrev pub either : Truth → Truth → Truth
either is_match _ = is_match
either no_match is_match = is_match
either no_match no_match = no_match
either no_match unknown = unknown
either unknown is_match = is_match
either unknown no_match = unknown
either unknown unknown = unknown

-- Truth::from(bool)
abbrev pub from_bool : Bool → Truth
from_bool true = is_match
from_bool false = no_match

-- t == Truth::True, t == Truth::False
abbrev pub is_true : Truth → Bool
is_true is_match = true
is_true _ = false

abbrev pub is_false : Truth → Bool
is_false no_match = true
is_false _ = false
