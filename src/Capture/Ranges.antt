-- ===== src/Capture/Ranges.antt =====
-- The ranges of a payload that are filled: the BTreeMap<u64, u64> of crates/usbscope-capture/src/lib.rs
-- from starts to ends, as the list of its entries in the order of their starts.
pub mod Laws
use usbscope.Prelude.{
  ℕ, zero, suc, ◌+◌, Bool, true, false, not, ◌&&◌, Option, none, some, List, [], ◌∷◌, length, ltb,
  leb, ◌==◌, if◌then◌else◌, min, max,
}

abbrev pub Ranges : Type 0
Ranges = List (ℕ × ℕ)

-- range(..=at).next_back()
unfoldable pub last_up_to : ℕ → Ranges → Option (ℕ × ℕ)
last_up_to at [] = none
last_up_to at ((a, b) ∷ r) =
    let rest = last_up_to at r in
    if leb a at then elim rest [ none ↦ some (a, b) | some e ↦ some e ] else none

-- range(lo..=hi).next(); with no upper bound it is range(lo..).next()
unfoldable pub first_in : ℕ → Option ℕ → Ranges → Option (ℕ × ℕ)
first_in lo hi [] = none
first_in lo hi ((a, b) ∷ r) =
    let rest = first_in lo hi r in
    if ltb a lo
    then rest
    else elim hi [ none ↦ some (a, b) | some h ↦ if leb a h then some (a, b) else none ]

-- remove(&key)
unfoldable pub remove : ℕ → Ranges → Ranges
remove key [] = []
remove key ((a, b) ∷ r) = let rest = remove key r in if a == key then r else (a, b) ∷ rest

-- insert(key, end)
unfoldable pub insert : ℕ → ℕ → Ranges → Ranges
insert key end [] = (key, end) ∷ []
insert key end ((a, b) ∷ r) =
    let rest = insert key end r in
    if ltb key a
    then (key, end) ∷ ((a, b) ∷ r)
    else if a == key
    then (key, end) ∷ r
    else (a, b) ∷ rest
