-- ===== src/Capture/Submissions.antt =====
-- crates/usbscope-capture/src/pcapng_read.rs and src/main.rs: a HashMap from a capture source and
-- the id of an URB to a number. It has one entry for a key, and nothing observes its order.
use usbscope.Prelude.{
  ℕ, ◌≡◌, arith, Bool, ◌&&◌, Option, none, some, List, [], ◌∷◌, ◌==◌, if◌then◌else◌,
}

abbrev pub UrbKey : Type 0
UrbKey = ℕ × ℕ

abbrev pub Submissions : Type 0
Submissions = List (UrbKey × ℕ)

abbrev pub same_urb : UrbKey → UrbKey → Bool
same_urb j k = j.0 == k.0 && j.1 == k.1

-- HashMap::get
unfoldable pub request_of : UrbKey → Submissions → Option ℕ
request_of key [] = none
request_of key ((k, v) ∷ m) = if same_urb k key then some v else request_of key m

-- HashMap::remove, whose value is `request_of`
unfoldable pub take_request : UrbKey → Submissions → Submissions
take_request key [] = []
take_request key ((k, v) ∷ m) =
    let rest = take_request key m in if same_urb k key then rest else (k, v) ∷ rest

-- HashMap::insert
unfoldable pub add_request : UrbKey → ℕ → Submissions → Submissions
unfolding take_request
add_request key v m = (key, v) ∷ take_request key m

pub request_of-take_request :
    (key other : UrbKey) (m : Submissions)
    → request_of other (take_request key m)
      ≡ (if same_urb key other then none else request_of other m)
unfolding request_of take_request
request_of-take_request key other [] = ground arith
request_of-take_request key other ((k, v) ∷ m) = ground (arith, request_of-take_request key other m)

pub request_of-add_request :
    (key other : UrbKey) (v : ℕ) (m : Submissions)
    → request_of other (add_request key v m)
      ≡ (if same_urb key other then some v else request_of other m)
unfolding request_of add_request
request_of-add_request key other v m = ground (arith, request_of-take_request key other m)
