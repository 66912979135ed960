-- ===== src/Filter/Pushdown/Exact.antt =====
-- A pushed predicate against the kernel's test of it.
use usbscope.Prelude.{
  ℕ, ◌/◌, ◌%◌, ◌^◌, ◌<◌, true, false, Option, none, some, ◌≡◌, refl, ap, sym, arith, Bool-cases,
  inl, inr, bit_and, bit_and-u64_max,
}
use usbscope.Prelude.Int.{pos}
use usbscope.Prelude.Result.{ok}
use usbscope.Common.Meta.{EventMeta, MetaInRange}
use usbscope.Common.KernelPredicate.{
  KernelPredicate, field_value, compare_code, masked_matches, matches,
}
use usbscope.Capture.Event.{Spool, Event}
use usbscope.Filter.Truth.{is_match, unknown, from_bool}
use usbscope.Filter.Syntax.{Field, Predicate, Compare, eq, ne, lt, le, gt, ge, compares, code}
use usbscope.Filter.Evaluate
use usbscope.Filter.Evaluate.{evaluate_predicate, value, is_hidden, test, masked}
use usbscope.Filter.Pushdown.{kernel_field, kernel_predicate, mask_or_all}

-- The kernel compares numbers as the filter compares integers that are not negative.
compare_code-code : (c : Compare) (a b : ℕ) → compare_code (code c) a b ≡ compares c (pos a) (pos b)
unfolding compare_code code compares
compare_code-code eq a b = refl
compare_code-code ne a b = refl
compare_code-code lt a b = refl
compare_code-code le a b = refl
compare_code-code gt a b = refl
compare_code-code ge a b = refl

module _ {S : Spool} (event : Event S) where
  -- An event and a submission agree on the fields that the kernel may test.
  pub record SameRequest (m : EventMeta) : Type 0 where
    pub bus : event.meta.bus ≡ m.bus
    pub device : event.meta.device ≡ m.device
    pub vid : event.meta.vid ≡ m.vid
    pub pid : event.meta.pid ≡ m.pid
    pub endpoint : event.meta.endpoint ≡ m.endpoint
    pub transfer_type : event.meta.transfer_type ≡ m.transfer_type
    pub requested_len : event.meta.requested_len ≡ m.requested_len
    pub iso_count : event.meta.iso_count ≡ m.iso_count

abbrev stable : Field → EventMeta → ℕ
stable Field.bus m = m.bus
stable Field.device m = m.device
stable Field.vid m = m.vid
stable Field.pid m = m.pid
stable Field.endpoint m = m.endpoint
stable Field.ep_num m = m.endpoint % 2 ^ 4
stable Field.direction m = m.endpoint / 2 ^ 7
stable Field.transfer m = m.transfer_type
stable Field.requested m = m.requested_len
stable Field.frames m = m.iso_count
stable _ m = 0

module _ {S : Spool} (event : Event S) (latency : Option ℕ) (m : EventMeta)
    (same : SameRequest event m) (fits : MetaInRange m) where
  abbrev Stable : Field → ℕ → Type 0
  Stable f n =
      (field_value n m ≡ some (stable f m))
      × (value event latency f ≡ ok (some (pos (stable f m))))
      × (stable f m < 2 ^ 64)

  Stable-field :
      (f : Field) (n : ℕ) → kernel_field f ≡ some n → is_hidden event f ≡ false → Stable f n
  unfolding kernel_field value is_hidden field_value Evaluate.field_value
  Stable-field Field.bus n h k = (ground arith, ap (λ v. ok (some (pos v))) same.bus, omega arith)
  Stable-field Field.device n h k =
      (ground arith, ap (λ v. ok (some (pos v))) same.device, omega arith)
  Stable-field Field.vid n h k = (ground arith, ground arith, omega arith)
  Stable-field Field.pid n h k = (ground arith, ground arith, omega arith)
  Stable-field Field.endpoint n h k =
      (ground arith, ap (λ v. ok (some (pos v))) same.endpoint, omega arith)
  Stable-field Field.ep_num n h k =
      (ground arith, ap (λ v. ok (some (pos (v % 2 ^ 4)))) same.endpoint, omega arith)
  Stable-field Field.direction n h k =
      (ground arith, ap (λ v. ok (some (pos (v / 2 ^ 7)))) same.endpoint, omega arith)
  Stable-field Field.transfer n h k =
      (ground arith, ap (λ v. ok (some (pos v))) same.transfer_type, omega arith)
  Stable-field Field.requested n h k = (ground arith, ground arith, omega arith)
  Stable-field Field.frames n h k =
      (ground arith, ap (λ v. ok (some (pos v))) same.iso_count, omega arith)
  Stable-field _ n h k = cc

-- The mask of a pushed predicate takes the bits that the filter's mask takes.
masked-mask_or_all :
    (mask : Option ℕ) (v : ℕ)
    → v < 2 ^ 64
    → masked mask (pos v) ≡ pos (bit_and v (mask_or_all mask))
masked-mask_or_all none v h = ap pos (sym (bit_and-u64_max v h))
masked-mask_or_all (some mask) v h =
    let e : v % 2 ^ 64 ≡ v = omega arith in ap (λ n. pos (bit_and n mask)) e

-- What a pushed predicate takes over from the filter's.
kernel_predicate-fields :
    (p : Predicate) (k : KernelPredicate)
    → kernel_predicate p ≡ some k
    → (kernel_field p.field ≡ some k.field)
      × (k.comparison ≡ code p.comparison)
      × (k.mask ≡ mask_or_all p.mask)
      × (p.value ≡ pos k.value)
unfolding kernel_predicate
kernel_predicate-fields p k h = (ground arith, ground arith, ground arith, ground arith)

test-exact :
    (p : Predicate) (v : ℕ) (k : KernelPredicate)
    → v < 2 ^ 64
    → kernel_predicate p ≡ some k
    → test p (some (pos v)) ≡ from_bool (masked_matches k (some v))
unfolding masked_matches
test-exact p v k small pushed =
    let (_, c, m, z) = kernel_predicate-fields p k pushed in
    rw (z, masked-mask_or_all p.mask v small, c, m)
      (ap from_bool (sym (compare_code-code p.comparison (bit_and v (mask_or_all p.mask)) k.value)))

module _ {S : Spool} (event : Event S) (latency : Option ℕ) (m : EventMeta) where
  -- On a field that is known, the kernel's test of a pushed predicate on the submission gives the
  -- truth value that the filter gives the predicate on the event.
  pub matches-exact :
      (p : Predicate) (k : KernelPredicate)
      → SameRequest event m
      → MetaInRange m
      → kernel_predicate p ≡ some k
      → is_hidden event p.field ≡ false
      → evaluate_predicate event latency p ≡ ok (from_bool (matches k m))
  unfolding evaluate_predicate matches
  matches-exact p k same fits pushed known =
      let (f, _, _, _) = kernel_predicate-fields p k pushed in
      let (kv, ev, small) = Stable-field event latency m same fits p.field k.field f known in
      rw (kv, ev) (ap ok (test-exact p (stable p.field m) k small pushed))

  -- On a field that is not recorded, the predicate is unknown.
  pub evaluate_predicate-hidden :
      (p : Predicate)
      → is_hidden event p.field ≡ true
      → evaluate_predicate event latency p ≡ ok unknown
  unfolding evaluate_predicate value
  evaluate_predicate-hidden p h = rw h

  -- A predicate that holds of the event passes the kernel's test of the submission.
  pub matches-Holds :
      (p : Predicate) (k : KernelPredicate)
      → SameRequest event m
      → MetaInRange m
      → kernel_predicate p ≡ some k
      → evaluate_predicate event latency p ≡ ok is_match
      → matches k m ≡ true
  matches-Holds p k same fits pushed holds = elim (Bool-cases (is_hidden event p.field)) [
    | inl h ↦ cc (evaluate_predicate-hidden p h)
    | inr h ↦ ground (arith, matches-exact p k same fits pushed h)
  ]
