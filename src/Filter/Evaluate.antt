-- ===== src/Filter/Evaluate.antt =====
-- crates/usbscope-capture/src/filter.rs: the evaluation of an expression on an event.
use usbscope.Prelude.{
  ℕ, ◌+◌, ◌-◌, ◌*◌, ◌/◌, ◌%◌, ◌^◌, Bool, false, not, ◌&&◌, ◌||◌, Option, none, some, ◌++◌, any, ltb,
  leb, ◌==◌, if◌then◌else◌, bit_and, get_or, replicate,
}
use usbscope.Prelude.Int.{ℤ, pos, unsigned}
use usbscope.Prelude.Bytes.{from_be}
use usbscope.Prelude.Result.{Result, ok, ◌>>=◌, ◌>>◌}
use usbscope.Common.Meta.{EventMeta, IsoDescriptor}
use usbscope.Capture.Event.{Spool, Event}
use usbscope.Filter.Truth.{
  Truth, is_match, unknown, negate, both, either, from_bool, is_true, is_false,
}
use usbscope.Filter.Syntax.{
  Field, Predicate, Expr, everything, predicate, contains, conj, disj, negation, compares,
  is_latency,
}
use usbscope.Filter.Search.{contains_bytes}

-- Bytes that were captured inside one ISO frame.
unfoldable pub in_frame : ℕ → ℕ → IsoDescriptor → Bool
in_frame offset end d = leb d.offset offset && leb end (d.offset + d.length)

-- u16::from_le_bytes([setup[i], setup[i + 1]])
unfoldable pub setup_u16 : EventMeta → ℕ → ℤ
setup_u16 m i = pos (get_or m.setup i 0 + 256 * get_or m.setup (i + 1) 0)

unfoldable pub setup_value : EventMeta → ℤ → Result (Option ℤ)
setup_value m v = if m.setup_present == 0 then ok none else ok (some v)

-- The fields that pcapng omits, where they were not recorded.
unfoldable pub is_hidden : {S : Spool} → Event S → Field → Bool
is_hidden event Field.vid = not event.identity_known
is_hidden event Field.pid = not event.identity_known
is_hidden event Field.requested = not event.requested_known
is_hidden event _ = false

unfoldable pub payload_value : {S : Spool} → Event S → ℕ → ℕ → Result (Option ℤ)
unfolding in_frame
payload_value {S} event offset size =
    let end = offset + size in
    let m = event.meta in
    if leb (2 ^ 64) end
    then ok none
    else if m.has_data == 0 || ltb m.payload_len end
    then ok none
    else if m.transfer_type == 0 && not (any (in_frame offset end) event.iso)
    then ok none
    else (do
      S.seek event.payload offset
      bytes ← S.read_at event.payload offset size
      ok (some (pos (from_be 0 (replicate (8 - size) 0 ++ bytes)))))

abbrev pub masked : Option ℕ → ℤ → ℤ
masked none v = v
masked (some mask) v = pos (bit_and (unsigned 64 v) mask)

abbrev pub test : Predicate → Option ℤ → Truth
test p none = unknown
test p (some v) = from_bool (compares p.comparison (masked p.mask v) p.value)

module _ {S : Spool} (event : Event S) (latency : Option ℕ) where
  unfoldable pub field_value : Field → Result (Option ℤ)
  unfolding setup_u16 setup_value
  field_value Field.bus = ok (some (pos event.meta.bus))
  field_value Field.device = ok (some (pos event.meta.device))
  field_value Field.vid = ok (some (pos event.meta.vid))
  field_value Field.pid = ok (some (pos event.meta.pid))
  field_value Field.endpoint = ok (some (pos event.meta.endpoint))
  field_value Field.ep_num = ok (some (pos (event.meta.endpoint % 2 ^ 4)))
  field_value Field.direction = ok (some (pos (event.meta.endpoint / 2 ^ 7)))
  field_value Field.transfer = ok (some (pos event.meta.transfer_type))
  field_value Field.requested = ok (some (pos event.meta.requested_len))
  field_value Field.actual =
      if event.meta.event_type == b'S' then ok none else ok (some (pos event.meta.actual_len))
  field_value Field.length = ok (
      some (
        pos (
          if event.meta.event_type == b'S'
          then event.meta.requested_len
          else event.meta.actual_len)))
  field_value Field.captured = ok (some (pos event.meta.payload_len))
  field_value Field.frames = ok (some (pos event.meta.iso_count))
  field_value Field.status = ok (some event.meta.status)
  field_value Field.event = ok (some (pos event.meta.event_type))
  field_value Field.interval = ok (some event.meta.interval)
  field_value Field.start_frame = ok (some event.meta.start_frame)
  field_value Field.errors = ok (some event.meta.error_count)
  field_value Field.urb_id = ok (some (pos event.meta.urb_id))
  field_value Field.latency = elim latency [ none ↦ ok none | some ns ↦ ok (some (pos ns)) ]
  field_value Field.request = setup_value event.meta (pos (get_or event.meta.setup 1 0))
  field_value Field.request_type = setup_value event.meta (pos (get_or event.meta.setup 0 0))
  field_value Field.value = setup_value event.meta (setup_u16 event.meta 2)
  field_value Field.index = setup_value event.meta (setup_u16 event.meta 4)
  field_value Field.setup_length = setup_value event.meta (setup_u16 event.meta 6)
  field_value (Field.payload offset size) = payload_value event offset size

  -- fn value
  unfoldable pub value : Field → Result (Option ℤ)
  value f = if is_hidden event f then ok none else field_value f

  unfoldable pub evaluate_predicate : Predicate → Result Truth
  evaluate_predicate p = value p.field >>= λ v. ok (test p v)

  unfoldable pub evaluate : Expr → Result Truth
  evaluate everything = ok is_match
  evaluate (negation inner) = evaluate inner >>= λ t. ok (negate t)
  evaluate (conj a b) =
      let rest = evaluate b in
      evaluate a >>= λ t. if is_false t then ok t else (rest >>= λ u. ok (both t u))
  evaluate (disj a b) =
      let rest = evaluate b in
      evaluate a >>= λ t. if is_true t then ok t else (rest >>= λ u. ok (either t u))
  evaluate (predicate p) = evaluate_predicate p
  evaluate (contains needle) =
      if event.meta.has_data == 0
      then ok unknown
      else (contains_bytes event needle >>= λ b. ok (from_bool b))

  -- Filter::matches
  unfoldable pub matches : Expr → Result Bool
  matches e = evaluate e >>= λ t. ok (is_true t)

-- Expr::needs_latency
unfoldable pub needs_latency : Expr → Bool
needs_latency (predicate p) = is_latency p.field
needs_latency (negation inner) = needs_latency inner
needs_latency (conj a b) = needs_latency a || needs_latency b
needs_latency (disj a b) = needs_latency a || needs_latency b
needs_latency _ = false
