-- ===== src/Live/Measured.antt =====
-- crates/usbscope-ebpf/src/main.rs, `emit`, behind the reading of an URB, with the drain of
-- src/live.rs.
use usbscope.Prelude.{
  ◌-◌, ℕ, ◌+◌, ◌*◌, ◌/◌, ◌%◌, ◌^◌, ◌<◌, ◌≤◌, ◌≡◌, ◌≢◌, ◌⊎◌, ap, subst, arith, false, none, List,
  All, length, ◌==◌, if◌then◌else◌,
}
use usbscope.Prelude.Int.{ℤ}
use usbscope.Prelude.Bytes.{IsByte}
use usbscope.Common.Meta.{EventMeta, IsI32}
use usbscope.Capture.Event.{Spool}
use usbscope.Capture.Reassembler.State.{Reassembler, find, max_pending_events}
use usbscope.Kernel.Machine.{World, Kernel, pure, ◌>>=◌, ask, next_id, next_u64, UrbFields}
use usbscope.Kernel.Emit.{carries_data, with_payload, measure, emit_read, observed_meta}
use usbscope.Kernel.Delivery.Payload.{Fault, bytes_at, Holds}
use usbscope.Kernel.Delivery.Records.{Records, publish_event-Records}
use usbscope.Kernel.Delivery.Readings.{Plain, plain_meta}
use usbscope.Kernel.Delivery.Reports.{
  payload_due, reported, KnownEvent, reported-MetaInRange, reported-Declares, reported-MetaIsValid,
}
use usbscope.Capture.Event.{Reliable}
use usbscope.Live.Outcome.{Drains}
use usbscope.Live.Delivery.{records-Drains}

-- An URB whose data is longer than its buffer, or whose buffer is longer than an i32.
abbrev pub Unsuitable : UrbFields → ℕ → Type 0
Unsuitable f event_type =
    (f.transfer_buffer_length < payload_due f event_type) ⊎ (2 ^ 31 - 1 < f.transfer_buffer_length)

-- The length of the payload as `emit` finds it.
abbrev due : EventMeta → ℕ
due m =
    if carries_data m
    then (if m.event_type == b'S' then m.requested_len else m.actual_len)
    else m.payload_len

-- The metadata of an URB before its payload is measured.
abbrev pub read_meta : UrbFields → ℕ → ℕ → ℤ → ℕ → List ℕ → ℕ → EventMeta
read_meta f urb_id event_type status time setup present =
    record (plain_meta f (observed_meta urb_id event_type time)) {
      setup = setup;
      setup_present = present;
      status = status;
    }

module _ (w : World) (mem : ℕ → ℕ) (holds : Holds w mem) where
  emit_read-Records :
      (address : ℕ) (m : EventMeta) (buffer : ℕ) (k : Kernel)
      → m.transfer_type ≢ 0
      → due m < 2 ^ 32
      → buffer + due m < 2 ^ 64
      → Records w mem holds
          (with_payload m (due m))
          buffer
          (next_u64 k.sequence)
          k.ring
          (emit_read w address m buffer 0 k).1.ring
  unfolding emit_read measure ◌>>=◌ pure ask next_id
  emit_read-Records address m buffer k not_iso small room =
      let other : (m.transfer_type == 0) ≡ false = ground (arith, not_iso) in
      rw other (
        publish_event-Records w mem holds address (with_payload m (due m)) buffer
          (next_u64 k.sequence) _ _ not_iso small room)

  due-payload_due :
      (f : UrbFields) (urb_id event_type : ℕ) (status : ℤ) (time : ℕ) (setup : List ℕ) (present : ℕ)
      → due (read_meta f urb_id event_type status time setup present) ≡ payload_due f event_type
  unfolding carries_data
  due-payload_due f urb_id event_type status time setup present =
      let bit : (f.endpoint_address % 16 + 128 * (f.transfer_flags / 2 ^ 9 % 2)) / 2 ^ 7 % 2
          ≡ f.transfer_flags / 2 ^ 9 % 2 =
        omega arith in
      rw bit (ground arith)

  pub seen-Drains :
      {S : Spool} (reliable : Reliable S) (r : Reassembler S) (address : ℕ) (f : UrbFields)
      (urb_id event_type : ℕ) (status : ℤ) (time : ℕ) (setup : List ℕ) (present : ℕ) (k : Kernel)
      → Plain f
      → KnownEvent event_type
      → urb_id < 2 ^ 64
      → IsI32 status
      → time < 2 ^ 64
      → (length setup ≡ 8) × All IsByte setup
      → present ≤ 1
      → find (next_u64 k.sequence) r.pending ≡ none
      → length r.pending < max_pending_events
      → Drains
          (Fault w f.transfer_buffer ⊎ Unsuitable f event_type)
          r
          (reported f urb_id event_type status time setup present)
          (next_u64 k.sequence)
          (bytes_at mem f.transfer_buffer (payload_due f event_type))
          k.ring
          (emit_read w address
            (read_meta f urb_id event_type status time setup present)
            f.transfer_buffer
            0
            k).1.ring
  seen-Drains reliable r address f urb_id event_type status time setup present k p known id_fits
        status_fits time_fits sized flag free room =
      let mm = read_meta f urb_id event_type status time setup present in
      let m = reported f urb_id event_type status time setup present in
      let same = due-payload_due f urb_id event_type status time setup present in
      let d =
        reported-Declares f urb_id event_type status time setup present p known id_fits status_fits
          time_fits sized flag in
      let fits =
        reported-MetaInRange f urb_id event_type status time setup present p known id_fits
          status_fits time_fits sized flag in
      let valid =
        reported-MetaIsValid f urb_id event_type status time setup present p known id_fits
          status_fits time_fits sized flag in
      let after = (emit_read w address mm f.transfer_buffer 0 k).1.ring in
      let records =
        emit_read-Records address mm f.transfer_buffer k d.not_iso (omega (arith, same, d.small))
          (omega (arith, same, d.small, p.placed)) in
      let whole : with_payload mm (due mm) ≡ m = ap (with_payload mm) same in
      records-Drains reliable r w mem holds m f.transfer_buffer (next_u64 k.sequence) (omega arith)
        fits d free room k.ring after valid
        (subst (λ x. Records w mem holds x f.transfer_buffer (next_u64 k.sequence) k.ring after)
          whole records)
