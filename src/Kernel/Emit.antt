-- ===== src/Kernel/Emit.antt =====
-- crates/usbscope-ebpf/src/main.rs, `emit`: the records of one observation.
use usbscope.Prelude.{
  ℕ, ◌+◌, ◌-◌, ◌/◌, ◌%◌, ◌^◌, Bool, true, false, not, ◌&&◌, ◌||◌, Option, none, some, List, ◌++◌,
  ltb, ◌==◌, if◌then◌else◌,
}
use usbscope.Prelude.Int.{ℤ}
use usbscope.Common.Meta.{
  EventMeta, default_meta, record_begin, record_end, loss_read, loss_unsupported_buffer,
}
use usbscope.Common.Wire.{encode_meta, encode_end}
use usbscope.Kernel.Machine.{
  CaptureConfig, World, Action, pure, ◌>>=◌, ◌>>◌, ask, count, next_id, submit_record, bpf_loop,
  ring_losses_field, read_errors_field, unsupported_buffers_field,
}
use usbscope.Kernel.Urb.{core_read_urb}
use usbscope.Kernel.Copy.{CopyContext, header, copy_callback, chunks_of}
use usbscope.Kernel.Scatter.{copy_sg}
use usbscope.Kernel.Iso.{IsoContext, iso_measure, iso_emit, iso_lost}

-- Whether an event of this type and direction carries data.
unfoldable pub carries_data : EventMeta → Bool
carries_data m =
    (m.event_type == b'S' && m.endpoint / 2 ^ 7 % 2 == 0)
    || (m.event_type == b'C' && not (m.endpoint / 2 ^ 7 % 2 == 0))

abbrev pub new_copy : ℕ → ℕ → ℕ → CopyContext
new_copy source event_id total = record {
  source = source;
  destination = 0;
  event_id = event_id;
  total = total;
  reason = 0;
  copied = 0;
}

abbrev pub new_iso : EventMeta → ℕ → ℕ → ℕ → IsoContext
new_iso m address buffer event_id = record {
  address = address;
  copy = new_copy buffer event_id 0;
  requested = m.requested_len;
  submission = m.event_type == b'S';
  data_phase = carries_data m;
  span = 0;
  descriptors = 0;
}

-- meta.payload_len, and has_data by it
abbrev pub with_payload : EventMeta → ℕ → EventMeta
with_payload m n = record m { payload_len = n; has_data = if n == 0 then 0 else 1 }

-- The metadata with the length of the payload, and the context of the ISO frames behind the
-- measuring; none where a frame cannot be read.
unfoldable pub measure : World → EventMeta → IsoContext → Action (Option (EventMeta × IsoContext))
unfolding iso_measure carries_data
measure w m iso =
    if m.transfer_type == 0
    then (do
      (ran, c) ← bpf_loop (iso_measure w) w m.iso_count iso
      (if not ran || not (c.copy.reason == 0)
          then (do count read_errors_field; pure none)
          else pure (some (with_payload m (if carries_data m then c.span else m.payload_len), c))))
    else pure (
        some (
          with_payload m (
              if carries_data m
              then (if m.event_type == b'S' then m.requested_len else m.actual_len)
              else m.payload_len),
          iso,
        ))

-- What the copies leave for the END record.
pub record Copied : Type 0 where
  pub copied : ℕ
  pub descriptors : ℕ
  pub reason : ℕ

abbrev pub copied_of : CopyContext → Copied
copied_of c = record { copied = c.copied; descriptors = 0; reason = c.reason }

abbrev iso_copied : IsoContext → Copied
iso_copied c = record {
  copied = c.copy.copied;
  descriptors = c.descriptors;
  reason = c.copy.reason;
}

unfoldable pub copy_iso : World → EventMeta → ℕ → ℕ → IsoContext → Action Copied
unfolding iso_emit
copy_iso w m buffer segments iso =
    if not (m.payload_len == 0) && (not (segments == 0) || buffer == 0)
    then (do
      count unsupported_buffers_field
      pure (iso_copied (iso_lost loss_unsupported_buffer iso)))
    else (do
      (ran, c) ← bpf_loop (iso_emit w) w m.iso_count iso
      (if ran
          then pure (iso_copied c)
          else (do count read_errors_field; pure (iso_copied (iso_lost loss_read c)))))

unfoldable pub copy_buffer : World → CopyContext → Action Copied
unfolding copy_callback
copy_buffer w c = do
  (ran, copy) ← bpf_loop (copy_callback w) w (chunks_of c.total % 2 ^ 32) c
  (if ran
      then pure (copied_of copy)
      else (do count read_errors_field; pure (copied_of (record copy { reason = loss_read }))))

-- The records between BEGIN and END.
unfoldable pub copy_payload : World → ℕ → EventMeta → ℕ → ℕ → ℕ → IsoContext → Action Copied
unfolding copy_iso copy_buffer copy_sg
copy_payload w address m buffer segments event_id iso =
    let copy = new_copy buffer event_id m.payload_len in
    if m.transfer_type == 0
    then copy_iso w m buffer segments iso
    else if m.payload_len == 0
    then pure (copied_of copy)
    else if not (segments == 0)
    then (copy_sg w address segments copy >>= λ c. pure (copied_of c))
    else if buffer == 0
    then (do
      count unsupported_buffers_field
      pure (copied_of (record copy { reason = loss_unsupported_buffer })))
    else copy_buffer w copy

-- A record in a reservation of its size, or the loss of it: whether it was submitted
unfoldable pub publish_record : World → ℕ → List ℕ → Action Bool
publish_record w size bytes = do
  room ← ask (λ t. w.has_room t size)
  (if room then (do submit_record bytes; pure true) else (do count ring_losses_field; pure false))

unfoldable pub publish_end : World → ℕ → Copied → Action (Unit {0})
unfolding publish_record header
publish_end w event_id done = do
  _ ← publish_record w 40 (
      header w.host record_end event_id 40 0
      ++ encode_end w.host (record {
        copied_bytes = done.copied;
        descriptors = done.descriptors;
        reason = done.reason;
      }))
  pure tt

-- The records of an event whose payload is measured.
unfoldable pub publish_event : World → ℕ → EventMeta → ℕ → ℕ → ℕ → IsoContext → Action (Unit {0})
unfolding copy_payload publish_end
publish_event w address m buffer segments event_id iso =
    if ltb m.requested_len m.payload_len || ltb (2 ^ 31 - 1) m.requested_len
    then count read_errors_field
    else (do
      begun ← publish_record w 96 (header w.host record_begin event_id 96 0 ++ encode_meta w.host m)
      (if not begun then pure tt else (do
        done ← copy_payload w address m buffer segments event_id iso
        publish_end w event_id done)))

-- The metadata before the URB is read.
abbrev pub observed_meta : ℕ → ℕ → ℕ → EventMeta
observed_meta urb_id event_type now = record default_meta {
  urb_id = urb_id;
  event_type = event_type;
  timestamp_ns = now;
}

-- An URB that was read.
unfoldable pub emit_read : World → ℕ → EventMeta → ℕ → ℕ → Action (Unit {0})
unfolding measure publish_event
emit_read w address m buffer segments = do
  event_id ← next_id
  readable ← ask (λ t. w.reads_stack t)
  found ← measure w m (new_iso m (if readable then address else 0) buffer event_id)
  elim found [
    | none ↦ pure tt
    | some (whole, iso) ↦ publish_event w address whole buffer segments event_id iso
  ]

-- What follows the reading of an URB.
unfoldable pub emit_reading : World → ℕ → ℤ → Option (EventMeta × ℕ × ℕ) → Action (Unit {0})
unfolding emit_read
emit_reading w address status read = elim read [
  | none ↦ count read_errors_field
  | some (m, buffer, segments) ↦ emit_read w address (record m { status = status }) buffer segments
]

unfoldable pub emit_configured : World → CaptureConfig → ℕ → ℕ → ℕ → ℤ → Action (Unit {0})
unfolding emit_reading core_read_urb
emit_configured w config address urb_id event_type status = do
  clock ← ask (λ t. w.clock_ns t)
  read ←
      core_read_urb w address
        (observed_meta urb_id event_type ((clock + config.epoch_offset_ns) % 2 ^ 64))
  emit_reading w address status read

unfoldable pub emit : World → ℕ → ℕ → ℕ → ℤ → Action (Unit {0})
unfolding emit_configured
emit w address urb_id event_type status = elim w.config [
  | none ↦ pure tt
  | some config ↦ emit_configured w config address urb_id event_type status
]
