-- ===== src/Kernel/Iso.antt =====
-- crates/usbscope-ebpf/src/main.rs: the frames of an isochronous URB, `iso_measure` and `iso_emit`.
use usbscope.Prelude.{
  ℕ, ◌+◌, ◌%◌, ◌^◌, max, Bool, true, false, not, ◌&&◌, Option, none, some, ◌++◌, ltb, ◌==◌,
  if◌then◌else◌,
}
use usbscope.Common.Meta.{IsoDescriptor, record_iso, loss_ring, loss_read}
use usbscope.Common.Wire.{encode_iso}
use usbscope.Kernel.Machine.{
  World, Action, pure, ◌>>=◌, ◌>>◌, ask, count, submit_record, bpf_loop, ring_losses_field,
  read_errors_field,
}
use usbscope.Kernel.Urb.{core_read_iso}
use usbscope.Kernel.Copy.{CopyContext, header, copy_callback, chunks_of}

pub record IsoContext : Type 0 where
  pub address : ℕ
  pub copy : CopyContext
  pub requested : ℕ
  pub submission : Bool
  pub data_phase : Bool
  pub span : ℕ
  pub descriptors : ℕ

-- context.copy.reason = reason
abbrev pub iso_lost : ℕ → IsoContext → IsoContext
iso_lost reason c = record c { copy = record (c.copy) { reason = reason } }

-- A frame that was read, or not: whether the loop stops, and the span so far.
unfoldable pub measured : IsoContext → Option IsoDescriptor → Bool × IsoContext
measured c none = (true, iso_lost loss_read c)
measured c (some d) =
    let end = d.offset + d.length in
    if ltb c.requested end
    then (true, iso_lost loss_read c)
    else if not (d.length == 0)
    then (false, record c { span = max c.span (end % 2 ^ 32) })
    else (false, c)

unfoldable pub iso_measure : World → ℕ → IsoContext → Action (Bool × IsoContext)
unfolding core_read_iso measured
iso_measure w index c = do d ← core_read_iso w c.address index c.submission; pure (measured c d)

-- The bytes of a frame, and what is left of the event after them.
unfoldable pub copy_frame : World → IsoContext → IsoDescriptor → Action (Bool × IsoContext)
copy_frame w c d = do
  (ran, copy) ← bpf_loop (copy_callback w) w (chunks_of d.length % 2 ^ 32) (record {
    source = (c.copy.source + d.offset) % 2 ^ 64;
    destination = d.offset;
    event_id = c.copy.event_id;
    total = d.length;
    reason = 0;
    copied = 0;
  })
  let added = record c {
    copy = record (c.copy) {
      copied = (c.copy.copied + copy.copied) % 2 ^ 64;
      reason = copy.reason;
    };
  }
  (if not ran
      then (do count read_errors_field; pure (true, iso_lost loss_read added))
      else pure (not (copy.reason == 0), added))

-- The record of a descriptor, then the bytes of its frame.
unfoldable pub emit_descriptor : World → ℕ → IsoContext → IsoDescriptor → Action (Bool × IsoContext)
unfolding copy_frame header
emit_descriptor w index c d = do
  room ← ask (λ t. w.has_room t 40)
  (if not room then (do count ring_losses_field; pure (true, iso_lost loss_ring c)) else (do
    submit_record (header w.host record_iso c.copy.event_id 40 index ++ encode_iso w.host d)
    let counted = record c { descriptors = (c.descriptors + 1) % 2 ^ 32 }
    (if c.data_phase && not (d.length == 0)
        then copy_frame w counted d
        else pure (false, counted))))

unfoldable pub iso_emit : World → ℕ → IsoContext → Action (Bool × IsoContext)
unfolding core_read_iso emit_descriptor
iso_emit w index c = do
  d ← core_read_iso w c.address index c.submission
  elim d [
    | none ↦ (do count read_errors_field; pure (true, iso_lost loss_read c))
    | some descriptor ↦ emit_descriptor w index c descriptor
  ]
