-- ===== src/Live/Observation.antt =====
-- crates/usbscope-ebpf/src/main.rs, `emit`, with the drain of src/live.rs: one observation of an URB,
-- from its fields and its buffer to the event that is delivered.
use usbscope.Prelude.{
  ℕ, ◌+◌, ◌%◌, ◌^◌, ◌<◌, ◌≤◌, ◌≡◌, ◌⊎◌, inl, inr, refl, ap, sym, subst, ◌∙◌, arith, Option, none,
  some, Option-cases, List, All, length,
}
use usbscope.Prelude.Int.{ℤ}
use usbscope.Prelude.Bytes.{IsByte}
use usbscope.Common.Meta.{EventMeta, IsI32, default_meta}
use usbscope.Capture.Event.{Spool}
use usbscope.Capture.Reassembler.State.{Reassembler, find, max_pending_events}
use usbscope.Kernel.Machine.{
  World, Kernel, Action, pure, ◌>>=◌, ask, count, next_u64, UrbFields, CaptureConfig,
}
use usbscope.Kernel.Urb.{core_read_urb}
use usbscope.Kernel.Emit.{emit_read, emit_reading, emit_configured, emit, observed_meta}
use usbscope.Kernel.Delivery.Payload.{Fault, bytes_at, Holds}
use usbscope.Kernel.Delivery.Readings.{
  PlainWorld, IsControlSubmission, SetupFails, failed, filled, core_read_urb-Reading,
}
use usbscope.Kernel.Delivery.Reports.{payload_due, reported, KnownEvent}
use usbscope.Capture.Event.{Reliable}
use usbscope.Live.Outcome.{Drains}
use usbscope.Live.Measured.{Unsuitable, read_meta, seen-Drains}

-- The setup packet of an event: what is read at the tick for a control submission, and otherwise the
-- eight zeros of an event that has none.
abbrev pub Packet : UrbFields → ℕ → World → ℕ → ℕ → List ℕ → ℕ → Type 0
Packet f event_type w t address setup present =
    ((¬ IsControlSubmission f event_type) × (setup ≡ default_meta.setup) × (present ≡ 0))
    ⊎ (IsControlSubmission f event_type × (w.setup_packet t address ≡ some setup) × (present ≡ 1))

-- What an observation leaves: no record, or records that drain to the event.
pub data Observation {S : Spool} (r : Reassembler S) (w : World) (mem : ℕ → ℕ)
    (address urb_id event_type : ℕ) (status : ℤ) (k k' : Kernel) : Type 0 where
  silent :
      (same : k'.ring ≡ k.ring)
      (why : (w.config ≡ none)
        ⊎ ((w.urb_fields (k.tick + 1) address ≡ none)
            ⊎ SetupFails w (k.tick + 1) address event_type))
      → Observation r w mem address urb_id event_type status k k'
  seen :
      (config : CaptureConfig) (f : UrbFields) (setup : List ℕ) (present : ℕ)
      (configured : w.config ≡ some config) (found : w.urb_fields (k.tick + 1) address ≡ some f)
      (packet : Packet f event_type w (k.tick + 1 + 1) address setup present)
      (drains : Drains
        (Fault w f.transfer_buffer ⊎ Unsuitable f event_type)
        r
        (reported f urb_id event_type status
          ((w.clock_ns k.tick + config.epoch_offset_ns) % 2 ^ 64)
          setup
          present)
        (next_u64 k.sequence)
        (bytes_at mem f.transfer_buffer (payload_due f event_type))
        k.ring
        k'.ring)
      → Observation r w mem address urb_id event_type status k k'

Packet-sized :
    (f : UrbFields) (event_type : ℕ) (w : World) (t address : ℕ) (setup : List ℕ) (present : ℕ)
    → PlainWorld w
    → Packet f event_type w t address setup present
    → ((length setup ≡ 8) × All IsByte setup) × (present ≤ 1)
Packet-sized f event_type w t address setup present p (inl (_, same, absent)) = (
  subst (λ x. (length x ≡ 8) × All IsByte x) (sym same) (refl, omega arith),
  omega (arith, absent),
)
Packet-sized f event_type w t address setup present p (inr (_, read, there)) =
    (p.setup t address setup read, omega (arith, there))

-- The part of `emit` behind a reading.
emit-emit_read :
    (w : World) (address urb_id event_type : ℕ) (status : ℤ) (k : Kernel) (config : CaptureConfig)
    (m : EventMeta) (buffer segments : ℕ)
    → w.config ≡ some config
    → let r1 =
        core_read_urb w address
          (observed_meta urb_id event_type ((w.clock_ns k.tick + config.epoch_offset_ns) % 2 ^ 64))
          (record k { tick = k.tick + 1 }) in
      r1.0 ≡ some (m, buffer, segments)
      → emit w address urb_id event_type status k
        ≡ emit_read w address (record m { status = status }) buffer segments r1.1
unfolding emit ◌>>=◌ pure ask
emit-emit_read w address urb_id event_type status k config m buffer segments e whole =
    ap
      (λ (o : Option CaptureConfig).
        (elim o as (λ x. Action (Unit {0})) [
          | none ↦ pure tt
          | some c ↦ emit_configured w c address urb_id event_type status
        ])
          k)
      e
    ∙ ap
        (λ o.
          emit_reading w address status o
            (core_read_urb w address
              (observed_meta urb_id event_type
                ((w.clock_ns k.tick + config.epoch_offset_ns) % 2 ^ 64))
              (record k { tick = k.tick + 1 })).1)
        whole

-- Over memory that holds still, in a world whose URBs are not isochronous, have one buffer that does
-- not wrap around, a device address up to 127, setup packets of 8 bytes and fields in the ranges of
-- their types, with a reassembler whose files do not fail, that has room and has no event of the
-- next number, for an event of type S, C or E with an URB number of 64 bits and a status of 32: an
-- observation publishes nothing if there is no configuration, if the fields of the URB cannot be
-- read, or if they are those of a control submission whose setup packet cannot be read; otherwise
-- the drain accepts what it publishes without an error, and delivers nothing or exactly one event,
-- whose metadata is what the URB's fields say, with the setup packet that was read for a control
-- submission and without one for any other event, whose payload is what the buffer holds, as long as
-- the direction and the type of the event ask for, and which is counted as complete. It delivers
-- nothing only if the ring had no room, a read of the memory failed, bpf_loop did not run, the URB
-- has no buffer, or its data or buffer is too long.
pub emit-Observation :
    {S : Spool} (reliable : Reliable S) (r : Reassembler S) (w : World) (mem : ℕ → ℕ)
    (address urb_id event_type : ℕ) (status : ℤ) (k : Kernel)
    → Holds w mem
    → PlainWorld w
    → KnownEvent event_type
    → urb_id < 2 ^ 64
    → IsI32 status
    → find (next_u64 k.sequence) r.pending ≡ none
    → length r.pending < max_pending_events
    → Observation r w mem address urb_id event_type status k
        (emit w address urb_id event_type status k).1
unfolding emit ◌>>=◌ pure ask count
emit-Observation reliable r w mem address urb_id event_type status k holds plain known id_fits
      status_fits free room =
    elim (Option-cases w.config) [
      | inl e ↦ rw e (silent refl (inl refl))
      | inr (config, e) ↦
          let time = (w.clock_ns k.tick + config.epoch_offset_ns) % 2 ^ 64 in
          let k1 : Kernel = record k { tick = k.tick + 1 } in
          elim (core_read_urb-Reading w address (observed_meta urb_id event_type time) k1 plain) [
            | failed unread same why ↦ rw (e, unread) (silent same (inr why))
            | filled f setup present found whole packet same sequence ↦
                let p = plain.plain (k.tick + 1) address f found in
                let r1 = core_read_urb w address (observed_meta urb_id event_type time) k1 in
                let (sized, flag) =
                  Packet-sized f event_type w (k.tick + 1 + 1) address setup present plain packet in
                let drains =
                  seen-Drains w mem holds reliable r address f urb_id event_type status time setup
                    present r1.1 p known id_fits status_fits (omega arith) sized flag
                    (subst (λ n. find (next_u64 n) r.pending ≡ none) (sym sequence) free) room in
                let placed : emit w address urb_id event_type status k
                    ≡ emit_read w address (read_meta f urb_id event_type status time setup present)
                        f.transfer_buffer 0 r1.1 =
                  emit-emit_read w address urb_id event_type status k config _ _ _ e whole
                  ∙ ap
                      (λ n.
                        emit_read w address
                          (read_meta f urb_id event_type status time setup present)
                          f.transfer_buffer n r1.1)
                      p.one_buffer in
                let m = reported f urb_id event_type status time setup present in
                let bytes = bytes_at mem f.transfer_buffer (payload_due f event_type) in
                let after =
                  (emit_read w address (read_meta f urb_id event_type status time setup present)
                    f.transfer_buffer 0 r1.1).1.ring in
                subst (λ x. Observation r w mem address urb_id event_type status k x.1) (sym placed)
                  (seen config f setup present e found packet (
                    subst
                      (λ n.
                        Drains (Fault w f.transfer_buffer ⊎ Unsuitable f event_type) r m
                          (next_u64 n) bytes k.ring after)
                      sequence
                      (subst
                        (λ x.
                          Drains (Fault w f.transfer_buffer ⊎ Unsuitable f event_type) r m
                            (next_u64 r1.1.sequence) bytes x after)
                        same drains)))
          ]
    ]
