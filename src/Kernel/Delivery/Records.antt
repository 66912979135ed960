-- ===== src/Kernel/Delivery/Records.antt =====
-- crates/usbscope-ebpf/src/main.rs, `emit`: the records of one observation of an URB with one buffer
-- that is not isochronous.
use usbscope.Prelude.{
  ℕ, ◌+◌, ◌-◌, ◌^◌, ◌<◌, ◌≤◌, ◌≡◌, ◌≢◌, ◌⊎◌, inl, inr, refl, arith, Bool, true, false, Bool-cases,
  ltb→lt, List, [], ◌∷◌, ◌++◌, ltb, ◌||◌,
}
use usbscope.Common.Meta.{EventMeta, record_begin, record_end}
use usbscope.Common.Wire.{Endian, encode_meta, encode_end}
use usbscope.Kernel.Machine.{World, Kernel, pure, ◌>>=◌, ask, count, submit_record}
use usbscope.Kernel.Copy.{header}
use usbscope.Kernel.Iso.{IsoContext}
use usbscope.Kernel.Emit.{Copied, copy_payload, publish_record, publish_end, publish_event}
use usbscope.Kernel.Delivery.Payload.{Fault, no_room, Holds}
use usbscope.Kernel.Delivery.Copies.{Copies, copy_payload-Copies}

abbrev pub begin_item : Endian → ℕ → EventMeta → List ℕ
begin_item host id m = header host record_begin id 96 0 ++ encode_meta host m

abbrev pub end_item : Endian → ℕ → Copied → List ℕ
end_item host id done =
    header host record_end id 40 0
    ++ encode_end host (record {
      copied_bytes = done.copied;
      descriptors = done.descriptors;
      reason = done.reason;
    })

-- A payload that is longer than the buffer, or a buffer that is longer than an i32.
abbrev pub TooLong : EventMeta → Type 0
TooLong m = (m.requested_len < m.payload_len) ⊎ (2 ^ 31 - 1 < m.requested_len)

TooLong-cases :
    (m : EventMeta)
    → (ltb m.requested_len m.payload_len || ltb (2 ^ 31 - 1) m.requested_len) ≡ true
    → TooLong m
TooLong-cases m h = elim (Bool-cases (ltb m.requested_len m.payload_len)) [
  | inl e ↦ inl (ltb→lt _ _ e)
  | inr e ↦ inr (ground (arith, e, h))
]

module _ (w : World) (mem : ℕ → ℕ) (holds : Holds w mem) where
  -- No record, or a begin record with fragments behind it, and perhaps an end record behind those.
  pub data Records (m : EventMeta) (buffer id : ℕ) (before after : List (List ℕ)) : Type 0 where
    no_records :
        (same : after ≡ before) (why : Fault w buffer ⊎ TooLong m)
        → Records m buffer id before after
    unfinished :
        (within : m.payload_len ≤ m.requested_len) (k1 : Kernel) (r : Copied × Kernel)
        (begun : k1.ring ≡ before ++ (begin_item w.host id m ∷ []))
        (copies : Copies w mem holds m buffer id k1 r) (same : after ≡ r.1.ring)
        (why : Fault w buffer)
        → Records m buffer id before after
    finished :
        (within : m.payload_len ≤ m.requested_len) (k1 : Kernel) (r : Copied × Kernel)
        (begun : k1.ring ≡ before ++ (begin_item w.host id m ∷ []))
        (copies : Copies w mem holds m buffer id k1 r)
        (ended : after ≡ r.1.ring ++ (end_item w.host id r.0 ∷ []))
        → Records m buffer id before after

  publish_record-cases :
      (size : ℕ) (bytes : List ℕ) (k : Kernel)
      → let r = publish_record w size bytes k in
        ((r.0 ≡ true) × (r.1.ring ≡ k.ring ++ (bytes ∷ [])))
        ⊎ ((r.0 ≡ false) × ((r.1.ring ≡ k.ring) × (w.has_room k.tick size ≡ false)))
  unfolding publish_record ◌>>=◌ pure ask submit_record count
  publish_record-cases size bytes k = elim (Bool-cases (w.has_room k.tick size)) [
    | inl e ↦ rw e (inl (refl, refl))
    | inr e ↦ rw e (inr (refl, (refl, refl)))
  ]

  -- The run that publishes the begin record.
  abbrev begin_run : EventMeta → ℕ → Kernel → Bool × Kernel
  begin_run m id = publish_record w 96 (begin_item w.host id m)

  pub publish_event-Records :
      (address : ℕ) (m : EventMeta) (buffer id : ℕ) (iso : IsoContext) (k : Kernel)
      → m.transfer_type ≢ 0
      → m.payload_len < 2 ^ 32
      → buffer + m.payload_len < 2 ^ 64
      → Records m buffer id k.ring (publish_event w address m buffer 0 id iso k).1.ring
  unfolding publish_event publish_end ◌>>=◌ pure count
  publish_event-Records address m buffer id iso k not_iso small room =
      elim (Bool-cases (ltb m.requested_len m.payload_len || ltb (2 ^ 31 - 1) m.requested_len)) [
        | inl e ↦ rw e (no_records refl (inr (TooLong-cases m e)))
        | inr e ↦
            let within : m.payload_len ≤ m.requested_len = ground (arith, e) in
            elim (publish_record-cases 96 (begin_item w.host id m) k) [
              | inr (f, (same, full)) ↦ rw (e, f) (no_records same (inl (no_room _ _ full)))
              | inl (f, begun) ↦
                  let k1 = (begin_run m id k).1 in
                  let c =
                    copy_payload-Copies w mem holds address m buffer id iso k1 not_iso small room in
                  let r = copy_payload w address m buffer 0 id iso k1 in
                  elim (publish_record-cases 40 (end_item w.host id r.0) r.1) [
                    | inl (g, ended) ↦ rw (e, f) (finished within k1 r begun c ended)
                    | inr (g, (same, full)) ↦
                        rw (e, f) (unfinished within k1 r begun c same (no_room _ _ full))
                  ]
            ]
      ]
