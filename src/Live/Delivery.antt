-- ===== src/Live/Delivery.antt =====
-- src/live.rs with crates/usbscope-ebpf/src/main.rs: what is delivered of the records that one
-- observation published, on a host of either byte order, by a reassembler whose files are reliable.
use usbscope.Prelude.{
  ℕ, ◌+◌, ◌^◌, ◌<◌, ◌≤◌, ◌≡◌, ◌⊎◌, refl, ap, sym, subst, ◌∙◌, arith, List, [], ◌∷◌, inl, inr, ◌++◌,
  length, append-nil, Option, none, some,
}
use usbscope.Prelude.Result.{ok}
use usbscope.Common.Meta.{EventMeta, MetaInRange, record_begin, record_end}
use usbscope.Common.Wire.{encode_meta, encode_end}
use usbscope.Capture.Event.{Spool, Event}
use usbscope.Capture.Decode.RoundTrip.{MetaIsValid, decode_meta-encode_meta, length-encode_meta}
use usbscope.Capture.Reassembler.State.{Reassembler, find, erase, max_pending_events}
use usbscope.Capture.Reassembler.Push.{push_frame}
use usbscope.Kernel.Machine.{World, Kernel}
use usbscope.Kernel.Emit.{Copied}
use usbscope.Kernel.Delivery.Payload.{Fault, bytes_at, length-bytes_at, Holds, items_of, payload_of}
use usbscope.Kernel.Delivery.Copies.{Copies}
use usbscope.Kernel.Delivery.Records.{
  TooLong, begin_item, end_item, Records, no_records, unfinished, finished,
}
use usbscope.Live.Drain.{drain, delivered}
use usbscope.Capture.Event.{Reliable}
use usbscope.Live.Building.{Building, begin-Building}
use usbscope.Live.Ending.{Declares, end-whole, end-lost, length-encode_end}
use usbscope.Live.Arrival.{drain-accepted, fragments-Building}
use usbscope.Live.Outcome.{nothing, waiting, counted, arrived, Drains}
use usbscope.Live.Framing.{begin_item-lem, end_of, end_item-lem, gathered}

module _ {S : Spool} (reliable : Reliable S) (r : Reassembler S) (w : World) (mem : ℕ → ℕ)
    (holds : Holds w mem) (m : EventMeta) (buffer id : ℕ) (small_id : id < 2 ^ 64)
    (fits : MetaInRange m) (d : Declares m) (free : find id r.pending ≡ none)
    (room : length r.pending < max_pending_events) where
  -- The begin record and the fragments behind it, in front of what follows.
  begun-Building :
      (k : Kernel) (c : Copied × Kernel) (copies : Copies w mem holds m buffer id k c)
      (more : List (List ℕ))
      → MetaIsValid m
      → (r2 : Reassembler S) × Building r2 id m
          (payload_of copies.fragments)
          (erase id r.pending)
          r.stats
        × ((es : List (Event S)) (r'' : Reassembler S)
            → drain r2 more ≡ ok (es, r'')
            → drain r (begin_item w.host id m ∷ (items_of w.host id 0 copies.fragments ++ more))
              ≡ ok (es, r''))
  begun-Building k c copies more valid =
      let body = encode_meta w.host m in
      let decoded = (decode_meta-encode_meta w.host m fits).1 valid in
      let (r1, accepted, b1) = begin-Building reliable r id m body free room decoded in
      let size = length-bytes_at mem buffer copies.size in
      let whole = ap length copies.payload in
      let (r2, b2, rest) =
        fragments-Building reliable w.host id m small_id d.not_iso d.small (erase id r.pending)
          r.stats more r1 [] copies.fragments b1 copies.sendable
          (omega (arith, size, whole, copies.bound)) in
      (
        r2,
        b2,
        λ es r'' h.
            subst
              (λ x. drain r (x ∷ (items_of w.host id 0 copies.fragments ++ more)) ≡ ok (es, r''))
              (sym (begin_item-lem w.host id m fits))
              (drain-accepted r r1 r'' record_begin id 0 w.host body [] none _ es (omega arith)
                small_id (omega arith) (omega (arith, length-encode_meta w.host m fits)) accepted
                (rest es r'' h)),
      )

  -- The end record, the last of the items.
  end_drains :
      (r2 r3 : Reassembler S) (done : Copied) (e : Option (Event S))
      → push_frame r2 (record {
        kind = record_end;
        id = id;
        offset = 0;
        body = encode_end w.host (end_of done);
      })
        ≡ ok (e, r3)
      → drain r2 (end_item w.host id done ∷ []) ≡ ok (delivered e ++ [], r3)
  unfolding drain
  end_drains r2 r3 done e accepted =
      subst (λ x. drain r2 (x ∷ []) ≡ ok (delivered e ++ [], r3))
        (sym (end_item-lem w.host id done))
        (drain-accepted r2 r3 r3 record_end id 0 w.host (encode_end w.host (end_of done)) [] e [] []
          (omega arith) small_id (omega arith)
          (omega (arith, length-encode_end w.host (end_of done))) accepted refl)

  pub records-Drains :
      (before after : List (List ℕ))
      → (m.payload_len ≤ m.requested_len → MetaIsValid m)
      → Records w mem holds m buffer id before after
      → Drains (Fault w buffer ⊎ TooLong m) r m id (bytes_at mem buffer m.payload_len) before after
  unfolding drain
  records-Drains before after valid (no_records same why) = record {
    items = [];
    appended = same ∙ sym (append-nil before);
    events = [];
    next = r;
    drained = refl;
    arrival = nothing refl refl why;
  }
  records-Drains before after valid (unfinished within k1 c begun copies same why) =
      let (r2, b, rest) = begun-Building k1 c copies [] (valid within) in
      let items = begin_item w.host id m ∷ (items_of w.host id 0 copies.fragments ++ []) in
      record {
        items = items;
        appended =
            same
            ∙ sym (append-nil c.1.ring)
            ∙ gathered before k1.ring c.1.ring _ (begin_item w.host id m) [] begun copies.ring;
        events = [];
        next = r2;
        drained = rest [] r2 refl;
        arrival = waiting refl b.pending b.found b.others b.counted (inl why);
      }
  records-Drains before after valid (finished within k1 c begun copies ended) =
      let last = end_item w.host id c.0 in
      let (r2, b, rest) = begun-Building k1 c copies (last ∷ []) (valid within) in
      let items = begin_item w.host id m ∷ (items_of w.host id 0 copies.fragments ++ (last ∷ [])) in
      let appended : after ≡ before ++ items =
        ended
        ∙ gathered before k1.ring c.1.ring _ (begin_item w.host id m) (last ∷ []) begun
            copies.ring in
      elim copies.outcome [
        | inr (lost, (small, why)) ↦
            let accepted = end-lost r2 id m _ _ _ b d w.host (end_of c.0) lost small in
            record {
              items = items;
              appended = appended;
              events = [];
              next = _;
              drained = rest [] _ (end_drains r2 _ c.0 none accepted);
              arrival = counted refl refl (inl why);
            }
        | inl (fine, (copied, whole)) ↦
            let size = ap length copies.payload ∙ length-bytes_at mem buffer copies.size in
            let e : end_of c.0 ≡ record {
              copied_bytes = length (payload_of copies.fragments);
              descriptors = 0;
              reason = 0;
            } =
              λ i. record {
                copied_bytes = (copied ∙ sym size) i;
                descriptors = copies.no_frames i;
                reason = fine i;
              } in
            let completed : Reassembler S = record {
              pending = erase id r.pending;
              stats = record (r.stats) { complete_events = r.stats.complete_events + 1 };
            } in
            let all_there = end-whole r2 id m _ _ _ b d w.host (omega (arith, size, whole)) in
            let accepted =
              subst
                (λ x.
                  push_frame r2
                    (record { kind = record_end; id = id; offset = 0; body = encode_end w.host x })
                  ≡ ok (some b.pending.event, completed))
                (sym e) all_there in
            record {
              items = items;
              appended = appended;
              events = b.pending.event ∷ [];
              next = completed;
              drained = rest _ _ (end_drains r2 completed c.0 (some b.pending.event) accepted);
              arrival =
                  arrived b.pending.event refl b.filling.meta b.filling.iso
                    (b.filling.payload ∙ copies.payload ∙ ap (bytes_at mem buffer) whole) refl;
            }
      ]
