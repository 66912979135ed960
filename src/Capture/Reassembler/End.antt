-- ===== src/Capture/Reassembler/End.antt =====
-- crates/usbscope-capture/src/lib.rs, `push`: an ISO descriptor, and the end of an event.
use usbscope.Prelude.{
  ℕ, ◌+◌, ◌/◌, ◌%◌, ◌^◌, Bool, false, not, ◌&&◌, ◌||◌, Option, none, some, List, [], ◌∷◌, ◌++◌,
  length, ltb, leb, ◌==◌, if◌then◌else◌, max, all,
}
use usbscope.Prelude.Int.{signed}
use usbscope.Prelude.Result.{
  Result, ok, ensure, ◌>>◌, ◌>>=◌, invalid_iso_descriptor_length, invalid_iso_descriptor_index,
  iso_descriptor_outside_buffer,
}
use usbscope.Common.Meta.{EventMeta, IsoDescriptor, complete}
use usbscope.Capture.Event.{Spool}
use usbscope.Capture.Decode.{u32_at, u64_at}
use usbscope.Capture.Ranges.{Ranges, last_up_to}
use usbscope.Capture.Reassembler.State.{Pending}

-- RECORD_ISO
unfoldable pub iso_record : {S : Spool} → Pending S → ℕ → List ℕ → Result (Pending S)
iso_record pending offset body = do
  ensure (length body == 16) invalid_iso_descriptor_length
  ensure (offset == length pending.event.iso && ltb offset pending.event.meta.iso_count)
      invalid_iso_descriptor_index
  let descriptor : IsoDescriptor = record {
    status = signed 32 (u32_at body 0);
    offset = u32_at body 4;
    length = u32_at body 8;
    padding = 0;
  }
  ok (record pending {
    event = record (pending.event) { iso = pending.event.iso ++ (descriptor ∷ []) };
  })

-- The span of the ISO frames that are not empty; every frame must lie in the buffer.
unfoldable pub iso_span : ℕ → ℕ → List IsoDescriptor → Result ℕ
iso_span requested span [] = ok span
iso_span requested span (d ∷ ds) =
    let end = d.offset + d.length in
    ensure (leb end requested) iso_descriptor_outside_buffer
    >> iso_span requested (if d.length == 0 then span else max span end) ds

-- Whether an event of this type and direction carries data.
unfoldable pub data_phase : EventMeta → Bool
data_phase m =
    (m.event_type == b'S' && m.endpoint / 2 ^ 7 % 2 == 0)
    || (m.event_type == b'C' && not (m.endpoint / 2 ^ 7 % 2 == 0))

unfoldable pub expected_payload : EventMeta → ℕ → ℕ
unfolding data_phase
expected_payload m span =
    if not (data_phase m)
    then 0
    else if m.transfer_type == 0
    then span
    else if m.event_type == b'S'
    then m.requested_len
    else m.actual_len

abbrev pub reaches : ℕ → ℕ → Option (ℕ × ℕ) → Bool
reaches start len none = false
reaches start len (some (a, b)) = ltb (start + len) (2 ^ 64) && leb (start + len) b

-- The closure `covers`: a filled range holds the whole interval.
unfoldable pub covers : Ranges → ℕ → ℕ → Bool
covers ranges start len = len == 0 || reaches start len (last_up_to start ranges)

unfoldable pub total_length : List IsoDescriptor → ℕ
total_length [] = 0
total_length (d ∷ ds) = d.length + total_length ds

unfoldable pub data_complete : {S : Spool} → Pending S → Bool
unfolding covers total_length
data_complete pending =
    let m = pending.event.meta in
    if m.has_data == 0
    then pending.copied == 0
    else if m.transfer_type == 0
    then pending.copied == total_length pending.event.iso
      && all (λ (d : IsoDescriptor). covers pending.ranges d.offset d.length) pending.event.iso
    else covers pending.ranges 0 m.payload_len

-- The negation of the condition under which `push` counts an event as incomplete.
unfoldable pub is_complete : {S : Spool} → Pending S → ℕ → List ℕ → Bool
unfolding expected_payload data_complete
is_complete pending span body =
    let m = pending.event.meta in
    u32_at body 12 == complete
    && (u64_at body 0 == pending.copied
        && (u32_at body 8 == m.iso_count
            && (length pending.event.iso == m.iso_count
                && (m.payload_len == expected_payload m span
                    && ((not (m.has_data == 0) && not (expected_payload m span == 0)
                          || (m.has_data == 0 && expected_payload m span == 0))
                        && data_complete pending)))))

-- RECORD_END behind the removal from the unfinished events: the span, then whether it is complete.
unfoldable pub end_record : {S : Spool} → Pending S → List ℕ → Result Bool
unfolding is_complete iso_span
end_record pending body =
    let m = pending.event.meta in
    (if m.transfer_type == 0 then iso_span m.requested_len 0 pending.event.iso else ok 0)
    >>= λ span. ok (is_complete pending span body)
