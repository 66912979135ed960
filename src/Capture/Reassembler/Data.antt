-- ===== src/Capture/Reassembler/Data.antt =====
-- crates/usbscope-capture/src/lib.rs, `push`: a record with a fragment of the payload.
use usbscope.Prelude.{
  ℕ, zero, suc, ◌+◌, ◌-◌, ◌^◌, Bool, true, not, ◌||◌, Option, none, some, List, length, take, drop,
  ltb, leb, ◌==◌, if◌then◌else◌, min, max,
}
use usbscope.Prelude.Result.{
  Result, ok, ensure, ◌>>◌, ◌>>=◌, empty_payload_record, payload_offset_overflow,
  payload_outside_span, overlapping_payload, conflicting_iso_payload,
}
use usbscope.Capture.Event.{Spool}
use usbscope.Capture.Ranges.{Ranges, last_up_to, first_in, remove, insert}
use usbscope.Capture.Reassembler.State.{Pending, same_bytes}

-- previous.is_none_or(|(_, b)| b <= offset)
abbrev pub ends_before : ℕ → Option (ℕ × ℕ) → Bool
ends_before offset none = true
ends_before offset (some (a, b)) = leb b offset

-- next.is_none_or(|(a, _)| a >= end)
abbrev pub starts_behind : ℕ → Option (ℕ × ℕ) → Bool
starts_behind end none = true
starts_behind end (some (a, b)) = leb end a

-- previous.filter(|(_, limit)| *limit >= offset).map_or(offset, |(a, _)| a)
abbrev pub first_start : ℕ → Option (ℕ × ℕ) → ℕ
first_start offset none = offset
first_start offset (some (a, b)) = if leb offset b then a else offset

module _ (S : Spool) (file : S.File) (offset : ℕ) (body : List ℕ) where
  abbrev stop : ℕ
  stop = offset + length body

  -- The bytes that a filled range shares with the fragment must be the fragment's.
  unfoldable pub check_overlap : ℕ → ℕ → Result (Unit {0})
  check_overlap a b =
      let from = max a offset in
      let to = min b stop in
      if ltb from to
      then (do
        S.seek file from
        existing ← S.read_at file from (to - from)
        ensure (same_bytes existing (take (to - from) (drop (from - offset) body)))
            conflicting_iso_payload)
      else ok tt

  -- while let Some((&a, &b)) = pending.ranges.range(first..=end).next(); a round for each range
  unfoldable pub merge : ℕ → ℕ → ℕ → ℕ → Ranges → Result (ℕ × ℕ × Ranges)
  merge zero first start merged_end ranges = ok (start, merged_end, ranges)
  merge (suc rounds) first start merged_end ranges = elim (first_in first (some stop) ranges) [
    | none ↦ ok (start, merged_end, ranges)
    | some (a, b) ↦
        check_overlap a b >> merge rounds first (min start a) (max merged_end b) (remove a ranges)
  ]

-- RECORD_DATA
unfoldable pub data_record : {S : Spool} → Pending S → ℕ → List ℕ → Result (Pending S)
data_record {S} pending offset body = do
  ensure (not (length body == 0)) empty_payload_record
  let end = offset + length body
  ensure (ltb end (2 ^ 64)) payload_offset_overflow
  ensure (leb end pending.event.meta.payload_len) payload_outside_span
  let previous = last_up_to offset pending.ranges
  let next = first_in offset none pending.ranges
  let is_iso = pending.event.meta.transfer_type == 0
  ensure (is_iso || ends_before offset previous) overlapping_payload
  ensure (is_iso || starts_behind end next) overlapping_payload
  merged ←
      merge S pending.event.payload offset body (length pending.ranges)
        (first_start offset previous) offset end pending.ranges
  S.seek pending.event.payload offset
  file ← S.write_at pending.event.payload offset body
  ok (record {
    event = record (pending.event) { payload = file };
    ranges = insert merged.0 merged.1 merged.2;
    copied = pending.copied + length body;
  })
