-- ===== src/Live/Ending.antt =====
-- crates/usbscope-capture/src/lib.rs, `push`: the end record of an event whose payload is filled.
use usbscope.Prelude.{
  ℕ, ◌+◌, ◌^◌, ◌<◌, ◌≡◌, ◌≢◌, refl, ap, sym, subst, arith, true, false, not, ◌&&◌, ◌||◌, List, ◌++◌,
  length, ◌==◌, if◌then◌else◌, none, some, Bool-cases, inl, inr,
}
use usbscope.Prelude.Bytes.{to_le}
use usbscope.Prelude.Result.{ok}
use usbscope.Common.Meta.{EventMeta, EventEnd, complete, record_end}
use usbscope.Common.Wire.{Endian, encode_end}
use usbscope.Common.Wire.Layout.{publish_lem, from_le-to_le}
use usbscope.Capture.Event.{Spool}
use usbscope.Capture.Decode.{u32_at, u64_at}
use usbscope.Capture.Ranges.{last_up_to}
use usbscope.Capture.Reassembler.State.{Pending, Reassembler, ReassemblyStats, Frame}
use usbscope.Capture.Reassembler.End.{
  end_record, is_complete, data_complete, covers, expected_payload,
}
use usbscope.Capture.Reassembler.Push.{push_frame}
use usbscope.Live.Filling.{Filling, filled_to}
use usbscope.Live.Building.{Building}

abbrev le_end : EventEnd → List ℕ
le_end e = to_le 8 e.copied_bytes ++ (to_le 4 e.descriptors ++ to_le 4 e.reason)

encode_end-le : (host : Endian) (e : EventEnd) → encode_end host e ≡ le_end e
unfolding encode_end
encode_end-le host e = simp publish_lem

pub length-encode_end : (host : Endian) (e : EventEnd) → length (encode_end host e) ≡ 16
length-encode_end host e = ap length (encode_end-le host e)

module _ (e : EventEnd) where
  copied_at : e.copied_bytes < 2 ^ 64 → u64_at (le_end e) 0 ≡ e.copied_bytes
  unfolding u64_at
  copied_at h = from_le-to_le 8 e.copied_bytes h

  descriptors_at : e.descriptors < 2 ^ 32 → u32_at (le_end e) 8 ≡ e.descriptors
  unfolding u32_at
  descriptors_at h = from_le-to_le 4 e.descriptors h

  reason_at : e.reason < 2 ^ 32 → u32_at (le_end e) 12 ≡ e.reason
  unfolding u32_at
  reason_at h = from_le-to_le 4 e.reason h

-- What an event declares of its payload, of a transfer that is not isochronous.
pub record Declares (m : EventMeta) : Type 0 where
  pub not_iso : m.transfer_type ≢ 0
  pub no_frames : m.iso_count ≡ 0
  pub span : m.payload_len ≡ expected_payload m 0
  pub flag : m.has_data ≡ (if m.payload_len == 0 then 0 else 1)
  pub small : m.payload_len < 2 ^ 32

covers_filled : (n : ℕ) → n < 2 ^ 64 → covers (filled_to n) 0 n ≡ true
unfolding covers last_up_to
covers_filled n h = ground (arith, h)

module _ {S : Spool} (p : Pending S) (m : EventMeta) (bytes : List ℕ) (f : Filling p m bytes)
    (d : Declares m) where
  data_complete-Filling : m.payload_len ≡ length bytes → data_complete p ≡ true
  unfolding data_complete
  data_complete-Filling whole =
      let cover : covers (filled_to (length bytes)) 0 m.payload_len ≡ true =
        subst (λ x. covers (filled_to (length bytes)) 0 x ≡ true) (sym whole)
          (covers_filled (length bytes) (omega (arith, d.small, whole))) in
      let other : (m.transfer_type == 0) ≡ false = ground (arith, d.not_iso) in
      elim (Bool-cases (m.has_data == 0)) [
        | inl e ↦
            let empty : (length bytes == 0) ≡ true = ground (arith, e, d.flag, whole) in
            rw (f.meta, f.copied, e) empty
        | inr e ↦ rw (f.meta, e, other, f.ranges) cover
      ]

  flags_agree :
      ((not (m.has_data == 0) && not (expected_payload m 0 == 0))
        || (m.has_data == 0 && expected_payload m 0 == 0))
      ≡ true
  flags_agree = ground (arith, d.flag, d.span)

  is_complete-whole :
      m.payload_len ≡ length bytes
      → is_complete p 0
          (le_end (record { copied_bytes = length bytes; descriptors = 0; reason = 0 }))
        ≡ true
  unfolding is_complete
  is_complete-whole whole =
      let e : EventEnd = record { copied_bytes = length bytes; descriptors = 0; reason = 0 } in
      let reason : (u32_at (le_end e) 12 == complete) ≡ true =
        ground (arith, reason_at e (omega arith)) in
      let copied : (u64_at (le_end e) 0 == p.copied) ≡ true =
        ground (arith, copied_at e (omega (arith, d.small, whole)), f.copied) in
      let frames : (u32_at (le_end e) 8 == m.iso_count) ≡ true =
        ground (arith, descriptors_at e (omega arith), d.no_frames) in
      let none_here : (0 == m.iso_count) ≡ true = ground (arith, d.no_frames) in
      let span : (m.payload_len == expected_payload m 0) ≡ true = ground (arith, d.span) in
      let done = data_complete-Filling whole in
      rw (reason, copied, f.meta, frames, f.iso, none_here, span, flags_agree)
        (rw (f.meta, f.iso) at done)

  is_complete-lost :
      (e : EventEnd) → e.reason ≢ 0 → e.reason < 2 ^ 32 → is_complete p 0 (le_end e) ≡ false
  unfolding is_complete
  is_complete-lost e lost small =
      let reason : (u32_at (le_end e) 12 == complete) ≡ false =
        ground (arith, reason_at e small, lost) in
      rw reason refl

  end_record-is : (body : List ℕ) → end_record p body ≡ ok (is_complete p 0 body)
  unfolding end_record
  end_record-is body =
      let other : (m.transfer_type == 0) ≡ false = ground (arith, d.not_iso) in
      rw (f.meta, other) refl

module _ {S : Spool} (r : Reassembler S) (id : ℕ) (m : EventMeta) (bytes : List ℕ)
    (old : List (ℕ × Pending S)) (stats : ReassemblyStats) (b : Building r id m bytes old stats)
    (d : Declares m) (host : Endian) where
  abbrev end_frame : EventEnd → Frame
  end_frame e = record { kind = record_end; id = id; offset = 0; body = encode_end host e }

  -- An event whose payload is whole is delivered.
  pub end-whole :
      m.payload_len ≡ length bytes
      → push_frame r
          (end_frame (record { copied_bytes = length bytes; descriptors = 0; reason = 0 }))
        ≡ ok (
          some b.pending.event,
          record {
            pending = old;
            stats = record stats { complete_events = stats.complete_events + 1 };
          },
        )
  unfolding push_frame
  end-whole whole =
      let e : EventEnd = record { copied_bytes = length bytes; descriptors = 0; reason = 0 } in
      let same = encode_end-le host e in
      let read = end_record-is b.pending m bytes b.filling d (le_end e) in
      let done = is_complete-whole b.pending m bytes b.filling d whole in
      rw (b.found, same, read, done, b.others, b.counted) refl

  -- An event with a loss is counted.
  pub end-lost :
      (e : EventEnd)
      → e.reason ≢ 0
      → e.reason < 2 ^ 32
      → push_frame r (end_frame e)
        ≡ ok (
          none,
          record { pending = old; stats = record stats { incomplete = stats.incomplete + 1 } },
        )
  unfolding push_frame
  end-lost e lost small =
      let same = encode_end-le host e in
      let read = end_record-is b.pending m bytes b.filling d (le_end e) in
      let false_there = is_complete-lost b.pending m bytes b.filling d e lost small in
      rw (b.found, same, read, false_there, b.others, b.counted) refl
