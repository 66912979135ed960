-- ===== src/Tests/Reassembly.antt =====
-- Records pushed through the reassembler.
use usbscope.Prelude.{
  ℕ, ◌≡◌, ◌↔◌, ◌<◌, ◌≤◌, ◌+◌, refl, arith, true, some, List, [], ◌∷◌, ◌++◌, length,
}
use usbscope.Prelude.Result.{ok}
use usbscope.Common.Meta.{RecordHeader, abi_version, record_begin, record_data, record_end}
use usbscope.Common.Wire
use usbscope.Capture.Decode
use usbscope.Capture.Ranges
use usbscope.Capture.Reassembler.Data
use usbscope.Common.Wire.{Endian, little, big, encode_header, encode_meta, encode_end}
use usbscope.Capture.Decode.{decode_meta}
use usbscope.Capture.Decode.RoundTrip.{MetaIsValid, decode_meta-encode_meta, decode_meta-IsValid}
use usbscope.Capture.Ranges.Laws.{Filled}
use usbscope.Capture.Reassembler.State.{Reassembler, Frame, read_frame, fresh, find, put, erase}
use usbscope.Capture.Reassembler.Push.{push, push_frame}
use usbscope.Capture.Reassembler.Data.{data_record}
use usbscope.Capture.Reassembler.End.{covers, end_record}
use usbscope.Capture.Reassembler.Covers.{covers_iff}
use usbscope.Capture.Reassembler.Delivery.{push_all, sent_by, Faithful}
use usbscope.Capture.Reassembler.Track.{delivery-Faithful}
use usbscope.Live.Drain.{consume_all}
use usbscope.Live.Census.{Census, consume_all-Census}
use usbscope.Tests.Memory.{memory, bulk_meta, bulk_meta-InRange, bulk_event}

abbrev head : ℕ → ℕ → ℕ → RecordHeader
head kind size offset = record {
  version = abi_version;
  kind = kind;
  size = size;
  event_id = 3;
  offset = offset;
}

abbrev begin_bytes : List ℕ
begin_bytes = encode_header big (head record_begin 96 0) ++ encode_meta big bulk_meta

abbrev data_bytes : List ℕ
data_bytes = encode_header little (head record_data 25 0) ++ (0x61 ∷ [])

abbrev end_bytes : List ℕ
end_bytes =
    encode_header little (head record_end 40 0)
    ++ encode_end little (record { copied_bytes = 1; descriptors = 0; reason = 0 })

abbrev end_frame : Frame
end_frame =
    unfold encode_end in
    record {
      kind = record_end;
      id = 3;
      offset = 0;
      body = encode_end little (record { copied_bytes = 1; descriptors = 0; reason = 0 });
    }

abbrev before_end : Reassembler memory
before_end = record {
  pending = (3, record { event = bulk_event; ranges = (0, 1) ∷ []; copied = 1 }) ∷ [];
  stats = record { complete_events = 0; incomplete = 0; orphan_records = 0; kernel_losses = 0 };
}

abbrev after_end : Reassembler memory
after_end = record {
  pending = [];
  stats = record { complete_events = 1; incomplete = 0; orphan_records = 0; kernel_losses = 0 };
}

ran : push_all (fresh memory) (begin_bytes ∷ data_bytes ∷ []) ≡ ok before_end
unfolding push_all push push_frame read_frame encode_header encode_meta find put decode_meta
    data_record Wire.publish Decode.u16_at Decode.u32_at Decode.u64_at Decode.check_meta
    Decode.raw_meta Ranges.last_up_to Ranges.first_in Data.merge Ranges.insert
ran = refl

delivered_last : push before_end end_bytes ≡ ok (some bulk_event, after_end)
unfolding push push_frame read_frame encode_header encode_end find erase end_record Wire.publish
    Decode.u16_at Decode.u32_at Decode.u64_at Ranges.last_up_to
delivered_last = refl

end_read : read_frame end_bytes ≡ ok end_frame
unfolding read_frame encode_header encode_end Wire.publish Decode.u16_at Decode.u32_at Decode.u64_at
end_read = refl

delivery-Faithful_example :
    Faithful bulk_event (sent_by (begin_bytes ∷ data_bytes ∷ []) (λ _. []) end_frame.id)
delivery-Faithful_example =
    delivery-Faithful memory (begin_bytes ∷ data_bytes ∷ []) end_bytes end_frame before_end
      after_end bulk_event ran end_read delivered_last

-- The three records, and the begin record of an event that stays unfinished.
abbrev whole_run : List (List ℕ)
whole_run = begin_bytes ∷ data_bytes ∷ end_bytes ∷ begin_bytes ∷ []

abbrev unfinished : Reassembler memory
unfinished = record after_end {
  pending =
      (3, record { event = record bulk_event { payload = [] }; ranges = []; copied = 0 }) ∷ [];
}

whole_run_consumed : consume_all (fresh memory) whole_run ≡ ok (bulk_event ∷ [], unfinished)
unfolding consume_all push push_frame read_frame encode_header encode_meta encode_end find put erase
    decode_meta data_record end_record Wire.publish Decode.u16_at Decode.u32_at Decode.u64_at
    Decode.check_meta Decode.raw_meta Ranges.last_up_to Ranges.first_in Data.merge Ranges.insert
whole_run_consumed = refl

consume_all-Census_example : Census whole_run (bulk_event ∷ []) unfinished
consume_all-Census_example =
    consume_all-Census memory whole_run (bulk_event ∷ []) unfinished whole_run_consumed

decode_meta-encode_meta_example :
    (decode_meta (encode_meta big bulk_meta) ≡ ok bulk_meta) ↔ MetaIsValid bulk_meta
decode_meta-encode_meta_example = decode_meta-encode_meta big bulk_meta bulk_meta-InRange

bulk_decoded : decode_meta (encode_meta little bulk_meta) ≡ ok bulk_meta
unfolding decode_meta encode_meta Wire.publish Decode.u16_at Decode.u32_at Decode.u64_at
    Decode.check_meta Decode.raw_meta
bulk_decoded = refl

decode_meta-IsValid_example : (length (encode_meta little bulk_meta) ≡ 72) × MetaIsValid bulk_meta
decode_meta-IsValid_example =
    decode_meta-IsValid (encode_meta little bulk_meta) bulk_meta bulk_decoded

covers_iff_example :
    (covers ((0, 4) ∷ (6, 9) ∷ []) 6 3 ≡ true)
    ↔ ((x : ℕ) → 6 ≤ x → x < 6 + 3 → Filled x ((0, 4) ∷ (6, 9) ∷ []))
covers_iff_example = covers_iff ((0, 4) ∷ (6, 9) ∷ []) (omega arith) 6 3 (omega arith)
