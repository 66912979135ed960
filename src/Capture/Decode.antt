-- ===== src/Capture/Decode.antt =====
-- crates/usbscope-capture/src/lib.rs: u16_at, u32_at, u64_at and decode_meta. A slice behind the end
-- of the bytes panics in the source; every call stands behind a test of the length.
pub mod RoundTrip
use usbscope.Prelude.{
  ℕ, ◌+◌, Bool, true, false, not, ◌&&◌, ◌||◌, List, take, drop, length, get_or, leb, ◌==◌,
  if◌then◌else◌,
}
use usbscope.Prelude.Int.{ℤ, signed}
use usbscope.Prelude.Bytes.{from_le}
use usbscope.Prelude.Result.{
  Result, ok, ensure, ◌>>◌, ◌>>=◌, invalid_metadata_length, invalid_event_type,
  invalid_usb_metadata, invalid_presence_flag, payload_without_data_flag,
  iso_descriptors_on_non_iso, payload_span_exceeds_buffer,
}
use usbscope.Common.Meta.{EventMeta}

unfoldable pub u16_at : List ℕ → ℕ → ℕ
u16_at b at = from_le (take 2 (drop at b))

unfoldable pub u32_at : List ℕ → ℕ → ℕ
u32_at b at = from_le (take 4 (drop at b))

unfoldable pub u64_at : List ℕ → ℕ → ℕ
u64_at b at = from_le (take 8 (drop at b))

-- The record before its checks.
unfoldable pub raw_meta : List ℕ → EventMeta
unfolding u16_at u32_at u64_at
raw_meta b = record {
  urb_id = u64_at b 0;
  timestamp_ns = u64_at b 8;
  bus = u16_at b 16;
  device = get_or b 18 0;
  endpoint = get_or b 19 0;
  transfer_type = get_or b 20 0;
  event_type = get_or b 21 0;
  setup_present = get_or b 22 0;
  has_data = get_or b 23 0;
  status = signed 32 (u32_at b 24);
  requested_len = u32_at b 28;
  actual_len = u32_at b 32;
  payload_len = u32_at b 36;
  interval = signed 32 (u32_at b 40);
  start_frame = signed 32 (u32_at b 44);
  transfer_flags = u32_at b 48;
  iso_count = u32_at b 52;
  error_count = signed 32 (u32_at b 56);
  vid = u16_at b 60;
  pid = u16_at b 62;
  setup = take 8 (drop 64 b);
}

abbrev pub is_event_type : ℕ → Bool
is_event_type t = t == b'S' || (t == b'C' || t == b'E')

-- The `ensure!` lines, in their order.
unfoldable pub check_meta : EventMeta → Result EventMeta
check_meta m = do
  ensure (is_event_type m.event_type) invalid_event_type
  ensure (leb m.transfer_type 3 && leb m.device 127) invalid_usb_metadata
  ensure (leb m.has_data 1 && leb m.setup_present 1) invalid_presence_flag
  ensure (not (m.has_data == 0) || m.payload_len == 0) payload_without_data_flag
  ensure (m.transfer_type == 0 || m.iso_count == 0) iso_descriptors_on_non_iso
  ensure (leb m.payload_len m.requested_len) payload_span_exceeds_buffer
  ok m

unfoldable pub decode_meta : List ℕ → Result EventMeta
decode_meta b = do ensure (length b == 72) invalid_metadata_length; check_meta (raw_meta b)
