-- ===== src/Capture/Pcapng/Packets.antt =====
-- crates/usbscope-capture/src/pcapng_read.rs: the packet block. What was read of it is a record of
-- the values that the source keeps in its local variables.
use usbscope.Prelude.{
  ℕ, zero, suc, ◌+◌, ◌-◌, ◌*◌, ◌/◌, ◌^◌, Bool, true, false, not, ◌&&◌, ◌||◌, Option, none, some,
  List, [], ◌∷◌, length, take, drop, get_or, get_elem?, any, ltb, leb, ◌==◌, if◌then◌else◌, min,
  bit_and,
}
use usbscope.Prelude.Int.{ℤ, pos, negsuc, signed}
use usbscope.Prelude.Result.{
  Result, ok, ensure, context, ◌>>◌, ◌>>=◌, io, unknown_interface, unsupported_linktype,
  packet_timestamp_out_of_range, packet_exceeds_block, invalid_usb_pseudoheader,
  data_length_disagrees, usb_payload_without_flag, iso_descriptor_size_overflow,
  invalid_iso_descriptor_span, too_many_pcapng_submissions, truncated_iso_descriptors,
  iso_outside_urb_buffer, truncated_iso_payload, truncated_pcapng_payload,
}
use usbscope.Common.Meta.{EventMeta, IsoDescriptor, default_meta}
use usbscope.Common.Wire.{Endian}
use usbscope.Capture.Archive.{read_exact}
use usbscope.Capture.Decode.{is_event_type}
use usbscope.Capture.Event.{Spool}
use usbscope.Capture.Submissions.{Submissions, request_of, add_request, take_request}
use usbscope.Capture.Pcapng.Reader.{
  Reader, endian_uint, endian_u16, endian_u32, endian_u64, padded_to_4,
}

-- A sum of an i128, as a u64.
abbrev pub as_u64 : ℕ → Result ℕ
as_u64 t = do ensure (ltb t (2 ^ 64)) packet_timestamp_out_of_range; ok t

-- The time of a packet, in nanoseconds; no step overflows an i128.
abbrev pub packet_time : ℕ → ℕ → ℤ → Result ℕ
packet_time ticks units (pos offset) = as_u64 (ticks * 10 ^ 9 / units + offset * 10 ^ 9)
packet_time ticks units (negsuc offset) = do
  ensure (leb ((offset + 1) * 10 ^ 9) (ticks * 10 ^ 9 / units)) packet_timestamp_out_of_range
  as_u64 (ticks * 10 ^ 9 / units - (offset + 1) * 10 ^ 9)

pub record Packet : Type 0 where
  pub source_id : ℕ
  pub timestamp : ℕ
  pub caplen : ℕ
  pub original : ℕ

-- The head of the block, and the input behind it.
unfoldable pub read_packet : Reader → ℕ → List ℕ → Result (Packet × List ℕ)
unfolding read_exact endian_uint
read_packet r size input = do
  packet ← context (read_exact 20 input) io
  let e = r.endian
  i ← context (get_elem? r.interfaces (endian_u32 e packet.0)) unknown_interface
  ensure (i.linktype == 220) unsupported_linktype
  let ticks = endian_u32 e (drop 4 packet.0) * 2 ^ 32 + endian_u32 e (drop 8 packet.0)
  timestamp ← packet_time ticks i.units i.offset
  let caplen = endian_u32 e (drop 12 packet.0)
  ensure (leb (padded_to_4 caplen) (size - 32)) packet_exceeds_block
  ok (
    record {
      source_id = i.source_id;
      timestamp = timestamp;
      caplen = caplen;
      original = endian_u32 e (drop 16 packet.0);
    },
    packet.1,
  )

abbrev as_flag : Bool → ℕ
as_flag b = if b then 1 else 0

-- The fields that the pseudoheader has of an event's metadata.
unfoldable pub usb_meta : Endian → ℕ → List ℕ → EventMeta
unfolding endian_uint
usb_meta e timestamp usb = record default_meta {
  urb_id = endian_u64 e usb;
  timestamp_ns = timestamp;
  bus = endian_u16 e (drop 12 usb);
  device = get_or usb 11 0;
  endpoint = get_or usb 10 0;
  transfer_type = get_or usb 9 0;
  event_type = get_or usb 8 0;
  setup_present = as_flag (get_or usb 14 0 == 0);
  has_data = as_flag (get_or usb 15 0 == 0);
  status = signed 32 (endian_u32 e (drop 28 usb));
  interval = signed 32 (endian_u32 e (drop 48 usb));
  start_frame = signed 32 (endian_u32 e (drop 52 usb));
  transfer_flags = endian_u32 e (drop 56 usb);
  iso_count = endian_u32 e (drop 60 usb);
}

-- The metadata with the length of its payload, after the checks of the lengths.
unfoldable pub check_spans : EventMeta → ℕ → ℕ → Result EventMeta
check_spans m caplen data_len = do
  ensure (is_event_type m.event_type && (leb m.transfer_type 3 && leb m.device 127))
      invalid_usb_pseudoheader
  ensure (data_len == caplen - 64) data_length_disagrees
  ensure (ltb (m.iso_count * 16) (2 ^ 32)) iso_descriptor_size_overflow
  ensure (leb (m.iso_count * 16) data_len && (m.transfer_type == 0 || m.iso_count == 0))
      invalid_iso_descriptor_span
  let payload_len = data_len - m.iso_count * 16
  ensure (not (m.has_data == 0) || payload_len == 0) usb_payload_without_flag
  ok (record m { payload_len = payload_len })

abbrev pub is_submission : EventMeta → Bool
is_submission m = m.event_type == b'S'

abbrev pub is_requested : Option ℕ → Bool
is_requested none = false
is_requested (some _) = true

abbrev pub unwrap_or_0 : Option ℕ → ℕ
unwrap_or_0 none = 0
unwrap_or_0 (some n) = n

-- Whether the requested length is known, the metadata with it, and the submissions that are left.
abbrev pub Paired : Type 0
Paired = Bool × EventMeta × Submissions

-- A submission is kept until the next event of its URB, which gets its length.
unfoldable pub pair : Submissions → ℕ → EventMeta → ℕ → Result Paired
unfolding request_of add_request take_request
pair requested source m wire_len =
    if is_submission m
    then (do
      ensure (ltb (length requested) 65536) too_many_pcapng_submissions
      ok (
        true,
        record m { requested_len = wire_len },
        add_request (source, m.urb_id) wire_len requested,
      ))
    else (let request = request_of (source, m.urb_id) requested in
        ok (
          is_requested request,
          record m { actual_len = wire_len; requested_len = unwrap_or_0 request },
          take_request (source, m.urb_id) requested,
        ))

unfoldable pub read_descriptor : Endian → List ℕ → IsoDescriptor
unfolding endian_uint
read_descriptor e b = record {
  status = signed 32 (endian_u32 e b);
  offset = endian_u32 e (drop 4 b);
  length = endian_u32 e (drop 8 b);
  padding = 0;
}

unfoldable pub check_descriptor : Bool → EventMeta → IsoDescriptor → Result (Unit {0})
check_descriptor known m d = do
  let end = d.offset + d.length
  ensure (leb end (2 ^ 32 - 1) && (not known || leb end m.requested_len)) iso_outside_urb_buffer
  (if not (m.has_data == 0) && not (d.length == 0)
      then ensure (leb end m.payload_len) truncated_iso_payload
      else ok tt)

-- The descriptors, in a number, and the input behind them.
unfoldable pub read_descriptors :
    Endian → Bool → EventMeta → ℕ → List ℕ → Result (List IsoDescriptor × List ℕ)
unfolding read_exact read_descriptor check_descriptor
read_descriptors e known m zero input = ok ([], input)
read_descriptors e known m (suc n) input = do
  found ← context (read_exact 16 input) io
  let d = read_descriptor e found.0
  check_descriptor known m d
  rest ← read_descriptors e known m n found.1
  ok (d ∷ rest.0, rest.1)

-- The metadata, the descriptors and the input behind them.
abbrev pub DetailsRead : Type 0
DetailsRead = EventMeta × List IsoDescriptor × List ℕ

-- The bytes 40 to 48 of the pseudoheader, and the descriptors of an isochronous transfer.
unfoldable pub read_details : Endian → Bool → EventMeta → List ℕ → List ℕ → Result DetailsRead
unfolding endian_uint read_descriptors
read_details e known m usb input =
    if m.transfer_type == 0
    then (do
      ensure (endian_u32 e (drop 44 usb) == m.iso_count) truncated_iso_descriptors
      found ← read_descriptors e known m m.iso_count input
      ok (record m { error_count = signed 32 (endian_u32 e (drop 40 usb)) }, found.0, found.1))
    else (if not (m.setup_present == 0)
        then ok (record m { setup = take 8 (drop 40 usb) }, [], input)
        else ok (m, [], input))

-- io::copy of at most n bytes into a new file, and the input behind them
unfoldable pub copy_in : (S : Spool) → ℕ → List ℕ → Result (S.File × List ℕ)
copy_in S n input = do
  file ← S.write_at S.empty 0 (take n input)
  ensure (min n (length input) == n) truncated_pcapng_payload
  ok (file, drop n input)

abbrev pub nonempty_frame : IsoDescriptor → Bool
nonempty_frame d = not (d.length == 0)

-- Whether the data of the event were cut off or left out.
unfoldable pub is_lossy : EventMeta → List IsoDescriptor → ℕ → Bool
is_lossy m iso wire_len =
    let inward = not (bit_and m.endpoint 0x80 == 0) in
    let data_phase = m.event_type == b'S' && not inward || m.event_type == b'C' && inward in
    let expected =
      data_phase
      && (if m.transfer_type == 0 then any nonempty_frame iso else not (wire_len == 0)) in
    expected && m.has_data == 0
    || (not (m.transfer_type == 0) && not (m.has_data == 0)) && not (m.payload_len == wire_len)
