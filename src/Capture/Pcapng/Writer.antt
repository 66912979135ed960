-- ===== src/Capture/Pcapng/Writer.antt =====
-- crates/usbscope-capture/src/pcapng.rs: the writer. Its output is the list of the bytes that were
-- written, and writing to it does not fail; reading the payload of an event may.
use usbscope.Prelude.{
  ℕ, ◌+◌, ◌-◌, ◌*◌, ◌/◌, ◌%◌, ◌^◌, not, Option, none, some, List, [], ◌∷◌, ◌++◌, length, replicate,
  ltb, ◌==◌, if◌then◌else◌, min, bit_and,
}
use usbscope.Prelude.Int.{unsigned}
use usbscope.Prelude.Bytes.{to_le}
use usbscope.Prelude.Result.{
  Result, ok, ensure, ◌>>◌, ◌>>=◌, too_many_output_interfaces, too_many_iso_descriptors,
  iso_descriptor_length_overflow, usb_record_exceeds_format, pcapng_block_exceeds_format,
  payload_shorter_than_span,
}
use usbscope.Common.Meta.{EventMeta, IsoDescriptor}
use usbscope.Capture.Event.{Spool, Event}
use usbscope.Capture.Reassembler.State.{find, put}

pub record Writer : Type 0 where
  pub output : List ℕ
  pub bytes : ℕ
  -- the interface of a capture source
  pub interfaces : List (ℕ × ℕ)

-- block, for the data of a section or an interface, whose length fits 32 bits
abbrev pub block : ℕ → List ℕ → List ℕ
block kind body =
    to_le 4 kind ++ (to_le 4 (length body + 12) ++ (body ++ to_le 4 (length body + 12)))

abbrev pub section_block : List ℕ
section_block = block 0x0a0d0d0a (0x4d ∷ 0x3c ∷ 0x2b ∷ 0x1a ∷ 1 ∷ 0 ∷ 0 ∷ 0 ∷ replicate 8 255)

-- Link type 220, no limit of the length, timestamps in microseconds.
abbrev pub interface_block : List ℕ
interface_block = block 1 (220 ∷ 0 ∷ 0 ∷ 0 ∷ 0 ∷ 0 ∷ 0 ∷ 0 ∷ [])

-- Writer::new
abbrev pub new_writer : Writer
new_writer = record { output = section_block ++ interface_block; bytes = 48; interfaces = [] }

-- The entry for a source that is not known yet.
abbrev pub add_interface : Writer → ℕ → Writer
add_interface w source =
    let index = length w.interfaces in
    record {
      output = if index == 0 then w.output else w.output ++ interface_block;
      bytes = if index == 0 then w.bytes else (w.bytes + 20) % 2 ^ 64;
      interfaces = put source index w.interfaces;
    }

-- The interface of a source, which is created where there is none.
abbrev pub use_interface : Writer → ℕ → Option ℕ → Result (ℕ × Writer)
use_interface w source (some index) = ok (index, w)
use_interface w source none = do
  ensure (ltb (length w.interfaces) (2 ^ 32)) too_many_output_interfaces
  ok (length w.interfaces, add_interface w source)

-- The flag of the data: present, or absent in the direction of the endpoint.
abbrev pub data_flag : EventMeta → ℕ
data_flag m =
    if not (m.has_data == 0) then 0 else (if not (bit_and m.endpoint 0x80 == 0) then b'<' else b'>')

-- The length that the event type speaks of.
abbrev pub urb_len : EventMeta → ℕ
urb_len m = if m.event_type == b'S' then m.requested_len else m.actual_len

-- Bytes 40 to 48 of the pseudoheader.
abbrev pub setup_or_iso : EventMeta → List ℕ
setup_or_iso m =
    if m.transfer_type == 0
    then to_le 4 (unsigned 32 m.error_count) ++ to_le 4 m.iso_count
    else (if not (m.setup_present == 0) then m.setup else replicate 8 0)

-- The pseudoheader, of 64 bytes.
unfoldable pub usb_header : EventMeta → ℕ → List ℕ
usb_header m data_len =
    let ts = m.timestamp_ns / 1000 in
    to_le 8 m.urb_id
    ++ (m.event_type
        ∷ m.transfer_type
        ∷ m.endpoint
        ∷ m.device
        ∷ (to_le 2 m.bus
            ++ ((if not (m.setup_present == 0) then 0 else b'-')
                ∷ data_flag m
                ∷ (to_le 8 (ts / 1000000)
                    ++ (to_le 4 (ts % 1000000)
                        ++ (to_le 4 (unsigned 32 m.status)
                            ++ (to_le 4 (urb_len m)
                                ++ (to_le 4 data_len
                                    ++ (setup_or_iso m
                                        ++ (to_le 4 (unsigned 32 m.interval)
                                            ++ (to_le 4 (unsigned 32 m.start_frame)
                                                ++ (to_le 4 m.transfer_flags
                                                    ++ to_le 4 m.iso_count))))))))))))

unfoldable pub descriptor_bytes : List IsoDescriptor → List ℕ
descriptor_bytes [] = []
descriptor_bytes (d ∷ iso) =
    to_le 4 (unsigned 32 d.status)
    ++ (to_le 4 d.offset ++ (to_le 4 d.length ++ (to_le 4 0 ++ descriptor_bytes iso)))

-- The lengths of a packet: its data, its capture and its padding.
abbrev pub data_length : {S : Spool} → Event S → ℕ
data_length e = 16 * length e.iso + e.meta.payload_len

abbrev pub padding_of : ℕ → ℕ
padding_of caplen = (4 - caplen % 4) % 4

-- The lengths of the block's head, interface, time and capture.
abbrev pub packet_head : ℕ → ℕ → ℕ → ℕ → List ℕ
packet_head total interface ts caplen =
    to_le 4 6
    ++ (to_le 4 total
        ++ (to_le 4 interface
            ++ (to_le 4 (ts / 2 ^ 32)
                ++ (to_le 4 (ts % 2 ^ 32) ++ (to_le 4 caplen ++ to_le 4 caplen)))))

-- io::copy of at most n bytes from the start of the payload
abbrev pub copy_out : (S : Spool) → S.File → ℕ → Result (List ℕ)
copy_out S f n = do _ ← S.seek f 0; S.read_at f 0 (min n (length (S.contents f)))

module _ {S : Spool} where
  -- The enhanced packet block of an event.
  unfoldable pub packet_block : ℕ → Event S → List ℕ → List ℕ
  unfolding usb_header descriptor_bytes
  packet_block interface e payload =
      let m = e.meta in
      let caplen = 64 + data_length e in
      let total = caplen + (padding_of caplen + 32) in
      packet_head total interface (m.timestamp_ns / 1000) caplen
      ++ (usb_header m (data_length e)
          ++ (descriptor_bytes e.iso
              ++ (payload ++ (replicate (padding_of caplen) 0 ++ to_le 4 total))))

  -- Writer::write_event
  unfoldable pub write_event : Writer → Event S → Result Writer
  unfolding packet_block
  write_event w e = do
    used ← use_interface w e.source_id (find e.source_id w.interfaces)
    let m = e.meta
    ensure (ltb (length e.iso) (2 ^ 32)) too_many_iso_descriptors
    ensure (ltb (16 * length e.iso) (2 ^ 32)) iso_descriptor_length_overflow
    let caplen = 64 + data_length e
    ensure (ltb (data_length e) (2 ^ 32)) usb_record_exceeds_format
    ensure (ltb caplen (2 ^ 32)) usb_record_exceeds_format
    let total = caplen + (padding_of caplen + 32)
    ensure (ltb total (2 ^ 32)) pcapng_block_exceeds_format
    payload ← copy_out S e.payload m.payload_len
    ensure (length payload == m.payload_len) payload_shorter_than_span
    ok (record (used.1) {
      output = used.1.output ++ packet_block used.0 e payload;
      bytes = (used.1.bytes + total) % 2 ^ 64;
    })
