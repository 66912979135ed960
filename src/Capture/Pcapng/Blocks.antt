-- ===== src/Capture/Pcapng/Blocks.antt =====
-- crates/usbscope-capture/src/pcapng_read.rs: the blocks of a capture, and the loop to the next
-- event.
use usbscope.Prelude.{
  ℕ, zero, suc, ◌+◌, ◌-◌, ◌%◌, ◌^◌, false, ◌&&◌, ◌||◌, Option, none, some, List, [], ◌∷◌, length,
  take, drop, ltb, leb, ◌==◌, if◌then◌else◌,
}
use usbscope.Prelude.Result.{
  Result, ok, err, ensure, context, ◌>>◌, ◌>>=◌, io, out_of_fuel, truncated_block_header,
  must_start_with_section, invalid_block_length, short_packet_block, captured_exceeds_original,
  legacy_packet_block,
}
use usbscope.Capture.Archive.{read_exact}
use usbscope.Capture.Event.{Spool, Event}
use usbscope.Capture.Reassembler.State.{same_bytes}
use usbscope.Capture.Pcapng.Reader.{Reader, endian_u32, skip, footer, read_section, read_interface}
use usbscope.Capture.Pcapng.Packets.{
  Packet, read_packet, usb_meta, check_spans, pair, read_details, copy_in, is_lossy,
}

module _ (S : Spool) where
  -- What a block leaves: the end of the input, another block to read, or an event.
  pub data Step : Type 0 where
    ended : Reader → Step
    again : Reader → Step
    found : Event S → Reader → Step

  -- A packet whose capture is whole.
  unfoldable pub read_usb : Reader → ℕ → Packet → List ℕ → Result Step
  read_usb r size p input = do
    ensure (p.caplen == p.original) captured_exceeds_original
    usb ← context (read_exact 64 input) io
    let e = r.endian
    let wire_len = endian_u32 e (drop 32 usb.0)
    meta ← check_spans (usb_meta e p.timestamp usb.0) p.caplen (endian_u32 e (drop 36 usb.0))
    paired ← pair r.requested p.source_id meta wire_len
    details ← read_details e paired.0 paired.1 usb.0 usb.1
    payload ← copy_in S details.0.payload_len details.2
    rest ← skip (size - 32 - p.caplen) payload.1
    rest ← footer e size rest
    let after = record r { input = rest; requested = paired.2 }
    (if is_lossy details.0 details.1 wire_len
        then ok (again (record after { incomplete = (r.incomplete + 1) % 2 ^ 64 }))
        else ok (
            found
              (record {
                source_id = p.source_id;
                meta = details.0;
                iso = details.1;
                payload = payload.0;
                identity_known = false;
                requested_known = paired.0;
              })
              after))

  -- A packet whose capture is cut off is counted as incomplete.
  unfoldable pub read_packet_block : Reader → ℕ → List ℕ → Result Step
  read_packet_block r size input = do
    ensure (leb 32 size) short_packet_block
    packet ← read_packet r size input
    let p = packet.0
    (if ltb p.caplen 64 || ltb p.caplen p.original
        then (do
          rest ← skip (size - 32) packet.1
          rest ← footer r.endian size rest
          ok (again (record r { input = rest; incomplete = (r.incomplete + 1) % 2 ^ 64 })))
        else read_usb r size p packet.1)

  -- A block of a kind, behind the eight bytes of its head.
  unfoldable pub read_body : Reader → ℕ → ℕ → List ℕ → Result Step
  read_body r kind size input =
      if kind == 1
      then (do r' ← read_interface r size input; ok (again r'))
      else (if kind == 6
          then read_packet_block r size input
          else (if kind == 2 || kind == 3 then err legacy_packet_block else (do
            rest ← skip (size - 12) input
            rest ← footer r.endian size rest
            ok (again (record r { input = rest })))))

  -- The loop's body.
  unfoldable pub next_block : Reader → Result Step
  next_block r = if length r.input == 0 then ok (ended r) else (do
    head ← context (read_exact 8 r.input) truncated_block_header
    (if same_bytes (take 4 head.0) (10 ∷ 13 ∷ 13 ∷ 10 ∷ [])
        then (do r' ← read_section r head.0 head.1; ok (again r'))
        else (do
          ensure r.section must_start_with_section
          let size = endian_u32 r.endian (drop 4 head.0)
          ensure (leb 12 size && size % 4 == 0) invalid_block_length
          read_body r (endian_u32 r.endian head.0) size head.1)))

  abbrev pub EventRead : Type 0
  EventRead = Option (Event S) × Reader

  abbrev pub continue : (Reader → Result EventRead) → Step → Result EventRead
  continue more (ended r) = ok (none, r)
  continue more (again r) = more r
  continue more (found e r) = ok (some e, r)

  -- The loop on fuel; each block takes at least twelve bytes.
  unfoldable pub read_blocks : ℕ → Reader → Result EventRead
  read_blocks zero r = err out_of_fuel
  read_blocks (suc fuel) r = next_block r >>= continue (read_blocks fuel)

  -- Reader::next_event
  unfoldable pub next_event : Reader → Result EventRead
  next_event r = read_blocks (suc (length r.input)) r
