-- ===== src/Capture/Pcapng/Packed.antt =====
-- crates/usbscope-capture/src: the packet block that the pcapng writer writes, as the reader reads
-- it.
use usbscope.Prelude.{
  ℕ, ◌+◌, ◌-◌, ◌*◌, ◌/◌, ◌%◌, ◌^◌, ◌<◌, ◌≡◌, refl, ap, subst, ◌∙◌, arith, true, false, ◌||◌, List,
  ◌++◌, All, length, length-replicate, drop, append_assoc, replicate, get_elem?, ltb, leb, lt→ltb,
  le→leb, ==-refl, Option, some,
}
use usbscope.Prelude.Int.{pos}
use usbscope.Prelude.Bytes.{to_le}
use usbscope.Prelude.Result.{ok, io, >>=-ok, ensure-ok, context}
use usbscope.Common.Meta.{MetaInRange}
use usbscope.Common.Wire.{little}
use usbscope.Common.Wire.Layout.{from_le-to_le}
use usbscope.Capture.Archive.{read_exact}
use usbscope.Capture.Archive.Replay.{read_exact-append}
use usbscope.Capture.Decode.RoundTrip.{MetaIsValid}
use usbscope.Capture.Event.{Spool, Event, Reliable}
use usbscope.Capture.Submissions.{request_of}
use usbscope.Capture.Pcapng.Writer.{
  urb_len, usb_header, descriptor_bytes, data_length, padding_of, packet_head, packet_block,
}
use usbscope.Capture.Pcapng.Reader.{Reader, endian_uint, endian_u32, footer, padded_to_4}
use usbscope.Capture.Pcapng.Packets.{
  Packet, read_packet, packet_time, usb_meta, check_spans, pair, read_details, is_submission,
  is_lossy,
}
use usbscope.Capture.Pcapng.Blocks.{found, read_usb, read_packet_block, read_body, next_block}
use usbscope.Capture.Pcapng.Header.{usb_header-Reads}
use usbscope.Capture.Pcapng.Frames.{skip-append, footer-append, next_block-body, usb_interface}
use usbscope.Capture.Pcapng.Sound.{Fits}
use usbscope.Capture.Pcapng.Records.{
  Plain, retold, spanned, paired_meta, request_known, requests_after, check_spans-told,
  pair-spanned, read_details-written, copy_in-append,
}

-- The 20 bytes behind the head of a packet block.
abbrev packet_bytes : ℕ → ℕ → ℕ → List ℕ
packet_bytes interface ts caplen =
    to_le 4 interface
    ++ (to_le 4 (ts / 2 ^ 32) ++ (to_le 4 (ts % 2 ^ 32) ++ (to_le 4 caplen ++ to_le 4 caplen)))

-- The time of a packet, in whole microseconds.
abbrev pub whole_micros : ℕ → ℕ
whole_micros ns = ns / 1000 * 1000

packet_time-micros :
    (ns : ℕ) → ns < 2 ^ 64 → packet_time (ns / 1000) 1000000 (pos 0) ≡ ok (whole_micros ns)
packet_time-micros ns h =
    let same : ns / 1000 * 10 ^ 9 / 1000000 + 0 * 10 ^ 9 ≡ whole_micros ns = omega arith in
    let small : ltb (whole_micros ns) (2 ^ 64) ≡ true = lt→ltb _ _ (omega (arith, h)) in
    rw (same, small) refl

-- What is read of the head of a packet.
abbrev packet_of : ℕ → ℕ → ℕ → Packet
packet_of source ns caplen = record {
  source_id = source;
  timestamp = whole_micros ns;
  caplen = caplen;
  original = caplen;
}

read_packet-written :
    (r : Reader) (interface source ns caplen : ℕ) (rest : List ℕ)
    → r.endian ≡ little
    → get_elem? r.interfaces interface ≡ some (usb_interface source)
    → interface < 2 ^ 32
    → ns < 2 ^ 64
    → caplen < 2 ^ 32
    → read_packet r
        (caplen + (padding_of caplen + 32))
        (packet_bytes interface (ns / 1000) caplen ++ rest)
      ≡ ok (packet_of source ns caplen, rest)
unfolding read_packet endian_uint
read_packet-written r interface source ns caplen rest le known few small fits =
    let ts = ns / 1000 in
    let head = read_exact-append (packet_bytes interface ts caplen) rest in
    let a = from_le-to_le 4 interface few in
    let b = from_le-to_le 4 (ts / 2 ^ 32) (omega (arith, small)) in
    let c = from_le-to_le 4 (ts % 2 ^ 32) (omega arith) in
    let d = from_le-to_le 4 caplen fits in
    let whole : ts / 2 ^ 32 * 2 ^ 32 + ts % 2 ^ 32 ≡ ts = omega arith in
    let time = packet_time-micros ns small in
    let within : leb (padded_to_4 caplen) (caplen + (padding_of caplen + 32) - 32) ≡ true =
      le→leb _ _ (omega arith) in
    rw (head, le, a, known, b, c, d, whole, time, within) refl

append_parts :
    (a b c d t rest : List ℕ)
    → (a ++ (b ++ (c ++ (d ++ t)))) ++ rest ≡ a ++ (b ++ (c ++ (d ++ (t ++ rest))))
append_parts a b c d t rest = simp append_assoc

module _ (S : Spool) where
  -- An event that a capture can hold: its metadata are valid, it has its descriptors, which lie in
  -- the buffer, and the reader does not take its data for lost.
  pub record Tellable (request : Option ℕ) (e : Event S) : Type 0 where
    pub fits : MetaInRange e.meta
    pub valid : MetaIsValid e.meta
    pub counted : length e.iso ≡ e.meta.iso_count
    pub plain : All Plain e.iso
    pub within :
        All
          (Fits
            (request_known request e.meta)
            (paired_meta (whole_micros e.meta.timestamp_ns) request e.meta))
          e.iso
    pub whole :
        is_lossy (retold (whole_micros e.meta.timestamp_ns) request e.meta) e.iso (urb_len e.meta)
        ≡ false

  -- The event that is read back, with its payload in another file.
  abbrev pub as_told : ℕ → Option ℕ → S.File → Event S → Event S
  as_told source request file e = record {
    source_id = source;
    meta = retold (whole_micros e.meta.timestamp_ns) request e.meta;
    iso = e.iso;
    payload = file;
    identity_known = false;
    requested_known = request_known request e.meta;
  }

  -- A reader in the section that the writer writes.
  pub record InSection (r : Reader) : Type 0 where
    pub section : r.section ≡ true
    pub little_endian : r.endian ≡ little

  -- The length of the block of an event.
  abbrev pub block_length : Event S → ℕ
  block_length e = 64 + data_length e + (padding_of (64 + data_length e) + 32)

  -- The block behind its head of 28 bytes.
  abbrev packet_rest : Event S → List ℕ → List ℕ → List ℕ
  packet_rest e payload rest =
      usb_header e.meta (data_length e)
      ++ (descriptor_bytes e.iso
          ++ (payload
              ++ (replicate (padding_of (64 + data_length e)) 0
                  ++ (to_le 4 (block_length e) ++ rest))))

  module _ (r : Reader) (source : ℕ) (request : Option ℕ) (e : Event S) (payload rest : List ℕ)
      (in_section : InSection r) (t : Tellable request e)
      (room : is_submission e.meta ≡ true → length r.requested < 65536)
      (asked : request_of (source, e.meta.urb_id) r.requested ≡ request)
      (size : length payload ≡ e.meta.payload_len) (small : block_length e < 2 ^ 32)
      (reliable : Reliable S) where
    abbrev after : Reader
    after = record r { input = rest; requested = requests_after source e.meta r.requested }

    read_usb-written :
        (file : S.File) × (read_usb S r
            (block_length e)
            (packet_of source e.meta.timestamp_ns (64 + data_length e))
            (packet_rest e payload rest)
          ≡ ok (found (as_told source request file e) after))
        × (S.contents file ≡ payload)
    unfolding read_usb
    read_usb-written =
        let m = e.meta in
        let n = data_length e in
        let time = whole_micros m.timestamp_ns in
        let pad : List ℕ = replicate (padding_of (64 + n)) 0 in
        let h =
          usb_header-Reads m n time t.fits t.valid.data_flag t.valid.setup_flag
            (omega (arith, small)) in
        let same = ==-refl (64 + n) in
        let behind =
          descriptor_bytes e.iso ++ (payload ++ (pad ++ (to_le 4 (block_length e) ++ rest))) in
        let usb : read_exact 64 (packet_rest e payload rest) ≡ some (usb_header m n, behind) =
          subst (λ k. read_exact k (packet_rest e payload rest) ≡ some (usb_header m n, behind))
            h.size (read_exact-append (usb_header m n) behind) in
        let spans =
          check_spans-told time n m t.valid (omega (arith, t.counted)) (omega (arith, small)) in
        let pairs = pair-spanned time source request m r.requested room asked in
        let details =
          read_details-written time n request m e.iso (usb_header m n)
            (payload ++ (pad ++ (to_le 4 (block_length e) ++ rest))) h t.valid.only_iso t.counted
            t.plain t.within in
        let (file, copied, held) =
          copy_in-append S m.payload_len payload (pad ++ (to_le 4 (block_length e) ++ rest))
            reliable size in
        let gap : length pad ≡ block_length e - 32 - (64 + n) =
          length-replicate (padding_of (64 + n)) 0 ∙ omega arith in
        let padded = skip-append _ pad (to_le 4 (block_length e) ++ rest) gap in
        let end = footer-append (block_length e) rest small in
        let le = in_section.little_endian in
        let spans : check_spans (usb_meta r.endian time (usb_header m n)) (64 + n)
              (endian_u32 r.endian (drop 36 (usb_header m n)))
            ≡ ok (spanned time m) =
          rw (le, h.meta, h.data_len) spans in
        let pairs : pair r.requested source (spanned time m)
              (endian_u32 r.endian (drop 32 (usb_header m n)))
            ≡ ok (
              request_known request m,
              paired_meta time request m,
              requests_after source m r.requested,
            ) =
          rw (le, h.wire_len) pairs in
        let whole : is_lossy (retold time request m) e.iso
              (endian_u32 r.endian (drop 32 (usb_header m n)))
            ≡ false =
          rw (le, h.wire_len) t.whole in
        (
          file,
          ensure-ok _ _ same (
              >>=-ok _ (ap (λ x. context x io) usb) (
                >>=-ok _ spans (
                  >>=-ok _ pairs (
                    >>=-ok _
                      (ap
                          (λ x.
                            read_details x (request_known request m) (paired_meta time request m)
                              (usb_header m n)
                              (descriptor_bytes e.iso
                                ++ (payload ++ (pad ++ (to_le 4 (block_length e) ++ rest)))))
                          le
                        ∙ details)
                      (>>=-ok _ copied (
                        >>=-ok _ padded (
                          >>=-ok _
                            (ap (λ x. footer x (block_length e) (to_le 4 (block_length e) ++ rest))
                                le
                              ∙ end)
                            (rw whole refl)))))))),
          held,
        )

    -- The block of the event is read as the event, with its payload in a new file.
    pub next_block-packet :
        (interface : ℕ)
        → get_elem? r.interfaces interface ≡ some (usb_interface source)
        → interface < 2 ^ 32
        → r.input ≡ packet_block interface e payload ++ rest
        → (file : S.File) × (next_block S r ≡ ok (found (as_told source request file e) after))
          × (S.contents file ≡ payload)
    unfolding read_packet_block read_body packet_block
    next_block-packet interface known few same =
        let m = e.meta in
        let n = data_length e in
        let (file, read, held) = read_usb-written in
        let body =
          packet_bytes interface (m.timestamp_ns / 1000) (64 + n) ++ packet_rest e payload rest in
        let one =
          next_block-body S r 6 (block_length e) body in_section.section in_section.little_endian
            (omega arith) (omega arith) small (omega arith)
            (same
              ∙ ap
                  (λ x.
                    packet_head (block_length e) interface (m.timestamp_ns / 1000) (64 + n) ++ x)
                  (append_parts (usb_header m n) (descriptor_bytes e.iso) payload
                    (replicate (padding_of (64 + n)) 0) (to_le 4 (block_length e)) rest)) in
        let head =
          read_packet-written r interface source m.timestamp_ns (64 + n)
            (packet_rest e payload rest) in_section.little_endian known few t.fits.timestamp_u64
            (omega (arith, small)) in
        let enough : leb 32 (block_length e) ≡ true = le→leb _ _ (omega arith) in
        let whole : (ltb (64 + n) 64 || ltb (64 + n) (64 + n)) ≡ false = ground arith in
        (file, one ∙ ensure-ok _ _ enough (>>=-ok _ head (rw whole read)), held)
