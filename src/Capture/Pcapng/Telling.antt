-- ===== src/Capture/Pcapng/Telling.antt =====
-- crates/usbscope-capture/src/pcapng.rs and pcapng_read.rs: events as a capture tells them, and the
-- reading of one event that was written.
use usbscope.Prelude.{
  ℕ, suc, ◌+◌, ◌<◌, ◌≤◌, ◌≡◌, refl, ap, sym, subst, ◌∙◌, arith, true, List, [], ◌∷◌, ◌++◌, length,
  length-append, take, get_elem?, none, some, append_assoc,
}
use usbscope.Prelude.Result.{ok}
use usbscope.Capture.Event.{Spool, Event, Reliable}
use usbscope.Capture.Submissions.{Submissions, request_of}
use usbscope.Capture.Pcapng.Writer.{Writer, packet_block}
use usbscope.Capture.Pcapng.Reader.{Reader}
use usbscope.Capture.Pcapng.Packets.{is_submission}
use usbscope.Capture.Pcapng.Blocks.{next_event}
use usbscope.Capture.Pcapng.Frames.{usb_interface}
use usbscope.Capture.Pcapng.Records.{requests_after}
use usbscope.Capture.Pcapng.Packed.{Tellable, as_told, next_block-packet}
use usbscope.Capture.Pcapng.Written.{Sources, interface_of, sources_after, prefix_of, Wrote}
use usbscope.Capture.Pcapng.Layout.{SourcesAreValid, sources_after-AreValid}
use usbscope.Capture.Pcapng.RoundTrip.{InStep, Skips, read_blocks-found, skip_prefix, numbered-get}

module _ (S : Spool) where
  -- The events that the reader delivers up to the end of its input.
  pub data Reads : Reader → List (Event S) → Type 0 where
    nothing : {r r' : Reader} → next_event S r ≡ ok (none, r') → Reads r []
    event :
        {r r' : Reader} {e : Event S} {es : List (Event S)}
        → next_event S r ≡ ok (some e, r')
        → Reads r' es
        → Reads r (e ∷ es)

  -- Events that can be told after others: the interfaces and the submissions that those left.
  unfoldable pub CanTell : Sources → Submissions → List (Event S) → Type 0
  CanTell known requested [] = Unit
  CanTell known requested (e ∷ es) =
      let source = interface_of known e.source_id in
      Tellable S (request_of (source, e.meta.urb_id) requested) e
      × (is_submission e.meta ≡ true → length requested < 65536)
      × CanTell (sources_after known e.source_id) (requests_after source e.meta requested) es

  -- Events as they are told: each with the number of its interface as its source, the time in whole
  -- microseconds, the requested length of a completion from its submission, and the same payload.
  pub data Tells : Sources → Submissions → List (Event S) → List (Event S) → Type 0 where
    no_more : {known : Sources} {requested : Submissions} → Tells known requested [] []
    one_more :
        {known : Sources} {requested : Submissions} {e : Event S} {es es' : List (Event S)}
        (file : S.File)
        → S.contents file ≡ take e.meta.payload_len (S.contents e.payload)
        → Tells
            (sources_after known e.source_id)
            (requests_after (interface_of known e.source_id) e.meta requested)
            es
            es'
        → Tells known requested (e ∷ es) (
            as_told S
              (interface_of known e.source_id)
              (request_of (interface_of known e.source_id, e.meta.urb_id) requested)
              file
              e
            ∷ es')

  -- Blocks that are skipped from a reader on are skipped behind n others, from the start.
  unfoldable pub Behind : ℕ → Reader → Reader → Type 0
  Behind n start r =
      (k : ℕ) (r' : Reader) → Skips S k r r' → (m : ℕ) × (m ≤ n + k) × Skips S m start r'

  -- What is read of one event, by a reader that first skips some blocks.
  pub record ReadOne (known : Sources) (requested : Submissions) (start : Reader) (e : Event S)
      (rest : List ℕ) : Type 0 where
    pub file : S.File
    pub after : Reader
    pub held : S.contents file ≡ take e.meta.payload_len (S.contents e.payload)
    pub reads :
        next_event S start
        ≡ ok (
          some (
              as_told S
                (interface_of known e.source_id)
                (request_of (interface_of known e.source_id, e.meta.urb_id) requested)
                file
                e),
          after,
        )
    pub in_step : InStep S (sources_after known e.source_id) after
    pub input : after.input ≡ rest
    pub requests :
        after.requested ≡ requests_after (interface_of known e.source_id) e.meta requested

  pub read_one :
      (n : ℕ) (start r : Reader) (w w' : Writer) (e : Event S) (d : Wrote w e w') (rest : List ℕ)
      → Reliable S
      → Behind n start r
      → n + length r.input ≤ length start.input
      → InStep S w.interfaces r
      → SourcesAreValid w.interfaces
      → Tellable S (request_of (interface_of w.interfaces e.source_id, e.meta.urb_id) r.requested) e
      → (is_submission e.meta ≡ true → length r.requested < 65536)
      → r.input
        ≡ (prefix_of w.interfaces e.source_id
            ++ packet_block (interface_of w.interfaces e.source_id) e d.payload)
          ++ rest
      → ReadOne w.interfaces r.requested start e rest
  unfolding next_event Behind
  read_one n start r w w' e d rest reliable skipped fuel s v t room same =
      let known = w.interfaces in
      let source = interface_of known e.source_id in
      let block = packet_block source e d.payload in
      let k =
        skip_prefix S known e.source_id r (block ++ rest) s d.room
          (same ∙ append_assoc (prefix_of known e.source_id) block rest) in
      let (v', has) = sources_after-AreValid known e.source_id v d.room in
      let below = v'.below e.source_id source has in
      let get =
        ap (λ x. get_elem? x source) k.in_step.interfaces
        ∙ numbered-get 0 _ source (omega (arith, below))
        ∙ ap (λ x. some (usb_interface x)) (omega arith) in
      let requests = ap (request_of (source, e.meta.urb_id)) k.requested in
      let (file, one, held) =
        next_block-packet S k.reader source (request_of (source, e.meta.urb_id) r.requested) e
          d.payload rest k.in_step.in_section t
          (λ h. subst (λ x. length x < 65536) (sym k.requested) (room h)) requests d.size d.small
          reliable source get (omega (arith, below, v'.few)) k.input in
      let (m, few, skips) = skipped k.blocks k.reader k.skips in
      let enough : m < suc (length start.input) = omega (
        arith,
        few,
        fuel,
        k.few,
        ap length same,
        length-append (prefix_of known e.source_id ++ block) rest,
        length-append (prefix_of known e.source_id) block,
      ) in
      record {
        file = file;
        after = record k.reader {
          input = rest;
          requested = requests_after source e.meta k.reader.requested;
        };
        held = held ∙ d.held;
        reads = read_blocks-found S (suc (length start.input)) _ enough skips one;
        in_step = record {
          in_section = record {
            section = k.in_step.in_section.section;
            little_endian = k.in_step.in_section.little_endian;
          };
          interfaces = k.in_step.interfaces;
          next = k.in_step.next;
        };
        input = refl;
        requests = ap (requests_after source e.meta) k.requested;
      }
