-- ===== src/Capture/Pcapng/Delivered.antt =====
-- crates/usbscope-capture/src/pcapng_read.rs: `next_event` ends, and what it delivers is sound.
use usbscope.Prelude.{
  ℕ, zero, suc, ◌+◌, ◌-◌, ◌%◌, ◌<◌, ◌≤◌, ◌≡◌, ◌≢◌, ==→eq, subst, refl, arith, Bool-cases, inl, inr,
  List, [], ◌∷◌, All, length, length_0, take, drop, leb, ltb, ◌==◌, ◌&&◌, ◌||◌, none, some,
}
use mathlib.Core.Option.{some-injective}
use usbscope.Prelude.Result.{
  Result, ok, Yields, yields, fails, Yields-bind, Yields-ensure, Yields-if, Yields-imp, ◌>>=◌,
}
use usbscope.Capture.Event.{Spool, Event}
use usbscope.Capture.Reassembler.State.{same_bytes}
use usbscope.Capture.Pcapng.Reader.{Reader, endian_u32}
use usbscope.Capture.Pcapng.Packets.{Packet, is_lossy, usb_meta}
use usbscope.Capture.Pcapng.Blocks.{
  Step, ended, again, found, read_usb, read_packet_block, read_body, next_block, EventRead,
  continue, read_blocks, next_event,
}
use usbscope.Capture.Pcapng.Total.{
  read_exact-Splits, skip-Yields, footer-Yields, Consumed, read_section-Yields,
  read_interface-Yields,
}
use usbscope.Capture.Pcapng.Sound.{
  SpansChecked, Fits, Ending, check_spans-Checked, read_packet-Behind, pair-Checked,
  read_details-Sound, copy_in-Copied, Behind,
}

module _ (S : Spool) where
  -- What every event of the reader satisfies: its metadata pass the checks, it has its descriptors,
  -- which lie in the buffer, and its payload.
  pub record EventIsSound (e : Event S) : Type 0 where
    pub spans : SpansChecked e.meta
    pub counted : length e.iso ≡ e.meta.iso_count
    pub fit : All (Fits e.requested_known e.meta) e.iso
    pub payload : length (S.contents e.payload) ≡ e.meta.payload_len

  -- What a block that takes at least k bytes leaves of n.
  StepIsSound : ℕ → ℕ → Step S → Type 0
  StepIsSound k n (ended r) = r.input ≡ []
  StepIsSound k n (again r) = length r.input + k ≤ n
  StepIsSound k n (found e r) = EventIsSound e × (length r.input + k ≤ n)

  read_usb-Sound :
      (r : Reader) (size : ℕ) (p : Packet) (input : List ℕ)
      → Ending S
      → Yields (StepIsSound 0 (length input)) (read_usb S r size p input)
  unfolding read_usb StepIsSound
  read_usb-Sound r size p input ending =
      let e = r.endian in
      Yields-ensure (p.caplen == p.original) _ refl (
        Yields-bind (read_exact-Splits 64 input _ refl) λ usb s.
          let wire_len = endian_u32 e (drop 32 usb.0) in
          Yields-bind
            (check_spans-Checked (usb_meta e p.timestamp usb.0) p.caplen
              (endian_u32 e (drop 36 usb.0)))
            λ meta c.
              Yields-bind (pair-Checked r.requested p.source_id meta wire_len c) λ paired c'.
                Yields-bind (read_details-Sound e paired.0 paired.1 usb.0 usb.1 c') λ details d.
                  Yields-bind (copy_in-Copied S details.0.payload_len details.2 ending) λ payload k.
                    Yields-bind (skip-Yields (size - 32 - p.caplen) payload.1) λ rest t.
                      Yields-bind (footer-Yields e size rest) λ rest' u.
                        let fewer : length rest' + 0 ≤ length input =
                          omega (arith, s.rest, d.behind, k.behind, t, u) in
                        Yields-if (is_lossy details.0 details.1 wire_len) (yields fewer) (
                          yields (
                            record {
                              spans = d.spans;
                              counted = d.counted;
                              fit = d.fit;
                              payload = k.payload;
                            },
                            fewer,
                          )))

  -- A reader that is left with less input, as a step of the loop.
  again-Sound :
      (n : ℕ) {r : Result Reader}
      → Yields (Consumed n) r
      → Yields (StepIsSound 0 n) (r >>= λ r'. ok (again r'))
  unfolding Consumed StepIsSound
  again-Sound n h = Yields-bind h λ r' k. yields (omega (arith, k))

  StepIsSound-imp :
      (k n : ℕ) {m : ℕ} → n + k ≤ m → (step : Step S) → StepIsSound 0 n step → StepIsSound k m step
  unfolding StepIsSound
  StepIsSound-imp k n h (ended r) s = s
  StepIsSound-imp k n h (again r) s = omega (arith, h, s)
  StepIsSound-imp k n h (found e r) s = (s.0, omega (arith, h, s.1))

  read_packet_block-Sound :
      (r : Reader) (size : ℕ) (input : List ℕ)
      → Ending S
      → Yields (StepIsSound 0 (length input)) (read_packet_block S r size input)
  unfolding read_packet_block StepIsSound Behind Consumed
  read_packet_block-Sound r size input ending = Yields-ensure (leb 32 size) _ refl (
      Yields-bind (read_packet-Behind r size input) λ packet s.
        let p = packet.0 in
        Yields-if (ltb p.caplen 64 || ltb p.caplen p.original)
          (Yields-bind (skip-Yields (size - 32) packet.1) λ rest t.
            Yields-bind (footer-Yields r.endian size rest)
              λ rest' u. yields (omega (arith, s, t, u)))
          (Yields-imp (read_usb-Sound r size p packet.1 ending)
            (StepIsSound-imp 0 (length packet.1) (omega (arith, s)))))

  read_body-Sound :
      (r : Reader) (kind size : ℕ) (input : List ℕ)
      → Ending S
      → Yields (StepIsSound 0 (length input)) (read_body S r kind size input)
  unfolding read_body StepIsSound Consumed
  read_body-Sound r kind size input ending =
      Yields-if (kind == 1) (again-Sound (length input) (read_interface-Yields r size input)) (
        Yields-if (kind == 6) (read_packet_block-Sound r size input ending) (
          Yields-if (kind == 2 || kind == 3) (fails refl) (
            Yields-bind (skip-Yields (size - 12) input) λ rest t.
              Yields-bind (footer-Yields r.endian size rest)
                λ rest' u. yields (omega (arith, t, u)))))

  -- A block takes at least the eight bytes of its head.
  next_block-Sound :
      (r : Reader) → Ending S → Yields (StepIsSound 8 (length r.input)) (next_block S r)
  unfolding next_block StepIsSound
  next_block-Sound r ending = elim (Bool-cases (length r.input == 0)) [
    | inl e ↦ rw e (yields (length_0 r.input (==→eq _ _ e)))
    | inr e ↦ rw e (
        Yields-bind (read_exact-Splits 8 r.input _ refl) λ head s.
          let less : length head.1 + 8 ≤ length r.input = omega (arith, s.rest) in
          let size = endian_u32 r.endian (drop 4 head.0) in
          Yields-if (same_bytes (take 4 head.0) (10 ∷ 13 ∷ 13 ∷ 10 ∷ []))
            (Yields-imp (again-Sound (length head.1) (read_section-Yields r head.0 head.1))
              (StepIsSound-imp 8 (length head.1) less))
            (Yields-ensure r.section _ refl (
              Yields-ensure (leb 12 size && size % 4 == 0) _ refl (
                Yields-imp (read_body-Sound r (endian_u32 r.endian head.0) size head.1 ending)
                  (StepIsSound-imp 8 (length head.1) less)))))
  ]

  -- What is delivered, and the input that is left of n bytes: no event only at the end of the input.
  pub record Delivers (n : ℕ) (delivered : EventRead S) : Type 0 where
    pub sound : (e : Event S) → delivered.0 ≡ some e → EventIsSound e
    pub ended : delivered.0 ≡ none → delivered.1.input ≡ []
    pub less : delivered.0 ≢ none → length delivered.1.input < n

  continue-Delivers :
      (n : ℕ) (more : Reader → Result (EventRead S))
      → ((r : Reader) → length r.input + 8 ≤ n → Yields (Delivers (length r.input)) (more r))
      → (step : Step S) → StepIsSound 8 n step
      → Yields (Delivers n) (continue S more step)
  unfolding StepIsSound
  continue-Delivers n more h (ended r) s =
      yields record { sound = λ e h. absurd (cc); ended = λ h. s; less = λ h. absurd (h refl) }
  continue-Delivers n more h (again r) s = Yields-imp (h r s) λ delivered d. record {
    sound = d.sound;
    ended = d.ended;
    less = λ h. omega (arith, d.less h, s);
  }
  continue-Delivers n more h (found e r) s = yields record {
    sound = λ e' h. subst EventIsSound (some-injective e e' h) s.0;
    ended = λ h. absurd (cc);
    less = λ h. omega (arith, s.1);
  }

  read_blocks-Delivers :
      (fuel : ℕ) (r : Reader)
      → Ending S
      → length r.input < fuel
      → Yields (Delivers (length r.input)) (read_blocks S fuel r)
  unfolding read_blocks
  read_blocks-Delivers zero r ending enough = absurd (omega (arith, enough))
  read_blocks-Delivers (suc fuel) r ending enough = Yields-bind (next_block-Sound r ending) (
      continue-Delivers (length r.input) (read_blocks S fuel)
        λ r' less. read_blocks-Delivers fuel r' ending (omega (arith, enough, less)))

  -- Where writing to a spooled file ends, reading the next event ends on every input, without using
  -- up the fuel of the model: with an error of the reader or the file, with no event once the
  -- input is used up, or with an event, for which some of the input was used. The event has as
  -- many payload bytes and descriptors as its metadata say; its type, transfer type and address are
  -- valid; a payload has its flag, descriptors belong to isochronous transfers, each within 32 bits,
  -- the requested length where it is known, and the payload where there is one.
  pub next_event-Delivers :
      (r : Reader) → Ending S → Yields (Delivers (length r.input)) (next_event S r)
  unfolding next_event
  next_event-Delivers r ending = read_blocks-Delivers (suc (length r.input)) r ending (omega arith)
