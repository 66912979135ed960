-- ===== src/Capture/Pcapng/Retelling.antt =====
-- crates/usbscope-capture/src/pcapng.rs and pcapng_read.rs: a capture that was written is read back.
use usbscope.Prelude.{
  ℕ, suc, ◌+◌, ◌≤◌, ◌≡◌, refl, ap, sym, subst, ◌∙◌, arith, true, List, [], ◌∷◌, ◌++◌, length,
  length-append, append_assoc, append-nil, append-cancel, All,
}
use usbscope.Prelude.Result.{ok-injective, ok, >>=-eq-ok}
use usbscope.Capture.Event.{Spool, Event, Reliable}
use usbscope.Capture.Submissions.{Submissions}
use usbscope.Capture.Pcapng.Writer.{Writer, new_writer, interface_block, packet_block, write_event}
use usbscope.Capture.Pcapng.Reader.{Reader, new_reader}
use usbscope.Capture.Pcapng.Blocks.{next_event}
use usbscope.Capture.Pcapng.Frames.{usb_interface, next_block-interface, next_block-section}
use usbscope.Capture.Pcapng.Records.{requests_after}
use usbscope.Capture.Pcapng.Written.{
  Sources, interface_of, sources_after, prefix_of, write_event-Wrote,
}
use usbscope.Capture.Pcapng.Validity.{
  WriterIsValid, Wrote-IsValid, new_writer-IsValid, write_events, write_events-IsValid,
}
use usbscope.Capture.Pcapng.RoundTrip.{
  InStep, here, over, read_blocks-ended, next_block-end, numbered,
}
use usbscope.Capture.Pcapng.Telling.{
  Reads, nothing, event, CanTell, Tells, no_more, one_more, Behind, read_one,
}

module _ (S : Spool) where
  CanTell-setups :
      (es : List (Event S)) (known : Sources) (requested : Submissions)
      → CanTell S known requested es
      → All (λ e. length e.meta.setup ≡ 8) es
  unfolding CanTell
  CanTell-setups [] known requested c = tt
  CanTell-setups (e ∷ es) known requested c = (c.0.fits.setup_length, CanTell-setups es _ _ c.2)

  -- The events of the rest of a capture.
  Reads-back :
      (n : ℕ) (start r : Reader) (w w' : Writer) (es : List (Event S))
      → Reliable S
      → Behind S n start r
      → n + length r.input ≤ length start.input
      → InStep S w.interfaces r
      → WriterIsValid S w
      → CanTell S w.interfaces r.requested es
      → write_events w es ≡ ok w'
      → w'.output ≡ w.output ++ r.input
      → (told : List (Event S)) × Reads S start told × Tells S w.interfaces r.requested es told
  unfolding write_events CanTell Behind next_event
  Reads-back n start r w w' [] reliable skipped fuel s v c h same =
      let done : r.input ≡ [] =
        append-cancel w.output r.input []
          (sym same ∙ sym (ap (λ x. x.output) (ok-injective h)) ∙ sym (append-nil w.output)) in
      let (m, few, skips) = skipped 0 r here in
      (
        [],
        nothing (
            read_blocks-ended S (suc (length start.input)) (omega (arith, few, fuel)) skips
              (next_block-end S r done)),
        no_more,
      )
  Reads-back n start r w w' (e ∷ es) reliable skipped fuel s v c h same =
      let (w₁, one, more) = >>=-eq-ok (write_event w e) (λ x. write_events x es) h in
      let d = write_event-Wrote w e w₁ one in
      let known = w.interfaces in
      let source = interface_of known e.source_id in
      let first = prefix_of known e.source_id ++ packet_block source e d.payload in
      let v₁ = Wrote-IsValid w w₁ e c.0.fits.setup_length v d in
      let setups = CanTell-setups es _ _ c.2 in
      let (_, (added, rest)) = write_events-IsValid w₁ w' es setups v₁ more in
      let input : r.input ≡ first ++ added =
        append-cancel w.output r.input (first ++ added)
          (sym same ∙ rest ∙ ap (λ x. x ++ added) d.output ∙ append_assoc w.output first added) in
      let o = read_one S n start r w w₁ e d added reliable skipped fuel s v.sources c.0 c.1 input in
      let step = subst (λ k. InStep S k o.after) (sym d.interfaces) o.in_step in
      let later =
        subst (λ k. CanTell S k o.after.requested es) (sym d.interfaces)
          (subst (λ q. CanTell S (sources_after known e.source_id) q es) (sym o.requests) c.2) in
      let (told, reads, tells) =
        Reads-back 0 o.after o.after w₁ w' es reliable (λ k r' t. (k, omega arith, t)) (omega arith)
          step v₁ later more (rest ∙ ap (λ x. w₁.output ++ x) (sym o.input)) in
      (
        _,
        event o.reads reads,
        one_more o.file o.held (
            subst (λ k. Tells S k (requests_after source e.meta r.requested) es told) d.interfaces
              (subst (λ q. Tells S w₁.interfaces q es told) o.requests tells)),
      )

  -- A reader of a new capture, behind the section's header and the first interface.
  abbrev opened : List ℕ → Reader
  opened input = record (new_reader input) {
    section = true;
    interfaces = usb_interface 0 ∷ [];
    next_source_id = 1;
  }

  opened-InStep : (input : List ℕ) → InStep S [] (opened input)
  unfolding numbered
  opened-InStep input = record {
    in_section = record { section = refl; little_endian = refl };
    interfaces = refl;
    next = refl;
  }

  opened-Behind :
      (added : List ℕ) → Behind S 2 (new_reader (new_writer.output ++ added)) (opened added)
  unfolding Behind
  opened-Behind added k r' t =
      let start = new_reader (new_writer.output ++ added) in
      let inside = record start { input = interface_block ++ added; section = true } in
      let one = next_block-section S start (interface_block ++ added) refl in
      let two = next_block-interface S inside added refl refl (omega arith) refl in
      (suc (suc k), omega arith, over one (over two t))

  -- Where spooled files do not fail and a new writer writes a run of events that can be told without
  -- an error, a new reader reads the capture to its end, without an error, and delivers those events
  -- in their order, as they are told.
  pub Reads-write_events :
      (es : List (Event S)) (w : Writer)
      → Reliable S
      → CanTell S [] [] es
      → write_events new_writer es ≡ ok w
      → (told : List (Event S)) × Reads S (new_reader w.output) told × Tells S [] [] es told
  Reads-write_events es w reliable c h =
      let setups = CanTell-setups es _ _ c in
      let (_, (added, grown)) =
        write_events-IsValid new_writer w es setups (new_writer-IsValid S) h in
      let (told, reads, tells) =
        Reads-back 2 (new_reader (new_writer.output ++ added)) (opened added) new_writer w es
          reliable (opened-Behind added) (omega (arith, length-append new_writer.output added))
          (opened-InStep added) (new_writer-IsValid S) c h grown in
      (told, subst (λ x. Reads S (new_reader x) told) (sym grown) reads, tells)
