-- ===== src/Tests/Pcaps.antt =====
-- Captures in the pcapng format that are written, read and replayed.
use usbscope.Prelude.{
  ℕ, ◌≡◌, refl, arith, replicate, Bool, true, some, none, inl, inr, List, [], ◌∷◌, ◌++◌, ◌+◌,
  length,
}
use usbscope.Prelude.Int.{pos, negsuc}
use usbscope.Prelude.Result.{Result, ok, yields, Yields}
use usbscope.Capture.Decode.RoundTrip.{MetaIsValid}
use usbscope.Capture.Event.{Event, Reliable}
use usbscope.Capture.Reassembler.State
use usbscope.Capture.Submissions
use usbscope.Capture.Pcapng.Writer
use usbscope.Capture.Pcapng.Writer.{Writer, new_writer, write_event}
use usbscope.Capture.Pcapng.Reader.{new_reader}
use usbscope.Capture.Pcapng.Packets
use usbscope.Capture.Pcapng.Sound.{Ending}
use usbscope.Capture.Pcapng.Blocks.{next_event}
use usbscope.Capture.Pcapng.Delivered.{Delivers, next_event-Delivers}
use usbscope.Capture.Pcapng.Validity.{
  WriterIsValid, new_writer-IsValid, write_events, write_events-IsValid,
}
use usbscope.Capture.Pcapng.Telling.{Reads, Tells, CanTell}
use usbscope.Capture.Pcapng.Retelling.{Reads-write_events}
use usbscope.Output.Rotation
use usbscope.Output.Rotation.{CaptureOutput}
use usbscope.Output.Pcapng.{OpenFile, created, extend, pcapng_sink}
use usbscope.Tests.Memory.{
  memory, bulk_event, bulk_meta, bulk_submit, bulk_submit-InRange, bulk_meta-InRange,
}

abbrev pub submit_event : Event memory
submit_event = record bulk_event { meta = bulk_submit; payload = [] }

-- An isochronous completion of another source, with an empty frame.
abbrev frames_event : Event memory
frames_event = record {
  source_id = 9;
  meta = record bulk_meta {
    transfer_type = 0;
    requested_len = 16;
    actual_len = 8;
    payload_len = 8;
    iso_count = 2;
  };
  iso =
      record { status = pos 0; offset = 0; length = 8; padding = 0 }
      ∷ record { status = negsuc 17; offset = 8; length = 0; padding = 0 }
      ∷ [];
  payload = replicate 8 0x62;
  identity_known = true;
  requested_known = true;
}

-- A request and its completion, and a completion whose request was not captured.
abbrev pub exchange : List (Event memory)
exchange = submit_event ∷ bulk_event ∷ frames_event ∷ []

pub ends : Ending memory
unfolding Ending
ends = λ f off bs. yields tt

abbrev reliable : Reliable memory
reliable = record { seeks = λ f off. refl; writes = λ f off bs. (_, refl) }

abbrev output_of : Result Writer → Writer
output_of (ok w) = w
output_of _ = new_writer

unfoldable pub captured : Writer
unfolding write_events write_event
captured = output_of (write_events new_writer exchange)

exchange_written : write_events new_writer exchange ≡ ok captured
unfolding write_events write_event Writer.packet_block Writer.usb_header Writer.descriptor_bytes
    State.find State.put captured
exchange_written = refl

-- The section, an interface, two packets of 96 and 100 bytes, another interface and its packet.
captured_size : length captured.output ≡ 48 + 96 + 100 + 20 + 136
unfolding captured State.find State.put
captured_size = refl

write_events-IsValid_example :
    WriterIsValid memory captured
    × ((added : List ℕ) × (captured.output ≡ new_writer.output ++ added))
write_events-IsValid_example =
    write_events-IsValid new_writer captured exchange (refl, (refl, (refl, tt)))
      (new_writer-IsValid memory) exchange_written

next_event-Delivers_example :
    Yields
      (Delivers memory (length captured.output))
      (next_event memory (new_reader captured.output))
next_event-Delivers_example = next_event-Delivers memory (new_reader captured.output) ends

submit-IsValid : MetaIsValid bulk_submit
submit-IsValid = record {
  known_event = inl refl;
  known_transfer = omega arith;
  address = omega arith;
  data_flag = omega arith;
  setup_flag = omega arith;
  flagged = inr refl;
  only_iso = inr refl;
  span = omega arith;
}

bulk-IsValid : MetaIsValid bulk_meta
bulk-IsValid = record {
  known_event = inr (inl refl);
  known_transfer = omega arith;
  address = omega arith;
  data_flag = omega arith;
  setup_flag = omega arith;
  flagged = inl (λ h. absurd (omega (arith, h)));
  only_iso = inr refl;
  span = omega arith;
}

frames-IsValid : MetaIsValid frames_event.meta
frames-IsValid = record {
  known_event = inr (inl refl);
  known_transfer = omega arith;
  address = omega arith;
  data_flag = omega arith;
  setup_flag = omega arith;
  flagged = inl (λ h. absurd (omega (arith, h)));
  only_iso = inl refl;
  span = omega arith;
}

exchange-CanTell : CanTell memory [] [] exchange
unfolding CanTell State.find Submissions.request_of Submissions.add_request Submissions.take_request
    Packets.is_lossy State.put
exchange-CanTell = (
  record {
    fits = bulk_submit-InRange;
    valid = submit-IsValid;
    counted = refl;
    plain = tt;
    within = tt;
    whole = refl;
  },
  (λ h. omega arith),
  (
    record {
      fits = bulk_meta-InRange;
      valid = bulk-IsValid;
      counted = refl;
      plain = tt;
      within = tt;
      whole = refl;
    },
    (λ h. omega arith),
    (
      record {
        fits = omega arith;
        valid = frames-IsValid;
        counted = refl;
        plain = (
          record { in_range = omega arith; unpadded = refl },
          (record { in_range = omega arith; unpadded = refl }, tt),
        );
        within = (
          record {
            in_u32 = omega arith;
            in_buffer = λ h. absurd (cc);
            in_payload = λ h k. omega arith;
          },
          (
            record {
              in_u32 = omega arith;
              in_buffer = λ h. absurd (cc);
              in_payload = λ h k. omega arith;
            },
            tt,
          ),
        );
        whole = refl;
      },
      (λ h. omega arith),
      tt,
    ),
  ),
)

Reads-write_events_example :
    (told : List (Event memory)) × Reads memory (new_reader captured.output) told
    × Tells memory [] [] exchange told
Reads-write_events_example =
    Reads-write_events memory exchange captured reliable exchange-CanTell exchange_written

-- An output over the pcapng writer, whose files can always be created.
abbrev create : Bool → ℕ → Result (Unit {0})
create rotating index = ok tt

abbrev output_with : OpenFile memory → CaptureOutput (pcapng_sink memory create)
output_with f = record {
  writer = f;
  size = some 100;
  seconds = none;
  max_files = none;
  file_index = 0;
  events = length f.events;
  started = none;
}

abbrev stored : Result (Bool × CaptureOutput (pcapng_sink memory create))
stored = Rotation.write (pcapng_sink memory create) (output_with created) submit_event

abbrev output_after :
    Result (Bool × CaptureOutput (pcapng_sink memory create))
    → CaptureOutput (pcapng_sink memory create)
output_after (ok (accepted, o)) = o
output_after _ = output_with created

-- The open file holds the event that was written to it.
stored_events : (output_after stored).writer.events ≡ submit_event ∷ []
unfolding Rotation.write Rotation.append_event extend write_event State.find State.put
stored_events = refl
