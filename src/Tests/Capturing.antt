-- ===== src/Tests/Capturing.antt =====
-- Captures that are replayed: latencies, limits and losses.
use usbscope.Prelude.{
  ℕ, suc, ◌+◌, ◌≡◌, ◌↔◌, refl, arith, none, some, List, [], ◌∷◌, Bool, false, true, leb, length,
  Option,
}
use usbscope.Prelude.Result.{Result, ok, yields, Yields}
use usbscope.Capture.Event.{Event}
use usbscope.Capture.Archive
use usbscope.Capture.Reassembler.State
use usbscope.Capture.Reassembler.State.{fresh}
use usbscope.Capture.Submissions
use usbscope.Capture.Pcapng.Reader
use usbscope.Capture.Pcapng.Reader.{Reader, new_reader}
use usbscope.Capture.Pcapng.Packets
use usbscope.Capture.Pcapng.Blocks
use usbscope.Capture.Pcapng.Blocks.{next_event}
use usbscope.Capture.Pcapng.Telling.{Reads, nothing, event}
use usbscope.Filter.Evaluate
use usbscope.Filter.Syntax.{everything}
use usbscope.Main.Consume.{Options, Consumer, consume_events, consume_capture}
use usbscope.Main.Consume
use usbscope.Main.Latency.{track_all, latencies_after, track_all-latencies}
use usbscope.Main.End.{live, end_run, NothingLost, end_run-NothingLost}
use usbscope.Main.Replay.{consume_capture-Yields, consume_capture-Reads}
use usbscope.Tests.Archives.{some_losses}
use usbscope.Tests.Memory.{memory, bulk_event}
use usbscope.Tests.Outputs.{kept}
use usbscope.Tests.Pcaps.{ends, submit_event, captured}

-- A submission, its completion, and the completion again.
abbrev run : List (Event memory)
run =
    record submit_event { meta = record (submit_event.meta) { timestamp_ns = 3000 } }
    ∷ bulk_event
    ∷ bulk_event
    ∷ []

run_latencies : track_all [] run ≡ ok (none ∷ some 2000 ∷ none ∷ [])
unfolding track_all Consume.track_latency Submissions.request_of Submissions.add_request
    Submissions.take_request
run_latencies = refl

track_all-latencies_example : (none ∷ some 2000 ∷ none ∷ []) ≡ latencies_after [] run
track_all-latencies_example = track_all-latencies run (none ∷ some 2000 ∷ none ∷ []) run_latencies

-- Every event of device 5, up to two of them.
abbrev options : Options
options = record { limit = some 2; bus = 1; device = some 5; filter = everything; with_iso = false }

abbrev consumer : ℕ → Consumer kept
consumer n = record {
  writer = none;
  written = n;
  iso_stats = λ k. none;
  submissions = [];
  output_full = false;
}

end_run-NothingLost_example :
    (end_run true (live some_losses) (fresh memory) ≡ ok tt)
    ↔ (true ≡ true → NothingLost (live some_losses) (fresh memory))
end_run-NothingLost_example =
    end_run-NothingLost true (live some_losses) (fresh memory) (omega arith)

-- A count of the events, which stops at two.
abbrev count_event : ℕ → Event memory → Result (Bool × ℕ)
count_event n e = ok (leb 2 (n + 1), n + 1)

consume_capture-Yields_example :
    Yields
      (λ _. Unit {0})
      (consume_capture count_event (suc (length captured.output)) (new_reader captured.output) 0)
consume_capture-Yields_example =
    consume_capture-Yields count_event ends (λ n e. yields tt) (new_reader captured.output) 0

abbrev event_or : Event memory → Result (Option (Event memory) × Reader) → Event memory
event_or d (ok (some e, r)) = e
event_or d _ = d

abbrev reader_or : Reader → Result (Option (Event memory) × Reader) → Reader
reader_or d (ok (e, r)) = r
reader_or d _ = d

abbrev start : Reader
start = new_reader captured.output

abbrev second : Reader
second = reader_or start (next_event memory start)

abbrev third : Reader
third = reader_or second (next_event memory second)

abbrev fourth : Reader
fourth = reader_or third (next_event memory third)

abbrev last : Reader
last = reader_or fourth (next_event memory fourth)

abbrev delivered : List (Event memory)
delivered =
    event_or bulk_event (next_event memory start)
    ∷ event_or bulk_event (next_event memory second)
    ∷ event_or bulk_event (next_event memory third)
    ∷ []

captured-Reads : Reads memory start delivered
unfolding next_event Blocks.read_blocks Blocks.next_block Blocks.read_body Blocks.read_packet_block
    Blocks.read_usb captured Archive.read_exact State.same_bytes Reader.endian_uint Reader.skip
    Reader.footer Reader.read_section Reader.read_interface Packets.read_packet Packets.usb_meta
    Packets.check_spans Packets.pair Packets.read_details Packets.copy_in Packets.is_lossy
    State.find State.put
captured-Reads =
    event {r' = second} refl
      (event {r' = third} refl (event {r' = fourth} refl (nothing {r' = last} refl)))

counted : consume_events count_event 0 delivered ≡ ok (true, 2)
unfolding consume_events
counted = refl

consume_capture-Reads_example :
    (r' : Reader) × (consume_capture count_event (suc (length start.input)) start 0
      ≡ ok (true, r', 2))
consume_capture-Reads_example =
    consume_capture-Reads count_event ends start delivered 0 (true, 2) captured-Reads counted
