-- ===== src/Tests/Outputs.antt =====
-- Outputs of concrete events: the rotation of files and the isochronous statistics.
use usbscope.Prelude.{ℕ, ◌*◌, ◌≡◌, refl, arith, none, some, List, [], ◌∷◌, ◌++◌, length}
use usbscope.Prelude.Int.{pos}
use usbscope.Prelude.Result.{ok}
use usbscope.Capture.Event.{Event}
use usbscope.Output.Rotation.{Sink, CaptureOutput, is_due}
use usbscope.Output.Rotation
use usbscope.Output.Rotation.Files.{Keeps, write_all, write_all-Keeps}
use usbscope.Output.IsoStats.{Endpoint, Key, IsoStats, no_endpoint, observe}
use usbscope.Output.IsoStats
use usbscope.Output.IsoStats.Totals.{totals, observe_all, Adds, at_key, observe_all-Adds}
use usbscope.Tests.Memory.{memory, bulk_event}

-- A writer that keeps its events; each takes 100 bytes.
abbrev pub kept : Sink memory
kept = record {
  Writer = List (Event memory);
  open_file = λ rotating index. ok [];
  bytes_written = λ w. 100 * length w;
  write_event = λ w e. ok (w ++ (e ∷ []));
  flush = λ w. ok w;
  written = λ w. w;
  open_empty = λ rotating index w h. ground (arith, h);
  write_adds = λ w w' e h. ground (arith, h);
}

abbrev output_at : ℕ → ℕ → List (Event memory) → CaptureOutput kept
output_at index events w = record {
  writer = w;
  size = some 200;
  seconds = none;
  max_files = some 2;
  file_index = index;
  events = events;
  started = some bulk_event.meta.timestamp_ns;
}

abbrev empty_output : CaptureOutput kept
empty_output = record {
  writer = [];
  size = some 200;
  seconds = none;
  max_files = some 2;
  file_index = 0;
  events = 0;
  started = none;
}

abbrev two : List (Event memory)
two = bulk_event ∷ bulk_event ∷ []

-- Five events, two to a file, and two files: the fifth is refused.
rotates :
    write_all kept (two ++ (two ++ (bulk_event ∷ []))) [] empty_output
    ≡ ok (two ∷ [], output_at 1 2 two)
unfolding write_all Rotation.write
rotates = refl

write_all-Keeps_example :
    Keeps kept (two ++ (two ++ (bulk_event ∷ []))) [] (two ∷ []) empty_output (output_at 1 2 two)
write_all-Keeps_example =
    write_all-Keeps kept (two ++ (two ++ (bulk_event ∷ []))) [] (two ∷ []) empty_output
      (output_at 1 2 two) rotates

abbrev iso_event : Event memory
iso_event = record bulk_event {
  meta = record (bulk_event.meta) { transfer_type = 0; event_type = b'C' };
  iso =
      record { status = pos 0; offset = 0; length = 8; padding = 0 }
      ∷ record { status = pos 0; offset = 8; length = 0; padding = 0 }
      ∷ [];
}

abbrev iso_key : Key
iso_key = IsoStats.key_of iso_event

abbrev no_stats : IsoStats
no_stats k = none

counts_frames : (totals iso_key (iso_event ∷ bulk_event ∷ iso_event ∷ [])).bytes ≡ 16
unfolding totals
counts_frames = refl

observe_all-Adds_example :
    Adds
      (totals iso_key (iso_event ∷ bulk_event ∷ iso_event ∷ []))
      no_endpoint
      (at_key iso_key (observe_all (iso_event ∷ bulk_event ∷ iso_event ∷ []) no_stats))
observe_all-Adds_example =
    observe_all-Adds iso_key (iso_event ∷ bulk_event ∷ iso_event ∷ []) no_stats (omega arith)
