-- ===== src/Tests/Archives.antt =====
-- An archive of one record and the kernel's counters.
use usbscope.Prelude.{ℕ, ◌≡◌, refl, arith, none, List, [], ◌∷◌, ◌++◌}
use usbscope.Prelude.Result.{ok, ◌>>=◌}
use usbscope.Common.Meta.{CaptureStats}
use usbscope.Capture.Archive.{archive, read_archive, summary_record}
use usbscope.Capture.Decode
use usbscope.Capture.Archive.Replay.{
  Storable, read_archive-archive, with_losses, push-summary_record,
}
use usbscope.Capture.Reassembler.State
use usbscope.Capture.Reassembler.State.{Reassembler, fresh}
use usbscope.Capture.Reassembler.Push.{push, push_frame}
use usbscope.Live.Drain.{record_of, drain, recorded, consume_all}
use usbscope.Live.Archiving.{record_of-Storable}
use usbscope.Live.Replay.{consume_all-archive}
use usbscope.Tests.Memory.{memory}

abbrev pub some_losses : CaptureStats
some_losses = record {
  submitted = 9;
  completed = 7;
  submit_errors = 1;
  ring_losses = 2;
  read_errors = 3;
  unsupported_buffers = 0;
  state_errors = 1;
  sg_events = 4;
}

-- A header alone, of 24 bytes.
abbrev short_record : List ℕ
short_record =
    1
    ∷ 0
    ∷ 2
    ∷ 0
    ∷ 24
    ∷ 0
    ∷ 0
    ∷ 0
    ∷ (3 ∷ 0 ∷ 0 ∷ 0 ∷ 0 ∷ 0 ∷ 0 ∷ 0 ∷ (0 ∷ 0 ∷ 0 ∷ 0 ∷ 0 ∷ 0 ∷ 0 ∷ 0 ∷ []))

short_record-Storable : Storable short_record
unfolding Decode.u32_at
short_record-Storable = record { enough = omega arith; few = omega arith; named = refl }

read_archive-archive_example :
    read_archive (archive (short_record ∷ []) some_losses)
    ≡ ok ((short_record ∷ []) ++ (summary_record some_losses ∷ []))
read_archive-archive_example =
    read_archive-archive (short_record ∷ []) some_losses (short_record-Storable, tt)

push-summary_record_example :
    push (fresh memory) (summary_record some_losses)
    ≡ ok (
      none,
      record (fresh memory) {
        stats = record ((fresh memory).stats) { kernel_losses = with_losses some_losses 0 };
      },
    )
push-summary_record_example = push-summary_record (fresh memory) some_losses (omega arith)

losses_counted : with_losses some_losses 0 ≡ 6
losses_counted = refl

-- A fragment of an unknown event, in an item that is longer than it.
abbrev orphan_items : List (List ℕ)
orphan_items = (short_record ++ (9 ∷ [])) ∷ []

abbrev with_orphan : Reassembler memory
with_orphan = record {
  pending = [];
  stats = record { complete_events = 0; incomplete = 0; orphan_records = 1; kernel_losses = 0 };
}

orphan_record : record_of (short_record ++ (9 ∷ [])) ≡ ok short_record
unfolding record_of Decode.u32_at
orphan_record = refl

orphan_pushed : push (fresh memory) short_record ≡ ok (none, with_orphan)
unfolding push push_frame State.read_frame State.find Decode.u16_at Decode.u32_at Decode.u64_at
orphan_pushed = refl

orphan_drained : drain (fresh memory) orphan_items ≡ ok ([], with_orphan)
unfolding drain push push_frame State.read_frame State.find Decode.u16_at Decode.u32_at
    Decode.u64_at
orphan_drained = refl

consume_all-archive_example :
    (records : List (List ℕ)) × (recorded orphan_items ≡ ok records)
    × ((read_archive (archive records some_losses) >>= consume_all (fresh memory))
        ≡ ok (
          [],
          record with_orphan {
            stats = record (with_orphan.stats) { kernel_losses = with_losses some_losses 0 };
          },
        ))
consume_all-archive_example =
    consume_all-archive (fresh memory) orphan_items [] with_orphan some_losses orphan_drained
      (omega arith)

record_of-Storable_example : Storable short_record
record_of-Storable_example =
    record_of-Storable (short_record ++ (9 ∷ [])) short_record (fresh memory) (none, with_orphan)
      orphan_record orphan_pushed
