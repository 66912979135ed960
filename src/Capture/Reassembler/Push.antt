-- ===== src/Capture/Reassembler/Push.antt =====
-- crates/usbscope-capture/src/lib.rs: Reassembler::push, finish and stop_at_limit.
use usbscope.Prelude.{
  ℕ, ◌+◌, Bool, true, false, not, ◌&&◌, ◌||◌, Option, none, some, List, [], length, ltb, ◌==◌,
  if◌then◌else◌,
}
use usbscope.Prelude.Result.{
  Result, ok, ensure, ◌>>◌, ◌>>=◌, invalid_counter_summary, metadata_offset_must_be_zero,
  duplicate_begin, too_many_unfinished, unknown_record_kind, invalid_event_end,
}
use usbscope.Common.Meta.{record_begin, record_data, record_iso, record_end, record_stats}
use usbscope.Capture.Event.{Spool, Event}
use usbscope.Capture.Decode.{decode_meta}
use usbscope.Capture.Reassembler.State.{
  Pending, Reassembler, Frame, read_frame, find, erase, put, add_losses, max_pending_events,
}
use usbscope.Capture.Reassembler.Data.{data_record}
use usbscope.Capture.Reassembler.End.{iso_record, end_record}

abbrev pub Step : Spool → Type 0
Step S = Result (Option (Event S) × Reassembler S)

abbrev pub is_some {ℓ} : {A : Type ℓ} → Option A → Bool
is_some none = false
is_some (some a) = true

module _ {S : Spool} (r : Reassembler S) where
  unfoldable pub push_stats : Frame → Step S
  push_stats f = do
    ensure ((f.id == 0 && f.offset == 0) && length f.body == 64) invalid_counter_summary
    ok (
      none,
      record r {
        stats = record (r.stats) { kernel_losses = add_losses r.stats.kernel_losses f.body };
      },
    )

  unfoldable pub push_begin : Frame → Step S
  push_begin f = do
    ensure (f.offset == 0) metadata_offset_must_be_zero
    ensure (not (is_some (find f.id r.pending))) duplicate_begin
    ensure (ltb (length r.pending) max_pending_events) too_many_unfinished
    meta ← decode_meta f.body
    let event : Event S = record {
      source_id = 0;
      meta = meta;
      iso = [];
      payload = S.empty;
      identity_known = true;
      requested_known = true;
    }
    ok (
      none,
      record r { pending = put f.id (record { event = event; ranges = []; copied = 0 }) r.pending },
    )

  -- The unfinished event is put back as the record left it.
  abbrev keep : ℕ → Result (Pending S) → Step S
  keep id p = p >>= λ pending. ok (none, record r { pending = put id pending r.pending })

  -- The event is complete, or it is counted as incomplete.
  abbrev pub finished : Frame → Pending S → Bool → Step S
  finished f pending done =
      let rest = erase f.id r.pending in
      if done
      then ok (
        some pending.event,
        record {
          pending = rest;
          stats = record (r.stats) { complete_events = r.stats.complete_events + 1 };
        },
      )
      else ok (
        none,
        record { pending = rest; stats = record (r.stats) { incomplete = r.stats.incomplete + 1 } },
      )

  unfoldable pub push_end : Frame → Pending S → Step S
  push_end f pending = do
    ensure (length f.body == 16 && f.offset == 0) invalid_event_end
    done ← end_record pending f.body
    finished f pending done

  unfoldable pub push_part : Frame → Option (Pending S) → Step S
  push_part f none =
      ok (
        none,
        record r { stats = record (r.stats) { orphan_records = r.stats.orphan_records + 1 } },
      )
  push_part f (some pending) =
      if f.kind == record_data
      then keep f.id (data_record pending f.offset f.body)
      else if f.kind == record_iso
      then keep f.id (iso_record pending f.offset f.body)
      else push_end f pending

  unfoldable pub push_frame : Frame → Step S
  unfolding push_stats push_begin push_part push_end
  push_frame f =
      if f.kind == record_stats
      then push_stats f
      else if f.kind == record_begin
      then push_begin f
      else (do
        ensure (f.kind == record_data || (f.kind == record_iso || f.kind == record_end))
            unknown_record_kind
        push_part f (find f.id r.pending))

  -- Reassembler::push
  unfoldable pub push : List ℕ → Step S
  push bytes = read_frame bytes >>= push_frame

  -- Reassembler::finish
  unfoldable pub finish : Reassembler S
  finish = record {
    pending = [];
    stats = record (r.stats) { incomplete = r.stats.incomplete + length r.pending };
  }

  -- Reassembler::stop_at_limit
  unfoldable pub stop_at_limit : Reassembler S
  stop_at_limit = record r { pending = [] }
