-- ===== src/Live/Building.antt =====
-- crates/usbscope-capture/src/lib.rs, `push`: the records of one event, from its begin record on.
use usbscope.Prelude.{
  ℕ, ◌+◌, ◌^◌, ◌<◌, ◌≤◌, ◌≡◌, ◌≢◌, refl, ◌∙◌, arith, true, List, [], ◌∷◌, ◌++◌, length, ltb, lt→ltb,
  ◌==◌, none, some,
}
use usbscope.Prelude.Result.{ok}
use usbscope.Common.Meta.{EventMeta, record_begin, record_data}
use usbscope.Capture.Event.{Spool}
use usbscope.Capture.Decode.{decode_meta}
use usbscope.Capture.Reassembler.State.{
  Pending, Reassembler, ReassemblyStats, find, erase, put, max_pending_events,
}
use usbscope.Capture.Reassembler.Maps.{find-put}
use usbscope.Capture.Reassembler.Push.{push_frame}
use usbscope.Capture.Event.{Reliable}
use usbscope.Live.Filling.{Filling, data_record-Filling}

erase-twice : {V : Type 0} (id : ℕ) (m : List (ℕ × V)) → erase id (erase id m) ≡ erase id m
unfolding erase
erase-twice id [] = refl
erase-twice id ((j, v) ∷ m) = ground (arith, erase-twice id m)

find-put_same : {V : Type 0} (id : ℕ) (v : V) (m : List (ℕ × V)) → find id (put id v m) ≡ some v
find-put_same id v m = ground (arith, find-put id id v m)

erase-put : {V : Type 0} (id : ℕ) (v : V) (m : List (ℕ × V)) → erase id (put id v m) ≡ erase id m
unfolding put erase
erase-put id v m = let e : (id == id) ≡ true = ground arith in rw e (erase-twice id m)

-- The event of an id is unfinished, and filled with these bytes; beside it are the old ones.
pub record Building {S : Spool} (r : Reassembler S) (id : ℕ) (m : EventMeta) (bytes : List ℕ)
    (old : List (ℕ × Pending S)) (stats : ReassemblyStats) : Type 0 where
  pub pending : Pending S
  pub found : find id r.pending ≡ some pending
  pub filling : Filling pending m bytes
  pub others : erase id r.pending ≡ old
  pub counted : r.stats ≡ stats

module _ {S : Spool} (reliable : Reliable S) (r : Reassembler S) (id : ℕ) (m : EventMeta) where
  pub begin-Building :
      (body : List ℕ)
      → find id r.pending ≡ none
      → length r.pending < max_pending_events
      → decode_meta body ≡ ok m
      → (r' : Reassembler S) × (push_frame r
            (record { kind = record_begin; id = id; offset = 0; body = body })
          ≡ ok (none, r'))
        × Building r' id m [] (erase id r.pending) r.stats
  unfolding push_frame
  begin-Building body free room decoded =
      let p : Pending S = record {
        event = record {
          source_id = 0;
          meta = m;
          iso = [];
          payload = S.empty;
          identity_known = true;
          requested_known = true;
        };
        ranges = [];
        copied = 0;
      } in
      let few : ltb (length r.pending) max_pending_events ≡ true = lt→ltb _ _ room in
      (
        record r { pending = put id p r.pending },
        rw (free, few, decoded) refl,
        record {
          pending = p;
          found = find-put_same id p r.pending;
          filling = record {
            meta = refl;
            iso = refl;
            ranges = refl;
            copied = refl;
            payload = S.contents-empty;
          };
          others = erase-put id p r.pending;
          counted = refl;
        },
      )

  pub data-Building :
      (bytes body : List ℕ) (old : List (ℕ × Pending S)) (stats : ReassemblyStats)
      → Building r id m bytes old stats
      → m.transfer_type ≢ 0
      → m.payload_len < 2 ^ 32
      → length body ≢ 0
      → length bytes + length body ≤ m.payload_len
      → (r' : Reassembler S) × (push_frame r
            (record { kind = record_data; id = id; offset = length bytes; body = body })
          ≡ ok (none, r'))
        × Building r' id m (bytes ++ body) old stats
  unfolding push_frame
  data-Building bytes body old stats b not_iso small some_bytes within =
      let (p, read, filled) =
        data_record-Filling reliable b.pending m bytes body b.filling not_iso small some_bytes
          within in
      (
        record r { pending = put id p r.pending },
        rw (b.found, read) refl,
        record {
          pending = p;
          found = find-put_same id p r.pending;
          filling = filled;
          others = erase-put id p r.pending ∙ b.others;
          counted = b.counted;
        },
      )
