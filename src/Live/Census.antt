-- ===== src/Live/Census.antt =====
-- crates/usbscope-capture/src/lib.rs, `push` and `finish`, in the loop of src/main.rs over the records
-- of an archive: what becomes of the events that are begun.
use usbscope.Prelude.{
  ℕ, ◌+◌, ◌≤◌, ◌≡◌, inl, inr, refl, ap, sym, subst, arith, Option, some, List, [], ◌∷◌, length,
  length-append, ◌==◌, if◌then◌else◌,
}
use usbscope.Prelude.Result.{Result, ok, err, ok-injective, >>=-eq-ok}
use usbscope.Common.Meta.{record_begin}
use usbscope.Capture.Event.{Spool, Event}
use usbscope.Capture.Ranges.Laws.{Apart}
use usbscope.Capture.Reassembler.State.{
  Pending, Reassembler, Frame, read_frame, fresh, find, erase, put, max_pending_events,
}
use usbscope.Capture.Reassembler.Maps.{
  Distinct, erase-unknown, erase-Distinct, length-erase_known, put-Distinct,
}
use usbscope.Capture.Reassembler.Push.{push, push_frame, finish}
use usbscope.Capture.Reassembler.Outcome.{
  Outcome, counters, begun, orphan, filled, described, dropped, delivered, opened,
  push_frame-Outcome,
}
use usbscope.Capture.Reassembler.Delivery.{Logs, note_record}
use usbscope.Capture.Reassembler.Track.{TracksAll, push-TracksAll, fresh-TracksAll}
use usbscope.Live.Drain
use usbscope.Live.Drain.{consume_all}

-- The begin records among the records.
abbrev begin_count : Frame → ℕ
begin_count f = if f.kind == record_begin then 1 else 0

abbrev begin_of : Result Frame → ℕ
begin_of (ok f) = begin_count f
begin_of (err e) = 0

unfoldable pub begins : List (List ℕ) → ℕ
begins [] = 0
begins (bytes ∷ records) = begin_of (read_frame bytes) + begins records

-- One entry for an id, and not too many.
record HasRoom {S : Spool} (r : Reassembler S) : Type 0 where
  pub distinct : Distinct r.pending
  pub few : length r.pending ≤ max_pending_events

-- From one state to another, with the number of begin records and the events that came out.
record Balances {S : Spool} (r : Reassembler S) (begun_now : ℕ) (events : List (Event S))
    (r' : Reassembler S) : Type 0 where
  pub room : HasRoom r'
  pub whole : r'.stats.complete_events ≡ r.stats.complete_events + length events
  pub balance :
      begun_now + (length r.pending + r.stats.incomplete)
      ≡ length events + (length r'.pending + r'.stats.incomplete)

module _ {S : Spool} where
  kept-length :
      (r : Reassembler S) (id : ℕ) (p p' : Pending S)
      → HasRoom r
      → find id r.pending ≡ some p
      → length (put id p' r.pending) ≡ length r.pending
  unfolding put
  kept-length r id p p' v found = sym (length-erase_known id p r.pending v.distinct found)

  put-HasRoom :
      (r r' : Reassembler S) (id : ℕ) (p p' : Pending S)
      → HasRoom r
      → find id r.pending ≡ some p
      → r'.pending ≡ put id p' r.pending
      → HasRoom r'
  put-HasRoom r r' id p p' v found same = record {
    distinct = subst Distinct (sym same) (put-Distinct id p' r.pending v.distinct);
    few = omega (arith, ap length same, kept-length r id p p' v found, v.few);
  }

  erase-HasRoom :
      (r r' : Reassembler S) (id : ℕ) (p : Pending S)
      → HasRoom r
      → find id r.pending ≡ some p
      → r'.pending ≡ erase id r.pending
      → HasRoom r'
  erase-HasRoom r r' id p v found same = record {
    distinct = subst Distinct (sym same) (erase-Distinct id r.pending v.distinct);
    few = omega (arith, ap length same, length-erase_known id p r.pending v.distinct found, v.few);
  }

  Outcome-Balances :
      (r : Reassembler S) (f : Frame) (o : Option (Event S)) (r' : Reassembler S)
      → HasRoom r
      → Outcome r f o r'
      → Balances r (begin_count f) (Drain.delivered o) r'
  unfolding put
  Outcome-Balances r f o r' v (counters e) = record {
    room = record { distinct = v.distinct; few = v.few };
    whole = omega arith;
    balance = ground (arith, e);
  }
  Outcome-Balances r f o r' v (begun e meta d new free) =
      let same = ap length (erase-unknown f.id r.pending new) in
      record {
        room = record {
          distinct = put-Distinct f.id (opened S meta) r.pending v.distinct;
          few = omega (arith, same, free);
        };
        whole = omega arith;
        balance = ground (arith, e, same);
      }
  Outcome-Balances r f o r' v (orphan e n) = record {
    room = record { distinct = v.distinct; few = v.few };
    whole = omega arith;
    balance = elim e [
      | inl k ↦ ground (arith, k)
      | inr (inl k) ↦ ground (arith, k)
      | inr (inr k) ↦ ground (arith, k)
    ];
  }
  Outcome-Balances r f o r' v (filled e p p' n d) = record {
    room = put-HasRoom r _ f.id p p' v n refl;
    whole = omega arith;
    balance = ground (arith, e, kept-length r f.id p p' v n);
  }
  Outcome-Balances r f o r' v (described e p p' n d) = record {
    room = put-HasRoom r _ f.id p p' v n refl;
    whole = omega arith;
    balance = ground (arith, e, kept-length r f.id p p' v n);
  }
  Outcome-Balances r f o r' v (dropped e p n d) = record {
    room = erase-HasRoom r _ f.id p v n refl;
    whole = omega arith;
    balance = ground (arith, e, length-erase_known f.id p r.pending v.distinct n);
  }
  Outcome-Balances r f o r' v (delivered e p n d) = record {
    room = erase-HasRoom r _ f.id p v n refl;
    whole = omega arith;
    balance = ground (arith, e, length-erase_known f.id p r.pending v.distinct n);
  }

  push-Balances :
      (r : Reassembler S) (bytes : List ℕ) (t : Option (Event S) × Reassembler S)
      → HasRoom r
      → push r bytes ≡ ok t
      → Balances r (begin_of (read_frame bytes)) (Drain.delivered t.0) t.1
  unfolding push
  push-Balances r bytes t v h =
      let (f, read, h₁) = >>=-eq-ok (read_frame bytes) (push_frame r) h in
      rw read (Outcome-Balances r f t.0 t.1 v (push_frame-Outcome r f t h₁))

  -- What a run of records keeps, from any state.
  record Kept (r : Reassembler S) (records : List (List ℕ)) (events : List (Event S))
      (r' : Reassembler S) : Type 0 where
    pub balances : Balances r (begins records) events r'
    pub logs : Logs
    pub tracked : TracksAll r' logs

  consume_all-Kept :
      (r : Reassembler S) (records : List (List ℕ)) (logs : Logs) (events : List (Event S))
      (r' : Reassembler S)
      → HasRoom r
      → TracksAll r logs
      → consume_all r records ≡ ok (events, r')
      → Kept r records events r'
  unfolding consume_all begins
  consume_all-Kept r [] logs events r' v k h =
      subst (λ (t : List (Event S) × Reassembler S). Kept r [] t.0 t.1) (ok-injective h)
        record {
          balances = record { room = v; whole = omega arith; balance = refl };
          logs = logs;
          tracked = k;
        }
  consume_all-Kept r (bytes ∷ records) logs events r' v k h =
      let (t, pushed, h₁) = >>=-eq-ok (push r bytes) _ h in
      let (rest, ran, h₂) = >>=-eq-ok (consume_all t.1 records) _ h₁ in
      let one = push-Balances r bytes t v pushed in
      let more =
        consume_all-Kept t.1 records (note_record bytes logs) rest.0 rest.1 one.room
          (push-TracksAll r bytes logs t k pushed) ran in
      let size = length-append (Drain.delivered t.0) rest.0 in
      subst (λ (t : List (Event S) × Reassembler S). Kept r (bytes ∷ records) t.0 t.1)
        (ok-injective h₂)
        record {
          balances = record {
            room = more.balances.room;
            whole = omega (arith, size, one.whole, more.balances.whole);
            balance = omega (arith, size, one.balance, more.balances.balance);
          };
          logs = more.logs;
          tracked = more.tracked;
        }

-- The books of a reassembler that was fresh, after a run of records.
pub record Census {S : Spool} (records : List (List ℕ)) (events : List (Event S))
    (r : Reassembler S) : Type 0 where
  pub complete : r.stats.complete_events ≡ length events
  pub balance : begins records ≡ length events + r.stats.incomplete + length r.pending
  pub few : length r.pending ≤ max_pending_events
  pub apart : (id : ℕ) (p : Pending S) → find id r.pending ≡ some p → Apart 0 p.ranges
  pub ended : (finish r).stats.complete_events + (finish r).stats.incomplete ≡ begins records

-- After a run of records from a fresh reassembler that met no error: as many events were counted as
-- complete as were delivered; each begin record is accounted for once, by a delivered event, by one
-- that was dropped and counted as incomplete, or by one that is unfinished; at most 4096 are
-- unfinished, and the filled ranges of each are in ascending order and neither overlap nor touch;
-- and once the capture is finished, the complete and the incomplete events are as many as the begin
-- records.
pub consume_all-Census :
    (S : Spool) (records : List (List ℕ)) (events : List (Event S)) (r : Reassembler S)
    → consume_all (fresh S) records ≡ ok (events, r)
    → Census records events r
unfolding finish
consume_all-Census S records events r h =
    let start : HasRoom (fresh S) = record { distinct = tt; few = omega arith } in
    let k = consume_all-Kept (fresh S) records (λ _. []) events r start (fresh-TracksAll S) h in
    let b = k.balances in
    record {
      complete = omega (arith, b.whole);
      balance = omega (arith, b.balance);
      few = b.room.few;
      apart = λ id p found. (k.tracked.tracked id p found).apart;
      ended = omega (arith, b.whole, b.balance);
    }
