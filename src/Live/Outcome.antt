-- ===== src/Live/Outcome.antt =====
-- src/live.rs: what a drain of one event's records leaves in the reassembler.
use usbscope.Prelude.{ℕ, ◌+◌, ◌≡◌, List, [], ◌∷◌, ◌++◌, some}
use usbscope.Prelude.Result.{ok}
use usbscope.Common.Meta.{EventMeta}
use usbscope.Capture.Event.{Spool, Event}
use usbscope.Capture.Reassembler.State.{Pending, Reassembler, find, erase}
use usbscope.Live.Drain.{drain}

-- What a drain makes of the records: nothing was published; the end record is missing, and the
-- event waits; it has a loss, and is counted; or exactly the event arrives.
pub data Arrival {S : Spool} (F : Type 0) (r : Reassembler S) (m : EventMeta) (id : ℕ)
    (payload : List ℕ) (es : List (Event S)) (r' : Reassembler S) : Type 0 where
  nothing : (none_came : es ≡ []) (same : r' ≡ r) (why : F) → Arrival F r m id payload es r'
  waiting :
      (none_came : es ≡ []) (pending : Pending S) (found : find id r'.pending ≡ some pending)
      (others : erase id r'.pending ≡ erase id r.pending) (uncounted : r'.stats ≡ r.stats) (why : F)
      → Arrival F r m id payload es r'
  counted :
      (none_came : es ≡ [])
      (now : r' ≡ record {
        pending = erase id r.pending;
        stats = record (r.stats) { incomplete = r.stats.incomplete + 1 };
      })
      (why : F)
      → Arrival F r m id payload es r'
  arrived :
      (event : Event S) (came : es ≡ event ∷ []) (meta : event.meta ≡ m) (iso : event.iso ≡ [])
      (contents : S.contents event.payload ≡ payload)
      (now : r' ≡ record {
        pending = erase id r.pending;
        stats = record (r.stats) { complete_events = r.stats.complete_events + 1 };
      })
      → Arrival F r m id payload es r'

-- Behind the items of a ring stand others, which drain to an arrival.
pub record Drains {S : Spool} (F : Type 0) (r : Reassembler S) (m : EventMeta) (id : ℕ)
    (payload : List ℕ) (before after : List (List ℕ)) : Type 0 where
  pub items : List (List ℕ)
  pub appended : after ≡ before ++ items
  pub events : List (Event S)
  pub next : Reassembler S
  pub drained : drain r items ≡ ok (events, next)
  pub arrival : Arrival F r m id payload events next
