-- ===== src/Capture/Reassembler/Delivery.antt =====
-- crates/usbscope-capture/src/lib.rs: the payload of an event that a run of records delivers.
use usbscope.Prelude.{
  ℕ, ◌+◌, ◌<◌, ◌≤◌, ◌≡◌, ◌≢◌, ◌⊎◌, inl, inr, arith, true, &&-eq_true, some, List, [], ◌∷◌, all,
  get_elem?, ◌==◌, if◌then◌else◌,
}
use usbscope.Prelude.Result.{Result, ok, err, ◌>>=◌}
use usbscope.Common.Meta.{IsoDescriptor, record_begin, record_data}
use usbscope.Capture.Event.{Spool, Event}
use usbscope.Capture.Ranges.Laws.{Filled}
use usbscope.Capture.Reassembler.State.{Pending, Reassembler, Frame, read_frame}
use usbscope.Capture.Reassembler.Fragments.{Fragments, Sent, Tracks}
use usbscope.Capture.Reassembler.Covers.{covers-Filled}
use usbscope.Capture.Reassembler.End.{data_complete, covers}
use usbscope.Capture.Reassembler.Push.{push}

-- The fragments that the records sent for each id since the last begin record of that id.
abbrev pub Logs : Type 0
Logs = ℕ → Fragments

unfoldable pub note : Frame → Logs → Logs
note f log id =
    if f.id == id
    then (if f.kind == record_begin
        then []
        else if f.kind == record_data
        then (f.offset, f.body) ∷ log id
        else log id)
    else log id

unfoldable pub note_record : List ℕ → Logs → Logs
unfolding note
note_record bytes log = elim (read_frame bytes) [ ok f ↦ note f log | err e ↦ log ]

unfoldable pub sent_by : List (List ℕ) → Logs → Logs
unfolding note_record
sent_by [] log = log
sent_by (bytes ∷ records) log = sent_by records (note_record bytes log)

-- A place of the payload that the event's declared layout fills: of an ISO event, one in a frame.
abbrev pub InFrame : List IsoDescriptor → ℕ → Type 0
InFrame [] x = ⊥
InFrame (d ∷ ds) x = ((d.offset ≤ x) × (x < d.offset + d.length)) ⊎ InFrame ds x

abbrev pub InPayload : {S : Spool} → Event S → ℕ → Type 0
InPayload event x =
    (event.meta.has_data ≢ 0)
    × (((event.meta.transfer_type ≢ 0) × (x < event.meta.payload_len))
        ⊎ ((event.meta.transfer_type ≡ 0) × InFrame event.iso x))

-- At each place of the payload the file has a byte, which some fragment sent for that place.
abbrev pub Faithful : {S : Spool} → Event S → Fragments → Type 0
Faithful {S} event log =
    (x : ℕ)
    → InPayload event x
    → (v : ℕ) × Sent log x v × (get_elem? (S.contents event.payload) x ≡ some v)

module _ {S : Spool} (p : Pending S) (log : Fragments) (k : Tracks p log) where
  frames-Filled :
      (ds : List IsoDescriptor) (x : ℕ)
      → all (λ (d : IsoDescriptor). covers p.ranges d.offset d.length) ds ≡ true
      → InFrame ds x
      → Filled x p.ranges
  frames-Filled [] x h i = elim i [ ]
  frames-Filled (d ∷ ds) x h i =
      let (c, cs) = &&-eq_true (covers p.ranges d.offset d.length) _ h in
      elim i [
        | inl (l, u) ↦ covers-Filled p.ranges k.apart d.offset d.length c x l u
        | inr j ↦ frames-Filled ds x cs j
      ]

  payload-Filled : (x : ℕ) → data_complete p ≡ true → InPayload p.event x → Filled x p.ranges
  unfolding data_complete
  payload-Filled x h (n, inl (t, u)) =
      covers-Filled p.ranges k.apart 0 p.event.meta.payload_len (ground arith) x (omega arith)
        (omega arith)
  payload-Filled x h (n, inr (t, i)) = frames-Filled p.event.iso x (ground arith) i

  pub complete-Faithful : data_complete p ≡ true → Faithful p.event log
  complete-Faithful h x i =
      let (v, s) = k.filled_sent x (payload-Filled x h i) in (v, s, k.stored x v s)

-- Pushing a list of records in turn; the events that come out are consumed elsewhere.
unfoldable pub push_all : {S : Spool} → Reassembler S → List (List ℕ) → Result (Reassembler S)
push_all r [] = ok r
push_all r (bytes ∷ records) = push r bytes >>= λ t. push_all t.1 records
