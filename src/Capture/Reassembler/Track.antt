-- ===== src/Capture/Reassembler/Track.antt =====
-- crates/usbscope-capture/src/lib.rs: every unfinished event tracks its fragments, through any run.
use usbscope.Prelude.{
  ℕ, ◌≡◌, ◌≢◌, inl, inr, refl, sym, subst, arith, true, false, Bool-cases, Option, none, some, List,
  [], ◌∷◌, ◌==◌, ==→eq,
}
use usbscope.Prelude.Result.{ok, >>=-eq-ok}
use usbscope.Common.Meta.{EventMeta, record_begin, record_data}
use usbscope.Capture.Event.{Spool, Event}
use usbscope.Capture.Reassembler.State.{
  Pending, Reassembler, Frame, find, erase, put, read_frame, fresh,
}
use usbscope.Capture.Reassembler.Fragments.{Fragments, Tracks, data_record-Tracks}
use usbscope.Capture.Reassembler.Maps.{find-put, find-erase}
use usbscope.Capture.Reassembler.End.{iso_record, end_record, data_complete}
use usbscope.Capture.Reassembler.Push.{push_frame, push}
use usbscope.Capture.Reassembler.Outcome.{
  Outcome, counters, begun, orphan, filled, described, dropped, delivered, opened,
  push_frame-Outcome,
}
use usbscope.Capture.Reassembler.Delivery.{
  Logs, note, note_record, sent_by, push_all, Faithful, complete-Faithful,
}

note_other : (f : Frame) (log : Logs) (id : ℕ) → (f.id == id) ≡ false → note f log id ≡ log id
unfolding note
note_other f log id e = rw e

note_same :
    (f : Frame) (log : Logs) (id : ℕ)
    → f.kind ≢ record_begin
    → f.kind ≢ record_data
    → note f log id ≡ log id
unfolding note
note_same f log id b d = ground arith

note_begin : (f : Frame) (log : Logs) → f.kind ≡ record_begin → note f log f.id ≡ []
unfolding note
note_begin f log e = ground arith

note_data :
    (f : Frame) (log : Logs)
    → f.kind ≡ record_data
    → note f log f.id ≡ (f.offset, f.body) ∷ log f.id
unfolding note
note_data f log e = ground arith

-- Every unfinished event tracks the fragments of its id.
pub record TracksAll {S : Spool} (r : Reassembler S) (log : Logs) : Type 0 where
  pub tracked : (id : ℕ) (p : Pending S) → find id r.pending ≡ some p → Tracks p (log id)

opened-Tracks : (S : Spool) (meta : EventMeta) → Tracks (opened S meta) []
opened-Tracks S meta = record {
  apart = tt;
  span = λ x (a, b, i, p, q). elim i [ ];
  stored = λ x v s. elim s [ ];
  sent_filled = λ x v s. elim s [ ];
  filled_sent = λ x (a, b, i, p, q). elim i [ ];
}

-- A descriptor changes nothing that the payload's tracking is about.
iso_record-Tracks :
    {S : Spool} (p p' : Pending S) (offset : ℕ) (body : List ℕ) (log : Fragments)
    → Tracks p log
    → iso_record p offset body ≡ ok p'
    → Tracks p' log
unfolding iso_record
iso_record-Tracks {S} p p' offset body log k h =
    let same : p' ≡ record p { event = record (p.event) { iso = p'.event.iso } } = ground arith in
    subst (λ (q : Pending S). Tracks q log) (sym same)
      (record {
        apart = k.apart;
        span = k.span;
        stored = k.stored;
        sent_filled = k.sent_filled;
        filled_sent = k.filled_sent;
      })

module _ {S : Spool} (m : List (ℕ × Pending S)) (log : Logs) (f : Frame) where
  abbrev TracksIn : List (ℕ × Pending S) → Logs → Type 0
  TracksIn m log = (id : ℕ) (p : Pending S) → find id m ≡ some p → Tracks p (log id)

  put-Tracks :
      (p : Pending S)
      → TracksIn m log
      → Tracks p (note f log f.id)
      → TracksIn (put f.id p m) (note f log)
  put-Tracks p k new id q e = elim (Bool-cases (f.id == id)) [
    | inl t ↦
        let here : p ≡ q = ground (arith, find-put f.id id p m) in
        subst (λ (u : Pending S). Tracks u (note f log id)) here
          (subst (λ j. Tracks p (note f log j)) (==→eq f.id id t) new)
    | inr t ↦ rw (note_other f log id t) (k id q (ground (arith, find-put f.id id p m)))
  ]

  erase-Tracks :
      f.kind ≢ record_begin
      → f.kind ≢ record_data
      → TracksIn m log
      → TracksIn (erase f.id m) (note f log)
  erase-Tracks b d k id q e = elim (Bool-cases (f.id == id)) [
    | inl t ↦ absurd (ground (arith, find-erase f.id id m))
    | inr t ↦ rw (note_same f log id b d) (k id q (ground (arith, find-erase f.id id m)))
  ]

  same-Tracks :
      f.kind ≢ record_begin → f.kind ≢ record_data → TracksIn m log → TracksIn m (note f log)
  same-Tracks b d k id q e = rw (note_same f log id b d) (k id q e)

  orphan-Tracks : find f.id m ≡ none → TracksIn m log → TracksIn m (note f log)
  orphan-Tracks n k id q e = elim (Bool-cases (f.id == id)) [
    | inl t ↦ absurd (orphan-Tracks_none (==→eq f.id id t) e)
    | inr t ↦ rw (note_other f log id t) (k id q e)
  ]
    where
      orphan-Tracks_none : {id : ℕ} {q : Pending S} → f.id ≡ id → find id m ≡ some q → ⊥
      orphan-Tracks_none t e = cc

end_record_complete :
    {S : Spool} (p : Pending S) (body : List ℕ)
    → end_record p body ≡ ok true
    → data_complete p ≡ true
unfolding end_record
end_record_complete p body h = ground arith

-- One accepted record keeps the tracking.
Outcome-TracksAll :
    {S : Spool} (r : Reassembler S) (f : Frame) (log : Logs) (o : Option (Event S))
    (r' : Reassembler S)
    → TracksAll r log
    → Outcome r f o r'
    → TracksAll r' (note f log)
Outcome-TracksAll r f log o r' k (counters e) = record {
  tracked = same-Tracks r.pending log f (ground arith) (ground arith) k.tracked;
}
Outcome-TracksAll {S} r f log o r' k (begun e meta d n _) = record {
  tracked =
      put-Tracks r.pending log f (opened S meta) k.tracked
        (rw (note_begin f log e) (opened-Tracks S meta));
}
Outcome-TracksAll r f log o r' k (orphan e n) = record {
  tracked = orphan-Tracks r.pending log f n k.tracked;
}
Outcome-TracksAll r f log o r' k (filled e p p' n d) = record {
  tracked = put-Tracks r.pending log f p' k.tracked (
      rw (note_data f log e)
        (data_record-Tracks p p' f.offset f.body (log f.id) (k.tracked f.id p n) d));
}
Outcome-TracksAll r f log o r' k (described e p p' n d) = record {
  tracked = put-Tracks r.pending log f p' k.tracked (
      rw (note_same f log f.id (ground arith) (ground arith))
        (iso_record-Tracks p p' f.offset f.body (log f.id) (k.tracked f.id p n) d));
}
Outcome-TracksAll r f log o r' k (dropped e p n d) = record {
  tracked = erase-Tracks r.pending log f (ground arith) (ground arith) k.tracked;
}
Outcome-TracksAll r f log o r' k (delivered e p n d) = record {
  tracked = erase-Tracks r.pending log f (ground arith) (ground arith) k.tracked;
}

pub push-TracksAll :
    {S : Spool} (r : Reassembler S) (bytes : List ℕ) (log : Logs)
    (t : Option (Event S) × Reassembler S)
    → TracksAll r log
    → push r bytes ≡ ok t
    → TracksAll t.1 (note_record bytes log)
unfolding push note_record
push-TracksAll r bytes log t k h =
    let (f, e, h₁) = >>=-eq-ok (read_frame bytes) (push_frame r) h in
    rw (e, note_record) (Outcome-TracksAll r f log t.0 t.1 k (push_frame-Outcome r f t h₁))

push_all-TracksAll :
    {S : Spool} (r : Reassembler S) (records : List (List ℕ)) (log : Logs) (r' : Reassembler S)
    → TracksAll r log
    → push_all r records ≡ ok r'
    → TracksAll r' (sent_by records log)
unfolding push_all sent_by
push_all-TracksAll r [] log r' k h = let same : r ≡ r' = cc in subst (λ s. TracksAll s log) same k
push_all-TracksAll r (bytes ∷ records) log r' k h =
    let (t, e, h₁) = >>=-eq-ok (push r bytes) _ h in
    push_all-TracksAll t.1 records (note_record bytes log) r' (push-TracksAll r bytes log t k e) h₁

Outcome-Faithful :
    {S : Spool} (r : Reassembler S) (f : Frame) (log : Logs) (e : Event S) (r' : Reassembler S)
    (o : Option (Event S))
    → TracksAll r log
    → Outcome r f o r'
    → o ≡ some e
    → Faithful e (log f.id)
Outcome-Faithful r f log e r' o k (counters h) eq = absurd (cc)
Outcome-Faithful r f log e r' o k (begun h meta d n _) eq = absurd (cc)
Outcome-Faithful r f log e r' o k (orphan h n) eq = absurd (cc)
Outcome-Faithful r f log e r' o k (filled h p p' n d) eq = absurd (cc)
Outcome-Faithful r f log e r' o k (described h p p' n d) eq = absurd (cc)
Outcome-Faithful r f log e r' o k (dropped h p n d) eq = absurd (cc)
Outcome-Faithful {S} r f log e r' o k (delivered h p n d) eq =
    let same : p.event ≡ e = cc in
    subst (λ (u : Event S). Faithful u (log f.id)) same
      (complete-Faithful p (log f.id) (k.tracked f.id p n) (end_record_complete p f.body d))

pub fresh-TracksAll : (S : Spool) → TracksAll (fresh S) (λ _. [])
unfolding find
fresh-TracksAll S = record { tracked = λ id p q. absurd (cc) }

-- Whatever records were pushed into a fresh reassembler, the event that the next record delivers has
-- at each place of its payload (below its length, or in a frame of an ISO event) the byte that a
-- data record of its id sent for that place after the id's last begin record.
pub delivery-Faithful :
    (S : Spool) (records : List (List ℕ)) (last : List ℕ) (f : Frame) (r r' : Reassembler S)
    (e : Event S)
    → push_all (fresh S) records ≡ ok r
    → read_frame last ≡ ok f
    → push r last ≡ ok (some e, r')
    → Faithful e (sent_by records (λ _. []) f.id)
unfolding push
delivery-Faithful S records last f r r' e ran read h =
    let k = push_all-TracksAll (fresh S) records (λ _. []) r (fresh-TracksAll S) ran in
    let h₁ : push_frame r f ≡ ok (some e, r') = (rw read at h) in
    Outcome-Faithful r f (sent_by records (λ _. [])) e r' (some e) k
      (push_frame-Outcome r f (some e, r') h₁) refl
