-- ===== src/Capture/Reassembler/Outcome.antt =====
-- crates/usbscope-capture/src/lib.rs, `push`: when a record delivers an event, and what it leaves.
use usbscope.Prelude.{
  ◌+◌, ◌≡◌, ◌<◌, ◌⊎◌, inl, inr, refl, subst, arith, Bool, true, false, not, Bool-cases, Option,
  none, some, [], length, ltb, ltb→lt, ◌==◌, ==→eq, ◌&&◌, ◌||◌,
}
use usbscope.Prelude.Result.{ok, ensure-eq-ok, >>=-eq-ok}
use usbscope.Common.Meta.{
  EventMeta, record_begin, record_data, record_iso, record_end, record_stats,
}
use usbscope.Capture.Event.{Spool, Event}
use usbscope.Capture.Decode.{decode_meta}
use usbscope.Capture.Reassembler.State.{
  Pending, Reassembler, Frame, find, erase, put, add_losses, max_pending_events,
}
use usbscope.Capture.Reassembler.Data.{data_record}
use usbscope.Capture.Reassembler.End.{iso_record, end_record}
use usbscope.Capture.Reassembler.Push.{
  is_some, finished, push_stats, push_begin, push_end, push_part, push_frame,
}

-- The event that a begin record opens.
abbrev pub opened : (S : Spool) → EventMeta → Pending S
opened S meta = record {
  event = record {
    source_id = 0;
    meta = meta;
    iso = [];
    payload = S.empty;
    identity_known = true;
    requested_known = true;
  };
  ranges = [];
  copied = 0;
}

-- The ways in which a record is accepted: what comes out, and the state behind it.
pub data Outcome {S : Spool} (r : Reassembler S) (f : Frame)
    : Option (Event S) → Reassembler S → Type 0 where
  counters :
      f.kind ≡ record_stats
      → Outcome r f none (record r {
        stats = record (r.stats) { kernel_losses = add_losses r.stats.kernel_losses f.body };
      })
  begun :
      f.kind ≡ record_begin
      → (meta : EventMeta) → decode_meta f.body ≡ ok meta
      → find f.id r.pending ≡ none
      → length r.pending < max_pending_events
      → Outcome r f none (record r { pending = put f.id (opened S meta) r.pending })
  orphan :
      (f.kind ≡ record_data) ⊎ ((f.kind ≡ record_iso) ⊎ (f.kind ≡ record_end))
      → find f.id r.pending ≡ none
      → Outcome r f none
          (record r { stats = record (r.stats) { orphan_records = r.stats.orphan_records + 1 } })
  filled :
      f.kind ≡ record_data
      → (p p' : Pending S) → find f.id r.pending ≡ some p
      → data_record p f.offset f.body ≡ ok p'
      → Outcome r f none (record r { pending = put f.id p' r.pending })
  described :
      f.kind ≡ record_iso
      → (p p' : Pending S) → find f.id r.pending ≡ some p
      → iso_record p f.offset f.body ≡ ok p'
      → Outcome r f none (record r { pending = put f.id p' r.pending })
  dropped :
      f.kind ≡ record_end
      → (p : Pending S) → find f.id r.pending ≡ some p
      → end_record p f.body ≡ ok false
      → Outcome r f none (record {
        pending = erase f.id r.pending;
        stats = record (r.stats) { incomplete = r.stats.incomplete + 1 };
      })
  delivered :
      f.kind ≡ record_end
      → (p : Pending S) → find f.id r.pending ≡ some p
      → end_record p f.body ≡ ok true
      → Outcome r f (some p.event) (record {
        pending = erase f.id r.pending;
        stats = record (r.stats) { complete_events = r.stats.complete_events + 1 };
      })

ok-injective {ℓ} : {A : Type ℓ} (a b : A) → ok a ≡ ok b → a ≡ b
ok-injective a b e = cc

module _ {S : Spool} (r : Reassembler S) (f : Frame) (t : Option (Event S) × Reassembler S) where
  abbrev Meets : Option (Event S) × Reassembler S → Type 0
  Meets u = Outcome r f u.0 u.1

  push_end-done :
      (p : Pending S) (done : Bool)
      → f.kind ≡ record_end
      → find f.id r.pending ≡ some p
      → end_record p f.body ≡ ok done
      → finished r f p done ≡ ok t
      → Meets t
  push_end-done p true k e d h = subst Meets (ok-injective _ t h) (delivered k p e d)
  push_end-done p false k e d h = subst Meets (ok-injective _ t h) (dropped k p e d)

  push_end-Meets :
      (p : Pending S)
      → f.kind ≡ record_end
      → find f.id r.pending ≡ some p
      → push_end r f p ≡ ok t
      → Meets t
  unfolding push_end
  push_end-Meets p k e h =
      let (_, h₁) = ensure-eq-ok (length f.body == 16 && f.offset == 0) _ _ h in
      let (done, h₂, h₃) = >>=-eq-ok (end_record p f.body) _ h₁ in push_end-done p done k e h₂ h₃

  push_stats-Meets : f.kind ≡ record_stats → push_stats r f ≡ ok t → Meets t
  unfolding push_stats
  push_stats-Meets k h =
      let (_, h₁) = ensure-eq-ok ((f.id == 0 && f.offset == 0) && length f.body == 64) _ _ h in
      subst Meets (ok-injective _ t h₁) (counters k)

  push_begin-Meets : f.kind ≡ record_begin → push_begin r f ≡ ok t → Meets t
  unfolding push_begin
  push_begin-Meets k h =
      let (_, h₁) = ensure-eq-ok (f.offset == 0) _ _ h in
      let (new, h₂) = ensure-eq-ok (not (is_some (find f.id r.pending))) _ _ h₁ in
      let (room, h₃) = ensure-eq-ok (ltb (length r.pending) max_pending_events) _ _ h₂ in
      let (meta, d, h₄) = >>=-eq-ok (decode_meta f.body) _ h₃ in
      subst Meets (ok-injective _ t h₄) (begun k meta d (ground arith) (ltb→lt _ _ room))

  push_part-Meets :
      (o : Option (Pending S))
      → (f.kind ≡ record_data) ⊎ ((f.kind ≡ record_iso) ⊎ (f.kind ≡ record_end))
      → find f.id r.pending ≡ o
      → push_part r f o ≡ ok t
      → Meets t
  unfolding push_part push_end
  push_part-Meets none k e h = subst Meets (ok-injective _ t h) (orphan k e)
  push_part-Meets (some p) (inl k) e h =
      let (p', d, h₁) = >>=-eq-ok (data_record p f.offset f.body) _ (rw k at h) in
      subst Meets (ok-injective _ t h₁) (filled k p p' e d)
  push_part-Meets (some p) (inr (inl k)) e h =
      let (p', d, h₁) = >>=-eq-ok (iso_record p f.offset f.body) _ (rw k at h) in
      subst Meets (ok-injective _ t h₁) (described k p p' e d)
  push_part-Meets (some p) (inr (inr k)) e h = push_end-Meets p k e (rw k at h)

  -- Every record that is accepted has one of the outcomes.
  pub push_frame-Outcome : push_frame r f ≡ ok t → Outcome r f t.0 t.1
  unfolding push_frame
  push_frame-Outcome h = elim (Bool-cases (f.kind == record_stats)) [
    | inl e ↦ push_stats-Meets (==→eq _ _ e) (rw e at h)
    | inr e ↦ elim (Bool-cases (f.kind == record_begin)) [
      | inl e' ↦ push_begin-Meets (==→eq _ _ e') (rw (e, e') at h)
      | inr e' ↦
          let (k, h₁) =
            ensure-eq-ok (f.kind == record_data || (f.kind == record_iso || f.kind == record_end)) _
              _ (rw (e, e') at h) in
          push_part-Meets (find f.id r.pending) (ground arith) refl h₁
    ]
  ]
