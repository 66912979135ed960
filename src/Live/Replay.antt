-- ===== src/Live/Replay.antt =====
-- src/live.rs and src/main.rs: a raw archive of a capture replays it.
use usbscope.Prelude.{
  ℕ, ◌≡◌, refl, ap, sym, subst, ◌∙◌, Option, List, [], ◌∷◌, ◌++◌, All, append_assoc, append-nil,
}
use usbscope.Prelude.Result.{ok, ◌>>=◌, >>=-eq-ok}
use usbscope.Common.Meta.{CaptureStats}
use usbscope.Capture.Event.{Spool, Event}
use usbscope.Capture.Archive.{archive, read_archive, summary_record}
use usbscope.Capture.Archive.Replay.{
  Storable, StatsInRange, with_losses, read_archive-archive, push-summary_record,
}
use usbscope.Capture.Reassembler.State.{Reassembler}
use usbscope.Capture.Reassembler.Push.{push}
use usbscope.Live.Drain.{record_of, delivered, drain, recorded, consume_all}
use usbscope.Live.Archiving.{record_of-Storable}

-- The records of a drain, which lead to the same events and the same reassembler.
record Replays {S : Spool} (r : Reassembler S) (items : List (List ℕ)) (es : List (Event S))
    (r' : Reassembler S) : Type 0 where
  records : List (List ℕ)
  written : recorded items ≡ ok records
  storable : All Storable records
  replayed :
      (more : List (List ℕ)) (es2 : List (Event S)) (r2 : Reassembler S)
      → consume_all r' more ≡ ok (es2, r2)
      → consume_all r (records ++ more) ≡ ok (es ++ es2, r2)

item-Replays :
    {S : Spool} (r r' : Reassembler S) (item bytes : List ℕ) (items : List (List ℕ))
    (step : Option (Event S) × Reassembler S) (es : List (Event S))
    → record_of item ≡ ok bytes
    → push r bytes ≡ ok step
    → Replays step.1 items es r'
    → Replays r (item ∷ items) (delivered step.0 ++ es) r'
unfolding recorded consume_all
item-Replays r r' item bytes items step es drained pushed s = record {
  records = bytes ∷ s.records;
  written = rw (drained, s.written) refl;
  storable = (record_of-Storable item bytes r step drained pushed, s.storable);
  replayed = λ more es2 r2 k.
      rw (pushed, s.replayed more es2 r2 k)
        (ap (λ x. ok (x, r2)) (sym (append_assoc (delivered step.0) es es2)));
}

drain-Replays :
    {S : Spool} (r : Reassembler S) (items : List (List ℕ)) (es : List (Event S))
    (r' : Reassembler S)
    → drain r items ≡ ok (es, r')
    → Replays r items es r'
unfolding drain recorded consume_all
drain-Replays {S} r [] es r' h =
    let same : ([], r) ≡ (es, r') = cc in
    subst (λ (p : List (Event S) × Reassembler S). Replays r [] p.0 p.1) same
      (record { records = []; written = refl; storable = tt; replayed = λ more es2 r2 k. k })
drain-Replays {S} r (item ∷ items) es r' h =
    let (bytes, drained, h1) = >>=-eq-ok (record_of item) _ h in
    let (step, pushed, h2) = >>=-eq-ok (push r bytes) _ h1 in
    let (rest, later, h3) = >>=-eq-ok (drain step.1 items) _ h2 in
    let s = drain-Replays step.1 items rest.0 rest.1 later in
    let same : (delivered step.0 ++ rest.0, rest.1) ≡ (es, r') = cc in
    subst (λ (p : List (Event S) × Reassembler S). Replays r (item ∷ items) p.0 p.1) same
      (item-Replays r rest.1 item bytes items step rest.0 drained pushed s)

-- Of a drain that ends without an error, and counters of 64 bits: the archive of the drained records
-- with the counters behind them replays without an error, delivers the same events in the same
-- order, and leaves the same reassembler, but that its reported losses have grown by the kernel's
-- ring losses, read errors, unsupported buffers and errors of state.
pub consume_all-archive :
    {S : Spool} (r : Reassembler S) (items : List (List ℕ)) (es : List (Event S))
    (r' : Reassembler S) (c : CaptureStats)
    → drain r items ≡ ok (es, r')
    → StatsInRange c
    → (records : List (List ℕ)) × (recorded items ≡ ok records)
      × ((read_archive (archive records c) >>= consume_all r)
          ≡ ok (
            es,
            record r' {
              stats = record (r'.stats) { kernel_losses = with_losses c r'.stats.kernel_losses };
            },
          ))
unfolding consume_all
consume_all-archive {S} r items es r' c h f =
    let s = drain-Replays r items es r' h in
    let after : Reassembler S = record r' {
      stats = record (r'.stats) { kernel_losses = with_losses c r'.stats.kernel_losses };
    } in
    let last : consume_all r' (summary_record c ∷ []) ≡ ok ([], after) =
      ap (λ x. x >>= λ step. ok (delivered step.0 ++ [], step.1)) (push-summary_record r' c f) in
    (
      s.records,
      s.written,
      ap (λ x. x >>= consume_all r) (read_archive-archive s.records c s.storable)
          ∙ s.replayed (summary_record c ∷ []) [] after last
          ∙ ap (λ x. ok (x, after)) (append-nil es),
    )
