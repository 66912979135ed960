-- ===== src/Main/Consume.antt =====
-- src/main.rs: `consume_event`, and the loops that call it. The text that is printed where there is
-- no output file is not modelled.
use usbscope.Prelude.{
  ℕ, zero, suc, ◌+◌, ◌-◌, ◌%◌, ◌^◌, Bool, true, false, not, ◌&&◌, ◌||◌, Option, none, some, List,
  [], ◌∷◌, length, ltb, leb, ◌==◌, if◌then◌else◌,
}
use usbscope.Prelude.Result.{
  Result, ok, err, ensure, ◌>>◌, ◌>>=◌, out_of_fuel, too_many_unmatched_submissions,
}
use usbscope.Capture.Archive.{read_record}
use usbscope.Capture.Event.{Spool, Event}
use usbscope.Capture.Pcapng.Blocks.{next_event, EventRead}
use usbscope.Capture.Pcapng.Reader.{Reader}
use usbscope.Capture.Reassembler.Push.{push}
use usbscope.Capture.Reassembler.State.{Reassembler}
use usbscope.Capture.Submissions.{UrbKey, Submissions, request_of, add_request, take_request}
use usbscope.Filter.Evaluate.{matches, needs_latency}
use usbscope.Filter.Syntax.{Expr}
use usbscope.Output.IsoStats.{IsoStats, observe}
use usbscope.Output.Rotation.{Sink, CaptureOutput, write}

pub record Options : Type 0 where
  -- --count
  pub limit : Option ℕ
  -- 0 for any
  pub bus : ℕ
  pub device : Option ℕ
  pub filter : Expr
  -- --iso-stats
  pub with_iso : Bool

-- The variables that `consume_event` changes.
pub record Consumer {S : Spool} (T : Sink S) : Type 0 where
  pub writer : Option (CaptureOutput T)
  pub written : ℕ
  pub iso_stats : IsoStats
  pub submissions : Submissions
  pub output_full : Bool

-- u64::checked_sub from a time
abbrev pub since : ℕ → Option ℕ → Option ℕ
since now none = none
since now (some start) = if leb start now then some (now - start) else none

-- The latency of an event, and the submissions that are left.
unfoldable pub track_latency : {S : Spool} → Submissions → Event S → Result (Option ℕ × Submissions)
track_latency submissions e =
    let m = e.meta in
    let key : UrbKey = (e.source_id, m.urb_id) in
    if m.event_type == b'S'
    then (do
      ensure (ltb (length submissions) 65536) too_many_unmatched_submissions
      ok (none, add_request key m.timestamp_ns submissions))
    else ok (since m.timestamp_ns (request_of key submissions), take_request key submissions)

-- is_none_or(|limit| value < limit)
abbrev pub is_below : Option ℕ → ℕ → Bool
is_below none value = true
is_below (some limit) value = ltb value limit

abbrev pub same_device : Option ℕ → ℕ → Bool
same_device none device = true
same_device (some wanted) device = wanted == device

-- The bus and the device of the command line.
abbrev pub is_selected : {S : Spool} → Options → Event S → Bool
is_selected o e = (o.bus == 0 || o.bus == e.meta.bus) && same_device o.device e.meta.device

module _ {S : Spool} {T : Sink S} where
  -- The write to the output; false where the output is full.
  abbrev pub write_out :
      Option (CaptureOutput T) → Event S → Result (Bool × Option (CaptureOutput T))
  write_out none e = ok (true, none)
  write_out (some output) e = write T output e >>= λ done. ok (done.0, some done.1)

  -- An event that matches.
  unfoldable pub deliver : Options → Consumer T → Event S → Result (Bool × Consumer T)
  deliver o c e = do
    let iso = if o.with_iso then observe e c.iso_stats else c.iso_stats
    done ← write_out c.writer e
    let c' : Consumer T = record c { writer = done.1; iso_stats = iso }
    let written = (c.written + 1) % 2 ^ 64
    (if done.0
        then ok (c.output_full || not (is_below o.limit written), record c' { written = written })
        else ok (true, record c' { output_full = true }))

  -- consume_event: whether the capture is to stop.
  unfoldable pub consume_event : Options → Consumer T → Event S → Result (Bool × Consumer T)
  consume_event o c e =
      if not c.output_full && is_below o.limit c.written
      then (do
        timed ←
            (if needs_latency o.filter
              then track_latency c.submissions e
              else ok (none, c.submissions))
        let c' : Consumer T = record c { submissions = timed.1 }
        matched ← (if is_selected o e then matches e timed.0 o.filter else ok false)
        (if matched then deliver o c' e else ok (false, c')))
      else ok (c.output_full || not (is_below o.limit c.written), c)

abbrev pub unless_stopped : {A : Type 0} → (A → Result (Bool × A)) → Bool × A → Result (Bool × A)
unless_stopped more (true, a) = ok (true, a)
unless_stopped more (false, a) = more a

module _ {S : Spool} {A : Type 0} (consume : A → Event S → Result (Bool × A)) where
  -- Events in turn, up to one that stops the capture.
  unfoldable pub consume_events : A → List (Event S) → Result (Bool × A)
  consume_events a [] = ok (false, a)
  consume_events a (e ∷ es) = consume a e >>= unless_stopped λ a'. consume_events a' es

  abbrev pub after_event :
      (Reader → A → Result (Bool × Reader × A)) → A → EventRead S → Result (Bool × Reader × A)
  after_event more a (none, r) = ok (false, r, a)
  after_event more a (some e, r) =
      consume a e >>= λ done. if done.0 then ok (true, r, done.1) else more r done.1

  -- The loop over a pcapng capture, on fuel: whether it was stopped, and the reader for its count of
  -- incomplete events.
  unfoldable pub consume_capture : ℕ → Reader → A → Result (Bool × Reader × A)
  consume_capture zero r a = err out_of_fuel
  consume_capture (suc fuel) r a = next_event S r >>= after_event (consume_capture fuel) a

  -- The closure `consume` without a raw archive: a record, which may complete an event.
  abbrev pub after_record : A → Option (Event S) × Reassembler S → Result (Bool × Reassembler S × A)
  after_record a (none, r) = ok (false, r, a)
  after_record a (some e, r) = consume a e >>= λ done. ok (done.0, r, done.1)

  unfoldable pub consume_record : Reassembler S → A → List ℕ → Result (Bool × Reassembler S × A)
  consume_record r a bytes = push r bytes >>= after_record a

  abbrev pub next_of_archive :
      (List ℕ → Reassembler S → A → Result (Bool × Reassembler S × A))
      → Reassembler S
      → A
      → Option (List ℕ × List ℕ)
      → Result (Bool × Reassembler S × A)
  next_of_archive more r a none = ok (false, r, a)
  next_of_archive more r a (some (bytes, rest)) =
      consume_record r a bytes >>= λ done. if done.0 then ok done else more rest done.1 done.2

  -- The loop over a raw archive, on fuel.
  unfoldable pub consume_archive :
      ℕ → List ℕ → Reassembler S → A → Result (Bool × Reassembler S × A)
  consume_archive zero input r a = err out_of_fuel
  consume_archive (suc fuel) input r a =
      read_record input >>= next_of_archive (consume_archive fuel) r a
