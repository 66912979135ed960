-- ===== src/Main/Replay.antt =====
-- src/main.rs: the loop over a pcapng capture.
use usbscope.Prelude.{
  ℕ, zero, suc, ◌<◌, ◌≡◌, ap, arith, Bool, true, false, none, some, List, [], ◌∷◌, length,
}
use usbscope.Prelude.Result.{
  Result, ok, >>=-eq-ok, >>=-ok, ok-injective, Yields, yields, Yields-bind, Yields-if, Yields-eq-ok,
}
use usbscope.Capture.Event.{Spool, Event}
use usbscope.Capture.Pcapng.Reader.{Reader}
use usbscope.Capture.Pcapng.Blocks.{EventRead, next_event}
use usbscope.Capture.Pcapng.Sound.{Ending}
use usbscope.Capture.Pcapng.Delivered.{Delivers, next_event-Delivers}
use usbscope.Capture.Pcapng.Telling.{Reads, nothing, event}
use usbscope.Main.Consume.{consume_events, unless_stopped, after_event, consume_capture}

module _ {S : Spool} {A : Type 0} (consume : A → Event S → Result (Bool × A))
    (ending : Ending S) where
  module _ (ends : (a : A) (e : Event S) → Yields (λ _. Unit {0}) (consume a e)) where
    after_event-Yields :
        (n : ℕ) (more : Reader → A → Result (Bool × Reader × A)) (a : A) (read : EventRead S)
        → Delivers S n read
        → ((r : Reader) (a' : A) → length r.input < n → Yields (λ _. Unit {0}) (more r a'))
        → Yields (λ _. Unit {0}) (after_event consume more a read)
    after_event-Yields n more a (none, r) d h = yields tt
    after_event-Yields n more a (some e, r) d h =
        Yields-bind (ends a e)
          λ done _. Yields-if done.0 (yields tt) (h r done.1 (d.less λ k. absurd (cc)))

    consume_fuel-Yields :
        (fuel : ℕ) (r : Reader) (a : A)
        → length r.input < fuel
        → Yields (λ _. Unit {0}) (consume_capture consume fuel r a)
    unfolding consume_capture
    consume_fuel-Yields zero r a h = absurd (omega (arith, h))
    consume_fuel-Yields (suc fuel) r a h = Yields-bind (next_event-Delivers S r ending) λ read d.
        after_event-Yields (length r.input) (consume_capture consume fuel) a read d
          λ r' a' less. consume_fuel-Yields fuel r' a' (omega (arith, h, less))

    -- Where consuming an event and writing to a spooled file end, the loop over a capture ends on
    -- every input: one unit of fuel more than the input has bytes is never used up.
    pub consume_capture-Yields :
        (r : Reader) (a : A)
        → Yields (λ _. Unit {0}) (consume_capture consume (suc (length r.input)) r a)
    consume_capture-Yields r a = consume_fuel-Yields (suc (length r.input)) r a (omega arith)

  -- The events of a run that a capture delivers are consumed as the run is.
  Replayed : ℕ → Reader → A → Bool × A → Type 0
  Replayed fuel r a done =
      (r' : Reader) × (consume_capture consume fuel r a ≡ ok (done.0, r', done.1))

  replay-rest :
      (fuel : ℕ) (r r' : Reader) (e : Event S) (es : List (Event S)) (a : A) (one done : Bool × A)
      → next_event S r ≡ ok (some e, r')
      → consume a e ≡ ok one
      → unless_stopped (λ a'. consume_events consume a' es) one ≡ ok done
      → ((a' : A) → consume_events consume a' es ≡ ok done → Replayed fuel r' a' done)
      → Replayed (suc fuel) r a done
  unfolding consume_capture Replayed
  replay-rest fuel r r' e es a (true, a') done next eq h more =
      (r', >>=-ok _ next (>>=-ok _ eq (ap (λ (d : Bool × A). ok (d.0, r', d.1)) (ok-injective h))))
  replay-rest fuel r r' e es a (false, a') done next eq h more =
      let (r'', k) = more a' h in (r'', >>=-ok _ next (>>=-ok _ eq k))

  consume_fuel-Reads :
      (fuel : ℕ) (r : Reader) (es : List (Event S)) (a : A) (done : Bool × A)
      → Reads S r es
      → length r.input < fuel
      → consume_events consume a es ≡ ok done
      → Replayed fuel r a done
  unfolding consume_capture consume_events Replayed
  consume_fuel-Reads zero r es a done reads enough h = absurd (omega (arith, enough))
  consume_fuel-Reads (suc fuel) r [] a done (nothing {r' = r'} end) enough h =
      (r', >>=-ok _ end (ap (λ (d : Bool × A). ok (d.0, r', d.1)) (ok-injective h)))
  consume_fuel-Reads (suc fuel) r (e ∷ es) a done (event {r' = r'} next reads) enough h =
      let (one, eq, h) = >>=-eq-ok (consume a e) _ h in
      let d = Yields-eq-ok (some e, r') (next_event-Delivers S r ending) next in
      let less : length r'.input < length r.input = d.less λ k. absurd (cc) in
      replay-rest fuel r r' e es a one done next eq h
        λ a' k. consume_fuel-Reads fuel r' es a' done reads (omega (arith, enough, less)) k

  -- Where writing to a spooled file ends, the loop over a capture that delivers a run of events,
  -- where consuming the run up to the event that stops it meets no error, ends as consuming the run
  -- does: with the same outcome, and stopped exactly if the run is.
  pub consume_capture-Reads :
      (r : Reader) (es : List (Event S)) (a : A) (done : Bool × A)
      → Reads S r es
      → consume_events consume a es ≡ ok done
      → (r' : Reader) × (consume_capture consume (suc (length r.input)) r a
          ≡ ok (done.0, r', done.1))
  unfolding Replayed
  consume_capture-Reads r es a done reads h =
      consume_fuel-Reads (suc (length r.input)) r es a done reads (omega arith) h
