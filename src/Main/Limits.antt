-- ===== src/Main/Limits.antt =====
-- src/main.rs: the limit of `--count`, and where the capture loop stops.
use usbscope.Prelude.{ℕ, ◌^◌, ◌<◌, ◌≤◌, ◌≡◌, Bool, true, not, ◌||◌, some, List, [], ◌∷◌}
use usbscope.Prelude.Result.{Result, ok, ◌>>=◌}
use usbscope.Capture.Event.{Spool, Event}
use usbscope.Output.Rotation.{Sink}
use usbscope.Main.Consume.{Options, Consumer, is_below, consume_event}

module _ {S : Spool} {T : Sink S} (o : Options) where
  -- Whether the capture is over.
  abbrev pub is_over : Consumer T → Bool
  is_over c = c.output_full || not (is_below o.limit c.written)

  -- The events that were written are within the limit, and fit a u64.
  unfoldable pub Within : Consumer T → Type 0
  Within c = (n : ℕ) → o.limit ≡ some n → (n < 2 ^ 64) × (c.written ≤ n)

  -- One event: the capture is to stop exactly if it is over, and nothing is written behind the limit.
  record Consumes (done : Bool × Consumer T) : Type 0 where
    pub told : done.0 ≡ is_over done.1
    pub within : Within done.1

  -- The capture that goes on behind its end.
  pub drive : Consumer T → List (Event S) → Result (Consumer T)
  drive c [] = ok c
  drive c (e ∷ es) = consume_event o c e >>= λ done. drive done.1 es

  -- A run of events without an error, from a consumer that has written no more than the limit.
  pub record Limited (c : Consumer T) (es : List (Event S)) (done : Bool × Consumer T)
      : Type 0 where
    pub within : Within done.1
    pub over : done.0 ≡ true → is_over done.1 ≡ true
    pub unstopped : drive c es ≡ ok done.1
