-- ===== src/Output/Pcapng.antt =====
-- src/output.rs with crates/usbscope-capture/src/pcapng.rs: the pcapng writer behind the rotation of
-- files.
use usbscope.Prelude.{ℕ, ◌≡◌, refl, ap, sym, ◌∙◌, Bool, List, [], ◌∷◌, ◌++◌}
use usbscope.Prelude.Result.{Result, ok, err, ◌>>=◌, >>=-eq-ok, >>=-ok, ok-injective}
use usbscope.Capture.Event.{Spool, Event}
use usbscope.Capture.Pcapng.Writer.{Writer, new_writer, write_event}
use usbscope.Capture.Pcapng.Validity.{write_events}
use usbscope.Output.Rotation.{Sink}

-- A file that was opened, and the events that were written to it without an error.
pub record OpenFile (S : Spool) : Type 0 where
  pub writer : Writer
  pub events : List (Event S)
  pub history : write_events new_writer events ≡ ok writer

pub no_events : (S : Spool) → write_events {S = S} new_writer [] ≡ ok new_writer
unfolding write_events
no_events S = refl

module _ {S : Spool} where
  pub write_events-append :
      (w w' w'' : Writer) (es : List (Event S)) (e : Event S)
      → write_events w es ≡ ok w'
      → write_event w' e ≡ ok w''
      → write_events w (es ++ (e ∷ [])) ≡ ok w''
  unfolding write_events
  write_events-append w w' w'' [] e h k =
      >>=-ok _ (ap (λ x. write_event x e) (ok-injective h) ∙ k) refl
  write_events-append w w' w'' (x ∷ es) e h k =
      let (w₁, one, more) = >>=-eq-ok (write_event w x) (λ y. write_events y es) h in
      >>=-ok _ one (write_events-append w₁ w' w'' es e more k)

  -- The file after a write.
  unfoldable pub extend :
      (f : OpenFile S) (e : Event S) (r : Result Writer)
      → write_event f.writer e ≡ r
      → Result (OpenFile S)
  extend f e (err x) h = err x
  extend f e (ok w) h = ok (record {
    writer = w;
    events = f.events ++ (e ∷ []);
    history = write_events-append new_writer f.writer w f.events e f.history h;
  })

  pub extend-events :
      (f f' : OpenFile S) (e : Event S) (r : Result Writer) (h : write_event f.writer e ≡ r)
      → extend f e r h ≡ ok f'
      → f'.events ≡ f.events ++ (e ∷ [])
  unfolding extend
  extend-events f f' e (err x) h k = absurd (cc)
  extend-events f f' e (ok w) h k = sym (ap (λ g. g.events) (ok-injective k))

  abbrev pub created : OpenFile S
  created = record { writer = new_writer; events = []; history = no_events S }

  pub created-empty :
      (made : Result (Unit {0})) (f : OpenFile S)
      → (made >>= λ _. ok created) ≡ ok f
      → f.events ≡ []
  created-empty made f h =
      let (_, _, k) = >>=-eq-ok made _ h in sym (ap (λ g. g.events) (ok-injective k))

-- The pcapng writer, where creating the file of an index may fail.
abbrev pub pcapng_sink : (S : Spool) → (Bool → ℕ → Result (Unit {0})) → Sink S
pcapng_sink S create = record {
  Writer = OpenFile S;
  open_file = λ rotating index. create rotating index >>= λ _. ok created;
  bytes_written = λ f. f.writer.bytes;
  write_event = λ f e. extend f e (write_event f.writer e) refl;
  flush = λ f. ok f;
  written = λ f. f.events;
  open_empty = λ rotating index f h. created-empty (create rotating index) f h;
  write_adds = λ f f' e h. extend-events f f' e (write_event f.writer e) refl h;
}
