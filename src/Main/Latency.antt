-- ===== src/Main/Latency.antt =====
-- src/main.rs: the latencies that `consume_event` gives to the filter.
use usbscope.Prelude.{
  ℕ, ◌≡◌, refl, ap, sym, ◌∙◌, Bool-cases, inl, inr, Option, none, some, List, [], ◌∷◌, length, ltb,
  ◌==◌, if◌then◌else◌,
}
use usbscope.Prelude.Result.{
  Result, ok, ◌>>=◌, >>=-eq-ok, ensure-eq-ok, too_many_unmatched_submissions,
}
use usbscope.Capture.Event.{Spool, Event}
use usbscope.Capture.Submissions.{
  UrbKey, Submissions, same_urb, request_of, add_request, take_request, request_of-add_request,
  request_of-take_request,
}
use usbscope.Main.Consume.{since, track_latency}

module _ {S : Spool} where
  abbrev key_of : Event S → UrbKey
  key_of e = (e.source_id, e.meta.urb_id)

  -- The time of the last event of a key, the newest event first, where that is a submission.
  pub latest : UrbKey → List (Event S) → Option ℕ
  latest key [] = none
  latest key (e ∷ older) =
      let rest = latest key older in
      if same_urb (key_of e) key
      then (if e.meta.event_type == b'S' then some e.meta.timestamp_ns else none)
      else rest

  -- The latency of an event after others, the newest first.
  abbrev pub latency_after : List (Event S) → Event S → Option ℕ
  latency_after older e =
      if e.meta.event_type == b'S'
      then none
      else since e.meta.timestamp_ns (latest (key_of e) older)

  pub latencies_after : List (Event S) → List (Event S) → List (Option ℕ)
  latencies_after older [] = []
  latencies_after older (e ∷ es) = latency_after older e ∷ latencies_after (e ∷ older) es

  -- The latencies of a run of events.
  unfoldable pub track_all : Submissions → List (Event S) → Result (List (Option ℕ))
  track_all m [] = ok []
  track_all m (e ∷ es) =
      track_latency m e >>= λ timed. track_all timed.1 es >>= λ rest. ok (timed.0 ∷ rest)

  abbrev Tracks : Submissions → List (Event S) → Type 0
  Tracks m older = (key : UrbKey) → request_of key m ≡ latest key older

  track_latency-Tracks :
      (m : Submissions) (older : List (Event S)) (e : Event S) (timed : Option ℕ × Submissions)
      → Tracks m older
      → track_latency m e ≡ ok timed
      → (timed.0 ≡ latency_after older e) × Tracks timed.1 (e ∷ older)
  unfolding track_latency latest
  track_latency-Tracks m older e timed t h =
      let ts = e.meta.timestamp_ns in
      elim (Bool-cases (e.meta.event_type == b'S')) [
        | inl s ↦
            let (few, k) =
              ensure-eq-ok (ltb (length m) 65536) too_many_unmatched_submissions _ (rw s at h) in
            let same : (none, add_request (key_of e) ts m) ≡ timed = cc in
            (
              sym (ap (λ x. x.0) same) ∙ rw s refl,
              λ key.
                  sym (ap (λ x. request_of key x.1) same)
                  ∙ request_of-add_request (key_of e) key ts m
                  ∙ rw (s, t key) refl,
            )
        | inr s ↦
            let k : ok (since ts (request_of (key_of e) m), take_request (key_of e) m) ≡ ok timed =
              rw s at h in
            let same : (since ts (request_of (key_of e) m), take_request (key_of e) m) ≡ timed =
              cc in
            (
              sym (ap (λ x. x.0) same) ∙ ap (since ts) (t (key_of e)) ∙ rw s refl,
              λ key.
                  sym (ap (λ x. request_of key x.1) same)
                  ∙ request_of-take_request (key_of e) key m
                  ∙ rw (s, t key) refl,
            )
      ]

  track_all-Tracks :
      (m : Submissions) (older es : List (Event S)) (found : List (Option ℕ))
      → Tracks m older
      → track_all m es ≡ ok found
      → found ≡ latencies_after older es
  unfolding track_all latencies_after
  track_all-Tracks m older [] found t h = cc
  track_all-Tracks m older (e ∷ es) found t h =
      let (timed, one, h) = >>=-eq-ok (track_latency m e) _ h in
      let (rest, more, h) = >>=-eq-ok (track_all timed.1 es) _ h in
      let (first, t') = track_latency-Tracks m older e timed t one in
      let all_of : (timed.0 ∷ rest) ≡ found = cc in
      let later = track_all-Tracks timed.1 (e ∷ older) es rest t' more in
      sym all_of ∙ ap (λ x. x ∷ rest) first ∙ ap (λ x. latency_after older e ∷ x) later

  -- Of a run of events, from no submissions on and without an error, each submission has no latency,
  -- and another event has the time since the last event before it of the same source and URB, where
  -- that is a submission that is not later.
  pub track_all-latencies :
      (es : List (Event S)) (found : List (Option ℕ))
      → track_all [] es ≡ ok found
      → found ≡ latencies_after [] es
  unfolding request_of latest
  track_all-latencies es found h = track_all-Tracks [] [] es found (λ key. refl) h
