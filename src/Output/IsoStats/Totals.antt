-- ===== src/Output/IsoStats/Totals.antt =====
-- src/audio.rs: after any run of events, the counters of an endpoint are the totals of its
-- completed isochronous events.
use usbscope.Prelude.{
  ℕ, ◌+◌, ◌%◌, ◌^◌, ◌<◌, ◌≡◌, ap, true, not, ◌&&◌, List, [], ◌∷◌, length, arith, ◌==◌,
  if◌then◌else◌, inl, inr, Bool-cases,
}
use usbscope.Prelude.Int.{pos, eqb_ℤ}
use usbscope.Common.Meta.{IsoDescriptor}
use usbscope.Capture.Event.{Spool, Event}
use usbscope.Output.IsoStats.{
  Endpoint, Key, same_key, IsoStats, or_default, flag, add, is_completion, observe_frame,
  observe_frames, observe_endpoint, key_of, observe,
}

-- What is counted.
pub record Counts : Type 0 where
  pub urbs : ℕ
  pub frames : ℕ
  pub bytes : ℕ
  pub frame_errors : ℕ
  pub urb_errors : ℕ
  pub empty_frames : ℕ

abbrev pub zero_counts : Counts
zero_counts = record {
  urbs = 0;
  frames = 0;
  bytes = 0;
  frame_errors = 0;
  urb_errors = 0;
  empty_frames = 0;
}

unfoldable pub plus : Counts → Counts → Counts
plus a b = record {
  urbs = a.urbs + b.urbs;
  frames = a.frames + b.frames;
  bytes = a.bytes + b.bytes;
  frame_errors = a.frame_errors + b.frame_errors;
  urb_errors = a.urb_errors + b.urb_errors;
  empty_frames = a.empty_frames + b.empty_frames;
}

unfoldable pub sum : (IsoDescriptor → ℕ) → List IsoDescriptor → ℕ
sum f [] = 0
sum f (d ∷ ds) = f d + sum f ds

-- The counts of one event.
unfoldable pub counts_of : {S : Spool} → Event S → Counts
unfolding sum
counts_of event = record {
  urbs = 1;
  frames = length event.iso;
  bytes = sum (λ d. d.length) event.iso;
  frame_errors = sum (λ d. flag (not (eqb_ℤ d.status (pos 0)))) event.iso;
  urb_errors = flag (not (eqb_ℤ event.meta.status (pos 0)));
  empty_frames = sum (λ d. flag (d.length == 0)) event.iso;
}

-- The totals of the completed isochronous events of one endpoint.
unfoldable pub totals : {S : Spool} → Key → List (Event S) → Counts
unfolding counts_of plus
totals k [] = zero_counts
totals k (e ∷ es) =
    if is_completion e.meta && same_key (key_of e) k
    then plus (counts_of e) (totals k es)
    else totals k es

unfoldable pub observe_all : {S : Spool} → List (Event S) → IsoStats → IsoStats
unfolding observe
observe_all [] stats = stats
observe_all (e ∷ es) stats = observe_all es (observe e stats)

-- Each counter is below 2 ^ 64.
pub record IsBounded (ep : Endpoint) : Type 0 where
  pub urbs : ep.urbs < 2 ^ 64
  pub frames : ep.frames < 2 ^ 64
  pub bytes : ep.bytes < 2 ^ 64
  pub frame_errors : ep.frame_errors < 2 ^ 64
  pub urb_errors : ep.urb_errors < 2 ^ 64
  pub empty_frames : ep.empty_frames < 2 ^ 64

-- The counters have grown by these counts, modulo 2 ^ 64.
pub record Adds (c : Counts) (ep ep' : Endpoint) : Type 0 where
  pub urbs : ep'.urbs ≡ (ep.urbs + c.urbs) % 2 ^ 64
  pub frames : ep'.frames ≡ (ep.frames + c.frames) % 2 ^ 64
  pub bytes : ep'.bytes ≡ (ep.bytes + c.bytes) % 2 ^ 64
  pub frame_errors : ep'.frame_errors ≡ (ep.frame_errors + c.frame_errors) % 2 ^ 64
  pub urb_errors : ep'.urb_errors ≡ (ep.urb_errors + c.urb_errors) % 2 ^ 64
  pub empty_frames : ep'.empty_frames ≡ (ep.empty_frames + c.empty_frames) % 2 ^ 64

Adds-IsBounded : {c : Counts} {ep ep' : Endpoint} → Adds c ep ep' → IsBounded ep'
Adds-IsBounded a =
    omega (arith, a.urbs, a.frames, a.bytes, a.frame_errors, a.urb_errors, a.empty_frames)

Adds-zero : (ep : Endpoint) → IsBounded ep → Adds zero_counts ep ep
Adds-zero ep b = omega arith

Adds-plus : (c d : Counts) (x y z : Endpoint) → Adds c x y → Adds d y z → Adds (plus c d) x z
unfolding plus
Adds-plus c d x y z a b = omega arith

-- What the frames of an event add.
frame_counts : List IsoDescriptor → Counts
unfolding sum
frame_counts ds = record {
  urbs = 0;
  frames = length ds;
  bytes = sum (λ d. d.length) ds;
  frame_errors = sum (λ d. flag (not (eqb_ℤ d.status (pos 0)))) ds;
  urb_errors = 0;
  empty_frames = sum (λ d. flag (d.length == 0)) ds;
}

observe_frames-Adds :
    (ep : Endpoint) (ds : List IsoDescriptor)
    → IsBounded ep
    → Adds (frame_counts ds) ep (observe_frames ep ds)
unfolding observe_frames frame_counts
observe_frames-Adds ep [] b = omega arith
observe_frames-Adds ep (d ∷ ds) b =
    let rest = observe_frames-Adds (observe_frame ep d) ds (omega arith) in omega (arith, rest)

observe_endpoint-Adds :
    {S : Spool} (e : Event S) (ep : Endpoint)
    → IsBounded ep
    → Adds (counts_of e) ep (observe_endpoint e ep)
unfolding observe_endpoint counts_of frame_counts
observe_endpoint-Adds e ep b =
    let counted = record ep {
      urbs = add ep.urbs 1;
      urb_errors = add ep.urb_errors (flag (not (eqb_ℤ e.meta.status (pos 0))));
    } in
    let rest = observe_frames-Adds counted e.iso (omega arith) in omega (arith, rest)

same_key→eq : (a b : Key) → same_key a b ≡ true → a ≡ b
same_key→eq a b h = ground arith

-- The counters of a key, 0 where it has no entry.
abbrev pub at_key : Key → IsoStats → Endpoint
at_key k stats = or_default (stats k)

observe-Adds :
    {S : Spool} (e : Event S) (k : Key) (stats : IsoStats)
    → IsBounded (at_key k stats)
    → Adds (totals k (e ∷ [])) (at_key k stats) (at_key k (observe e stats))
unfolding observe totals plus
observe-Adds e k stats b = elim (Bool-cases (is_completion e.meta)) [
  | inr other ↦ rw (other, observe, totals) (Adds-zero (at_key k stats) b)
  | inl completed ↦ elim (Bool-cases (same_key (key_of e) k)) [
    | inr elsewhere ↦ rw (completed, elsewhere, observe, totals) (Adds-zero (at_key k stats) b)
    | inl here ↦
        let entry = ap stats (same_key→eq (key_of e) k here) in
        let once = observe_endpoint-Adds e (at_key k stats) b in
        rw (completed, here, entry, observe, totals)
          (Adds-plus (counts_of e) zero_counts _ _ _ once (Adds-zero _ (Adds-IsBounded once)))
  ]
]

totals-cons :
    {S : Spool} (k : Key) (e : Event S) (es : List (Event S))
    → totals k (e ∷ es) ≡ plus (totals k (e ∷ [])) (totals k es)
unfolding totals plus
totals-cons k e es = ground arith

-- From any statistics whose counters for an endpoint are below 2 ^ 64, a run of events adds to each
-- of them the total of the endpoint's own completed isochronous events, modulo 2 ^ 64.
pub observe_all-Adds :
    {S : Spool} (k : Key) (es : List (Event S)) (stats : IsoStats)
    → IsBounded (at_key k stats)
    → Adds (totals k es) (at_key k stats) (at_key k (observe_all es stats))
unfolding observe_all totals
observe_all-Adds k [] stats b = Adds-zero (at_key k stats) b
observe_all-Adds k (e ∷ es) stats b =
    let first = observe-Adds e k stats b in
    let rest = observe_all-Adds k es (observe e stats) (Adds-IsBounded first) in
    rw (totals-cons k e es)
      (Adds-plus (totals k (e ∷ [])) (totals k es) _ (at_key k (observe e stats)) _ first rest)
