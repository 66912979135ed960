-- ===== src/Output/IsoStats.antt =====
-- src/audio.rs: the statistics of isochronous endpoints. The BTreeMap is a function from its keys;
-- a u64 wraps around, as in the release profile.
pub mod Totals
use usbscope.Prelude.{
  ℕ, ◌+◌, ◌-◌, ◌%◌, ◌^◌, max, ◌≡◌, refl, Bool, true, false, not, ◌&&◌, ◌||◌, Option, none, some,
  List, [], ◌∷◌, arith, ◌==◌, if◌then◌else◌, inl, inr, Bool-cases,
}
use usbscope.Prelude.Int.{pos, eqb_ℤ}
use usbscope.Common.Meta.{EventMeta, IsoDescriptor}
use usbscope.Capture.Event.{Spool, Event}

pub record Endpoint : Type 0 where
  pub urbs : ℕ
  pub frames : ℕ
  pub bytes : ℕ
  pub frame_errors : ℕ
  pub urb_errors : ℕ
  pub empty_frames : ℕ
  pub previous_ns : Option ℕ
  pub max_gap_ns : ℕ

-- Endpoint::default
abbrev pub no_endpoint : Endpoint
no_endpoint = record {
  urbs = 0;
  frames = 0;
  bytes = 0;
  frame_errors = 0;
  urb_errors = 0;
  empty_frames = 0;
  previous_ns = none;
  max_gap_ns = 0;
}

-- The source, the bus, the device and the endpoint's address.
pub record Key : Type 0 where
  pub source : ℕ
  pub bus : ℕ
  pub device : ℕ
  pub address : ℕ

abbrev pub same_key : Key → Key → Bool
same_key a b =
    a.source == b.source && a.bus == b.bus && a.device == b.device && a.address == b.address

abbrev pub IsoStats : Type 0
IsoStats = Key → Option Endpoint

-- BTreeMap::insert
abbrev pub insert : Key → Endpoint → IsoStats → IsoStats
insert k ep stats j = if same_key k j then some ep else stats j

-- Entry::or_default
abbrev pub or_default : Option Endpoint → Endpoint
or_default none = no_endpoint
or_default (some ep) = ep

-- u64::from(bool)
abbrev pub flag : Bool → ℕ
flag true = 1
flag false = 0

-- a += b of u64
abbrev pub add : ℕ → ℕ → ℕ
add a b = (a + b) % 2 ^ 64

abbrev pub is_completion : EventMeta → Bool
is_completion m = m.transfer_type == 0 && m.event_type == b'C'

unfoldable pub observe_frame : Endpoint → IsoDescriptor → Endpoint
observe_frame ep d = record ep {
  frames = add ep.frames 1;
  bytes = add ep.bytes d.length;
  frame_errors = add ep.frame_errors (flag (not (eqb_ℤ d.status (pos 0))));
  empty_frames = add ep.empty_frames (flag (d.length == 0));
}

unfoldable pub observe_frames : Endpoint → List IsoDescriptor → Endpoint
unfolding observe_frame
observe_frames ep [] = ep
observe_frames ep (d ∷ ds) = observe_frames (observe_frame ep d) ds

-- The gap since the last completion, if there was one.
unfoldable pub widest_gap : Endpoint → ℕ → ℕ
widest_gap ep now = elim ep.previous_ns [
  | none ↦ ep.max_gap_ns
  | some previous ↦ max ep.max_gap_ns (now - previous)
]

unfoldable pub observe_endpoint : {S : Spool} → Event S → Endpoint → Endpoint
unfolding observe_frames widest_gap
observe_endpoint event ep =
    let m = event.meta in
    let counted = record ep {
      urbs = add ep.urbs 1;
      urb_errors = add ep.urb_errors (flag (not (eqb_ℤ m.status (pos 0))));
    } in
    let seen = observe_frames counted event.iso in
    record seen { max_gap_ns = widest_gap seen m.timestamp_ns; previous_ns = some m.timestamp_ns }

abbrev pub key_of : {S : Spool} → Event S → Key
key_of event = record {
  source = event.source_id;
  bus = event.meta.bus;
  device = event.meta.device;
  address = event.meta.endpoint;
}

-- IsoStats::observe
unfoldable pub observe : {S : Spool} → Event S → IsoStats → IsoStats
unfolding observe_endpoint
observe event stats =
    if not (is_completion event.meta)
    then stats
    else insert (key_of event) (observe_endpoint event (or_default (stats (key_of event)))) stats
