-- ===== src/Kernel/Delivery/Reports.antt =====
-- crates/usbscope-ebpf/src/main.rs, `emit`: the metadata that an observation of an URB reports.
use usbscope.Prelude.{
  ℕ, ◌+◌, ◌*◌, ◌/◌, ◌%◌, ◌^◌, ◌<◌, ◌≤◌, ◌≡◌, ◌≢◌, ◌⊎◌, inl, inr, refl, arith, Bool, false, not,
  ◌&&◌, Bool-cases, ==→eq, List, All, length, ◌==◌, if◌then◌else◌,
}
use usbscope.Prelude.Int.{ℤ}
use usbscope.Prelude.Bytes.{IsByte}
use usbscope.Common.Meta.{EventMeta, MetaInRange, IsI32}
use usbscope.Capture.Decode.RoundTrip.{MetaIsValid}
use usbscope.Capture.Reassembler.End.{expected_payload}
use usbscope.Kernel.Machine.{UrbFields}
use usbscope.Kernel.Urb.{transfer_of}
use usbscope.Kernel.Delivery.Readings.{Plain}
use usbscope.Live.Ending.{Declares}

-- Whether the data of a transfer goes to the host.
abbrev pub is_in : UrbFields → Bool
is_in f = not (f.transfer_flags / 2 ^ 9 % 2 == 0)

-- How much data an event of this type carries: a submission what is to be sent, and a completion
-- what was received.
abbrev pub payload_due : UrbFields → ℕ → ℕ
payload_due f event_type =
    if event_type == b'S' && not (is_in f)
    then f.transfer_buffer_length
    else if event_type == b'C' && is_in f
    then f.actual_length
    else 0

abbrev pub reported :
    UrbFields
    → (urb_id event_type : ℕ) (status : ℤ) (timestamp : ℕ) (setup : List ℕ) (present : ℕ)
    → EventMeta
reported f urb_id event_type status timestamp setup present = record {
  urb_id = urb_id;
  timestamp_ns = timestamp;
  bus = f.busnum % 2 ^ 16;
  device = f.devnum % 2 ^ 8;
  endpoint = f.endpoint_address % 16 + 128 * (f.transfer_flags / 2 ^ 9 % 2);
  transfer_type = transfer_of f.attributes;
  event_type = event_type;
  setup_present = present;
  has_data = if payload_due f event_type == 0 then 0 else 1;
  status = status;
  requested_len = f.transfer_buffer_length;
  actual_len = f.actual_length;
  payload_len = payload_due f event_type;
  interval = f.interval;
  start_frame = f.start_frame;
  transfer_flags = f.transfer_flags;
  iso_count = 0;
  error_count = f.error_count;
  vid = f.vendor;
  pid = f.product;
  setup = setup;
}

abbrev pub KnownEvent : ℕ → Type 0
KnownEvent event_type = (event_type ≡ b'S') ⊎ ((event_type ≡ b'C') ⊎ (event_type ≡ b'E'))

module _ (f : UrbFields) (urb_id event_type : ℕ) (status : ℤ) (timestamp : ℕ) (setup : List ℕ)
    (present : ℕ) (p : Plain f) (known : KnownEvent event_type) (id_fits : urb_id < 2 ^ 64)
    (status_fits : IsI32 status) (time_fits : timestamp < 2 ^ 64)
    (packet : (length setup ≡ 8) × All IsByte setup) (flag : present ≤ 1) where
  abbrev m : EventMeta
  m = reported f urb_id event_type status timestamp setup present

  due_small : payload_due f event_type < 2 ^ 32
  due_small = ground (arith, p.in_range.requested_u32, p.in_range.actual_u32)

  reported-not_iso : m.transfer_type ≢ 0
  reported-not_iso = ground (arith, p.not_iso)

  pub reported-MetaInRange : MetaInRange m
  reported-MetaInRange = record {
    urb_id_u64 = id_fits;
    timestamp_u64 = time_fits;
    bus_u16 = omega arith;
    device_u8 = omega arith;
    endpoint_u8 = omega arith;
    transfer_type_u8 = ground arith;
    event_type_u8 = omega (arith, known);
    setup_present_u8 = omega (arith, flag);
    has_data_u8 = ground arith;
    status_i32 = status_fits;
    requested_u32 = p.in_range.requested_u32;
    actual_u32 = p.in_range.actual_u32;
    payload_u32 = due_small;
    interval_i32 = p.in_range.interval_i32;
    start_frame_i32 = p.in_range.start_frame_i32;
    flags_u32 = p.in_range.flags_u32;
    iso_count_u32 = omega arith;
    error_count_i32 = p.in_range.error_count_i32;
    vid_u16 = p.in_range.vendor_u16;
    pid_u16 = p.in_range.product_u16;
    setup_length = packet.0;
    setup_bytes = packet.1;
  }

  direction_bit : m.endpoint / 2 ^ 7 % 2 ≡ f.transfer_flags / 2 ^ 9 % 2
  direction_bit = omega arith

  due-expected : m.payload_len ≡ expected_payload m 0
  unfolding expected_payload
  due-expected =
      let other : (m.transfer_type == 0) ≡ false = ground (arith, reported-not_iso) in
      rw (direction_bit, other)
        (elim (Bool-cases (f.transfer_flags / 2 ^ 9 % 2 == 0)) [
          | inl e ↦ rw e (ground (arith, known))
          | inr e ↦ rw e (ground (arith, known))
        ])

  pub reported-Declares : Declares m
  unfolding expected_payload
  reported-Declares = record {
    not_iso = reported-not_iso;
    no_frames = refl;
    span = due-expected;
    flag = refl;
    small = due_small;
  }

  pub reported-MetaIsValid : m.payload_len ≤ m.requested_len → MetaIsValid m
  reported-MetaIsValid within = record {
    known_event = known;
    known_transfer = ground arith;
    address = p.address;
    data_flag = ground arith;
    setup_flag = flag;
    flagged = elim (Bool-cases (payload_due f event_type == 0)) [
      | inl e ↦ inr (==→eq _ _ e)
      | inr e ↦ inl (ground (arith, e))
    ];
    only_iso = inr refl;
    span = within;
  }
