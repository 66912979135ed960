-- ===== src/Kernel/Urb.antt =====
-- core-shims/usb.c, the reads of an URB, and crates/usbscope-ebpf/src/main.rs, `selected`.
use usbscope.Prelude.{
  ℕ, ◌+◌, ◌-◌, ◌*◌, ◌/◌, ◌%◌, ◌^◌, Bool, ◌&&◌, ◌||◌, Option, none, some, ltb, ◌==◌, if◌then◌else◌,
}
use usbscope.Prelude.Int.{ℤ, pos, negsuc, eqb_ℤ}
use usbscope.Common.Meta.{EventMeta, IsoDescriptor}
use usbscope.Kernel.Machine.{
  World, Action, pure, ◌>>=◌, ask, UrbFields, CompletionFields, CaptureConfig,
}

-- The switch on `attributes & 3`.
abbrev pub transfer_of : ℕ → ℕ
transfer_of attributes =
    let a = attributes % 4 in if a == 0 then 2 else if a == 1 then 0 else if a == 2 then 3 else 1

-- packets as u32, where there are no ISO packets if it is negative
abbrev pub packet_count : ℤ → Option ℕ
packet_count (pos n) = some n
packet_count (negsuc n) = none

-- The fields of an URB in the metadata; none where an ISO URB has a negative number of packets.
unfoldable pub fill_meta : UrbFields → EventMeta → Option EventMeta
fill_meta f m =
    let transfer = transfer_of f.attributes in
    let direction = f.transfer_flags / 2 ^ 9 % 2 in
    let filled = λ (packets : ℕ). record m {
      vid = f.vendor;
      pid = f.product;
      transfer_flags = f.transfer_flags;
      requested_len = f.transfer_buffer_length;
      actual_len = f.actual_length;
      interval = f.interval;
      start_frame = f.start_frame;
      error_count = f.error_count;
      status = f.status;
      bus = f.busnum % 2 ^ 16;
      device = f.devnum % 2 ^ 8;
      endpoint = f.endpoint_address % 16 + 128 * direction;
      transfer_type = transfer;
      iso_count = packets;
    } in
    if transfer == 0
    then elim (packet_count f.number_of_packets) [ none ↦ none | some n ↦ some (filled n) ]
    else some (filled 0)

-- The setup packet of a control submission.
unfoldable pub fill_setup : World → ℕ → EventMeta → Action (Option EventMeta)
fill_setup w address m =
    if m.transfer_type == 2 && m.event_type == b'S'
    then (do
      read ← ask (λ t. w.setup_packet t address)
      pure (elim read [
        | none ↦ none
        | some bytes ↦ some (record m { setup = bytes; setup_present = 1 })
      ]))
    else pure (some m)

-- core_read_urb: the metadata, the buffer and the number of its segments
unfoldable pub core_read_urb : World → ℕ → EventMeta → Action (Option (EventMeta × ℕ × ℕ))
unfolding fill_meta fill_setup
core_read_urb w address m = do
  fields ← ask (λ t. w.urb_fields t address)
  elim fields [
    | none ↦ pure none
    | some f ↦ elim (fill_meta f m) [
      | none ↦ pure none
      | some filled ↦ (do
        whole ← fill_setup w address filled
        pure (elim whole [ none ↦ none | some m' ↦ some (m', f.transfer_buffer, f.num_sgs) ]))
    ]
  ]

-- The status of a completion: -121 for a short transfer that was to be refused.
unfoldable pub completion_of : CompletionFields → ℤ
completion_of f =
    if eqb_ℤ f.unlinked (pos 0)
      && (f.transfer_flags % 2 == 1 && ltb f.actual_length f.transfer_buffer_length)
    then negsuc 120
    else f.unlinked

-- core_completion_status
unfoldable pub core_completion_status : World → ℕ → Action (Option ℤ)
unfolding completion_of
core_completion_status w address = do
  fields ← ask (λ t. w.completion_fields t address)
  pure (elim fields [ none ↦ none | some f ↦ some (completion_of f) ])

-- core_read_iso
unfoldable pub core_read_iso : World → ℕ → ℕ → Bool → Action (Option IsoDescriptor)
core_read_iso w address index submission = do
  fields ← ask (λ t. w.iso_fields t address index)
  pure (elim fields [
    | none ↦ none
    | some f ↦ some (record {
      status = f.status;
      offset = f.offset;
      length = if submission then f.length else f.actual_length;
      padding = 0;
    })
  ])

-- fn selected
unfoldable pub selected : EventMeta → CaptureConfig → Bool
selected m config =
    (config.bus == 0 || config.bus == m.bus)
    && (config.device == 2 ^ 32 - 1 || config.device == m.device)
