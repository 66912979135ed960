-- ===== src/Kernel/Delivery/Readings.antt =====
-- core-shims/usb.c, `core_read_urb`: what is read of an URB that is not isochronous.
use usbscope.Prelude.{
  ℕ, ◌+◌, ◌*◌, ◌/◌, ◌%◌, ◌^◌, ◌≤◌, ◌≡◌, ◌≢◌, ◌⊎◌, inl, inr, refl, arith, true, false, Bool-cases,
  Option, none, some, Option-cases, List, All, length, ◌==◌, ◌&&◌,
}
use usbscope.Prelude.Bytes.{IsByte}
use usbscope.Common.Meta.{EventMeta}
use usbscope.Kernel.Machine.{World, Kernel, pure, ◌>>=◌, ask, UrbFields, FieldsInRange}
use usbscope.Kernel.Urb.{transfer_of, fill_meta, fill_setup, core_read_urb}

-- URBs with one buffer, of a device with an address of USB, that are not isochronous; what is read
-- of them is in the ranges of the C types.
pub record Plain (f : UrbFields) : Type 0 where
  pub in_range : FieldsInRange f
  pub address : f.devnum % 2 ^ 8 ≤ 127
  pub not_iso : f.attributes % 4 ≢ 1
  pub one_buffer : f.num_sgs ≡ 0
  pub placed : f.transfer_buffer + 2 ^ 32 ≤ 2 ^ 64

pub record PlainWorld (w : World) : Type 0 where
  pub plain : (t a : ℕ) (f : UrbFields) → w.urb_fields t a ≡ some f → Plain f
  pub setup :
      (t a : ℕ) (bytes : List ℕ)
      → w.setup_packet t a ≡ some bytes
      → (length bytes ≡ 8) × All IsByte bytes

-- The metadata of the fields.
abbrev pub plain_meta : UrbFields → EventMeta → EventMeta
plain_meta f m = record m {
  vid = f.vendor;
  pid = f.product;
  transfer_flags = f.transfer_flags;
  requested_len = f.transfer_buffer_length;
  actual_len = f.actual_length;
  interval = f.interval;
  start_frame = f.start_frame;
  error_count = f.error_count;
  status = f.status;
  bus = f.busnum % 2 ^ 16;
  device = f.devnum % 2 ^ 8;
  endpoint = f.endpoint_address % 16 + 128 * (f.transfer_flags / 2 ^ 9 % 2);
  transfer_type = transfer_of f.attributes;
  iso_count = 0;
}

fill_meta-plain :
    (f : UrbFields) (m : EventMeta) → f.attributes % 4 ≢ 1 → fill_meta f m ≡ some (plain_meta f m)
unfolding fill_meta
fill_meta-plain f m h =
    let e : (transfer_of f.attributes == 0) ≡ false = ground (arith, h) in rw e refl

-- The submissions that carry a setup packet: those of control transfers.
abbrev pub IsControlSubmission : UrbFields → ℕ → Type 0
IsControlSubmission f event_type = (f.attributes % 4 ≡ 0) × (event_type ≡ b'S')

-- A control submission whose fields are read at the tick, and whose setup packet cannot be read at the
-- next.
abbrev pub SetupFails : World → ℕ → ℕ → ℕ → Type 0
SetupFails w t address event_type =
    (f : UrbFields) × (w.urb_fields t address ≡ some f)
    × IsControlSubmission f event_type
    × (w.setup_packet (t + 1) address ≡ none)

test-IsControlSubmission :
    (f : UrbFields) (e : ℕ)
    → (transfer_of f.attributes == 2 && e == b'S') ≡ true
    → IsControlSubmission f e
test-IsControlSubmission f e h = (ground (arith, h), ground (arith, h))

test-not_control :
    (f : UrbFields) (e : ℕ)
    → (transfer_of f.attributes == 2 && e == b'S') ≡ false
    → ¬ IsControlSubmission f e
test-not_control f e h (a, b) = ground (arith, h, a, b)

-- A reading changes no map; it fails, or it fills in the fields and, for a control submission, the
-- setup packet.
pub data Reading (w : World) (address : ℕ) (m : EventMeta) (k : Kernel)
    (r : Option (EventMeta × ℕ × ℕ) × Kernel) : Type 0 where
  failed :
      (unread : r.0 ≡ none) (ring : r.1.ring ≡ k.ring)
      (why : (w.urb_fields k.tick address ≡ none) ⊎ SetupFails w k.tick address m.event_type)
      → Reading w address m k r
  filled :
      (f : UrbFields) (setup : List ℕ) (present : ℕ) (found : w.urb_fields k.tick address ≡ some f)
      (whole : r.0
        ≡ some (
          record (plain_meta f m) { setup = setup; setup_present = present },
          f.transfer_buffer,
          f.num_sgs,
        ))
      (packet : ((¬ IsControlSubmission f m.event_type)
          × (setup ≡ m.setup)
          × (present ≡ m.setup_present))
        ⊎ (IsControlSubmission f m.event_type
            × (w.setup_packet (k.tick + 1) address ≡ some setup)
            × (present ≡ 1)))
      (ring : r.1.ring ≡ k.ring) (sequence : r.1.sequence ≡ k.sequence)
      → Reading w address m k r

pub core_read_urb-Reading :
    (w : World) (address : ℕ) (m : EventMeta) (k : Kernel)
    → PlainWorld w
    → Reading w address m k (core_read_urb w address m k)
unfolding core_read_urb fill_setup ◌>>=◌ pure ask
core_read_urb-Reading w address m k p = elim (Option-cases (w.urb_fields k.tick address)) [
  | inl e ↦ rw e (failed refl refl (inl e))
  | inr (f, e) ↦
      let meta = fill_meta-plain f m (p.plain k.tick address f e).not_iso in
      elim (Bool-cases (transfer_of f.attributes == 2 && m.event_type == b'S')) [
        | inr c ↦
            rw (e, meta, c)
              (filled f m.setup m.setup_present e refl
                (inl (test-not_control f m.event_type c, refl, refl)) refl refl)
        | inl c ↦ elim (Option-cases (w.setup_packet (k.tick + 1) address)) [
          | inl g ↦
              rw (e, meta, c, g)
                (failed refl refl (inr (f, e, test-IsControlSubmission f m.event_type c, g)))
          | inr (bytes, g) ↦
              rw (e, meta, c, g)
                (filled f bytes 1 e refl (inr (test-IsControlSubmission f m.event_type c, g, refl))
                  refl refl)
        ]
      ]
]
