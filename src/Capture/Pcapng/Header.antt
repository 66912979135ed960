-- ===== src/Capture/Pcapng/Header.antt =====
-- crates/usbscope-capture/src: the pseudoheader that the pcapng writer writes, as the reader reads
-- it.
use usbscope.Prelude.{
  ℕ, ◌+◌, ◌/◌, ◌%◌, ◌^◌, ◌<◌, ◌≤◌, ◌≡◌, refl, ap, sym, subst, ◌∙◌, arith, true, not, length-append,
  List, ◌∷◌, ◌++◌, length, take, drop, drop-past, take-append_exact, replicate, ◌==◌, if◌then◌else◌,
  Bool-cases, inl, inr,
}
use usbscope.Prelude.Int.{pos, signed, unsigned}
use usbscope.Prelude.Bytes.{from_le, to_le}
use usbscope.Common.Meta.{EventMeta, MetaInRange}
use usbscope.Common.Wire.{little}
use usbscope.Common.Wire.Layout.{from_le-to_le}
use usbscope.Capture.Decode.RoundTrip.{signed-bytes}
use usbscope.Capture.Pcapng.Writer.{data_flag, urb_len, setup_or_iso, usb_header}
use usbscope.Capture.Pcapng.Reader.{endian_uint, endian_u32}
use usbscope.Capture.Pcapng.Packets.{usb_meta}

-- What the fields of a pseudoheader tell of metadata: neither lengths nor the identity of the
-- device, and no more of the time than the block says.
abbrev pub told : ℕ → EventMeta → EventMeta
told time m = record m {
  timestamp_ns = time;
  requested_len = 0;
  actual_len = 0;
  payload_len = 0;
  error_count = pos 0;
  vid = 0;
  pid = 0;
  setup = replicate 8 0;
}

-- The pseudoheader around its bytes 40 to 48.
front : EventMeta → ℕ → List ℕ
front m data_len =
    let ts = m.timestamp_ns / 1000 in
    to_le 8 m.urb_id
    ++ (m.event_type
        ∷ m.transfer_type
        ∷ m.endpoint
        ∷ m.device
        ∷ (to_le 2 m.bus
            ++ ((if not (m.setup_present == 0) then 0 else b'-')
                ∷ data_flag m
                ∷ (to_le 8 (ts / 1000000)
                    ++ (to_le 4 (ts % 1000000)
                        ++ (to_le 4 (unsigned 32 m.status)
                            ++ (to_le 4 (urb_len m) ++ to_le 4 data_len)))))))

back : EventMeta → List ℕ
back m =
    to_le 4 (unsigned 32 m.interval)
    ++ (to_le 4 (unsigned 32 m.start_frame) ++ (to_le 4 m.transfer_flags ++ to_le 4 m.iso_count))

around : EventMeta → ℕ → List ℕ → List ℕ
unfolding front back
around m data_len mid = front m data_len ++ (mid ++ back m)

usb_header-around : (m : EventMeta) (n : ℕ) → usb_header m n ≡ around m n (setup_or_iso m)
unfolding usb_header around
usb_header-around m n = refl

setup_or_iso-length : (m : EventMeta) → length m.setup ≡ 8 → length (setup_or_iso m) ≡ 8
setup_or_iso-length m h = elim (Bool-cases (m.transfer_type == 0)) [
  | inl e ↦ rw e refl
  | inr e ↦ elim (Bool-cases (not (m.setup_present == 0))) [
    | inl k ↦ rw (e, k) h
    | inr k ↦ rw (e, k) refl
  ]
]

flag_read : (n : ℕ) → n ≤ 1 → (if (if not (n == 0) then 0 else b'-') == 0 then 1 else 0) ≡ n
flag_read n h = ground (arith, h)

data_flag_read : (m : EventMeta) → m.has_data ≤ 1 → (if data_flag m == 0 then 1 else 0) ≡ m.has_data
data_flag_read m h = ground (arith, h)

module _ (m : EventMeta) (n : ℕ) (mid : List ℕ) (fits : MetaInRange m) (size : length mid ≡ 8) where
  -- A field behind the bytes 40 to 48.
  behind : (k : ℕ) → drop (8 + k) (mid ++ back m) ≡ drop k (back m)
  behind k = drop-past 8 k mid (back m) size

  usb_meta-around :
      (time : ℕ)
      → m.has_data ≤ 1
      → m.setup_present ≤ 1
      → usb_meta little time (around m n mid) ≡ told time m
  unfolding usb_meta endian_uint around
  usb_meta-around time data_flag setup_flag = λ i. record {
    urb_id = from_le-to_le 8 m.urb_id fits.urb_id_u64 i;
    timestamp_ns = time;
    bus = from_le-to_le 2 m.bus fits.bus_u16 i;
    device = m.device;
    endpoint = m.endpoint;
    transfer_type = m.transfer_type;
    event_type = m.event_type;
    setup_present = flag_read m.setup_present setup_flag i;
    has_data = data_flag_read m data_flag i;
    status = signed-bytes m.status fits.status_i32 i;
    requested_len = 0;
    actual_len = 0;
    payload_len = 0;
    interval =
        (ap (λ x. signed 32 (from_le (take 4 x))) (behind 0)
            ∙ signed-bytes m.interval fits.interval_i32)
          i;
    start_frame =
        (ap (λ x. signed 32 (from_le (take 4 x))) (behind 4)
            ∙ signed-bytes m.start_frame fits.start_frame_i32)
          i;
    transfer_flags =
        (ap (λ x. from_le (take 4 x)) (behind 8) ∙ from_le-to_le 4 m.transfer_flags fits.flags_u32)
          i;
    iso_count =
        (ap (λ x. from_le (take 4 x)) (behind 12) ∙ from_le-to_le 4 m.iso_count fits.iso_count_u32)
          i;
    error_count = pos 0;
    vid = 0;
    pid = 0;
    setup = replicate 8 0;
  }

  wire_len-around : endian_u32 little (drop 32 (around m n mid)) ≡ urb_len m
  unfolding endian_uint around
  wire_len-around =
      from_le-to_le 4 (urb_len m) (ground (arith, fits.requested_u32, fits.actual_u32))

  data_len-around : n < 2 ^ 32 → endian_u32 little (drop 36 (around m n mid)) ≡ n
  unfolding endian_uint around
  data_len-around h = from_le-to_le 4 n h

  setup-around : take 8 (drop 40 (around m n mid)) ≡ mid
  unfolding around
  setup-around = subst (λ k. take k (mid ++ back m) ≡ mid) size (take-append_exact mid (back m))

-- The two numbers of an isochronous transfer.
abbrev counts : EventMeta → List ℕ
counts m = to_le 4 (unsigned 32 m.error_count) ++ to_le 4 m.iso_count

setup_or_iso-counts : (m : EventMeta) → m.transfer_type ≡ 0 → counts m ≡ setup_or_iso m
setup_or_iso-counts m h = let e : (m.transfer_type == 0) ≡ true = ground (arith, h) in rw e refl

module _ (m : EventMeta) (n : ℕ) (fits : MetaInRange m) where
  errors-around : signed 32 (endian_u32 little (drop 40 (around m n (counts m)))) ≡ m.error_count
  unfolding endian_uint around
  errors-around = signed-bytes m.error_count fits.error_count_i32

  count-around : endian_u32 little (drop 44 (around m n (counts m))) ≡ m.iso_count
  unfolding endian_uint around
  count-around = from_le-to_le 4 m.iso_count fits.iso_count_u32

pub usb_header-length : (m : EventMeta) (n : ℕ) → length m.setup ≡ 8 → length (usb_header m n) ≡ 64
unfolding around
usb_header-length m n h =
    let mid = setup_or_iso m in
    ap length (usb_header-around m n)
    ∙ omega (
      arith,
      length-append (front m n) (mid ++ back m),
      length-append mid (back m),
      setup_or_iso-length m h,
    )

-- What is read of a pseudoheader that was written.
pub record HeaderReads (m : EventMeta) (n time : ℕ) (usb : List ℕ) : Type 0 where
  pub size : length usb ≡ 64
  pub meta : usb_meta little time usb ≡ told time m
  pub wire_len : endian_u32 little (drop 32 usb) ≡ urb_len m
  pub data_len : endian_u32 little (drop 36 usb) ≡ n
  pub errors : m.transfer_type ≡ 0 → signed 32 (endian_u32 little (drop 40 usb)) ≡ m.error_count
  pub count : m.transfer_type ≡ 0 → endian_u32 little (drop 44 usb) ≡ m.iso_count
  pub setup : take 8 (drop 40 usb) ≡ setup_or_iso m

around-Reads :
    (m : EventMeta) (n time : ℕ)
    → MetaInRange m
    → m.has_data ≤ 1
    → m.setup_present ≤ 1
    → n < 2 ^ 32
    → HeaderReads m n time (around m n (setup_or_iso m))
unfolding around
around-Reads m n time fits data_flag setup_flag small =
    let mid = setup_or_iso m in
    let size = setup_or_iso-length m fits.setup_length in
    record {
      size = ap length (sym (usb_header-around m n)) ∙ usb_header-length m n fits.setup_length;
      meta = usb_meta-around m n mid fits size time data_flag setup_flag;
      wire_len = wire_len-around m n mid fits size;
      data_len = data_len-around m n mid fits size small;
      errors = λ h.
          subst (λ x. signed 32 (endian_u32 little (drop 40 (around m n x))) ≡ m.error_count)
            (setup_or_iso-counts m h) (errors-around m n fits);
      count = λ h.
          subst (λ x. endian_u32 little (drop 44 (around m n x)) ≡ m.iso_count)
            (setup_or_iso-counts m h) (count-around m n fits);
      setup = setup-around m n mid fits size;
    }

pub usb_header-Reads :
    (m : EventMeta) (n time : ℕ)
    → MetaInRange m
    → m.has_data ≤ 1
    → m.setup_present ≤ 1
    → n < 2 ^ 32
    → HeaderReads m n time (usb_header m n)
usb_header-Reads m n time fits data_flag setup_flag small =
    subst (HeaderReads m n time) (sym (usb_header-around m n))
      (around-Reads m n time fits data_flag setup_flag small)
