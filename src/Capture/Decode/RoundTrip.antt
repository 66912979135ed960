-- ===== src/Capture/Decode/RoundTrip.antt =====
-- What the kernel side publishes of an event's metadata is what userspace decodes.
use usbscope.Prelude.{
  ℕ, ◌^◌, ◌<◌, ◌≤◌, ◌≡◌, ◌≢◌, ◌↔◌, ◌⊎◌, ap, sym, subst, ==→eq, ◌∙◌, List, ◌∷◌, ◌++◌, arith, length,
  take-all, ◌==◌,
}
use usbscope.Prelude.Int.{ℤ, pos, negsuc, signed, unsigned}
use usbscope.Prelude.Bytes.{from_le, to_le}
use usbscope.Prelude.Result.{ok, ensure-eq-ok, invalid_metadata_length}
use usbscope.Common.Meta.{EventMeta, MetaInRange, IsI32}
use usbscope.Common.Wire.{Endian, encode_meta}
use usbscope.Common.Wire.Layout.{publish_lem, from_le-to_le}
use usbscope.Capture.Decode.{raw_meta, check_meta, decode_meta}

pub signed-unsigned : (z : ℤ) → IsI32 z → signed 32 (unsigned 32 z) ≡ z
signed-unsigned (pos n) h = ground arith
signed-unsigned (negsuc n) h = ground arith

pub unsigned_lt : (z : ℤ) → unsigned 32 z < 2 ^ 32
unsigned_lt (pos n) = omega arith
unsigned_lt (negsuc n) = omega arith

pub signed-bytes : (z : ℤ) → IsI32 z → signed 32 (from_le (to_le 4 (unsigned 32 z))) ≡ z
signed-bytes z h =
    ap (signed 32) (from_le-to_le 4 (unsigned 32 z) (unsigned_lt z)) ∙ signed-unsigned z h

-- The published bytes, with the byte order of the host gone.
le_meta : EventMeta → List ℕ
le_meta m =
    to_le 8 m.urb_id
    ++ (to_le 8 m.timestamp_ns
        ++ (to_le 2 m.bus
            ++ (m.device
                ∷ m.endpoint
                ∷ m.transfer_type
                ∷ m.event_type
                ∷ m.setup_present
                ∷ m.has_data
                ∷ (to_le 4 (unsigned 32 m.status)
                    ++ (to_le 4 m.requested_len
                        ++ (to_le 4 m.actual_len
                            ++ (to_le 4 m.payload_len
                                ++ (to_le 4 (unsigned 32 m.interval)
                                    ++ (to_le 4 (unsigned 32 m.start_frame)
                                        ++ (to_le 4 m.transfer_flags
                                            ++ (to_le 4 m.iso_count
                                                ++ (to_le 4 (unsigned 32 m.error_count)
                                                    ++ (to_le 2 m.vid
                                                        ++ (to_le 2 m.pid ++ m.setup))))))))))))))

encode_meta-le : (host : Endian) (m : EventMeta) → encode_meta host m ≡ le_meta m
unfolding encode_meta le_meta
encode_meta-le host m = simp publish_lem

pub length-encode_meta :
    (host : Endian) (m : EventMeta) → MetaInRange m → length (encode_meta host m) ≡ 72
unfolding le_meta
length-encode_meta host m fits =
    ap length (encode_meta-le host m) ∙ omega (arith, fits.setup_length)

raw_meta-le : (m : EventMeta) → MetaInRange m → raw_meta (le_meta m) ≡ m
unfolding raw_meta le_meta
raw_meta-le m fits = λ i. record {
  urb_id = from_le-to_le 8 m.urb_id fits.urb_id_u64 i;
  timestamp_ns = from_le-to_le 8 m.timestamp_ns fits.timestamp_u64 i;
  bus = from_le-to_le 2 m.bus fits.bus_u16 i;
  device = m.device;
  endpoint = m.endpoint;
  transfer_type = m.transfer_type;
  event_type = m.event_type;
  setup_present = m.setup_present;
  has_data = m.has_data;
  status = signed-bytes m.status fits.status_i32 i;
  requested_len = from_le-to_le 4 m.requested_len fits.requested_u32 i;
  actual_len = from_le-to_le 4 m.actual_len fits.actual_u32 i;
  payload_len = from_le-to_le 4 m.payload_len fits.payload_u32 i;
  interval = signed-bytes m.interval fits.interval_i32 i;
  start_frame = signed-bytes m.start_frame fits.start_frame_i32 i;
  transfer_flags = from_le-to_le 4 m.transfer_flags fits.flags_u32 i;
  iso_count = from_le-to_le 4 m.iso_count fits.iso_count_u32 i;
  error_count = signed-bytes m.error_count fits.error_count_i32 i;
  vid = from_le-to_le 2 m.vid fits.vid_u16 i;
  pid = from_le-to_le 2 m.pid fits.pid_u16 i;
  setup = take-all 8 m.setup (omega (arith, fits.setup_length)) i;
}

pub raw_meta-encode_meta :
    (host : Endian) (m : EventMeta) → MetaInRange m → raw_meta (encode_meta host m) ≡ m
raw_meta-encode_meta host m fits = ap raw_meta (encode_meta-le host m) ∙ raw_meta-le m fits

-- What decode_meta asks of an event.
pub record MetaIsValid (m : EventMeta) : Type 0 where
  pub known_event : (m.event_type ≡ b'S') ⊎ ((m.event_type ≡ b'C') ⊎ (m.event_type ≡ b'E'))
  pub known_transfer : m.transfer_type ≤ 3
  pub address : m.device ≤ 127
  pub data_flag : m.has_data ≤ 1
  pub setup_flag : m.setup_present ≤ 1
  pub flagged : (m.has_data ≢ 0) ⊎ (m.payload_len ≡ 0)
  pub only_iso : (m.transfer_type ≡ 0) ⊎ (m.iso_count ≡ 0)
  pub span : m.payload_len ≤ m.requested_len

check_meta-ok : (m : EventMeta) → MetaIsValid m → check_meta m ≡ ok m
unfolding check_meta
check_meta-ok m v = ground arith

check_meta-IsValid : (m m' : EventMeta) → check_meta m ≡ ok m' → (m' ≡ m) × MetaIsValid m
unfolding check_meta
check_meta-IsValid m m' h = (ground arith, ground arith)

-- Of the metadata that a host of either byte order publishes, decoding gives back the event exactly
-- if the event passes the checks.
pub decode_meta-encode_meta :
    (host : Endian) (m : EventMeta)
    → MetaInRange m
    → (decode_meta (encode_meta host m) ≡ ok m) ↔ MetaIsValid m
unfolding decode_meta
decode_meta-encode_meta host m fits =
    let size = length-encode_meta host m fits in
    let same = raw_meta-encode_meta host m fits in
    (
      λ h. (check_meta-IsValid m m (rw (size, same) at h)).1,
      λ v. rw (size, same) (check_meta-ok m v),
    )

-- Whatever bytes decode, they are 72, and the event passes the checks.
pub decode_meta-IsValid :
    (b : List ℕ) (m : EventMeta) → decode_meta b ≡ ok m → (length b ≡ 72) × MetaIsValid m
unfolding decode_meta
decode_meta-IsValid b m h =
    let (size, k) =
      ensure-eq-ok (length b == 72) invalid_metadata_length (check_meta (raw_meta b)) h in
    let (e, v) = check_meta-IsValid (raw_meta b) m k in
    (==→eq (length b) 72 size, subst MetaIsValid (sym e) v)
