-- ===== src/Tests/Memory.antt =====
-- A spooled file that is a list of bytes and never fails, and an event over it.
use usbscope.Prelude.{
  ℕ, ◌+◌, ◌≡◌, refl, sym, ap, ◌∙◌, arith, true, Bool-cases, inl, inr, List, [], ◌∷◌, length, take,
  drop, leb, leb→le, length-take, length-drop, if◌then◌else◌,
}
use usbscope.Prelude.Result.{Result, ok, err, io}
use usbscope.Common.Meta.{EventMeta, MetaInRange, default_meta}
use usbscope.Capture.Event.{Spool, Event, overwrite}

abbrev pub read_bytes : List ℕ → ℕ → ℕ → Result (List ℕ)
read_bytes f off n = if leb (off + n) (length f) then ok (take n (drop off f)) else err io

pub read_bytes-contents :
    (f : List ℕ) (off n : ℕ) (bs : List ℕ)
    → read_bytes f off n ≡ ok bs
    → (bs ≡ take n (drop off f)) × (length bs ≡ n)
read_bytes-contents f off n bs h = elim (Bool-cases (leb (off + n) (length f))) [
  | inl e ↦
      let same : take n (drop off f) ≡ bs = ground arith in
      let size : length (take n (drop off f)) ≡ n =
        omega (arith, length-take n (drop off f), length-drop off f, leb→le _ _ e) in
      (sym same, ap length (sym same) ∙ size)
  | inr e ↦ absurd (ground arith)
]

pub write_bytes-contents :
    (f g : List ℕ) (off : ℕ) (bs : List ℕ) → ok (overwrite f off bs) ≡ ok g → g ≡ overwrite f off bs
write_bytes-contents f g off bs h = cc

abbrev pub memory : Spool
memory = record {
  File = List ℕ;
  empty = [];
  seek = λ f off. ok tt;
  read_at = read_bytes;
  write_at = λ f off bs. ok (overwrite f off bs);
  contents = λ f. f;
  contents-empty = refl;
  read_at-contents = read_bytes-contents;
  contents-write_at = write_bytes-contents;
}

-- A bulk IN completion with one byte, on bus 1.
abbrev pub bulk_meta : EventMeta
bulk_meta = record default_meta {
  urb_id = 7;
  timestamp_ns = 5000;
  bus = 1;
  device = 5;
  endpoint = 0x81;
  transfer_type = 3;
  event_type = b'C';
  has_data = 1;
  requested_len = 1;
  actual_len = 1;
  payload_len = 1;
  vid = 0x1234;
}

abbrev pub bulk_event : Event memory
bulk_event = record {
  source_id = 0;
  meta = bulk_meta;
  iso = [];
  payload = 0x61 ∷ [];
  identity_known = true;
  requested_known = true;
}

-- The submission of the same request.
abbrev pub bulk_submit : EventMeta
bulk_submit = record bulk_meta { event_type = b'S'; actual_len = 0; has_data = 0; payload_len = 0 }

pub bulk_submit-InRange : MetaInRange bulk_submit
bulk_submit-InRange = omega arith

pub bulk_meta-InRange : MetaInRange bulk_meta
bulk_meta-InRange = omega arith
