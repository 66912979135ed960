-- ===== src/Capture/Pcapng/Records.antt =====
-- crates/usbscope-capture/src: the parts of a packet that the pcapng writer writes, as the reader
-- reads them.
use usbscope.Prelude.{
  ℕ, ◌+◌, ◌-◌, ◌*◌, ◌^◌, ◌<◌, ◌≤◌, ◌≡◌, ◌⊎◌, refl, ap, sym, subst, ◌∙◌, arith, Bool, true, not,
  ◌&&◌, ◌||◌, List, [], ◌∷◌, ◌++◌, All, length, length_0, length-append, take, take-append_exact,
  drop-append_exact, drop, replicate, ltb, leb, lt→ltb, le→leb, ◌==◌, ==-refl, if◌then◌else◌,
  Bool-cases, inl, inr, Option, min,
}
use usbscope.Prelude.Int.{pos, unsigned}
use usbscope.Prelude.Bytes.{to_le}
use usbscope.Prelude.Result.{ok}
use usbscope.Common.Meta.{EventMeta, IsoDescriptor, IsoInRange}
use usbscope.Common.Wire.{little}
use usbscope.Common.Wire.Layout.{from_le-to_le}
use usbscope.Capture.Archive.Replay.{read_exact-append}
use usbscope.Capture.Decode.{is_event_type}
use usbscope.Capture.Decode.RoundTrip.{MetaIsValid, signed-bytes}
use usbscope.Capture.Event.{Spool, Reliable, overwrite}
use usbscope.Capture.Event.Overwrite.{overwrite_end}
use usbscope.Capture.Submissions.{Submissions, request_of, add_request, take_request}
use usbscope.Capture.Pcapng.Writer.{urb_len, descriptor_bytes, setup_or_iso}
use usbscope.Capture.Pcapng.Reader.{endian_uint}
use usbscope.Capture.Pcapng.Packets.{
  check_spans, is_submission, is_requested, unwrap_or_0, pair, read_descriptor, check_descriptor,
  read_descriptors, read_details, copy_in,
}
use usbscope.Capture.Pcapng.Header.{told, HeaderReads}
use usbscope.Capture.Pcapng.Sound.{Fits}

-- With the length of the payload.
abbrev pub spanned : ℕ → EventMeta → EventMeta
spanned time m = record (told time m) { payload_len = m.payload_len }

-- With the lengths of the transfer, where a completion has the length of its submission.
abbrev pub paired_meta : ℕ → Option ℕ → EventMeta → EventMeta
paired_meta time request m = record (spanned time m) {
  requested_len = if is_submission m then m.requested_len else unwrap_or_0 request;
  actual_len = if is_submission m then 0 else m.actual_len;
}

-- With the setup packet or the number of errors: what a capture tells of an event.
abbrev pub retold : ℕ → Option ℕ → EventMeta → EventMeta
retold time request m = record (paired_meta time request m) {
  error_count = if m.transfer_type == 0 then m.error_count else pos 0;
  setup =
      if m.transfer_type == 0
      then replicate 8 0
      else (if not (m.setup_present == 0) then m.setup else replicate 8 0);
}

abbrev pub request_known : Option ℕ → EventMeta → Bool
request_known request m = is_submission m || is_requested request

-- The submissions that are left.
abbrev pub requests_after : ℕ → EventMeta → Submissions → Submissions
requests_after source m requested =
    if is_submission m
    then add_request (source, m.urb_id) m.requested_len requested
    else take_request (source, m.urb_id) requested

pub check_spans-told :
    (time n : ℕ) (m : EventMeta)
    → MetaIsValid m
    → n ≡ 16 * m.iso_count + m.payload_len
    → n < 2 ^ 32
    → check_spans (told time m) (64 + n) n ≡ ok (spanned time m)
unfolding check_spans
check_spans-told time n m v same small =
    let a : (is_event_type m.event_type && (leb m.transfer_type 3 && leb m.device 127)) ≡ true =
      ground (arith, v.known_event, v.known_transfer, v.address) in
    let b : (n == (64 + n - 64)) ≡ true = ground arith in
    let c : ltb (m.iso_count * 16) (2 ^ 32) ≡ true = ground (arith, same, small) in
    let d : (leb (m.iso_count * 16) n && (m.transfer_type == 0 || m.iso_count == 0)) ≡ true =
      ground (arith, same, v.only_iso) in
    let rest : n - m.iso_count * 16 ≡ m.payload_len = omega (arith, same) in
    let f : (not (m.has_data == 0) || m.payload_len == 0) ≡ true = ground (arith, v.flagged) in
    rw (a, b, c, d, rest, f) refl

pub pair-spanned :
    (time source : ℕ) (request : Option ℕ) (m : EventMeta) (requested : Submissions)
    → (is_submission m ≡ true → length requested < 65536)
    → request_of (source, m.urb_id) requested ≡ request
    → pair requested source (spanned time m) (urb_len m)
      ≡ ok (request_known request m, paired_meta time request m, requests_after source m requested)
unfolding pair
pair-spanned time source request m requested room found = elim (Bool-cases (is_submission m)) [
  | inl e ↦ let few : ltb (length requested) 65536 ≡ true = lt→ltb _ _ (room e) in rw (e, few) refl
  | inr e ↦ rw (e, found) refl
]

-- The descriptor of a frame.
abbrev one_descriptor : IsoDescriptor → List ℕ
one_descriptor d =
    to_le 4 (unsigned 32 d.status) ++ (to_le 4 d.offset ++ (to_le 4 d.length ++ to_le 4 0))

-- A descriptor whose fields are in range and that has no padding.
pub record Plain (d : IsoDescriptor) : Type 0 where
  pub in_range : IsoInRange d
  pub unpadded : d.padding ≡ 0

read_descriptor-one : (d : IsoDescriptor) → Plain d → read_descriptor little (one_descriptor d) ≡ d
unfolding read_descriptor endian_uint
read_descriptor-one d p = λ i. record {
  status = signed-bytes d.status p.in_range.status_i32 i;
  offset = from_le-to_le 4 d.offset p.in_range.offset_u32 i;
  length = from_le-to_le 4 d.length p.in_range.length_u32 i;
  padding = sym p.unpadded i;
}

check_descriptor-ok :
    (known : Bool) (m : EventMeta) (d : IsoDescriptor)
    → Fits known m d
    → check_descriptor known m d ≡ ok tt
unfolding check_descriptor
check_descriptor-ok known m d f =
    let end = d.offset + d.length in
    let a : (leb end (2 ^ 32 - 1) && (not known || leb end m.requested_len)) ≡ true =
      elim (Bool-cases known) [
        | inl k ↦ ground (arith, k, f.in_u32, f.in_buffer k)
        | inr k ↦ ground (arith, k, f.in_u32)
      ] in
    elim (Bool-cases (not (m.has_data == 0) && not (d.length == 0))) [
      | inl b ↦
          let within : end ≤ m.payload_len = f.in_payload (ground (arith, b)) (ground (arith, b)) in
          let c : leb end m.payload_len ≡ true = le→leb _ _ within in rw (a, b, c) refl
      | inr b ↦ rw (a, b) refl
    ]

read_descriptors-bytes :
    (known : Bool) (m : EventMeta) (iso : List IsoDescriptor) (rest : List ℕ)
    → All Plain iso
    → All (Fits known m) iso
    → read_descriptors little known m (length iso) (descriptor_bytes iso ++ rest) ≡ ok (iso, rest)
unfolding read_descriptors descriptor_bytes
read_descriptors-bytes known m [] rest p f = refl
read_descriptors-bytes known m (d ∷ iso) rest p f =
    let one = read_exact-append (one_descriptor d) (descriptor_bytes iso ++ rest) in
    let same = read_descriptor-one d p.0 in
    let fits : check_descriptor known m (read_descriptor little (one_descriptor d)) ≡ ok tt =
      subst (λ x. check_descriptor known m x ≡ ok tt) (sym same)
        (check_descriptor-ok known m d f.0) in
    let more = read_descriptors-bytes known m iso rest p.1 f.1 in
    rw (one, fits, more) (ap (λ x. ok (x ∷ iso, rest)) same)

-- The details of a packet: the descriptors and the bytes 40 to 48 of its pseudoheader.
pub read_details-written :
    (time n : ℕ) (request : Option ℕ) (m : EventMeta) (iso : List IsoDescriptor) (usb rest : List ℕ)
    → HeaderReads m n time usb
    → (m.transfer_type ≡ 0) ⊎ (m.iso_count ≡ 0)
    → length iso ≡ m.iso_count
    → All Plain iso
    → All (Fits (request_known request m) (paired_meta time request m)) iso
    → read_details little
        (request_known request m)
        (paired_meta time request m)
        usb
        (descriptor_bytes iso ++ rest)
      ≡ ok (retold time request m, iso, rest)
unfolding read_details descriptor_bytes
read_details-written time n request m iso usb rest h only_iso counted plain fit =
    elim (Bool-cases (m.transfer_type == 0)) [
      | inl e ↦
          let zero_type : m.transfer_type ≡ 0 = ground (arith, e) in
          let a : (m.iso_count == m.iso_count) ≡ true = ==-refl m.iso_count in
          let more =
            subst
              (λ k.
                read_descriptors little (request_known request m) (paired_meta time request m) k
                  (descriptor_bytes iso ++ rest)
                ≡ ok (iso, rest))
              counted
              (read_descriptors-bytes (request_known request m) (paired_meta time request m) iso
                rest plain fit) in
          rw (e, h.count zero_type, a, more, h.errors zero_type) refl
      | inr e ↦
          let no_frames : iso ≡ [] = length_0 iso (ground (arith, e, only_iso, counted)) in
          elim (Bool-cases (not (m.setup_present == 0))) [
            | inl k ↦
                let chosen : setup_or_iso m ≡ m.setup = rw (e, k) refl in
                let setup : take 8 (drop 40 usb) ≡ m.setup = h.setup ∙ chosen in
                rw (e, k, setup, no_frames) refl
            | inr k ↦ rw (e, k, no_frames) refl
          ]
    ]

pub copy_in-append :
    (S : Spool) (n : ℕ) (payload rest : List ℕ)
    → Reliable S
    → length payload ≡ n
    → (f : S.File) × (copy_in S n (payload ++ rest) ≡ ok (f, rest)) × (S.contents f ≡ payload)
unfolding copy_in
copy_in-append S n payload rest reliable size =
    let taken : take n (payload ++ rest) ≡ payload =
      subst (λ k. take k (payload ++ rest) ≡ payload) size (take-append_exact payload rest) in
    let dropped : drop n (payload ++ rest) ≡ rest =
      subst (λ k. drop k (payload ++ rest) ≡ rest) size (drop-append_exact payload rest) in
    let (f, wrote) = reliable.writes S.empty 0 payload in
    let all_of : (min n (length (payload ++ rest)) == n) ≡ true =
      ground (arith, size, length-append payload rest) in
    (
      f,
      rw (taken, wrote, all_of, dropped) refl,
      S.contents-write_at S.empty f 0 payload wrote
          ∙ ap (λ x. overwrite x 0 payload) S.contents-empty
          ∙ overwrite_end [] payload,
    )
