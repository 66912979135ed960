-- ===== src/Capture/Pcapng/Sound.antt =====
-- crates/usbscope-capture/src/pcapng_read.rs: the parts of a packet block are
-- read to an end, and what is read of them is sound.
use usbscope.Prelude.{
  ℕ, zero, suc, ◌+◌, ◌-◌, ◌*◌, ◌/◌, ◌^◌, ◌<◌, ◌≤◌, ◌≡◌, ◌≢◌, ◌⊎◌, refl, ap, ◌∙◌, arith, true, Bool,
  Bool-cases, inl, inr, List, [], All, length, take, drop, leb, leb→le, ltb, All-imp, ◌==◌, min,
  length-take, length-drop, not, ◌&&◌, ◌||◌, get_elem?,
}
use usbscope.Prelude.Int.{ℤ, pos, negsuc}
use usbscope.Prelude.Result.{
  Yields, yields, Yields-bind, Yields-ensure, Yields-if, Yields-checked, Yields-test,
  Yields-bind-eq, Yields-context,
}
use usbscope.Common.Meta.{EventMeta, IsoDescriptor}
use usbscope.Common.Wire.{Endian}
use usbscope.Capture.Decode.{is_event_type}
use usbscope.Capture.Event.{Spool, overwrite}
use usbscope.Capture.Event.Overwrite.{overwrite_end}
use usbscope.Capture.Submissions.{Submissions}
use usbscope.Capture.Pcapng.Reader.{Reader, endian_u32, padded_to_4}
use usbscope.Capture.Pcapng.Packets.{
  as_u64, packet_time, read_packet, check_spans, pair, read_descriptor, check_descriptor,
  read_descriptors, DetailsRead, read_details, copy_in, is_submission,
}
use usbscope.Capture.Pcapng.Total.{read_exact-Splits}

-- The fields of an event after the checks of its pseudoheader and its lengths.
pub record SpansChecked (m : EventMeta) : Type 0 where
  pub known_event : (m.event_type ≡ b'S') ⊎ ((m.event_type ≡ b'C') ⊎ (m.event_type ≡ b'E'))
  pub known_transfer : m.transfer_type ≤ 3
  pub address : m.device ≤ 127
  pub flagged : (m.has_data ≢ 0) ⊎ (m.payload_len ≡ 0)
  pub only_iso : (m.transfer_type ≡ 0) ⊎ (m.iso_count ≡ 0)
  pub few : m.iso_count * 16 < 2 ^ 32

pub check_spans-Checked :
    (m : EventMeta) (caplen data_len : ℕ) → Yields SpansChecked (check_spans m caplen data_len)
unfolding check_spans
check_spans-Checked m caplen data_len =
    Yields-checked (is_event_type m.event_type && (leb m.transfer_type 3 && leb m.device 127)) _
      refl
      λ a. Yields-ensure _ _ refl (
        Yields-checked (ltb (m.iso_count * 16) (2 ^ 32)) _ refl λ b.
          Yields-checked
            (leb (m.iso_count * 16) data_len && (m.transfer_type == 0 || m.iso_count == 0)) _ refl
            λ c.
              Yields-checked (not (m.has_data == 0) || data_len - m.iso_count * 16 == 0) _ refl λ d.
                yields record {
                  known_event = ground (arith, a);
                  known_transfer = ground (arith, a);
                  address = ground (arith, a);
                  flagged = ground (arith, d);
                  only_iso = ground (arith, c);
                  few = ground (arith, b);
                })

-- The checks hold of metadata with other values in the fields that are read later.
SpansChecked-later :
    (m : EventMeta) (requested actual : ℕ) (errors : ℤ) (setup : List ℕ)
    → SpansChecked m
    → SpansChecked (record m {
      requested_len = requested;
      actual_len = actual;
      error_count = errors;
      setup = setup;
    })
SpansChecked-later m requested actual errors setup c = record {
  known_event = c.known_event;
  known_transfer = c.known_transfer;
  address = c.address;
  flagged = c.flagged;
  only_iso = c.only_iso;
  few = c.few;
}

as_u64-Yields : (t : ℕ) → Yields (λ _. Unit {0}) (as_u64 t)
as_u64-Yields t = Yields-ensure (ltb t (2 ^ 64)) _ refl (yields tt)

packet_time-Yields :
    (ticks units : ℕ) (offset : ℤ) → Yields (λ _. Unit {0}) (packet_time ticks units offset)
packet_time-Yields ticks units (pos offset) =
    as_u64-Yields (ticks * 10 ^ 9 / units + offset * 10 ^ 9)
packet_time-Yields ticks units (negsuc offset) =
    Yields-ensure (leb ((offset + 1) * 10 ^ 9) (ticks * 10 ^ 9 / units)) _ refl
      (as_u64-Yields (ticks * 10 ^ 9 / units - (offset + 1) * 10 ^ 9))

unfoldable pub Behind : {A : Type 0} → ℕ → A × List ℕ → Type 0
Behind n found = length found.1 ≤ n

pub read_packet-Behind :
    (r : Reader) (size : ℕ) (input : List ℕ)
    → Yields (Behind (length input)) (read_packet r size input)
unfolding read_packet Behind
read_packet-Behind r size input = Yields-bind (read_exact-Splits 20 input _ refl) λ packet s.
    Yields-bind (Yields-context (get_elem? r.interfaces (endian_u32 r.endian packet.0)) _ refl)
      λ i _. Yields-ensure _ _ refl (
        Yields-bind
          (packet_time-Yields
            (endian_u32 r.endian (drop 4 packet.0) * 2 ^ 32 + endian_u32 r.endian (drop 8 packet.0))
            i.units i.offset)
          λ t _.
            Yields-ensure (leb (padded_to_4 (endian_u32 r.endian (drop 12 packet.0))) (size - 32)) _
              refl (yields (omega (arith, s.rest))))

pub pair-Checked :
    (requested : Submissions) (source : ℕ) (m : EventMeta) (wire_len : ℕ)
    → SpansChecked m
    → Yields (λ p. SpansChecked p.1) (pair requested source m wire_len)
unfolding pair
pair-Checked requested source m wire_len c =
    Yields-if (is_submission m)
      (Yields-ensure (ltb (length requested) 65536) _ refl
        (yields (SpansChecked-later m wire_len m.actual_len m.error_count m.setup c)))
      (yields (SpansChecked-later m _ wire_len m.error_count m.setup c))

-- A descriptor lies in the buffer, and in the payload where there is one.
pub record Fits (known : Bool) (m : EventMeta) (d : IsoDescriptor) : Type 0 where
  pub in_u32 : d.offset + d.length < 2 ^ 32
  pub in_buffer : known ≡ true → d.offset + d.length ≤ m.requested_len
  pub in_payload : m.has_data ≢ 0 → d.length ≢ 0 → d.offset + d.length ≤ m.payload_len

check_descriptor-Fits :
    (known : Bool) (m : EventMeta) (d : IsoDescriptor)
    → Yields (λ _. Fits known m d) (check_descriptor known m d)
unfolding check_descriptor
check_descriptor-Fits known m d =
    let end = d.offset + d.length in
    Yields-checked (leb end (2 ^ 32 - 1) && (not known || leb end m.requested_len)) _ refl λ a.
      elim (Bool-cases (not (m.has_data == 0) && not (d.length == 0))) [
        | inl b ↦ rw b (
            Yields-test (leb end m.payload_len) _ refl λ c. record {
              in_u32 = ground (arith, a);
              in_buffer = λ k. ground (arith, a, k);
              in_payload = λ h k. leb→le end m.payload_len c;
            })
        | inr b ↦ rw b (
            yields record {
              in_u32 = ground (arith, a);
              in_buffer = λ k. ground (arith, a, k);
              in_payload = λ h k. absurd (ground (arith, b, h, k));
            })
      ]

-- The descriptors that were read, and no more input than there was.
record Described (known : Bool) (m : EventMeta) (n k : ℕ) (found : List IsoDescriptor × List ℕ)
    : Type 0 where
  pub counted : length found.0 ≡ n
  pub fit : All (Fits known m) found.0
  pub behind : Behind k found

read_descriptors-Described :
    (e : Endian) (known : Bool) (m : EventMeta) (n : ℕ) (input : List ℕ)
    → Yields (Described known m n (length input)) (read_descriptors e known m n input)
unfolding read_descriptors Behind
read_descriptors-Described e known m zero input =
    yields record { counted = refl; fit = tt; behind = omega arith }
read_descriptors-Described e known m (suc n) input =
    Yields-bind (read_exact-Splits 16 input _ refl) λ found s.
      Yields-bind (check_descriptor-Fits known m (read_descriptor e found.0)) λ _ fits.
        Yields-bind (read_descriptors-Described e known m n found.1) λ rest t. yields record {
          counted = ap suc t.counted;
          fit = (fits, t.fit);
          behind = omega (arith, s.rest, t.behind);
        }

-- What is known of an event before its payload is read.
pub record DetailsSound (known : Bool) (n : ℕ) (found : DetailsRead) : Type 0 where
  pub spans : SpansChecked found.0
  pub counted : length found.1 ≡ found.0.iso_count
  pub fit : All (Fits known found.0) found.1
  pub behind : length found.2 ≤ n

pub read_details-Sound :
    (e : Endian) (known : Bool) (m : EventMeta) (usb input : List ℕ)
    → SpansChecked m
    → Yields (DetailsSound known (length input)) (read_details e known m usb input)
unfolding read_details Behind
read_details-Sound e known m usb input c = elim (Bool-cases (m.transfer_type == 0)) [
  | inl iso ↦ rw iso (
      Yields-checked (endian_u32 e (drop 44 usb) == m.iso_count) _ refl λ _.
        Yields-bind (read_descriptors-Described e known m m.iso_count input) λ found d.
          yields record {
            spans = SpansChecked-later m m.requested_len m.actual_len _ m.setup c;
            counted = d.counted;
            fit =
                All-imp (Fits known m) _
                  (λ _ f. record {
                    in_u32 = f.in_u32;
                    in_buffer = f.in_buffer;
                    in_payload = f.in_payload;
                  })
                  found.0 d.fit;
            behind = d.behind;
          })
  | inr other ↦
      let no_frames : 0 ≡ m.iso_count = ground (arith, other, c.only_iso) in
      rw other (
        Yields-if (not (m.setup_present == 0))
          (yields record {
            spans =
                SpansChecked-later m m.requested_len m.actual_len m.error_count
                  (take 8 (drop 40 usb)) c;
            counted = no_frames;
            fit = tt;
            behind = omega arith;
          })
          (yields record { spans = c; counted = no_frames; fit = tt; behind = omega arith }))
]

-- A file whose writes end.
unfoldable pub Ending : Spool → Type 0
Ending S = (f : S.File) (off : ℕ) (bs : List ℕ) → Yields (λ _. Unit {0}) (S.write_at f off bs)

-- A file with the bytes that were copied, and what is left of the input.
pub record Copied (S : Spool) (n k : ℕ) (found : S.File × List ℕ) : Type 0 where
  pub payload : length (S.contents found.0) ≡ n
  pub behind : length found.1 ≤ k

pub copy_in-Copied :
    (S : Spool) (n : ℕ) (input : List ℕ)
    → Ending S
    → Yields (Copied S n (length input)) (copy_in S n input)
unfolding copy_in Ending
copy_in-Copied S n input ending = Yields-bind-eq (ending S.empty 0 (take n input)) λ file wrote _.
    Yields-checked (min n (length input) == n) _ refl λ a.
      let held : S.contents file ≡ take n input =
        S.contents-write_at S.empty file 0 (take n input) wrote
        ∙ ap (λ x. overwrite x 0 (take n input)) S.contents-empty
        ∙ overwrite_end [] (take n input) in
      yields record {
        payload = ap length held ∙ length-take n input ∙ ground (arith, a);
        behind = omega (arith, length-drop n input);
      }
