-- ===== src/Capture/Pcapng/Written.antt =====
-- crates/usbscope-capture/src/pcapng.rs: what `write_event` leaves behind.
use usbscope.Prelude.{
  ℕ, ◌+◌, ◌*◌, ◌%◌, ◌^◌, ◌<◌, ◌≡◌, ◌≢◌, refl, ap, sym, subst, ◌∙◌, arith, Bool-cases, Option-cases,
  inl, inr, List, [], ◌++◌, length, take, ltb, ltb→lt, ==→eq, ◌==◌, append_assoc, append-nil,
  if◌then◌else◌, min, Option, none, some,
}
use usbscope.Prelude.Result.{
  ok-injective, too_many_iso_descriptors, iso_descriptor_length_overflow, usb_record_exceeds_format,
  pcapng_block_exceeds_format, payload_shorter_than_span, ok, >>=-eq-ok, ensure-eq-ok,
}
use usbscope.Capture.Event.{Spool, Event}
use usbscope.Capture.Reassembler.State.{find, put}
use usbscope.Capture.Pcapng.Writer.{
  Writer, interface_block, add_interface, use_interface, data_length, copy_out, packet_block,
  write_event,
}
use usbscope.Capture.Pcapng.Packed.{block_length}

-- The interfaces of the sources that were written.
abbrev pub Sources : Type 0
Sources = List (ℕ × ℕ)

abbrev pub found_or : ℕ → Option ℕ → ℕ
found_or n (some i) = i
found_or n none = n

-- The interface of a source, the next free one where it has none.
abbrev pub interface_of : Sources → ℕ → ℕ
interface_of known source = found_or (length known) (find source known)

abbrev pub with_source : Sources → ℕ → Option ℕ → Sources
with_source known source (some i) = known
with_source known source none = put source (length known) known

abbrev pub sources_after : Sources → ℕ → Sources
sources_after known source = with_source known source (find source known)

-- The block that names a new interface; the first is there from the start.
abbrev pub prefix_for : Sources → Option ℕ → List ℕ
prefix_for known (some i) = []
prefix_for known none = if length known == 0 then [] else interface_block

abbrev pub prefix_of : Sources → ℕ → List ℕ
prefix_of known source = prefix_for known (find source known)

pub some-none {ℓ} : {T : Type ℓ} {o : Option T} {v : T} → o ≡ some v → o ≢ none
some-none h k = cc

-- The interface and the writer after it was chosen.
record Chosen (w : Writer) (source : ℕ) (used : ℕ × Writer) : Type 0 where
  pub index : used.0 ≡ interface_of w.interfaces source
  pub room : find source w.interfaces ≡ none → length w.interfaces < 2 ^ 32
  pub output : used.1.output ≡ w.output ++ prefix_of w.interfaces source
  pub bytes : used.1.bytes % 2 ^ 64 ≡ (w.bytes + length (prefix_of w.interfaces source)) % 2 ^ 64
  pub interfaces : used.1.interfaces ≡ sources_after w.interfaces source

no_prefix : (w : Writer) → w.output ≡ w.output ++ []
no_prefix w = sym (append-nil w.output)

add_interface-Chosen :
    (w : Writer) (source : ℕ)
    → find source w.interfaces ≡ none
    → length w.interfaces < 2 ^ 32
    → Chosen w source (length w.interfaces, add_interface w source)
add_interface-Chosen w source e few = elim (Bool-cases (length w.interfaces == 0)) [
  | inl k ↦ record {
    index = rw e refl;
    room = λ _. few;
    output = rw (e, k) (no_prefix w);
    bytes = rw (e, k) (omega arith);
    interfaces = rw e refl;
  }
  | inr k ↦ record {
    index = rw e refl;
    room = λ _. few;
    output = rw (e, k) refl;
    bytes = rw (e, k) (omega arith);
    interfaces = rw e refl;
  }
]

use_interface-Chosen :
    (w : Writer) (source : ℕ) (used : ℕ × Writer)
    → use_interface w source (find source w.interfaces) ≡ ok used
    → Chosen w source used
use_interface-Chosen w source used h = elim (Option-cases (find source w.interfaces)) [
  | inl e ↦
      let (few, k) = ensure-eq-ok _ _ _ (rw e at h) in
      subst (Chosen w source) (ok-injective k) (add_interface-Chosen w source e (ltb→lt _ _ few))
  | inr (i, e) ↦
      let k : ok (i, w) ≡ ok used = rw e at h in
      subst (Chosen w source) (ok-injective k) record {
        index = rw e refl;
        room = λ n. absurd (some-none e n);
        output = rw e (no_prefix w);
        bytes = rw e (omega arith);
        interfaces = rw e refl;
      }
]

copy_out-held :
    (S : Spool) (f : S.File) (n : ℕ) (payload : List ℕ)
    → copy_out S f n ≡ ok payload
    → length payload ≡ n
    → payload ≡ take n (S.contents f)
copy_out-held S f n payload h size =
    let (_, _, k) = >>=-eq-ok (S.seek f 0) _ h in
    let (same, len) = S.read_at-contents f 0 (min n (length (S.contents f))) payload k in
    same ∙ ap (λ k. take k (S.contents f)) (sym len ∙ size)

module _ {S : Spool} where
  -- What was written of an event.
  pub record Wrote (w : Writer) (e : Event S) (w' : Writer) : Type 0 where
    pub payload : List ℕ
    pub held : payload ≡ take e.meta.payload_len (S.contents e.payload)
    pub size : length payload ≡ e.meta.payload_len
    pub small : block_length S e < 2 ^ 32
    pub room : find e.source_id w.interfaces ≡ none → length w.interfaces < 2 ^ 32
    pub output :
        w'.output
        ≡ w.output
          ++ (prefix_of w.interfaces e.source_id
              ++ packet_block (interface_of w.interfaces e.source_id) e payload)
    pub bytes :
        w'.bytes
        ≡ (w.bytes + (length (prefix_of w.interfaces e.source_id) + block_length S e)) % 2 ^ 64
    pub interfaces : w'.interfaces ≡ sources_after w.interfaces e.source_id

  pub write_event-Wrote :
      (w : Writer) (e : Event S) (w' : Writer) → write_event w e ≡ ok w' → Wrote w e w'
  unfolding write_event
  write_event-Wrote w e w' h =
      let (used, a, h) = >>=-eq-ok _ _ h in
      let (_, h) = ensure-eq-ok (ltb (length e.iso) (2 ^ 32)) too_many_iso_descriptors _ h in
      let (_, h) =
        ensure-eq-ok (ltb (16 * length e.iso) (2 ^ 32)) iso_descriptor_length_overflow _ h in
      let (_, h) = ensure-eq-ok (ltb (data_length e) (2 ^ 32)) usb_record_exceeds_format _ h in
      let (_, h) = ensure-eq-ok (ltb (64 + data_length e) (2 ^ 32)) usb_record_exceeds_format _ h in
      let (small, h) =
        ensure-eq-ok (ltb (block_length S e) (2 ^ 32)) pcapng_block_exceeds_format _ h in
      let (payload, copied, h) = >>=-eq-ok _ _ h in
      let (same, h) =
        ensure-eq-ok (length payload == e.meta.payload_len) payload_shorter_than_span _ h in
      let size = ==→eq (length payload) e.meta.payload_len same in
      let c = use_interface-Chosen w e.source_id used a in
      let after = sym (ok-injective h) in
      let block = packet_block (interface_of w.interfaces e.source_id) e payload in
      record {
        payload = payload;
        held = copy_out-held S e.payload e.meta.payload_len payload copied size;
        size = size;
        small = ltb→lt _ _ small;
        room = c.room;
        output =
            ap (λ x. x.output) after
            ∙ ap (λ i. used.1.output ++ packet_block i e payload) c.index
            ∙ ap (λ x. x ++ block) c.output
            ∙ append_assoc w.output (prefix_of w.interfaces e.source_id) block;
        bytes = ap (λ x. x.bytes) after ∙ omega (arith, c.bytes);
        interfaces = ap (λ x. x.interfaces) after ∙ c.interfaces;
      }
