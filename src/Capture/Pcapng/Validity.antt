-- ===== src/Capture/Pcapng/Validity.antt =====
-- crates/usbscope-capture/src/pcapng.rs: the writer's count of its bytes, and its interfaces.
use usbscope.Prelude.{
  ℕ, ◌+◌, ◌*◌, ◌%◌, ◌^◌, ◌≡◌, refl, ap, sym, subst, ◌∙◌, arith, Bool-cases, Option-cases, inl, inr,
  List, [], ◌∷◌, ◌++◌, append-nil, append_assoc, All, length, length-append, length-replicate,
  replicate, ◌==◌, some,
}
use usbscope.Prelude.Bytes.{to_le}
use usbscope.Prelude.Result.{ok-injective, Result, ok, ◌>>=◌, >>=-eq-ok}
use usbscope.Common.Meta.{IsoDescriptor}
use usbscope.Capture.Event.{Spool, Event}
use usbscope.Capture.Reassembler.State.{find}
use usbscope.Capture.Pcapng.Writer.{
  Writer, new_writer, usb_header, descriptor_bytes, data_length, padding_of, packet_block,
  write_event,
}
use usbscope.Capture.Pcapng.Header.{usb_header-length}
use usbscope.Capture.Pcapng.Packed.{block_length}
use usbscope.Capture.Pcapng.Layout.{
  SourcesAreValid, length-put, sources_after-AreValid, Laid, described_of, Laid-prefix_of,
}
use usbscope.Capture.Pcapng.Written.{
  Sources, interface_of, sources_after, prefix_of, Wrote, write_event-Wrote,
}

length-descriptor_bytes :
    (iso : List IsoDescriptor) → length (descriptor_bytes iso) ≡ 16 * length iso
unfolding descriptor_bytes
length-descriptor_bytes [] = refl
length-descriptor_bytes (d ∷ iso) = omega (arith, length-descriptor_bytes iso)

-- The state of a writer whose output is a row of whole blocks, with an interface block for each
-- source it knows, the first one included.
pub record WriterIsValid (S : Spool) (w : Writer) : Type 0 where
  pub counted : w.bytes ≡ length w.output % 2 ^ 64
  pub aligned : length w.output % 4 ≡ 0
  pub sources : SourcesAreValid w.interfaces
  pub blocks : Laid S (described_of w.interfaces) w.output

pub new_writer-IsValid : (S : Spool) → WriterIsValid S new_writer
unfolding find
new_writer-IsValid S = record {
  counted = refl;
  aligned = refl;
  sources = record {
    few = omega arith;
    below = λ s i h. absurd (cc);
    apart = λ s t i h k. absurd (cc);
  };
  blocks = Laid.opened;
}

length-prefix_of : (known : Sources) (s : ℕ) → length (prefix_of known s) % 4 ≡ 0
length-prefix_of known s = elim (Option-cases (find s known)) [
  | inl e ↦ elim (Bool-cases (length known == 0)) [
    | inl k ↦ rw (e, k) refl
    | inr k ↦ rw (e, k) refl
  ]
  | inr (i, e) ↦ rw e refl
]

module _ {S : Spool} where
  pub length-packet_block :
      (interface : ℕ) (e : Event S) (payload : List ℕ)
      → length e.meta.setup ≡ 8
      → length payload ≡ e.meta.payload_len
      → length (packet_block interface e payload) ≡ block_length S e
  unfolding packet_block
  length-packet_block interface e payload setup size =
      let n = data_length e in
      let pad : List ℕ = replicate (padding_of (64 + n)) 0 in
      let tail = to_le 4 (block_length S e) in
      omega (
        arith,
        length-append (usb_header e.meta n) (descriptor_bytes e.iso ++ (payload ++ (pad ++ tail))),
        length-append (descriptor_bytes e.iso) (payload ++ (pad ++ tail)),
        length-append payload (pad ++ tail),
        length-append pad tail,
        usb_header-length e.meta n setup,
        length-descriptor_bytes e.iso,
        length-replicate {A = ℕ} (padding_of (64 + n)) 0,
        size,
      )

  append_block :
      (known : Sources) (e : Event S) (output payload : List ℕ)
      → SourcesAreValid (sources_after known e.source_id)
      → find e.source_id (sources_after known e.source_id) ≡ some (interface_of known e.source_id)
      → Laid S (described_of known) output
      → Laid S (described_of (sources_after known e.source_id)) (
          (output ++ prefix_of known e.source_id)
          ++ packet_block (interface_of known e.source_id) e payload)
  append_block known e output payload after named l =
      Laid.stored _ _ (interface_of known e.source_id) e payload
        (ground (arith, after.below e.source_id (interface_of known e.source_id) named))
        (Laid-prefix_of S known e.source_id output (length-put e.source_id (length known) known) l)

  pub Wrote-IsValid :
      (w w' : Writer) (e : Event S)
      → length e.meta.setup ≡ 8
      → WriterIsValid S w
      → Wrote w e w'
      → WriterIsValid S w'
  Wrote-IsValid w w' e setup v d =
      let prefix = prefix_of w.interfaces e.source_id in
      let block = packet_block (interface_of w.interfaces e.source_id) e d.payload in
      let size =
        length-packet_block (interface_of w.interfaces e.source_id) e d.payload setup d.size in
      let total : length w'.output ≡ length w.output + (length prefix + block_length S e) =
        ap length d.output
        ∙ omega
            (arith, length-append w.output (prefix ++ block), length-append prefix block, size) in
      let (after, named) = sources_after-AreValid w.interfaces e.source_id v.sources d.room in
      let blocks = append_block w.interfaces e w.output d.payload after named v.blocks in
      record {
        counted = omega (arith, d.bytes, v.counted, total);
        aligned = omega (arith, v.aligned, total, length-prefix_of w.interfaces e.source_id);
        sources = subst SourcesAreValid (sym d.interfaces) after;
        blocks =
            subst (λ k. Laid S (described_of k) w'.output) (sym d.interfaces)
              (subst (Laid S (described_of (sources_after w.interfaces e.source_id)))
                (append_assoc w.output prefix block ∙ sym d.output) blocks);
      }

  -- A run of write_event.
  unfoldable pub write_events : Writer → List (Event S) → Result Writer
  write_events w [] = ok w
  write_events w (e ∷ es) = write_event w e >>= λ w'. write_events w' es

  -- After a run of events whose setup packets have eight bytes, from a valid writer and without an
  -- error: the number of bytes that the writer reports is the length of its output, modulo 2 ^ 64;
  -- the output, to which the run only appended, is a multiple of four bytes long; it consists of a
  -- section and an interface block, followed by interface blocks and packets, where every packet
  -- names an interface whose block stands before it; there are as many interface blocks as sources,
  -- or one where there are none; no two sources share an interface, and there are at most 2 ^ 32 of them.
  pub write_events-IsValid :
      (w w' : Writer) (es : List (Event S))
      → All (λ e. length e.meta.setup ≡ 8) es
      → WriterIsValid S w
      → write_events w es ≡ ok w'
      → WriterIsValid S w' × ((added : List ℕ) × (w'.output ≡ w.output ++ added))
  unfolding write_events
  write_events-IsValid w w' [] setups v h =
      let same : w ≡ w' = ok-injective h in
      (
        subst (WriterIsValid S) same v,
        ([], sym (ap (λ x. x.output) same) ∙ sym (append-nil w.output)),
      )
  write_events-IsValid w w' (e ∷ es) setups v h =
      let (w₁, one, more) = >>=-eq-ok (write_event w e) (λ x. write_events x es) h in
      let d = write_event-Wrote w e w₁ one in
      let (v', (added, rest)) =
        write_events-IsValid w₁ w' es setups.1 (Wrote-IsValid w w₁ e setups.0 v d) more in
      let first =
        prefix_of w.interfaces e.source_id
        ++ packet_block (interface_of w.interfaces e.source_id) e d.payload in
      (
        v',
        (first ++ added, rest ∙ ap (λ x. x ++ added) d.output ∙ append_assoc w.output first added),
      )
