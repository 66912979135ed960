-- ===== src/Capture/Pcapng/RoundTrip.antt =====
-- crates/usbscope-capture/src/pcapng.rs and pcapng_read.rs: what was written is read back.
use usbscope.Prelude.{
  ℕ, zero, suc, ◌+◌, ◌*◌, ◌^◌, ◌<◌, ◌≤◌, ◌≡◌, ◌≢◌, refl, ap, sym, ◌∙◌, arith, Bool-cases,
  Option-cases, inl, inr, true, List, [], ◌∷◌, ◌++◌, length, get_elem?, ◌==◌, ==→eq, ==→ne, none,
  some, max,
}
use usbscope.Prelude.Result.{ok, ◌>>=◌}
use usbscope.Capture.Event.{Spool, Event}
use usbscope.Capture.Reassembler.State.{find, put}
use usbscope.Capture.Pcapng.Writer.{interface_block}
use usbscope.Capture.Pcapng.Reader.{Reader, Interface}
use usbscope.Capture.Pcapng.Blocks.{ended, again, found, next_block, continue, read_blocks}
use usbscope.Capture.Pcapng.Frames.{usb_interface, next_block-interface}
use usbscope.Capture.Pcapng.Packed.{InSection}
use usbscope.Capture.Pcapng.Written.{Sources, sources_after, prefix_of}
use usbscope.Capture.Pcapng.Layout.{length-put}

-- The interfaces that a capture has after the first n sources.
unfoldable pub numbered : ℕ → ℕ → List Interface
numbered k zero = []
numbered k (suc n) = usb_interface k ∷ numbered (k + 1) n

pub numbered-get : (k n i : ℕ) → i < n → get_elem? (numbered k n) i ≡ some (usb_interface (k + i))
unfolding numbered
numbered-get k zero i h = absurd (omega (arith, h))
numbered-get k (suc n) zero h = ap (λ x. some (usb_interface x)) (omega arith)
numbered-get k (suc n) (suc i) h =
    numbered-get (k + 1) n i (omega (arith, h)) ∙ ap (λ x. some (usb_interface x)) (omega arith)

numbered-suc : (k n : ℕ) → numbered k n ++ (usb_interface (k + n) ∷ []) ≡ numbered k (suc n)
unfolding numbered
numbered-suc k zero = ap (λ x. usb_interface x ∷ []) (omega arith)
numbered-suc k (suc n) =
    ap (λ x. usb_interface k ∷ (numbered (k + 1) n ++ (usb_interface x ∷ []))) (omega arith)
    ∙ ap (λ x. usb_interface k ∷ x) (numbered-suc (k + 1) n)

-- The first interface is there before its source.
abbrev pub count_of : Sources → ℕ
count_of known = max 1 (length known)

module _ (S : Spool) where
  -- A reader that has read what a writer with these sources wrote.
  pub record InStep (known : Sources) (r : Reader) : Type 0 where
    pub in_section : InSection S r
    pub interfaces : r.interfaces ≡ numbered 0 (count_of known)
    pub next : r.next_source_id ≡ count_of known

  -- A number of blocks that hold no event.
  pub data Skips : ℕ → Reader → Reader → Type 0 where
    here : {r : Reader} → Skips 0 r r
    over :
        {n : ℕ} {r r' r'' : Reader}
        → next_block S r ≡ ok (again r')
        → Skips n r' r''
        → Skips (suc n) r r''

  pub read_blocks-found :
      {n : ℕ} {r r' r'' : Reader} (fuel : ℕ) (e : Event S)
      → n < fuel
      → Skips n r r'
      → next_block S r' ≡ ok (found e r'')
      → read_blocks S fuel r ≡ ok (some e, r'')
  unfolding read_blocks
  read_blocks-found zero e h s k = absurd (omega (arith, h))
  read_blocks-found (suc fuel) e h here k = ap (λ x. x >>= continue S (read_blocks S fuel)) k
  read_blocks-found (suc fuel) e h (over {n} one s) k =
      ap (λ x. x >>= continue S (read_blocks S fuel)) one
      ∙ read_blocks-found fuel e (omega (arith, h)) s k

  pub read_blocks-ended :
      {n : ℕ} {r r' r'' : Reader} (fuel : ℕ)
      → n < fuel
      → Skips n r r'
      → next_block S r' ≡ ok (ended r'')
      → read_blocks S fuel r ≡ ok (none, r'')
  unfolding read_blocks
  read_blocks-ended zero h s k = absurd (omega (arith, h))
  read_blocks-ended (suc fuel) h here k = ap (λ x. x >>= continue S (read_blocks S fuel)) k
  read_blocks-ended (suc fuel) h (over {n} one s) k =
      ap (λ x. x >>= continue S (read_blocks S fuel)) one
      ∙ read_blocks-ended fuel (omega (arith, h)) s k

  -- At the end of the input there is no block.
  pub next_block-end : (r : Reader) → r.input ≡ [] → next_block S r ≡ ok (ended r)
  unfolding next_block
  next_block-end r h = let e : (length r.input == 0) ≡ true = ap (λ x. length x == 0) h in rw e refl

  InStep-count :
      (known later : Sources) (r : Reader)
      → count_of known ≡ count_of later
      → InStep known r
      → InStep later r
  InStep-count known later r same s = record {
    in_section = s.in_section;
    interfaces = s.interfaces ∙ ap (numbered 0) same;
    next = s.next ∙ same;
  }

  -- The reader behind the block of a new interface, where there is one.
  pub record Skipped (known : Sources) (source : ℕ) (r : Reader) (rest : List ℕ) : Type 0 where
    pub blocks : ℕ
    pub reader : Reader
    pub few : 8 * blocks ≤ length (prefix_of known source)
    pub skips : Skips blocks r reader
    pub in_step : InStep (sources_after known source) reader
    pub input : reader.input ≡ rest
    pub requested : reader.requested ≡ r.requested

  no_block :
      (known : Sources) (source : ℕ) (r : Reader) (rest : List ℕ)
      → prefix_of known source ≡ []
      → count_of known ≡ count_of (sources_after known source)
      → InStep known r
      → r.input ≡ prefix_of known source ++ rest
      → Skipped known source r rest
  no_block known source r rest empty count s same = record {
    blocks = 0;
    reader = r;
    few = omega arith;
    skips = here;
    in_step = InStep-count known (sources_after known source) r count s;
    input = same ∙ ap (λ x. x ++ rest) empty;
    requested = refl;
  }

  pub skip_prefix :
      (known : Sources) (source : ℕ) (r : Reader) (rest : List ℕ)
      → InStep known r
      → (find source known ≡ none → length known < 2 ^ 32)
      → r.input ≡ prefix_of known source ++ rest
      → Skipped known source r rest
  skip_prefix known source r rest s room same = elim (Option-cases (find source known)) [
    | inl e ↦
        let after : sources_after known source ≡ put source (length known) known = rw e refl in
        let size : length (sources_after known source) ≡ suc (length known) =
          ap length after ∙ length-put source (length known) known e in
        elim (Bool-cases (length known == 0)) [
          | inl k ↦
              let n : length known ≡ 0 = ==→eq _ _ k in
              no_block known source r rest (rw (e, k) refl) (omega (arith, size, n)) s same
          | inr k ↦
              let some_known : length known ≢ 0 = ==→ne _ _ k in
              let prefix : prefix_of known source ≡ interface_block = rw (e, k) refl in
              let more : suc (count_of known) ≡ count_of (sources_after known source) =
                omega (arith, size, some_known) in
              record {
                blocks = 1;
                reader = record r {
                  input = rest;
                  interfaces = r.interfaces ++ (usb_interface r.next_source_id ∷ []);
                  next_source_id = r.next_source_id + 1;
                };
                few = omega (arith, ap length prefix);
                skips =
                    over
                      (next_block-interface S r rest s.in_section.section s.in_section.little_endian
                        (omega (arith, s.next, room e)) (same ∙ ap (λ x. x ++ rest) prefix))
                      here;
                in_step = record {
                  in_section = record {
                    section = s.in_section.section;
                    little_endian = s.in_section.little_endian;
                  };
                  interfaces =
                      ap (λ x. x ++ (usb_interface r.next_source_id ∷ [])) s.interfaces
                      ∙ ap (λ x. numbered 0 (count_of known) ++ (usb_interface x ∷ []))
                          (s.next ∙ omega arith)
                      ∙ numbered-suc 0 (count_of known)
                      ∙ ap (numbered 0) more;
                  next = omega (arith, s.next, more);
                };
                input = refl;
                requested = refl;
              }
        ]
    | inr (i, e) ↦
        let after : sources_after known source ≡ known = rw e refl in
        no_block known source r rest (rw e refl) (ap count_of (sym after)) s same
  ]
