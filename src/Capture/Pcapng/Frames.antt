-- ===== src/Capture/Pcapng/Frames.antt =====
-- crates/usbscope-capture/src: the frames of blocks that the pcapng writer writes, as the reader
-- reads them.
use usbscope.Prelude.{
  ℕ, suc, ◌+◌, ◌%◌, ◌^◌, ◌<◌, ◌≤◌, ◌≡◌, refl, ap, subst, ◌∙◌, arith, true, false, List, [], ◌∷◌,
  ◌++◌, length, length-append, take, drop, replicate, ltb, leb, lt→ltb, ◌==◌, ==-refl, ◌&&◌, min,
  drop-append_exact, some,
}
use usbscope.Prelude.Int.{pos}
use usbscope.Prelude.Bytes.{to_le}
use usbscope.Prelude.Result.{ok}
use usbscope.Common.Wire.{little}
use usbscope.Common.Wire.Layout.{from_le-to_le}
use usbscope.Capture.Archive.{read_exact}
use usbscope.Capture.Archive.Replay.{read_exact-append}
use usbscope.Capture.Event.{Spool}
use usbscope.Capture.Reassembler.State.{same_bytes}
use usbscope.Capture.Pcapng.Writer.{interface_block, section_block}
use usbscope.Capture.Pcapng.Reader.{
  Reader, Interface, byte_order, endian_uint, endian_u32, skip, footer, read_section,
  read_interface, read_options,
}
use usbscope.Capture.Pcapng.Blocks.{again, read_body, next_block}

pub skip-append : (n : ℕ) (xs ys : List ℕ) → length xs ≡ n → skip n (xs ++ ys) ≡ ok ys
unfolding skip
skip-append n xs ys h =
    let e : (min n (length (xs ++ ys)) == n) ≡ true = ground (arith, h, length-append xs ys) in
    rw e (ap ok (subst (λ k. drop k (xs ++ ys) ≡ ys) h (drop-append_exact xs ys)))

-- A number of four little-endian bytes.
pub u32-to_le : (n : ℕ) (rest : List ℕ) → n < 2 ^ 32 → endian_u32 little (to_le 4 n ++ rest) ≡ n
unfolding endian_uint
u32-to_le n rest h = from_le-to_le 4 n h

pub footer-append :
    (size : ℕ) (rest : List ℕ) → size < 2 ^ 32 → footer little size (to_le 4 size ++ rest) ≡ ok rest
unfolding footer
footer-append size rest h =
    let e = read_exact-append (to_le 4 size) rest in rw (e, u32-to_le size [] h, ==-refl size) refl

-- The first bytes of the head of a block are not those of a section.
no_section : (kind : ℕ) → kind ≤ 6 → same_bytes (to_le 4 kind) (10 ∷ 13 ∷ 13 ∷ 10 ∷ []) ≡ false
unfolding same_bytes
no_section kind h = ground (arith, h)

suc_0 : (n : ℕ) → (suc n == 0) ≡ false
suc_0 n = ground arith

link_type : endian_uint little 2 (220 ∷ 0 ∷ 0 ∷ 0 ∷ 0 ∷ 0 ∷ 0 ∷ 0 ∷ []) ≡ 220
unfolding endian_uint
link_type = refl

-- The interface of a source in what the writer writes.
abbrev pub usb_interface : ℕ → Interface
usb_interface source = record {
  source_id = source;
  linktype = 220;
  units = 1000000;
  offset = pos 0;
}

module _ (S : Spool) (r : Reader) where
  -- A block of a small kind is read as its body.
  pub next_block-body :
      (kind size : ℕ) (body : List ℕ)
      → r.section ≡ true
      → r.endian ≡ little
      → kind ≤ 6
      → 12 ≤ size
      → size < 2 ^ 32
      → size % 4 ≡ 0
      → r.input ≡ to_le 4 kind ++ (to_le 4 size ++ body)
      → next_block S r ≡ read_body S r kind size body
  unfolding next_block
  next_block-body kind size body in_section le small least fits aligned same =
      let some_input : (length r.input == 0) ≡ false =
        ap (λ x. length x == 0) same
        ∙ suc_0 (length (drop 1 (to_le 4 kind ++ (to_le 4 size ++ body)))) in
      let head : read_exact 8 r.input ≡ some (to_le 4 kind ++ to_le 4 size, body) =
        ap (read_exact 8) same ∙ read_exact-append (to_le 4 kind ++ to_le 4 size) body in
      let other = no_section kind small in
      let a = u32-to_le size [] fits in
      let b = u32-to_le kind (to_le 4 size) (omega (arith, small)) in
      let c : (leb 12 size && size % 4 == 0) ≡ true = ground (arith, least, aligned) in
      rw (some_input, head, other, in_section, le, a, b, c) refl

  -- The block of an interface adds the interface.
  pub next_block-interface :
      (rest : List ℕ)
      → r.section ≡ true
      → r.endian ≡ little
      → r.next_source_id + 1 < 2 ^ 64
      → r.input ≡ interface_block ++ rest
      → next_block S r
        ≡ ok (
            again (record r {
              input = rest;
              interfaces = r.interfaces ++ (usb_interface r.next_source_id ∷ []);
              next_source_id = r.next_source_id + 1;
            }))
  unfolding read_body read_interface read_options
  next_block-interface rest in_section le few same =
      let body = (220 ∷ 0 ∷ 0 ∷ 0 ∷ 0 ∷ 0 ∷ 0 ∷ 0 ∷ []) ++ (to_le 4 20 ++ rest) in
      let one =
        next_block-body 1 20 body in_section le (omega arith) (omega arith) (omega arith) refl
          same in
      let taken : read_exact 8 body
          ≡ some (220 ∷ 0 ∷ 0 ∷ 0 ∷ 0 ∷ 0 ∷ 0 ∷ 0 ∷ [], to_le 4 20 ++ rest) =
        read_exact-append (220 ∷ 0 ∷ 0 ∷ 0 ∷ 0 ∷ 0 ∷ 0 ∷ 0 ∷ []) (to_le 4 20 ++ rest) in
      let link : endian_uint little 2 (220 ∷ 0 ∷ 0 ∷ 0 ∷ 0 ∷ 0 ∷ 0 ∷ 0 ∷ []) ≡ 220 = link_type in
      let none_left = skip-append 0 [] (to_le 4 20 ++ rest) refl in
      let id : ltb (r.next_source_id + 1) (2 ^ 64) ≡ true = lt→ltb _ _ few in
      let end = footer-append 20 rest (omega arith) in
      one ∙ rw (le, taken, link, none_left, id, end) refl

  -- The block of a section starts a section anew.
  pub next_block-section :
      (rest : List ℕ)
      → r.input ≡ section_block ++ rest
      → next_block S r
        ≡ ok (
            again (record r {
              input = rest;
              endian = little;
              section = true;
              interfaces = [];
              requested = [];
            }))
  unfolding next_block same_bytes read_section byte_order endian_uint
  next_block-section rest same =
      let magic = 0x4d ∷ 0x3c ∷ 0x2b ∷ 0x1a ∷ [] in
      let version = 1 ∷ 0 ∷ 0 ∷ 0 ∷ [] in
      let gap = replicate 8 255 in
      let behind = gap ++ (to_le 4 28 ++ rest) in
      let some_input : (length r.input == 0) ≡ false =
        ap (λ x. length x == 0) same ∙ suc_0 (length (drop 1 (section_block ++ rest))) in
      let head =
        ap (read_exact 8) same
        ∙ read_exact-append (take 8 section_block) (magic ++ (version ++ behind)) in
      let a = read_exact-append magic (version ++ behind) in
      let b = read_exact-append version behind in
      let c = skip-append 8 gap (to_le 4 28 ++ rest) refl in
      let d = footer-append 28 rest (omega arith) in rw (some_input, head, a, b, c, d) refl
