-- ===== src/Live/Archiving.antt =====
-- src/live.rs with src/main.rs: the records that a capture drains may be archived.
use usbscope.Prelude.{
  ℕ, zero, suc, ◌+◌, ◌≤◌, ◌≡◌, refl, ap, sym, ◌∙◌, arith, &&-eq_true, Option, List, [], ◌∷◌, length,
  length-take, take, drop, leb, leb→le, ◌&&◌, ◌==◌,
}
use usbscope.Prelude.Bytes.{from_le}
use usbscope.Prelude.Result.{
  ok, ensure-eq-ok, >>=-eq-ok, short_kernel_record, invalid_kernel_record_length,
  short_record_header, unsupported_event_abi, invalid_record_size,
}
use usbscope.Capture.Event.{Spool, Event}
use usbscope.Capture.Decode.{u16_at, u32_at}
use usbscope.Capture.Archive.Replay.{Storable}
use usbscope.Capture.Reassembler.State.{Reassembler, Frame, read_frame, max_record_size}
use usbscope.Capture.Reassembler.Push.{push, push_frame}
use usbscope.Live.Drain.{record_of}

take-drop-take :
    (a b n : ℕ) (xs : List ℕ) → a + b ≤ n → take a (drop b (take n xs)) ≡ take a (drop b xs)
take-drop-take zero b n xs h = refl
take-drop-take (suc a) zero zero xs h = absurd (omega (arith, h))
take-drop-take (suc a) zero (suc n) [] h = refl
take-drop-take (suc a) zero (suc n) (x ∷ xs) h =
    ap (λ ys. x ∷ ys) (take-drop-take a zero n xs (omega (arith, h)))
take-drop-take (suc a) (suc b) zero xs h = absurd (omega (arith, h))
take-drop-take (suc a) (suc b) (suc n) [] h = refl
take-drop-take (suc a) (suc b) (suc n) (x ∷ xs) h = take-drop-take (suc a) b n xs (omega (arith, h))

read_frame-size :
    (bytes : List ℕ) (f : Frame) → read_frame bytes ≡ ok f → u32_at bytes 4 ≤ max_record_size
unfolding read_frame
read_frame-size bytes f h =
    let (_, h1) = ensure-eq-ok (leb 24 (length bytes)) short_record_header _ h in
    let (_, h2) = ensure-eq-ok (u16_at bytes 0 == 1) unsupported_event_abi _ h1 in
    let (sizes, _) = ensure-eq-ok _ invalid_record_size _ h2 in
    let (both, _) = &&-eq_true _ _ sizes in
    leb→le _ _ (&&-eq_true (leb 24 (u32_at bytes 4)) _ both).1

-- A record that is drained from an item and that the reassembler accepts says its own length, of at
-- least 24 and at most 16408 bytes.
pub record_of-Storable :
    {S : Spool} (item bytes : List ℕ) (r : Reassembler S) (step : Option (Event S) × Reassembler S)
    → record_of item ≡ ok bytes
    → push r bytes ≡ ok step
    → Storable bytes
unfolding record_of push u32_at
record_of-Storable item bytes r step drained pushed =
    let size = u32_at item 4 in
    let (_, h1) = ensure-eq-ok (leb 24 (length item)) short_kernel_record _ drained in
    let (sizes, h2) =
      ensure-eq-ok (leb 24 size && leb size (length item)) invalid_kernel_record_length _ h1 in
    let (least, most) = &&-eq_true (leb 24 size) (leb size (length item)) sizes in
    let same : take size item ≡ bytes = cc in
    let long : length bytes ≡ size =
      ap length (sym same) ∙ omega (arith, length-take size item, leb→le _ _ most) in
    let kept : u32_at bytes 4 ≡ size =
      ap (λ x. u32_at x 4) (sym same)
      ∙ ap from_le (take-drop-take 4 4 size item (omega (arith, leb→le _ _ least))) in
    let (f, framed, _) = >>=-eq-ok (read_frame bytes) (push_frame r) pushed in
    let fits = read_frame-size bytes f framed in
    record {
      enough = omega (arith, long, leb→le _ _ least);
      few = omega (arith, long, kept, fits);
      named = kept ∙ sym long;
    }
