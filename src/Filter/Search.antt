-- ===== src/Filter/Search.antt =====
-- crates/usbscope-capture/src/filter.rs, `contains`: the streaming search of a byte pattern in the
-- payload, by the table of Knuth, Morris and Pratt.
use usbscope.Prelude.{
  ℕ, zero, suc, ◌+◌, ◌-◌, min, Bool, true, false, not, ◌&&◌, List, [], ◌∷◌, map, length, get_or,
  set, replicate, ◌==◌, if◌then◌else◌,
}
use usbscope.Prelude.Result.{Result, ok, ◌>>=◌, ◌>>◌}
use usbscope.Common.Meta.{IsoDescriptor}
use usbscope.Capture.Event.{Spool, Event}

-- while matched != 0 && byte != needle[matched] { matched = prefix[matched - 1] }
-- The entries of the table are smaller than their places, so `matched` rounds are enough.
unfoldable pub fall : ℕ → List ℕ → List ℕ → ℕ → ℕ → ℕ
fall zero needle prefix byte matched = matched
fall (suc rounds) needle prefix byte matched =
    let rest = fall rounds needle prefix byte (get_or prefix (matched - 1) 0) in
    if not (matched == 0) && not (byte == get_or needle matched 0) then rest else matched

-- One byte: fall back, then extend if the byte fits.
unfoldable pub advance : List ℕ → List ℕ → ℕ → ℕ → ℕ
advance needle prefix matched byte =
    let m = fall matched needle prefix byte matched in
    if byte == get_or needle m 0 then m + 1 else m

-- for i in 1..needle.len()
unfoldable pub fill : ℕ → List ℕ → ℕ → ℕ → List ℕ → List ℕ
fill zero needle i matched prefix = prefix
fill (suc rounds) needle i matched prefix =
    let m = advance needle prefix matched (get_or needle i 0) in
    fill rounds needle (i + 1) m (set prefix i m)

unfoldable pub prefix_table : List ℕ → List ℕ
prefix_table needle = fill (length needle - 1) needle 1 0 (replicate (length needle) 0)

-- The state after some bytes: the whole pattern was seen, or so much of it is matched.
pub data Scan : Type 0 where
  found : Scan
  at : ℕ → Scan

-- for byte in &buffer[..n]
unfoldable pub scan : List ℕ → List ℕ → ℕ → List ℕ → Scan
scan needle prefix matched [] = at matched
scan needle prefix matched (byte ∷ bytes) =
    let m = advance needle prefix matched byte in
    let rest = scan needle prefix m bytes in if m == length needle then found else rest

abbrev pub buffer_len : ℕ
buffer_len = 16384

abbrev pub is_found : Scan → Bool
is_found found = true
is_found (at m) = false

module _ (S : Spool) (file : S.File) (needle prefix : List ℕ) where
  -- while length != 0, with a round for each byte at most
  unfoldable pub scan_chunks : ℕ → ℕ → ℕ → ℕ → Result Scan
  scan_chunks zero offset left matched = ok (at matched)
  scan_chunks (suc rounds) offset left matched =
      let n = min left buffer_len in
      let rest : Result Scan = (do
        bytes ← S.read_at file offset n
        elim (scan needle prefix matched bytes) [
          | found ↦ ok found
          | at m ↦ scan_chunks rounds (offset + n) (left - n) m
        ]) in
      if left == 0 then ok (at matched) else rest

  -- for (offset, mut length) in ranges
  unfoldable pub scan_ranges : List (ℕ × ℕ) → Result Bool
  scan_ranges [] = ok false
  scan_ranges ((offset, left) ∷ ranges) =
      let rest = scan_ranges ranges in
      S.seek file offset
      >> (scan_chunks left offset left 0 >>= λ s. if is_found s then ok true else rest)

-- The ISO frames one by one, so that padding is not searched; or the whole payload.
unfoldable pub search_ranges : {S : Spool} → Event S → List (ℕ × ℕ)
search_ranges event =
    if event.meta.transfer_type == 0
    then map (λ (d : IsoDescriptor). (d.offset, d.length)) event.iso
    else (0, event.meta.payload_len) ∷ []

unfoldable pub contains_bytes : {S : Spool} → Event S → List ℕ → Result Bool
unfolding search_ranges
contains_bytes {S} event needle =
    scan_ranges S event.payload needle (prefix_table needle) (search_ranges event)
