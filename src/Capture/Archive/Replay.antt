-- ===== src/Capture/Archive/Replay.antt =====
-- crates/usbscope-capture/src/lib.rs, the raw archive: what was written is read back, and replays
-- the losses that the kernel counted.
use usbscope.Prelude.{
  ℕ, zero, suc, ◌%◌, ◌^◌, ◌<◌, ◌≤◌, ◌≡◌, refl, ap, sym, subst, ◌∙◌, arith, true, none, some, List,
  [], ◌∷◌, ◌++◌, All, All-append, length, length-append, drop, take-append_exact, drop-append_exact,
  leb, le→leb, ◌==◌, append-nil, append_assoc,
}
use usbscope.Prelude.Bytes.{from_le, to_le}
use usbscope.Prelude.Result.{ok, ◌>>=◌}
use usbscope.Common.Meta.{CaptureStats}
use usbscope.Common.Wire.Layout.{from_le-to_le}
use usbscope.Capture.Decode.{u16_at, u32_at, u64_at}
use usbscope.Capture.Event.{Spool}
use usbscope.Capture.Reassembler.State.{
  same_bytes, Reassembler, max_record_size, saturating_add, read_frame, add_losses,
}
use usbscope.Capture.Reassembler.Push.{push, push_frame}
use usbscope.Capture.Archive.{
  next_record, raw_magic, read_exact, read_raw_header, read_record, read_records, read_archive,
  raw_record, raw_records, summary_record, write_kernel_summary, archive,
}

-- A record that says its own length, as `push` and the drain of the ring ask for.
pub record Storable (bytes : List ℕ) : Type 0 where
  pub enough : 24 ≤ length bytes
  pub few : length bytes ≤ max_record_size
  pub named : u32_at bytes 4 ≡ length bytes

pub read_exact-append : (xs ys : List ℕ) → read_exact (length xs) (xs ++ ys) ≡ some (xs, ys)
unfolding read_exact
read_exact-append xs ys =
    let e : leb (length xs) (length (xs ++ ys)) ≡ true =
      le→leb _ _ (omega (arith, length-append xs ys)) in
    rw (e, take-append_exact xs ys, drop-append_exact xs ys) refl

read_record-raw_record :
    (bytes rest : List ℕ)
    → Storable bytes
    → read_record (raw_record bytes ++ rest) ≡ ok (some (bytes, rest))
unfolding read_record
read_record-raw_record bytes rest s =
    let n = length bytes % 2 ^ 32 in
    let prefix = read_exact-append (drop 1 (to_le 4 n)) (bytes ++ rest) in
    let same : n ≡ length bytes = omega (arith, s.few) in
    let len : from_le (to_le 4 n) ≡ length bytes = from_le-to_le 4 n (omega arith) ∙ same in
    let a : leb 24 (length bytes) ≡ true = le→leb _ _ s.enough in
    let c : leb (length bytes) max_record_size ≡ true = le→leb _ _ s.few in
    let e : (u32_at bytes 4 == length bytes) ≡ true = ground (arith, s.named) in
    rw (prefix, len, a, c, read_exact-append bytes rest, e) refl

read_records-raw_records :
    (records : List (List ℕ)) (fuel : ℕ)
    → All Storable records
    → length (raw_records records) < fuel
    → read_records fuel (raw_records records) ≡ ok records
unfolding read_records raw_records
read_records-raw_records records zero s enough = absurd (omega (arith, enough))
read_records-raw_records [] (suc fuel) s enough = refl
read_records-raw_records (bytes ∷ records) (suc fuel) s enough =
    let one = read_record-raw_record bytes (raw_records records) s.0 in
    let size = length-append (raw_record bytes) (raw_records records) in
    let rest = read_records-raw_records records fuel s.1 (omega (arith, enough, size)) in
    ap (λ x. x >>= next_record (read_records fuel)) one
    ∙ ap (λ x. x >>= λ found. ok (bytes ∷ found)) rest

summary_record-Storable : (c : CaptureStats) → Storable (summary_record c)
unfolding u32_at
summary_record-Storable c = record { enough = omega arith; few = omega arith; named = refl }

raw_records-append :
    (xs ys : List (List ℕ)) → raw_records (xs ++ ys) ≡ raw_records xs ++ raw_records ys
unfolding raw_records
raw_records-append [] ys = refl
raw_records-append (x ∷ xs) ys =
    ap (λ z. raw_record x ++ z) (raw_records-append xs ys)
    ∙ sym (append_assoc (raw_record x) (raw_records xs) (raw_records ys))

-- The archive of records that say their own lengths, each of at least 24 and at most 16408 bytes,
-- with the kernel's counters at its end, is read back as those records and the record of the
-- counters.
pub read_archive-archive :
    (records : List (List ℕ)) (c : CaptureStats)
    → All Storable records
    → read_archive (archive records c) ≡ ok (records ++ (summary_record c ∷ []))
unfolding read_archive read_raw_header archive write_kernel_summary raw_records same_bytes
read_archive-archive records c s =
    let all_of = records ++ (summary_record c ∷ []) in
    let same : raw_records all_of ≡ raw_records records ++ write_kernel_summary c =
      raw_records-append records (summary_record c ∷ [])
      ∙ ap (λ x. raw_records records ++ x) (append-nil (write_kernel_summary c)) in
    let head = read_exact-append raw_magic (raw_records records ++ write_kernel_summary c) in
    let whole =
      read_records-raw_records all_of (suc (length (raw_records all_of)))
        (All-append Storable records (summary_record c ∷ []) s (summary_record-Storable c, tt))
        (omega arith) in
    rw head (subst (λ x. read_records (suc (length x)) x ≡ ok all_of) same whole)

-- The losses among the kernel's counters, added to a counter that stays at its maximum.
abbrev pub with_losses : CaptureStats → ℕ → ℕ
with_losses c losses =
    saturating_add
      (saturating_add (saturating_add (saturating_add losses c.ring_losses) c.read_errors)
        c.unsupported_buffers)
      c.state_errors

-- Counters of 64 bits.
pub record StatsInRange (c : CaptureStats) : Type 0 where
  pub ring_losses_u64 : c.ring_losses < 2 ^ 64
  pub read_errors_u64 : c.read_errors < 2 ^ 64
  pub unsupported_u64 : c.unsupported_buffers < 2 ^ 64
  pub state_errors_u64 : c.state_errors < 2 ^ 64

-- The record of counters of 64 bits delivers no event, leaves the unfinished events as they are, and
-- adds the ring losses, the read errors, the unsupported buffers and the errors of state to the
-- losses that are reported.
pub push-summary_record :
    {S : Spool} (r : Reassembler S) (c : CaptureStats)
    → StatsInRange c
    → push r (summary_record c)
      ≡ ok (
        none,
        record r {
          stats = record (r.stats) { kernel_losses = with_losses c r.stats.kernel_losses };
        },
      )
unfolding push push_frame read_frame add_losses u64_at u16_at u32_at
push-summary_record r c f =
    let a = from_le-to_le 8 c.ring_losses f.ring_losses_u64 in
    let b = from_le-to_le 8 c.read_errors f.read_errors_u64 in
    let d = from_le-to_le 8 c.unsupported_buffers f.unsupported_u64 in
    let e = from_le-to_le 8 c.state_errors f.state_errors_u64 in rw (a, b, d, e) refl
