-- ===== src/Capture/Archive.antt =====
-- crates/usbscope-capture/src/lib.rs, the raw archive: `read_raw_header`, `read_record` and
-- `write_kernel_summary`, with the part of src/main.rs that writes records and reads them back. A
-- reader is the list of the bytes that are left of its file, whose reads do not fail otherwise.
pub mod Replay
use usbscope.Prelude.{
  ℕ, zero, suc, ◌+◌, ◌%◌, ◌^◌, ◌&&◌, Option, none, some, List, [], ◌∷◌, ◌++◌, length, take, drop,
  replicate, leb, ◌==◌, if◌then◌else◌,
}
use usbscope.Prelude.Bytes.{from_le, to_le}
use usbscope.Prelude.Result.{
  Result, ok, err, ensure, context, ◌>>◌, ◌>>=◌, out_of_fuel, io, not_an_archive, truncated_length,
  invalid_archive_length, truncated_record, lengths_disagree,
}
use usbscope.Common.Meta.{CaptureStats, abi_version, record_stats}
use usbscope.Capture.Decode.{u32_at}
use usbscope.Capture.Reassembler.State.{max_record_size, same_bytes}

-- RAW_MAGIC
abbrev pub raw_magic : List ℕ
raw_magic = b'U' ∷ b'S' ∷ b'B' ∷ b'S' ∷ b'C' ∷ b'P' ∷ 0 ∷ 1 ∷ []

-- Read::read_exact: what is read, and what is left
unfoldable pub read_exact : ℕ → List ℕ → Option (List ℕ × List ℕ)
read_exact n bytes = if leb n (length bytes) then some (take n bytes, drop n bytes) else none

-- read_raw_header
unfoldable pub read_raw_header : List ℕ → Result (List ℕ)
unfolding read_exact
read_raw_header bytes = do
  magic ← context (read_exact 8 bytes) io
  ensure (same_bytes magic.0 raw_magic) not_an_archive
  ok magic.1

-- read_record: the record and what is left, or none at the end
unfoldable pub read_record : List ℕ → Result (Option (List ℕ × List ℕ))
unfolding read_exact
read_record [] = ok none
read_record (b ∷ bytes) = do
  prefix ← context (read_exact 3 bytes) truncated_length
  let len = from_le (b ∷ prefix.0)
  ensure (leb 24 len && leb len max_record_size) invalid_archive_length
  body ← context (read_exact len prefix.1) truncated_record
  ensure (u32_at body.0 4 == len) lengths_disagree
  ok (some body)

abbrev pub next_record :
    (List ℕ → Result (List (List ℕ))) → Option (List ℕ × List ℕ) → Result (List (List ℕ))
next_record rest none = ok []
next_record rest (some (record_bytes, bytes)) =
    rest bytes >>= λ records. ok (record_bytes ∷ records)

-- The loop over the records; each takes more than one byte.
unfoldable pub read_records : ℕ → List ℕ → Result (List (List ℕ))
unfolding read_record
read_records zero bytes = err out_of_fuel
read_records (suc fuel) bytes = read_record bytes >>= next_record (read_records fuel)

unfoldable pub read_archive : List ℕ → Result (List (List ℕ))
unfolding read_raw_header read_records
read_archive bytes = read_raw_header bytes >>= λ rest. read_records (suc (length rest)) rest

-- What `consume` writes of a record.
abbrev pub raw_record : List ℕ → List ℕ
raw_record bytes = to_le 4 (length bytes % 2 ^ 32) ++ bytes

unfoldable pub raw_records : List (List ℕ) → List ℕ
raw_records [] = []
raw_records (bytes ∷ records) = raw_record bytes ++ raw_records records

-- The record of the kernel's counters.
abbrev pub summary_record : CaptureStats → List ℕ
summary_record s =
    to_le 2 abi_version
    ++ (to_le 2 record_stats
        ++ (to_le 4 88
            ++ (replicate 16 0
                ++ (to_le 8 s.submitted
                    ++ (to_le 8 s.completed
                        ++ (to_le 8 s.submit_errors
                            ++ (to_le 8 s.ring_losses
                                ++ (to_le 8 s.read_errors
                                    ++ (to_le 8 s.unsupported_buffers
                                        ++ (to_le 8 s.state_errors ++ to_le 8 s.sg_events))))))))))

-- write_kernel_summary
unfoldable pub write_kernel_summary : CaptureStats → List ℕ
write_kernel_summary s = to_le 4 88 ++ summary_record s

-- The archive of a capture that ends with the kernel's counters.
unfoldable pub archive : List (List ℕ) → CaptureStats → List ℕ
unfolding raw_records write_kernel_summary
archive records s = raw_magic ++ (raw_records records ++ write_kernel_summary s)
