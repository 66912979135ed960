-- ===== src/Kernel/Copy.antt =====
-- crates/usbscope-ebpf/src/main.rs: the records of a payload, `copy_chunk` and `copy_callback`.
use usbscope.Prelude.{
  ℕ, ◌+◌, ◌-◌, ◌*◌, ◌/◌, ◌%◌, ◌^◌, min, Bool, true, false, not, ◌||◌, Option, none, some, List,
  ◌++◌, drop, ltb, leb, ◌==◌, if◌then◌else◌,
}
use usbscope.Common.Meta.{abi_version, chunk_size, record_data, loss_ring, loss_read}
use usbscope.Common.Wire.{Endian, encode_header}
use usbscope.Kernel.Machine.{
  World, Action, pure, ◌>>=◌, ◌>>◌, ask, count, submit_record, ring_losses_field, read_errors_field,
}

pub record CopyContext : Type 0 where
  pub source : ℕ
  pub destination : ℕ
  pub event_id : ℕ
  pub total : ℕ
  pub reason : ℕ
  pub copied : ℕ

-- fn header
unfoldable pub header : Endian → ℕ → ℕ → ℕ → ℕ → List ℕ
header host kind event_id size offset = encode_header host (record {
  version = abi_version;
  kind = kind;
  size = size;
  event_id = event_id;
  offset = offset;
})

-- A chunk in a reservation of a capacity: behind the payload it holds what the ring held.
unfoldable pub chunk_bytes : World → ℕ → CopyContext → ℕ → ℕ → List ℕ → ℕ → List ℕ
unfolding header
chunk_bytes w capacity c offset length bytes t =
    header w.host record_data c.event_id (24 + length) (c.destination + offset)
    ++ (bytes ++ drop length (w.stale t capacity))

-- A chunk whose bytes were read, or not.
unfoldable pub submit_chunk : World → ℕ → CopyContext → ℕ → ℕ → Option (List ℕ) → Action ℕ
unfolding chunk_bytes
submit_chunk w capacity c offset length none = do count read_errors_field; pure loss_read
submit_chunk w capacity c offset length (some bytes) = do
  item ← ask (chunk_bytes w capacity c offset length bytes)
  submit_record item
  pure 0

-- copy_chunk::<capacity>: the reason of a loss, 0 where there is none
unfoldable pub copy_chunk : World → ℕ → CopyContext → ℕ → ℕ → Action ℕ
unfolding submit_chunk
copy_chunk w capacity c offset length =
    if length == 0 || ltb capacity length then pure loss_read else (do
      room ← ask (λ t. w.has_room t (24 + capacity))
      (if not room then (do count ring_losses_field; pure loss_ring) else (do
        bytes ← ask (λ t. w.read_kernel t ((c.source + offset) % 2 ^ 64) length)
        submit_chunk w capacity c offset length bytes)))

-- The sizes of reservation that `copy_callback` chooses from.
unfoldable pub capacity_for : ℕ → ℕ
capacity_for length =
    if leb length 256
    then 256
    else if leb length 1024
    then 1024
    else if leb length 4096
    then 4096
    else chunk_size

-- The context behind a chunk, and whether the loop stops.
abbrev pub after_chunk : CopyContext → ℕ → ℕ → Bool × CopyContext
after_chunk c length reason =
    if not (reason == 0)
    then (true, record c { reason = reason })
    else (false, record c { copied = (c.copied + length) % 2 ^ 64 })

unfoldable pub copy_callback : World → ℕ → CopyContext → Action (Bool × CopyContext)
unfolding copy_chunk capacity_for
copy_callback w index c =
    let offset = index * chunk_size in
    if leb c.total offset
    then pure (true, c)
    else (let length = min (c.total - offset) chunk_size in
        (do
          reason ← copy_chunk w (capacity_for length) c offset length
          pure (after_chunk c length reason)))

-- The chunks of a payload.
abbrev pub chunks_of : ℕ → ℕ
chunks_of total = (total + chunk_size - 1) / chunk_size
