-- ===== src/Kernel/Scatter.antt =====
-- crates/usbscope-ebpf/src/main.rs: a payload in a scatter-gather list, `copy_sg` and
-- `sg_copy_segment`. Where a segment lies is what core_sg_segment of core-shims/usb.c finds out by
-- reading kernel structures: it is an answer of the world.
use usbscope.Prelude.{
  ℕ, ◌+◌, ◌-◌, ◌%◌, ◌^◌, min, Bool, true, false, not, ◌&&◌, ◌||◌, none, some, ltb, ◌==◌,
  if◌then◌else◌,
}
use usbscope.Common.Meta.{chunk_size, loss_read, loss_unsupported_buffer}
use usbscope.Kernel.Machine.{
  World, Action, pure, ◌>>=◌, ◌>>◌, ask, count, bpf_loop, SgMemory, SgSegment, read_errors_field,
  unsupported_buffers_field, sg_events_field,
}
use usbscope.Kernel.Copy.{CopyContext, copy_chunk, chunks_of}

pub record SgContext : Type 0 where
  pub next : ℕ
  pub copy : CopyContext
  pub remaining : ℕ
  pub segment_left : ℕ
  pub segments_left : ℕ

-- copy.reason = reason
abbrev pub lost : ℕ → SgContext → SgContext
lost reason c = record c { copy = record (c.copy) { reason = reason } }

abbrev pub failed_segment : SgContext → Action (Bool × SgContext)
failed_segment c = do count read_errors_field; pure (true, lost loss_read c)

-- A segment that was found is entered.
abbrev pub enter : SgSegment → SgContext → SgContext
enter s c = record c {
  next = s.next;
  segments_left = c.segments_left - 1;
  segment_left = min s.length c.remaining;
  copy = record (c.copy) { source = s.source };
}

-- The next segment, where the last one is used up; true where the loop stops.
unfoldable pub next_segment : World → SgMemory → SgContext → Action (Bool × SgContext)
next_segment w memory c =
    if not (c.segment_left == 0)
    then pure (false, c)
    else if c.next == 0 || c.segments_left == 0
    then failed_segment c
    else (do
      found ← ask (λ t. w.sg_segment t c.next memory)
      elim found [ none ↦ failed_segment c | some s ↦ pure (false, enter s c) ])

-- The context behind a piece of a segment, and whether the loop stops.
abbrev pub after_piece : SgContext → ℕ → ℕ → Bool × SgContext
after_piece c length reason = if not (reason == 0) then (true, lost reason c) else (
  false,
  record c {
    copy = record (c.copy) {
      reason = 0;
      copied = (c.copy.copied + length) % 2 ^ 64;
      source = (c.copy.source + length) % 2 ^ 64;
    };
    segment_left = c.segment_left - length;
    remaining = c.remaining - length;
  },
)

-- At most a chunk of the segment.
unfoldable pub copy_piece : World → SgContext → Action (Bool × SgContext)
copy_piece w c =
    let length = min c.segment_left chunk_size in
    if length == 0
    then pure (false, c)
    else (let placed = record c { copy = record (c.copy) { destination = c.copy.copied } } in
        (do
          reason ← copy_chunk w chunk_size placed.copy 0 length
          pure (after_piece placed length reason)))

unfoldable pub sg_copy_segment : World → SgMemory → ℕ → SgContext → Action (Bool × SgContext)
unfolding next_segment copy_piece
sg_copy_segment w memory index c = if c.remaining == 0 then pure (true, c) else (do
  entered ← next_segment w memory c
  (if entered.0 then pure entered else copy_piece w entered.1))

abbrev pub with_reason : ℕ → CopyContext → CopyContext
with_reason reason c = record c { reason = reason }

-- The loop over the segments, from the head of the list.
unfoldable pub copy_segments : World → SgMemory → ℕ → CopyContext → ℕ → Action CopyContext
unfolding sg_copy_segment
copy_segments w memory segments copy start =
    let iterations = segments + chunks_of copy.total in
    if ltb (2 ^ 32 - 1) iterations
    then (do count read_errors_field; pure (with_reason loss_read copy))
    else (do
      (ran, c) ← bpf_loop (sg_copy_segment w memory) w iterations (record {
        next = start;
        copy = copy;
        remaining = copy.total;
        segment_left = 0;
        segments_left = segments;
      })
      (if not ran || (not (c.remaining == 0) && c.copy.reason == 0)
          then (do count read_errors_field; pure (with_reason loss_read c.copy))
          else pure c.copy))

unfoldable pub copy_sg : World → ℕ → ℕ → CopyContext → Action CopyContext
unfolding copy_segments
copy_sg w address segments copy = do
  count sg_events_field
  elim w.config [
    | none ↦ pure (with_reason loss_read copy)
    | some config ↦
        if config.memory.page_shift == 0
        then (do count unsupported_buffers_field; pure (with_reason loss_unsupported_buffer copy))
        else (do
          start ← ask (λ t. w.sg_start t address)
          elim start [
            | none ↦ (do count read_errors_field; pure (with_reason loss_read copy))
            | some first ↦ copy_segments w config.memory segments copy first
          ])
  ]
