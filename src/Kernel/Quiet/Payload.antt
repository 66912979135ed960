-- ===== src/Kernel/Quiet/Payload.antt =====
-- crates/usbscope-ebpf/src/main.rs: the copies of a payload are quiet.
use usbscope.Prelude.{
  ℕ, ◌+◌, not, ◌||◌, Option, none, some, List, ◌==◌, ltb, leb, min, ◌-◌, ◌*◌, ◌^◌, arith,
}
use usbscope.Kernel.Machine.{World, SgMemory}
use usbscope.Common.Meta.{chunk_size}
use usbscope.Kernel.Copy.{
  CopyContext, copy_chunk, submit_chunk, copy_callback, capacity_for, chunks_of,
}
use usbscope.Kernel.Scatter.{
  SgContext, failed_segment, next_segment, copy_piece, sg_copy_segment, copy_segments, copy_sg,
}
use usbscope.Kernel.Quiet.{
  IsQuiet, IsQuiet-pure, IsQuiet-ask, IsQuiet-bind, IsQuiet-if, IsQuiet-option, IsQuiet-count,
  IsQuiet-submit_record, IsQuiet-bpf_loop, IsQuiet-ring_losses, IsQuiet-read_errors,
  IsQuiet-unsupported_buffers,
}

IsQuiet-submit_chunk :
    (w : World) (capacity : ℕ) (c : CopyContext) (offset length : ℕ) (read : Option (List ℕ))
    → IsQuiet (submit_chunk w capacity c offset length read)
unfolding submit_chunk
IsQuiet-submit_chunk w capacity c offset length none =
    IsQuiet-bind IsQuiet-read_errors λ _. IsQuiet-pure _
IsQuiet-submit_chunk w capacity c offset length (some bytes) =
    IsQuiet-bind (IsQuiet-ask _)
      λ item. IsQuiet-bind (IsQuiet-submit_record item) λ _. IsQuiet-pure _

IsQuiet-copy_chunk :
    (w : World) (capacity : ℕ) (c : CopyContext) (offset length : ℕ)
    → IsQuiet (copy_chunk w capacity c offset length)
unfolding copy_chunk
IsQuiet-copy_chunk w capacity c offset length =
    IsQuiet-if (length == 0 || ltb capacity length) (IsQuiet-pure _) (
      IsQuiet-bind (IsQuiet-ask _) λ room.
        IsQuiet-if (not room) (IsQuiet-bind IsQuiet-ring_losses λ _. IsQuiet-pure _) (
          IsQuiet-bind (IsQuiet-ask _)
            λ bytes. IsQuiet-submit_chunk w capacity c offset length bytes))

pub IsQuiet-copy_callback :
    (w : World) (index : ℕ) (c : CopyContext) → IsQuiet (copy_callback w index c)
unfolding copy_callback
IsQuiet-copy_callback w index c =
    let length = min (c.total - index * chunk_size) chunk_size in
    IsQuiet-if (leb c.total (index * chunk_size)) (IsQuiet-pure _) (
      IsQuiet-bind (IsQuiet-copy_chunk w (capacity_for length) c (index * chunk_size) length)
        λ reason. IsQuiet-pure _)

IsQuiet-failed_segment : (c : SgContext) → IsQuiet (failed_segment c)
IsQuiet-failed_segment c = IsQuiet-bind IsQuiet-read_errors λ _. IsQuiet-pure _

IsQuiet-next_segment :
    (w : World) (memory : SgMemory) (c : SgContext) → IsQuiet (next_segment w memory c)
unfolding next_segment
IsQuiet-next_segment w memory c = IsQuiet-if (not (c.segment_left == 0)) (IsQuiet-pure _) (
    IsQuiet-if (c.next == 0 || c.segments_left == 0) (IsQuiet-failed_segment c) (
      IsQuiet-bind (IsQuiet-ask _)
        λ found. IsQuiet-option found (IsQuiet-failed_segment c) λ s. IsQuiet-pure _))

IsQuiet-copy_piece : (w : World) (c : SgContext) → IsQuiet (copy_piece w c)
unfolding copy_piece
IsQuiet-copy_piece w c =
    IsQuiet-if (min c.segment_left chunk_size == 0) (IsQuiet-pure _)
      (IsQuiet-bind (IsQuiet-copy_chunk w chunk_size _ 0 _) λ reason. IsQuiet-pure _)

IsQuiet-sg_copy_segment :
    (w : World) (memory : SgMemory) (index : ℕ) (c : SgContext)
    → IsQuiet (sg_copy_segment w memory index c)
unfolding sg_copy_segment
IsQuiet-sg_copy_segment w memory index c = IsQuiet-if (c.remaining == 0) (IsQuiet-pure _) (
    IsQuiet-bind (IsQuiet-next_segment w memory c)
      λ entered. IsQuiet-if entered.0 (IsQuiet-pure _) (IsQuiet-copy_piece w entered.1))

IsQuiet-copy_segments :
    (w : World) (memory : SgMemory) (segments : ℕ) (copy : CopyContext) (start : ℕ)
    → IsQuiet (copy_segments w memory segments copy start)
unfolding copy_segments
IsQuiet-copy_segments w memory segments copy start =
    IsQuiet-if (ltb (2 ^ 32 - 1) (segments + chunks_of copy.total))
      (IsQuiet-bind IsQuiet-read_errors λ _. IsQuiet-pure _)
      (IsQuiet-bind
        (IsQuiet-bpf_loop (sg_copy_segment w memory) (IsQuiet-sg_copy_segment w memory) w _ _)
        λ done.
          IsQuiet-if _ (IsQuiet-bind IsQuiet-read_errors λ _. IsQuiet-pure _) (IsQuiet-pure _))

pub IsQuiet-copy_sg :
    (w : World) (address segments : ℕ) (copy : CopyContext)
    → IsQuiet (copy_sg w address segments copy)
unfolding copy_sg
IsQuiet-copy_sg w address segments copy =
    IsQuiet-bind (IsQuiet-count 7 (omega arith) (omega arith)) λ _.
      IsQuiet-option w.config (IsQuiet-pure _) λ config.
        IsQuiet-if (config.memory.page_shift == 0)
          (IsQuiet-bind IsQuiet-unsupported_buffers λ _. IsQuiet-pure _)
          (IsQuiet-bind (IsQuiet-ask _) λ start.
            IsQuiet-option start (IsQuiet-bind IsQuiet-read_errors λ _. IsQuiet-pure _)
              λ first. IsQuiet-copy_segments w config.memory segments copy first)
