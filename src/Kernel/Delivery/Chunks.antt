-- ===== src/Kernel/Delivery/Chunks.antt =====
-- crates/usbscope-ebpf/src/main.rs, `copy_chunk` and `copy_callback`: the records of a payload in one
-- buffer, over memory that holds still.
use usbscope.Prelude.{
  ◌≤◌, ℕ, ◌+◌, ◌%◌, ◌^◌, ◌<◌, ◌≡◌, ◌≢◌, ◌⊎◌, inl, inr, refl, ap, ◌||◌, Bool-cases, Option-cases,
  List, [], ◌∷◌, ◌++◌, drop, arith, ltb, ◌==◌,
}
use usbscope.Kernel.Machine.{World, Kernel, pure, ◌>>=◌, ask, count, submit_record}
use usbscope.Kernel.Copy.{CopyContext, chunk_bytes, copy_chunk}
use usbscope.Kernel.Delivery.Payload.{
  Fault, no_room, unread, bytes_at, Holds, data_item, length-bytes_at,
}

module _ (w : World) (mem : ℕ → ℕ) (holds : Holds w mem) where
  -- A chunk is lost with a reason, or its record is published.
  abbrev pub ChunkOutcome : CopyContext → ℕ → ℕ → Kernel → ℕ × Kernel → Type 0
  ChunkOutcome c offset n k r =
      (((r.0 ≢ 0) × ((r.0 < 2 ^ 32) × Fault w c.source)) × (r.1.ring ≡ k.ring))
      ⊎ ((r.0 ≡ 0)
          × ((n ≢ 0)
              × ((tail : List ℕ) × (r.1.ring
                    ≡ k.ring
                      ++ (data_item w.host c.event_id (c.destination + offset)
                            (bytes_at mem ((c.source + offset) % 2 ^ 64) n, tail)
                          ∷ [])))))

  chunk_item :
      (capacity : ℕ) (c : CopyContext) (offset n t : ℕ) (bytes : List ℕ)
      → bytes ≡ bytes_at mem ((c.source + offset) % 2 ^ 64) n
      → chunk_bytes w capacity c offset n bytes t
        ≡ data_item w.host c.event_id
            (c.destination + offset)
            (bytes_at mem ((c.source + offset) % 2 ^ 64) n, drop n (w.stale t capacity))
  unfolding chunk_bytes
  chunk_item capacity c offset n t bytes same =
      rw (same, length-bytes_at mem ((c.source + offset) % 2 ^ 64) n) refl

  pub copy_chunk-cases :
      (capacity : ℕ) (c : CopyContext) (offset n : ℕ) (k : Kernel)
      → n ≢ 0
      → n ≤ capacity
      → ChunkOutcome c offset n k (copy_chunk w capacity c offset n k)
  unfolding copy_chunk ◌>>=◌ ask count submit_record pure
  copy_chunk-cases capacity c offset n k some_bytes fits =
      elim (Bool-cases (n == 0 || ltb capacity n)) [
        | inl e ↦ absurd (ground (arith, e, some_bytes, fits))
        | inr e ↦ elim (Bool-cases (w.has_room k.tick (24 + capacity))) [
          | inr f ↦ rw (e, f) (inl ((omega arith, (omega arith, no_room _ _ f)), refl))
          | inl f ↦
              elim (Option-cases (w.read_kernel (k.tick + 1) ((c.source + offset) % 2 ^ 64) n)) [
                | inl g ↦ rw (e, f, g) (inl ((omega arith, (omega arith, unread _ _ _ g)), refl))
                | inr (bytes, g) ↦
                    let same = holds _ _ _ bytes g in
                    rw (e, f, g)
                      (inr (
                        refl,
                        (
                          some_bytes,
                          (
                            drop n (w.stale (k.tick + 1 + 1) capacity),
                            ap (λ x. k.ring ++ (x ∷ []))
                                (chunk_item capacity c offset n (k.tick + 1 + 1) bytes same),
                          ),
                        ),
                      ))
              ]
        ]
      ]
