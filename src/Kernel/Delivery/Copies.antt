-- ===== src/Kernel/Delivery/Copies.antt =====
-- crates/usbscope-ebpf/src/main.rs, `emit`: what stands between the begin and the end record of an
-- URB with one buffer that is not isochronous.
use usbscope.Prelude.{
  ℕ, ◌+◌, ◌*◌, ◌%◌, ◌^◌, ◌<◌, ◌≤◌, ◌≡◌, ◌≢◌, ◌⊎◌, inl, inr, refl, ap, sym, ◌∙◌, arith, false,
  Bool-cases, ==→eq, List, [], ◌++◌, All, append-nil, ◌==◌,
}
use usbscope.Common.Meta.{EventMeta, chunk_size}
use usbscope.Kernel.Machine.{World, Kernel, pure, ◌>>=◌, ask, count, bpf_loop}
use usbscope.Kernel.Copy.{CopyContext, chunks_of}
use usbscope.Kernel.Iso.{IsoContext}
use usbscope.Kernel.Emit.{Copied, copied_of, new_copy, copy_buffer, copy_payload}
use usbscope.Kernel.Delivery.Payload.{
  Fault, no_loop, no_buffer, bytes_at, Holds, Fragment, Sendable, items_of, payload_of,
}
use usbscope.Kernel.Delivery.Rounds.{Sent, rounds-Sent}

module _ (w : World) (mem : ℕ → ℕ) (holds : Holds w mem) where
  -- The fragments are a prefix of the buffer: all of it, or there is a reason.
  pub record Copies (m : EventMeta) (buffer id : ℕ) (k : Kernel) (r : Copied × Kernel)
      : Type 0 where
    pub fragments : List Fragment
    pub size : ℕ
    pub sendable : All Sendable fragments
    pub ring : r.1.ring ≡ k.ring ++ items_of w.host id 0 fragments
    pub payload : payload_of fragments ≡ bytes_at mem buffer size
    pub bound : size ≤ m.payload_len
    pub no_frames : r.0.descriptors ≡ 0
    pub outcome :
        ((r.0.reason ≡ 0) × ((r.0.copied ≡ size) × (size ≡ m.payload_len)))
        ⊎ ((r.0.reason ≢ 0) × ((r.0.reason < 2 ^ 32) × Fault w buffer))

  nothing-Copies :
      (m : EventMeta) (buffer id : ℕ) (k k' : Kernel) (done : Copied)
      → done.descriptors ≡ 0
      → ((done.reason ≡ 0) × ((done.copied ≡ 0) × (0 ≡ m.payload_len)))
        ⊎ ((done.reason ≢ 0) × ((done.reason < 2 ^ 32) × Fault w buffer))
      → k'.ring ≡ k.ring
      → Copies m buffer id k (done, k')
  unfolding items_of payload_of bytes_at
  nothing-Copies m buffer id k k' done d o same = record {
    fragments = [];
    size = 0;
    sendable = tt;
    ring = same ∙ sym (append-nil k.ring);
    payload = refl;
    bound = omega arith;
    no_frames = d;
    outcome = o;
  }

  Sent-Copies :
      (m : EventMeta) (buffer id limit : ℕ) (k k1 : Kernel) (r : CopyContext × Kernel)
      → m.payload_len ≤ limit
      → k1.ring ≡ k.ring
      → Sent w mem holds (new_copy buffer id m.payload_len) 0 limit k1 r
      → Copies m buffer id k (copied_of r.0, r.1)
  Sent-Copies m buffer id limit k k1 r enough same s = record {
    fragments = s.fragments;
    size = s.size;
    sendable = s.sendable;
    ring = s.ring ∙ ap (λ x. x ++ items_of w.host id 0 s.fragments) same;
    payload = s.payload ∙ ap (λ a. bytes_at mem a s.size) (omega arith);
    bound = omega (arith, s.bound);
    no_frames = refl;
    outcome = elim s.outcome [
      | inl (fine, (copied, all_of)) ↦
          inl (fine, (omega (arith, copied), omega (arith, all_of, enough)))
      | inr lost ↦ inr lost
    ];
  }

  copy_buffer-Copies :
      (m : EventMeta) (buffer id : ℕ) (k : Kernel)
      → m.payload_len < 2 ^ 32
      → buffer + m.payload_len < 2 ^ 64
      → Copies m buffer id k (copy_buffer w (new_copy buffer id m.payload_len) k)
  unfolding copy_buffer ◌>>=◌ pure ask bpf_loop count
  copy_buffer-Copies m buffer id k small room =
      let n = chunks_of m.payload_len % 2 ^ 32 in
      elim (Bool-cases (w.runs_loop k.tick n)) [
        | inr e ↦ rw e (
            nothing-Copies m buffer id k _ _ refl (inr (omega arith, (omega arith, no_loop _ _ e)))
              refl)
        | inl e ↦
            let k1 : Kernel = record k { tick = k.tick + 1 } in
            let s =
              rounds-Sent w mem holds n 0 (new_copy buffer id m.payload_len) 0 k1 refl refl small
                room refl (omega arith) in
            rw e
              (Sent-Copies m buffer id ((0 + n) * chunk_size) k k1 _ (omega (arith, small)) refl s)
      ]

  pub copy_payload-Copies :
      (address : ℕ) (m : EventMeta) (buffer id : ℕ) (iso : IsoContext) (k : Kernel)
      → m.transfer_type ≢ 0
      → m.payload_len < 2 ^ 32
      → buffer + m.payload_len < 2 ^ 64
      → Copies m buffer id k (copy_payload w address m buffer 0 id iso k)
  unfolding copy_payload ◌>>=◌ pure count
  copy_payload-Copies address m buffer id iso k not_iso small room =
      let other : (m.transfer_type == 0) ≡ false = ground (arith, not_iso) in
      elim (Bool-cases (m.payload_len == 0)) [
        | inl e ↦
            rw (other, e)
              (nothing-Copies m buffer id k k _ refl (inl (refl, (refl, ground (arith, e)))) refl)
        | inr e ↦ elim (Bool-cases (buffer == 0)) [
          | inl f ↦
              rw (other, e, f)
                (nothing-Copies m buffer id k _ _ refl
                  (inr (omega arith, (omega arith, no_buffer (==→eq _ _ f)))) refl)
          | inr f ↦ rw (other, e, f) (copy_buffer-Copies m buffer id k small room)
        ]
      ]
