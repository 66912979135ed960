-- ===== src/Kernel/Delivery/Rounds.antt =====
-- crates/usbscope-ebpf/src/main.rs: what rounds of `copy_callback` send.
use usbscope.Prelude.{
  ℕ, zero, suc, ◌+◌, ◌-◌, ◌*◌, ◌%◌, ◌^◌, ◌<◌, ◌≤◌, ◌≡◌, ◌≢◌, ◌⊎◌, inl, inr, refl, ap, sym, subst,
  ◌∙◌, min, Bool, true, false, Bool-cases, List, [], ◌∷◌, ◌++◌, All, length, arith, leb, leb→le,
  leb→lt, append-nil, append_assoc,
}
use usbscope.Common.Meta.{chunk_size}
use usbscope.Kernel.Machine.{World, Kernel, Action, pure, ◌>>=◌, rounds}
use usbscope.Kernel.Copy.{CopyContext, copy_chunk, capacity_for, copy_callback, after_chunk}
use usbscope.Kernel.Delivery.Payload.{
  Fault, bytes_at, Holds, Fragment, Sendable, data_item, items_of, payload_of, length-bytes_at,
  bytes_at-add,
}
use usbscope.Kernel.Delivery.Chunks.{copy_chunk-cases}

capacity_for_le : (n : ℕ) → n ≤ chunk_size → n ≤ capacity_for n
unfolding capacity_for
capacity_for_le n h = ground (arith, h)

after_chunk_lost :
    (c : CopyContext) (n reason : ℕ)
    → reason ≢ 0
    → after_chunk c n reason ≡ (true, record c { reason = reason })
after_chunk_lost c n reason h = ground (arith, h)

after_chunk_fine :
    (c : CopyContext) (n reason : ℕ)
    → reason ≡ 0
    → after_chunk c n reason ≡ (false, record c { copied = (c.copied + n) % 2 ^ 64 })
after_chunk_fine c n reason h = ground (arith, h)

module _ {ℓ} {C : Type ℓ} (callback : ℕ → C → Action (Bool × C)) where
  pub rounds-last :
      (n index : ℕ) (c c' : C) (k k' : Kernel)
      → callback index c k ≡ ((true, c'), k')
      → rounds callback (suc n) index c k ≡ (c', k')
  unfolding rounds
  rounds-last n index c c' k k' e =
      ap
        (λ (x : (Bool × C) × Kernel). elim x.0.0 as (λ b. C × Kernel) [
          | true ↦ (x.0.1, x.1)
          | false ↦ rounds callback n (suc index) x.0.1 x.1
        ])
        e

  pub rounds-further :
      (n index : ℕ) (c c' : C) (k k' : Kernel)
      → callback index c k ≡ ((false, c'), k')
      → rounds callback (suc n) index c k ≡ rounds callback n (suc index) c' k'
  unfolding rounds
  rounds-further n index c c' k k' e =
      ap
        (λ (x : (Bool × C) × Kernel). elim x.0.0 as (λ b. C × Kernel) [
          | true ↦ (x.0.1, x.1)
          | false ↦ rounds callback n (suc index) x.0.1 x.1
        ])
        e

module _ (w : World) (mem : ℕ → ℕ) (holds : Holds w mem) where
  -- What rounds of the loop sent, from a place of the payload up to a limit, or to a loss.
  pub record Sent (c : CopyContext) (start limit : ℕ) (k : Kernel) (r : CopyContext × Kernel)
      : Type 0 where
    pub fragments : List Fragment
    pub size : ℕ
    pub sendable : All Sendable fragments
    pub ring : r.1.ring ≡ k.ring ++ items_of w.host c.event_id start fragments
    pub payload : payload_of fragments ≡ bytes_at mem (c.source + start) size
    pub bound : start + size ≤ c.total
    pub outcome :
        ((r.0.reason ≡ 0) × ((r.0.copied ≡ start + size) × (start + size ≡ min c.total limit)))
        ⊎ ((r.0.reason ≢ 0) × ((r.0.reason < 2 ^ 32) × Fault w c.source))

  nothing-Sent :
      (c : CopyContext) (start limit : ℕ) (k : Kernel)
      → c.reason ≡ 0
      → c.copied ≡ start
      → start ≡ min c.total limit
      → Sent c start limit k (c, k)
  unfolding items_of payload_of bytes_at
  nothing-Sent c start limit k r at here = record {
    fragments = [];
    size = 0;
    sendable = tt;
    ring = sym (append-nil k.ring);
    payload = refl;
    bound = omega (arith, here);
    outcome = inl (r, (omega (arith, at), omega (arith, here)));
  }

  lost-Sent :
      (c : CopyContext) (start limit reason : ℕ) (k k' : Kernel)
      → reason ≢ 0
      → (reason < 2 ^ 32) × Fault w c.source
      → start ≤ c.total
      → k'.ring ≡ k.ring
      → Sent c start limit k (record c { reason = reason }, k')
  unfolding items_of payload_of bytes_at
  lost-Sent c start limit reason k k' r small within same = record {
    fragments = [];
    size = 0;
    sendable = tt;
    ring = same ∙ sym (append-nil k.ring);
    payload = refl;
    bound = omega (arith, within);
    outcome = inr (r, small);
  }

  -- A chunk in front of what the later rounds send.
  more-Sent :
      (c : CopyContext) (start limit n copied : ℕ) (tail : List ℕ) (k k' : Kernel)
      (r : CopyContext × Kernel)
      → n ≢ 0
      → n ≤ chunk_size
      → k'.ring
        ≡ k.ring
          ++ (data_item w.host c.event_id start (bytes_at mem (c.source + start) n, tail) ∷ [])
      → Sent (record c { copied = copied }) (start + n) limit k' r
      → Sent c start limit k r
  unfolding items_of payload_of
  more-Sent c start limit n copied tail k k' r some_bytes few same s =
      let f : Fragment = (bytes_at mem (c.source + start) n, tail) in
      let size : length f.0 ≡ n = length-bytes_at mem (c.source + start) n in
      record {
        fragments = f ∷ s.fragments;
        size = n + s.size;
        sendable = ((omega (arith, size, some_bytes), omega (arith, size, few)), s.sendable);
        ring =
            s.ring
            ∙ ap (λ x. x ++ items_of w.host c.event_id (start + n) s.fragments) same
            ∙ append_assoc k.ring _ _
            ∙ ap
                (λ x.
                  k.ring
                  ++ (data_item w.host c.event_id start f
                      ∷ items_of w.host c.event_id (start + x) s.fragments))
                (sym size);
        payload =
            ap (λ x. f.0 ++ x) s.payload
            ∙ ap (λ x. f.0 ++ bytes_at mem x s.size) (omega arith)
            ∙ sym (bytes_at-add mem (c.source + start) n s.size);
        bound = omega (arith, s.bound);
        outcome = elim s.outcome [
          | inl (fine, (copied, all_of)) ↦
              inl (fine, (omega (arith, copied), omega (arith, all_of)))
          | inr lost ↦ inr lost
        ];
      }

  callback_behind :
      (index : ℕ) (c : CopyContext) (k : Kernel)
      → leb c.total (index * chunk_size) ≡ true
      → copy_callback w index c k ≡ ((true, c), k)
  unfolding copy_callback pure
  callback_behind index c k e = rw e refl

  -- The length of the chunk of an index, and the run of copy_chunk for it.
  abbrev chunk_length : ℕ → CopyContext → ℕ
  chunk_length index c = min (c.total - index * chunk_size) chunk_size

  abbrev chunk_run : ℕ → CopyContext → Kernel → ℕ × Kernel
  chunk_run index c k =
      copy_chunk w (capacity_for (chunk_length index c)) c (index * chunk_size)
        (chunk_length index c) k

  callback_within :
      (index : ℕ) (c : CopyContext) (k : Kernel)
      → leb c.total (index * chunk_size) ≡ false
      → copy_callback w index c k
        ≡ (after_chunk c (chunk_length index c) (chunk_run index c k).0, (chunk_run index c k).1)
  unfolding copy_callback pure ◌>>=◌
  callback_within index c k e = rw e refl

  pub rounds-Sent :
      (n index : ℕ) (c : CopyContext) (start : ℕ) (k : Kernel)
      → c.destination ≡ 0
      → c.reason ≡ 0
      → c.total < 2 ^ 32
      → c.source + c.total < 2 ^ 64
      → c.copied ≡ start
      → start ≡ min c.total (index * chunk_size)
      → Sent c start ((index + n) * chunk_size) k (rounds (copy_callback w) n index c k)
  unfolding rounds
  rounds-Sent zero index c start k d r t b at here =
      nothing-Sent c start ((index + 0) * chunk_size) k r at (omega (arith, here))
  rounds-Sent (suc n) index c start k d r t b at here =
      let limit = (index + suc n) * chunk_size in
      elim (Bool-cases (leb c.total (index * chunk_size))) [
        | inl e ↦
            subst (Sent c start limit k)
              (sym (rounds-last (copy_callback w) n index c c k k (callback_behind index c k e)))
              (nothing-Sent c start limit k r at (omega (arith, leb→le _ _ e, here)))
        | inr e ↦
            let size = chunk_length index c in
            let within = callback_within index c k e in
            let more = leb→lt _ _ e in
            let at_index : start ≡ index * chunk_size = omega (arith, here, more) in
            let next = chunk_run index c k in
            let placed : c.destination + index * chunk_size ≡ start = omega (arith, d, at_index) in
            let address : (c.source + index * chunk_size) % 2 ^ 64 ≡ c.source + start =
              omega (arith, at_index, more, b) in
            let sum : (c.copied + size) % 2 ^ 64 ≡ start + size = omega (arith, at, here, t) in
            let later : CopyContext = record c { copied = (c.copied + size) % 2 ^ 64 } in
            elim (copy_chunk-cases w mem holds (capacity_for size) c (index * chunk_size) size k
              (omega (arith, more)) (capacity_for_le size (omega arith))) [
                | inl ((lost, small), same) ↦
                    let last : (after_chunk c size next.0, next.1)
                        ≡ ((true, record c { reason = next.0 }), next.1) =
                      ap (λ x. (x, next.1)) (after_chunk_lost c size next.0 lost) in
                    subst (Sent c start limit k)
                      (sym (rounds-last (copy_callback w) n index c _ k _ (within ∙ last)))
                      (lost-Sent c start limit next.0 k next.1 lost small (omega (arith, here))
                        same)
                | inr (fine, (some_bytes, (tail, same))) ↦
                    let further : (after_chunk c size next.0, next.1) ≡ ((false, later), next.1) =
                      ap (λ x. (x, next.1)) (after_chunk_fine c size next.0 fine) in
                    let published =
                      subst
                        (λ x.
                          next.1.ring
                          ≡ k.ring
                            ++ (data_item w.host c.event_id start (bytes_at mem x size, tail) ∷ []))
                        address
                        (subst
                          (λ x.
                            next.1.ring
                            ≡ k.ring
                              ++ (data_item w.host c.event_id x (
                                bytes_at mem ((c.source + index * chunk_size) % 2 ^ 64) size,
                                tail,
                              )
                                  ∷ []))
                          placed same) in
                    let rest =
                      rounds-Sent n (suc index) later (start + size) next.1 d r t b sum
                        (omega (arith, at_index)) in
                    let same_limit : (suc index + n) * chunk_size ≡ limit = omega arith in
                    subst (Sent c start limit k)
                      (sym (
                        rounds-further (copy_callback w) n index c later k next.1
                          (within ∙ further)))
                      (more-Sent c start limit size later.copied tail k next.1 _ some_bytes
                        (omega arith) published
                        (subst
                          (λ x.
                            Sent later (start + size) x next.1
                              (rounds (copy_callback w) n (suc index) later next.1))
                          same_limit rest))
              ]
      ]
