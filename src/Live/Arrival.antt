-- ===== src/Live/Arrival.antt =====
-- src/live.rs: the records of one event, drained from the ring.
use usbscope.Prelude.{
  ℕ, ◌+◌, ◌^◌, ◌<◌, ◌≤◌, ◌≡◌, ◌≢◌, refl, sym, subst, arith, List, [], ◌∷◌, All, ◌++◌, length,
  length-append, append_assoc, append-nil, Option, none,
}
use usbscope.Prelude.Result.{ok}
use usbscope.Common.Meta.{EventMeta, record_data, chunk_size}
use usbscope.Common.Wire.{Endian}
use usbscope.Capture.Event.{Spool, Event}
use usbscope.Capture.Reassembler.State.{Pending, Reassembler, ReassemblyStats}
use usbscope.Capture.Reassembler.Push.{push, push_frame}
use usbscope.Kernel.Copy.{header}
use usbscope.Kernel.Delivery.Payload.{Fragment, Sendable, items_of, payload_of}
use usbscope.Live.Drain.{delivered, drain}
use usbscope.Live.Items.{record_of-item, read_frame-item}
use usbscope.Capture.Event.{Reliable}
use usbscope.Live.Building.{Building, data-Building}

-- An item whose frame the reassembler accepts.
pub drain-accepted :
    {S : Spool} (r r' r'' : Reassembler S) (kind id offset : ℕ) (host : Endian) (body tail : List ℕ)
    (e : Option (Event S)) (items : List (List ℕ)) (es : List (Event S))
    → kind < 2 ^ 16
    → id < 2 ^ 64
    → offset < 2 ^ 64
    → length body ≤ chunk_size
    → push_frame r (record { kind = kind; id = id; offset = offset; body = body }) ≡ ok (e, r')
    → drain r' items ≡ ok (es, r'')
    → drain r ((header host kind id (24 + length body) offset ++ (body ++ tail)) ∷ items)
      ≡ ok (delivered e ++ es, r'')
unfolding drain push
drain-accepted r r' r'' kind id offset host body tail e items es k i o fits accepted rest =
    let read = record_of-item host kind id offset body tail (omega (arith, fits)) in
    let frame = read_frame-item host kind id offset body tail (omega (arith, fits)) k i o in
    rw (read, frame, accepted, rest) refl

module _ {S : Spool} (reliable : Reliable S) (host : Endian) (id : ℕ) (m : EventMeta)
    (small_id : id < 2 ^ 64) (not_iso : m.transfer_type ≢ 0) (small : m.payload_len < 2 ^ 32)
    (old : List (ℕ × Pending S)) (stats : ReassemblyStats) (more : List (List ℕ)) where
  -- Fragments that follow each other fill the payload.
  pub fragments-Building :
      (r : Reassembler S) (bytes : List ℕ) (fs : List Fragment)
      → Building r id m bytes old stats
      → All Sendable fs
      → length bytes + length (payload_of fs) ≤ m.payload_len
      → (r' : Reassembler S) × Building r' id m (bytes ++ payload_of fs) old stats
        × ((es : List (Event S)) (r'' : Reassembler S)
            → drain r' more ≡ ok (es, r'')
            → drain r (items_of host id (length bytes) fs ++ more) ≡ ok (es, r''))
  unfolding items_of payload_of
  fragments-Building r bytes [] b s within =
      (r, subst (λ x. Building r id m x old stats) (sym (append-nil bytes)) b, λ es r'' h. h)
  fragments-Building r bytes (f ∷ fs) b s within =
      let both = length-append f.0 (payload_of fs) in
      let (r1, accepted, b1) =
        data-Building reliable r id m bytes f.0 old stats b not_iso small s.0.0
          (omega (arith, within, both)) in
      let sum = length-append bytes f.0 in
      let (r2, b2, rest) =
        fragments-Building r1 (bytes ++ f.0) fs b1 s.1 (omega (arith, within, both, sum)) in
      (
        r2,
        subst (λ x. Building r2 id m x old stats) (append_assoc bytes f.0 (payload_of fs)) b2,
        λ es r'' h.
            drain-accepted r r1 r'' record_data id (length bytes) host f.0 f.1 none _ es
              (omega arith) small_id (omega (arith, within, small)) s.0.1 accepted
              (subst (λ x. drain r1 (items_of host id x fs ++ more) ≡ ok (es, r'')) sum
                (rest es r'' h)),
      )
