-- ===== src/Live/Framing.antt =====
-- crates/usbscope-ebpf/src/main.rs, `emit`: the begin and the end record as items of the ring.
use usbscope.Prelude.{
  ℕ, ◌+◌, ◌≡◌, ap, sym, ◌∙◌, arith, List, [], ◌∷◌, ◌++◌, length, append_assoc, append-nil,
}
use usbscope.Common.Meta.{EventMeta, EventEnd, MetaInRange, record_begin, record_end}
use usbscope.Common.Wire.{Endian, encode_meta, encode_end}
use usbscope.Capture.Decode.RoundTrip.{length-encode_meta}
use usbscope.Kernel.Copy.{header}
use usbscope.Kernel.Emit.{Copied}
use usbscope.Kernel.Delivery.Records.{begin_item, end_item}
use usbscope.Live.Ending.{length-encode_end}

pub begin_item-lem :
    (host : Endian) (id : ℕ) (m : EventMeta)
    → MetaInRange m
    → begin_item host id m
      ≡ header host record_begin id (24 + length (encode_meta host m)) 0
        ++ (encode_meta host m ++ [])
begin_item-lem host id m fits =
    let size : 96 ≡ 24 + length (encode_meta host m) =
      omega (arith, length-encode_meta host m fits) in
    ap (λ n. header host record_begin id n 0 ++ encode_meta host m) size
    ∙ ap (λ x. header host record_begin id (24 + length (encode_meta host m)) 0 ++ x)
        (sym (append-nil (encode_meta host m)))

abbrev pub end_of : Copied → EventEnd
end_of done = record {
  copied_bytes = done.copied;
  descriptors = done.descriptors;
  reason = done.reason;
}

pub end_item-lem :
    (host : Endian) (id : ℕ) (done : Copied)
    → end_item host id done
      ≡ header host record_end id (24 + length (encode_end host (end_of done))) 0
        ++ (encode_end host (end_of done) ++ [])
end_item-lem host id done =
    let body = encode_end host (end_of done) in
    let size : 40 ≡ 24 + length body = omega (arith, length-encode_end host (end_of done)) in
    ap (λ n. header host record_end id n 0 ++ body) size
    ∙ ap (λ x. header host record_end id (24 + length body) 0 ++ x) (sym (append-nil body))

-- The items of a ring behind the begin record, in one list.
pub gathered :
    (a b c d : List (List ℕ)) (x : List ℕ) (e : List (List ℕ))
    → b ≡ a ++ (x ∷ [])
    → c ≡ b ++ d
    → c ++ e ≡ a ++ (x ∷ (d ++ e))
gathered a b c d x e begun later =
    ap (λ y. y ++ e) (later ∙ ap (λ y. y ++ d) begun)
    ∙ append_assoc (a ++ (x ∷ [])) d e
    ∙ append_assoc a (x ∷ []) (d ++ e)
