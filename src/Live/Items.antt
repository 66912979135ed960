-- ===== src/Live/Items.antt =====
-- src/live.rs: the record that is drained from an item that the kernel programs publish.
use usbscope.Prelude.{
  ℕ, suc, ◌+◌, ◌^◌, ◌<◌, ◌≤◌, ◌≡◌, refl, ap, ◌∙◌, arith, true, List, [], ◌∷◌, ◌++◌, length, take,
  take-all, leb, le→leb, length-append, ◌==◌,
}
use usbscope.Prelude.Bytes.{to_le}
use usbscope.Prelude.Result.{ok, ◌>>=◌}
use usbscope.Common.Meta.{abi_version, chunk_size}
use usbscope.Common.Wire.{Endian, encode_header}
use usbscope.Common.Wire.Layout.{publish_lem, from_le-to_le}
use usbscope.Capture.Decode.{u16_at, u32_at, u64_at}
use usbscope.Capture.Reassembler.State.{read_frame, max_record_size}
use usbscope.Kernel.Copy.{header}
use usbscope.Live.Drain.{record_of}

-- The published header, with the byte order of the host gone.
abbrev pub le_header : ℕ → ℕ → ℕ → ℕ → List ℕ
le_header kind size id offset =
    to_le 2 abi_version ++ (to_le 2 kind ++ (to_le 4 size ++ (to_le 8 id ++ to_le 8 offset)))

header-le :
    (host : Endian) (kind id size offset : ℕ)
    → header host kind id size offset ≡ le_header kind size id offset
unfolding header encode_header
header-le host kind id size offset = simp publish_lem

take-append_add : (xs ys : List ℕ) (n : ℕ) → take (length xs + n) (xs ++ ys) ≡ xs ++ take n ys
take-append_add [] ys n = ap (λ x. take x ys) (omega arith)
take-append_add (x ∷ xs) ys n =
    let same : suc (length xs) + n ≡ suc (length xs + n) = omega arith in
    ap (λ k. take k (x ∷ (xs ++ ys))) same ∙ ap (λ zs. x ∷ zs) (take-append_add xs ys n)

take-append_exact : (xs ys : List ℕ) → take (length xs) (xs ++ ys) ≡ xs
take-append_exact [] ys = refl
take-append_exact (x ∷ xs) ys = ap (λ zs. x ∷ zs) (take-append_exact xs ys)

-- The fields of a header in front of anything.
module _ (kind size id offset : ℕ) (rest : List ℕ) where
  abbrev pub headed : List ℕ
  headed = le_header kind size id offset ++ rest

  length-headed : length headed ≡ 24 + length rest
  length-headed = omega arith

  version_at : u16_at headed 0 ≡ abi_version
  unfolding u16_at
  version_at = refl

  kind_at : kind < 2 ^ 16 → u16_at headed 2 ≡ kind
  unfolding u16_at
  kind_at h = from_le-to_le 2 kind h

  size_at : size < 2 ^ 32 → u32_at headed 4 ≡ size
  unfolding u32_at
  size_at h = from_le-to_le 4 size h

  id_at : id < 2 ^ 64 → u64_at headed 8 ≡ id
  unfolding u64_at
  id_at h = from_le-to_le 8 id h

  offset_at : offset < 2 ^ 64 → u64_at headed 16 ≡ offset
  unfolding u64_at
  offset_at h = from_le-to_le 8 offset h

module _ (host : Endian) (kind id offset : ℕ) (body tail : List ℕ)
    (fits : 24 + length body ≤ max_record_size) where
  abbrev size : ℕ
  size = 24 + length body

  take-item :
      take size (headed kind size id offset (body ++ tail)) ≡ headed kind size id offset body
  take-item =
      take-append_add (le_header kind size id offset) (body ++ tail) (length body)
      ∙ ap (λ zs. le_header kind size id offset ++ zs) (take-append_exact body tail)

  pub record_of-item :
      record_of (header host kind id size offset ++ (body ++ tail))
      ≡ ok (headed kind size id offset body)
  unfolding record_of
  record_of-item =
      let long = length-headed kind size id offset (body ++ tail) in
      let both = length-append body tail in
      let field = size_at kind size id offset (body ++ tail) (omega (arith, fits)) in
      let a : leb 24 (length (headed kind size id offset (body ++ tail))) ≡ true =
        le→leb _ _ (omega (arith, long)) in
      let b : leb 24 size ≡ true = le→leb _ _ (omega arith) in
      let c : leb size (length (headed kind size id offset (body ++ tail))) ≡ true =
        le→leb _ _ (omega (arith, long, both)) in
      rw (header-le host kind id size offset, a, field, b, c) (ap ok take-item)

  pub read_frame-item :
      kind < 2 ^ 16
      → id < 2 ^ 64
      → offset < 2 ^ 64
      → read_frame (headed kind size id offset body)
        ≡ ok (record { kind = kind; id = id; offset = offset; body = body })
  unfolding read_frame
  read_frame-item k i o =
      let bytes = headed kind size id offset body in
      let long = length-headed kind size id offset body in
      let field = size_at kind size id offset body (omega (arith, fits)) in
      let version : (u16_at bytes 0 == abi_version) ≡ true =
        ap (λ x. x == abi_version) (version_at kind size id offset body) in
      let a : leb 24 (length bytes) ≡ true = le→leb _ _ (omega (arith, long)) in
      let b : leb 24 size ≡ true = le→leb _ _ (omega arith) in
      let c : leb size (length bytes) ≡ true = le→leb _ _ (omega (arith, long)) in
      let d : leb size max_record_size ≡ true = le→leb _ _ fits in
      let whole : take size bytes ≡ bytes = take-all size bytes (omega (arith, long)) in
      rw (a, version, field, b, c, d, whole)
        (λ j. ok (record {
          kind = kind_at kind size id offset body k j;
          id = id_at kind size id offset body i j;
          offset = offset_at kind size id offset body o j;
          body = body;
        }))

-- On a host of either byte order: of an item that carries a record of any kind, number and offset,
-- with at most 16384 bytes of body and anything behind them, the drain hands on a record that the
-- reassembler reads as the kind, the number, the offset and the body.
pub read_frame-record_of :
    (host : Endian) (kind id offset : ℕ) (body tail : List ℕ)
    → kind < 2 ^ 16
    → id < 2 ^ 64
    → offset < 2 ^ 64
    → length body ≤ chunk_size
    → (record_of (header host kind id (24 + length body) offset ++ (body ++ tail)) >>= read_frame)
      ≡ ok (record { kind = kind; id = id; offset = offset; body = body })
read_frame-record_of host kind id offset body tail k i o fits =
    let small : 24 + length body ≤ max_record_size = omega (arith, fits) in
    ap (λ r. r >>= read_frame) (record_of-item host kind id offset body tail small)
    ∙ read_frame-item host kind id offset body tail small k i o
