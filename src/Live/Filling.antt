-- ===== src/Live/Filling.antt =====
-- crates/usbscope-capture/src/lib.rs, `push`: a payload whose fragments arrive in their order.
use usbscope.Prelude.{
  ℕ, zero, suc, ◌+◌, ◌^◌, ◌<◌, ◌≤◌, ◌≡◌, ◌≢◌, refl, ap, sym, subst, ◌∙◌, arith, true, false, List,
  [], ◌∷◌, ◌++◌, length, ltb, leb, lt→ltb, le→leb, ◌==◌, if◌then◌else◌, min, max, length-append,
  none,
}
use usbscope.Prelude.Result.{ok}
use usbscope.Common.Meta.{EventMeta}
use usbscope.Capture.Event.{Spool, Reliable, overwrite}
use usbscope.Capture.Event.Overwrite.{overwrite_end}
use usbscope.Capture.Ranges.{Ranges, last_up_to, first_in, remove, insert}
use usbscope.Capture.Reassembler.State.{Pending}
use usbscope.Capture.Reassembler.Data.{data_record, first_start, ends_before, merge, check_overlap}

-- The range of a payload that is filled from its start.
abbrev pub filled_to : ℕ → Ranges
filled_to n = if n == 0 then [] else (0, n) ∷ []

-- An unfinished event whose payload is filled up to the length of these bytes.
pub record Filling {S : Spool} (p : Pending S) (m : EventMeta) (bytes : List ℕ) : Type 0 where
  pub meta : p.event.meta ≡ m
  pub iso : p.event.iso ≡ []
  pub ranges : p.ranges ≡ filled_to (length bytes)
  pub copied : p.copied ≡ length bytes
  pub payload : S.contents p.event.payload ≡ bytes

first_filled : (n : ℕ) → first_start n (last_up_to n (filled_to n)) ≡ 0
unfolding last_up_to
first_filled n = ground arith

ends_filled : (n : ℕ) → ends_before n (last_up_to n (filled_to n)) ≡ true
unfolding last_up_to
ends_filled n = ground arith

next_filled : (n : ℕ) → first_in n none (filled_to n) ≡ none
unfolding first_in
next_filled n = ground arith

check_end :
    (S : Spool) (file : S.File) (n : ℕ) (body : List ℕ) → check_overlap S file n body 0 n ≡ ok tt
unfolding check_overlap
check_end S file n body =
    let e : ltb (max 0 n) (min n (n + length body)) ≡ false = ground arith in rw e refl

merge_one :
    (S : Spool) (file : S.File) (n : ℕ) (body : List ℕ)
    → merge S file n body 1 0 n (n + length body) ((0, n) ∷ []) ≡ ok (0, n + length body, [])
unfolding merge first_in remove
merge_one S file n body = ground (arith, check_end S file n body)

merge_end :
    (S : Spool) (file : S.File) (n : ℕ) (body : List ℕ)
    → merge S file n body (length (filled_to n)) 0 n (n + length body) (filled_to n)
      ≡ ok (0, n + length body, [])
unfolding merge
merge_end S file zero body = refl
merge_end S file (suc n) body =
    let e : (suc n == 0) ≡ false = ground arith in rw e (merge_one S file (suc n) body)

insert_end : (n : ℕ) → n ≢ 0 → insert 0 n [] ≡ filled_to n
unfolding insert
insert_end n h = ground (arith, h)

module _ {S : Spool} (reliable : Reliable S) (p : Pending S) (m : EventMeta)
    (bytes body : List ℕ) where
  -- A fragment at the end of what is filled is appended to the payload.
  pub data_record-Filling :
      Filling p m bytes
      → m.transfer_type ≢ 0
      → m.payload_len < 2 ^ 32
      → length body ≢ 0
      → length bytes + length body ≤ m.payload_len
      → (p' : Pending S) × (data_record p (length bytes) body ≡ ok p')
        × Filling p' m (bytes ++ body)
  unfolding data_record
  data_record-Filling f not_iso small some_bytes within =
      let n = length bytes in
      let (g, wrote) = reliable.writes p.event.payload n body in
      let a : (length body == 0) ≡ false = ground (arith, some_bytes) in
      let b : ltb (n + length body) (2 ^ 64) ≡ true = lt→ltb _ _ (omega (arith, within, small)) in
      let c : leb (n + length body) p.event.meta.payload_len ≡ true =
        subst (λ x. leb (n + length body) x.payload_len ≡ true) (sym f.meta) (le→leb _ _ within) in
      let d : (p.event.meta.transfer_type == 0) ≡ false =
        subst (λ x. (x.transfer_type == 0) ≡ false) (sym f.meta) (ground (arith, not_iso)) in
      (
        record {
          event = record (p.event) { payload = g };
          ranges = insert 0 (n + length body) [];
          copied = p.copied + length body;
        },
        rw
            (
              a,
              b,
              c,
              d,
              f.ranges,
              ends_filled n,
              next_filled n,
              first_filled n,
              merge_end S p.event.payload n body,
              reliable.seeks p.event.payload n,
              wrote,
            )
            refl,
        record {
          meta = f.meta;
          iso = f.iso;
          ranges =
              insert_end (n + length body) (omega (arith, some_bytes))
              ∙ ap filled_to (sym (length-append bytes body));
          copied = omega (arith, f.copied, length-append bytes body);
          payload =
              S.contents-write_at p.event.payload g n body wrote
              ∙ ap (λ x. overwrite x n body) f.payload
              ∙ overwrite_end bytes body;
        },
      )
