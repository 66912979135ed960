-- ===== src/Capture/Reassembler/Fragments.antt =====
-- crates/usbscope-capture/src/lib.rs, `push`: the payload of an unfinished event against the
-- fragments that its records carried.
use usbscope.Prelude.{
  ℕ, zero, suc, ◌+◌, ◌-◌, ◌<◌, ◌≤◌, ◌≡◌, ◌≢◌, ◌⊎◌, inl, inr, refl, sym, subst, ◌∙◌, arith, not,
  Bool-cases, Option, none, some, List, [], ◌∷◌, length, get_elem?, get_elem?-length, leb, ltb,
  ◌==◌, leb→le, leb→lt, ◌||◌, ◌^◌,
}
use usbscope.Prelude.Result.{ok, ensure-eq-ok, >>=-eq-ok}
use usbscope.Capture.Event.{Spool, overwrite}
use usbscope.Capture.Event.Overwrite.{overwrite-inside, overwrite-left, overwrite-right}
use usbscope.Capture.Ranges.{Ranges, last_up_to, first_in, insert}
use usbscope.Capture.Ranges.Laws.{
  In, Apart, Filled, Apart-In, Apart-separate, Apart-unique, insert-Apart, insert-In, insert-In_old,
  In-insert, last_up_to-some, last_up_to-none, last_up_to-max,
}
use usbscope.Capture.Reassembler.State.{Pending}
use usbscope.Capture.Reassembler.Data.{merge, data_record, first_start, ends_before, starts_behind}
use usbscope.Capture.Reassembler.Merge.{Before, After, merge-After}

-- The fragments of a payload, each an offset and its bytes.
abbrev pub Fragments : Type 0
Fragments = List (ℕ × List ℕ)

-- Some fragment has the byte v for the place x.
abbrev pub Sent : Fragments → ℕ → ℕ → Type 0
Sent [] x v = ⊥
Sent ((off, body) ∷ log) x v = ((off ≤ x) × (get_elem? body (x - off) ≡ some v)) ⊎ Sent log x v

-- Exactly the places that were sent are filled, within the declared span, and the file has at each
-- the byte that was sent.
pub record Tracks {S : Spool} (p : Pending S) (log : Fragments) : Type 0 where
  pub apart : Apart 0 p.ranges
  pub span : (x : ℕ) → Filled x p.ranges → x < p.event.meta.payload_len
  pub stored : (x v : ℕ) → Sent log x v → get_elem? (S.contents p.event.payload) x ≡ some v
  pub sent_filled : (x v : ℕ) → Sent log x v → Filled x p.ranges
  pub filled_sent : (x : ℕ) → Filled x p.ranges → (v : ℕ) × Sent log x v

-- The numbers of an entry (a, b) and of the entry (u, v) that last_up_to finds.
module _ (offset u v a b : ℕ) (upto : u ≤ offset) (greatest : a ≤ offset → a ≤ u)
    (same : a ≡ u → b ≡ v) where
  first_start-left :
      a < first_start offset (some (u, v)) → (a < u → b < u) → b < first_start offset (some (u, v))
  first_start-left l g = elim (Bool-cases (leb offset v)) [
    | inl t ↦ ground arith
    | inr t ↦ elim (Bool-cases (a == u)) [ inl w ↦ ground arith | inr w ↦ ground arith ]
  ]

  first_start-touching : first_start offset (some (u, v)) ≤ a → a < b → offset ≤ b
  first_start-touching l g = elim (Bool-cases (leb offset v)) [
    | inl t ↦ elim (Bool-cases (a == u)) [
      | inl w ↦ ground arith
      | inr w ↦ elim (Bool-cases (leb a offset)) [ inl w' ↦ ground arith | inr w' ↦ ground arith ]
    ]
    | inr t ↦ ground arith
  ]

first_start-Before :
    (S : Spool) (file : S.File) (offset : ℕ) (body : List ℕ) (r : Ranges) (o : Option (ℕ × ℕ))
    → Apart 0 r
    → last_up_to offset r ≡ o
    → Before S file offset body (first_start offset o) offset (offset + length body) r
first_start-Before S file offset body r none k e = record {
  apart = k;
  first_le = omega arith;
  start_le = omega arith;
  end_le = omega arith;
  left = λ a b i l. absurd (omega (arith, last_up_to-none offset 0 a b r k e i));
  touching = λ a b i l. omega (arith, Apart-In 0 a b r k i);
  right = λ a b i l. l;
}
first_start-Before S file offset body r (some (u, v)) k e =
    let (found, upto) = last_up_to-some offset u v r e in
    let greatest = λ (a b : ℕ) (i : In a b r). last_up_to-max offset 0 u v a b r k e i in
    let same = λ (a b : ℕ) (i : In a b r) (t : a ≡ u).
      Apart-unique 0 u b v r k (subst (λ z. In z b r) t i) found in
    record {
      apart = k;
      first_le = ground arith;
      start_le = omega arith;
      end_le = omega arith;
      left = λ a b i l.
          first_start-left offset u v a b upto (greatest a b i) (same a b i) l
            (Apart-separate 0 a b u v r k i found);
      touching = λ a b i l.
          first_start-touching offset u v a b upto (greatest a b i) (same a b i) l
            (Apart-In 0 a b r k i).1;
      right = λ a b i l. l;
    }

module _ (S : Spool) (file : S.File) (offset : ℕ) (body : List ℕ) (first : ℕ) (r : Ranges)
    (t : ℕ × ℕ × Ranges) (h : Before S file offset body first offset (offset + length body) r)
    (k : After S file offset body first offset (offset + length body) r t) where
  inserted : Ranges
  inserted = insert t.0 t.1 t.2

  inserted-Apart : 0 < length body → Apart 0 inserted
  unfolding inserted
  inserted-Apart nonempty =
      insert-Apart 0 t.0 t.1 t.2 k.apart (omega arith) (omega (arith, k.start_le, k.end_le))
        (λ a b i l. inserted-before a b (k.kept a b i) l)
        (λ a b i l. inserted-behind a b i (k.kept a b i).1 l)
    where
      inserted-before :
          (a b : ℕ) → In a b r × ((a < first) ⊎ (offset + length body < a)) → a < t.0 → b < t.0
      inserted-before a b (i, inl o) l = omega (arith, h.left a b i o, k.first_le)
      inserted-before a b (i, inr o) l = absurd (omega (arith, k.start_le))

      inserted-behind :
          (a b : ℕ) → In a b t.2 → (a < first) ⊎ (offset + length body < a) → t.0 ≤ a → t.1 < a
      inserted-behind a b i (inl o) l = absurd (omega (arith, k.first_le))
      inserted-behind a b i (inr o) l = k.right a b i o

  -- The fragment's places are filled now, and those that were filled.
  Filled-inserted :
      (x : ℕ) → Filled x inserted → Filled x r ⊎ ((offset ≤ x) × (x < offset + length body))
  unfolding inserted
  Filled-inserted x (a, b, i, p, q) = elim (In-insert t.0 t.1 a b t.2 i) [
    | inl e ↦ k.new_fill x (omega arith) (omega arith)
    | inr j ↦ inl (a, b, (k.kept a b j).0, p, q)
  ]

  inserted-range : (x : ℕ) → t.0 ≤ x → x < t.1 → Filled x inserted
  unfolding inserted
  inserted-range x p q = (t.0, t.1, insert-In t.0 t.1 t.2, p, q)

  inserted-new : (x : ℕ) → offset ≤ x → x < offset + length body → Filled x inserted
  inserted-new x p q = inserted-range x (omega (arith, k.start_le)) (omega (arith, k.end_le))

  inserted-fresh : (a b : ℕ) → In a b t.2 → a ≢ t.0
  inserted-fresh a b i e = elim (k.kept a b i).1 [
    | inl o ↦ omega (arith, k.first_le)
    | inr o ↦ omega (arith, k.start_le)
  ]

  inserted-old : (x : ℕ) → Filled x r → Filled x inserted
  unfolding inserted
  inserted-old x f = elim (k.old_fill x f) [
    | inl (a, b, i, p, q) ↦ (a, b, insert-In_old t.0 t.1 a b t.2 i (inserted-fresh a b i), p, q)
    | inr v ↦ inserted-range x v.0 v.1
  ]

-- What an accepted fragment went through.
record Accepted {S : Spool} (p : Pending S) (offset : ℕ) (body : List ℕ) (p' : Pending S)
    : Type 0 where
  nonempty : 0 < length body
  inside : offset + length body ≤ p.event.meta.payload_len
  merged : ℕ × ℕ × Ranges
  merge_ok :
      merge S p.event.payload offset body
        (length p.ranges)
        (first_start offset (last_up_to offset p.ranges))
        offset
        (offset + length body)
        p.ranges
      ≡ ok merged
  file : S.File
  write_ok : S.write_at p.event.payload offset body ≡ ok file
  result : p' ≡ record {
    event = record (p.event) { payload = file };
    ranges = insert merged.0 merged.1 merged.2;
    copied = p.copied + length body;
  }

data_record-Accepted :
    {S : Spool} (p : Pending S) (offset : ℕ) (body : List ℕ) (p' : Pending S)
    → data_record p offset body ≡ ok p'
    → Accepted p offset body p'
unfolding data_record
data_record-Accepted {S} p offset body p' h =
    let (a, h₁) = ensure-eq-ok (not (length body == 0)) _ _ h in
    let (_, h₂) = ensure-eq-ok (ltb (offset + length body) (2 ^ 64)) _ _ h₁ in
    let (b, h₃) = ensure-eq-ok (leb (offset + length body) p.event.meta.payload_len) _ _ h₂ in
    let is_iso = p.event.meta.transfer_type == 0 in
    let (_, h₄) = ensure-eq-ok (is_iso || ends_before offset (last_up_to offset p.ranges)) _ _ h₃ in
    let (_, h₅) =
      ensure-eq-ok (is_iso || starts_behind (offset + length body) (first_in offset none p.ranges))
        _ _ h₄ in
    let (t, m, h₆) =
      >>=-eq-ok
        (merge S p.event.payload offset body (length p.ranges)
          (first_start offset (last_up_to offset p.ranges)) offset (offset + length body) p.ranges)
        _ h₅ in
    let (_, _, h₇) = >>=-eq-ok (S.seek p.event.payload offset) _ h₆ in
    let (file, w, h₈) = >>=-eq-ok (S.write_at p.event.payload offset body) _ h₇ in
    record {
      nonempty = ground arith;
      inside = leb→le _ _ b;
      merged = t;
      merge_ok = m;
      file = file;
      write_ok = w;
      result = ground arith;
    }

-- An element that exists at every place of a list.
elem_at : (bs : List ℕ) (i : ℕ) → i < length bs → (v : ℕ) × (get_elem? bs i ≡ some v)
elem_at [] i h = absurd (omega arith)
elem_at (b ∷ bs) zero h = (b, refl)
elem_at (b ∷ bs) (suc i) h = elem_at bs i (omega arith)

module _ {S : Spool} (p p' : Pending S) (offset : ℕ) (body : List ℕ) (log : Fragments)
    (k : Tracks p log) (a : Accepted p offset body p') where
  abbrev before_merge :
      Before S p.event.payload offset body
        (first_start offset (last_up_to offset p.ranges))
        offset
        (offset + length body)
        p.ranges
  before_merge =
      first_start-Before S p.event.payload offset body p.ranges (last_up_to offset p.ranges) k.apart
        refl

  abbrev after_merge :
      After S p.event.payload offset body
        (first_start offset (last_up_to offset p.ranges))
        offset
        (offset + length body)
        p.ranges
        a.merged
  after_merge =
      merge-After S p.event.payload offset body (length p.ranges)
        (first_start offset (last_up_to offset p.ranges)) offset (offset + length body) p.ranges
        a.merged (omega arith) before_merge a.merge_ok

  abbrev ranges_next : Ranges
  ranges_next = insert a.merged.0 a.merged.1 a.merged.2

  abbrev contents_next : S.contents a.file ≡ overwrite (S.contents p.event.payload) offset body
  contents_next = S.contents-write_at p.event.payload a.file offset body a.write_ok

  -- The file behind the write, at a place that holds a byte before.
  stored_old :
      (x v : ℕ)
      → get_elem? (S.contents p.event.payload) x ≡ some v
      → Filled x p.ranges
      → get_elem? (S.contents a.file) x ≡ some v
  stored_old x v e f = rw contents_next (elim (Bool-cases (leb offset x)) [
    | inl l ↦ elim (Bool-cases (leb (offset + length body) x)) [
      | inl m ↦ overwrite-right (S.contents p.event.payload) offset body x (leb→le _ _ m) ∙ e
      | inr m ↦
          overwrite-inside (S.contents p.event.payload) offset body x (leb→le _ _ l) (leb→lt _ _ m)
          ∙ sym (after_merge.agrees x f (leb→le _ _ l) (leb→lt _ _ m))
          ∙ e
    ]
    | inr l ↦
        overwrite-left (S.contents p.event.payload) offset body x (leb→lt _ _ l)
          (get_elem?-length (S.contents p.event.payload) x v e)
        ∙ e
  ])

  stored_new :
      (x v : ℕ)
      → offset ≤ x
      → get_elem? body (x - offset) ≡ some v
      → get_elem? (S.contents a.file) x ≡ some v
  stored_new x v l e = rw contents_next (
      overwrite-inside (S.contents p.event.payload) offset body x l
        (omega (arith, get_elem?-length body (x - offset) v e))
      ∙ e)

  stored_next :
      (x v : ℕ) → Sent ((offset, body) ∷ log) x v → get_elem? (S.contents a.file) x ≡ some v
  stored_next x v (inl (l, e)) = stored_new x v l e
  stored_next x v (inr s) = stored_old x v (k.stored x v s) (k.sent_filled x v s)

  Sent-Filled_next : (x v : ℕ) → Sent ((offset, body) ∷ log) x v → Filled x ranges_next
  unfolding inserted
  Sent-Filled_next x v (inl (l, e)) =
      inserted-new S p.event.payload offset body _ p.ranges a.merged before_merge after_merge x l
        (omega (arith, get_elem?-length body (x - offset) v e))
  Sent-Filled_next x v (inr s) =
      inserted-old S p.event.payload offset body _ p.ranges a.merged before_merge after_merge x
        (k.sent_filled x v s)

  Filled-Sent_next : (x : ℕ) → Filled x ranges_next → (v : ℕ) × Sent ((offset, body) ∷ log) x v
  unfolding inserted
  Filled-Sent_next x f =
      elim (Filled-inserted S p.event.payload offset body _ p.ranges a.merged before_merge
        after_merge x f) [
          | inl g ↦ let (v, s) = k.filled_sent x g in (v, inr s)
          | inr (l, u) ↦ let (v, e) = elem_at body (x - offset) (omega arith) in (v, inl (l, e))
        ]

  span_next : (x : ℕ) → Filled x ranges_next → x < p.event.meta.payload_len
  unfolding inserted
  span_next x f =
      elim (Filled-inserted S p.event.payload offset body _ p.ranges a.merged before_merge
        after_merge x f) [ inl g ↦ k.span x g | inr (l, u) ↦ omega (arith, a.inside) ]

  Accepted-Tracks : Tracks p' ((offset, body) ∷ log)
  unfolding inserted
  Accepted-Tracks =
      subst (λ (q : Pending S). Tracks q ((offset, body) ∷ log)) (sym a.result)
        (record {
          apart =
              inserted-Apart S p.event.payload offset body _ p.ranges a.merged before_merge
                after_merge a.nonempty;
          span = span_next;
          stored = stored_next;
          sent_filled = Sent-Filled_next;
          filled_sent = Filled-Sent_next;
        })

-- A fragment that is accepted is added to what the event tracks.
pub data_record-Tracks :
    {S : Spool} (p p' : Pending S) (offset : ℕ) (body : List ℕ) (log : Fragments)
    → Tracks p log
    → data_record p offset body ≡ ok p'
    → Tracks p' ((offset, body) ∷ log)
data_record-Tracks p p' offset body log k h =
    Accepted-Tracks p p' offset body log k (data_record-Accepted p offset body p' h)
