-- ===== src/Capture/Reassembler/Merge.antt =====
-- crates/usbscope-capture/src/lib.rs, `push`: what the loop over the touched ranges leaves.
use usbscope.Prelude.{
  ℕ, zero, suc, ◌+◌, ◌-◌, ◌<◌, ◌≤◌, ◌≡◌, ◌⊎◌, inl, inr, refl, ap, sym, subst, ◌∙◌, arith, Bool,
  true, false, Bool-cases, &&-eq_true, Option-cases, some, List, [], ◌∷◌, length, take, drop,
  get_elem?, get_elem?-take, get_elem?-drop, leb, ltb, lt→ltb, ◌==◌, ==→eq, ==→ne, ◌&&◌, min, max,
}
use usbscope.Prelude.Result.{Error, ok, ensure, >>=-eq-ok, conflicting_iso_payload}
use usbscope.Capture.Event.{Spool}
use usbscope.Capture.Ranges.{Ranges, first_in, remove}
use usbscope.Capture.Ranges.Laws.{
  In, Apart, Filled, Apart-separate, Apart-unique, first_in-some, first_in-none, remove-Apart,
  remove-In, remove-In_ne, length-remove,
}
use usbscope.Capture.Reassembler.State.{same_bytes}
use usbscope.Capture.Reassembler.Data.{check_overlap, merge}

same_bytes→eq : (xs ys : List ℕ) → same_bytes xs ys ≡ true → xs ≡ ys
unfolding same_bytes
same_bytes→eq [] [] h = refl
same_bytes→eq [] (y ∷ ys) h = absurd (cc)
same_bytes→eq (x ∷ xs) [] h = absurd (cc)
same_bytes→eq (x ∷ xs) (y ∷ ys) h =
    let (p, q) = &&-eq_true (x == y) (same_bytes xs ys) h in ground (arith, same_bytes→eq xs ys q)

-- Element i of a slice.
slice-elem :
    (n k i : ℕ) (xs : List ℕ) → i < n → get_elem? (take n (drop k xs)) i ≡ get_elem? xs (k + i)
slice-elem n k i xs h = get_elem?-take n i (drop k xs) h ∙ get_elem?-drop k i xs

slices-elem :
    (n k l i : ℕ) (xs ys : List ℕ)
    → i < n
    → take n (drop k xs) ≡ take n (drop l ys)
    → get_elem? xs (k + i) ≡ get_elem? ys (l + i)
slices-elem n k l i xs ys h e =
    sym (slice-elem n k i xs h) ∙ ap (λ (zs : List ℕ). get_elem? zs i) e ∙ slice-elem n l i ys h

ensure-true : (e : Error) (b : Bool) {u : Unit {0}} → ensure b e ≡ ok u → b ≡ true
ensure-true e true h = refl
ensure-true e false h = cc

module _ (S : Spool) (file : S.File) (offset : ℕ) (body : List ℕ) where
  abbrev limit : ℕ
  limit = offset + length body

  -- The file has the fragment's byte at a place.
  abbrev pub Agrees : ℕ → Type 0
  Agrees x = get_elem? (S.contents file) x ≡ get_elem? body (x - offset)

  -- A range that passes the test agrees with the fragment wherever they overlap.
  check_overlap-Agrees :
      (a b x : ℕ) (u : Unit {0})
      → check_overlap S file offset body a b ≡ ok u
      → a ≤ x
      → x < b
      → offset ≤ x
      → x < limit
      → Agrees x
  unfolding check_overlap
  check_overlap-Agrees a b x u h p q p' q' =
      let from = max a offset in
      let to = min b limit in
      let inside : ltb from to ≡ true = lt→ltb from to (omega arith) in
      let (_, _, h₁) = >>=-eq-ok (S.seek file from) _ (rw inside at h) in
      let (existing, read, h₂) = >>=-eq-ok (S.read_at file from (to - from)) _ h₁ in
      let (slice, _) = S.read_at-contents file from (to - from) existing read in
      let same =
        ensure-true conflicting_iso_payload
          (same_bytes existing (take (to - from) (drop (from - offset) body))) h₂ in
      let both =
        sym slice ∙ same_bytes→eq existing (take (to - from) (drop (from - offset) body)) same in
      let here : from + (x - from) ≡ x = omega arith in
      let there : from - offset + (x - from) ≡ x - offset = omega arith in
      ap (get_elem? (S.contents file)) (sym here)
      ∙ slices-elem (to - from) from (from - offset) (x - from) (S.contents file) body (omega arith)
          both
      ∙ ap (get_elem? body) there

  -- Where the loop may stand: `first` bounds the ranges that it takes, and what is merged so far
  -- runs from s to e.
  pub record Before (first s e : ℕ) (r : Ranges) : Type 0 where
    pub apart : Apart 0 r
    pub first_le : first ≤ s
    pub start_le : s ≤ offset
    pub end_le : limit ≤ e
    pub left : (a b : ℕ) → In a b r → a < first → b < first
    pub touching : (a b : ℕ) → In a b r → first ≤ a → offset ≤ b
    pub right : (a b : ℕ) → In a b r → limit < a → e < a

  -- What it leaves: the merged range t.0 to t.1, and the other ranges t.2.
  pub record After (first s e : ℕ) (r : Ranges) (t : ℕ × ℕ × Ranges) : Type 0 where
    pub apart : Apart 0 t.2
    pub first_le : first ≤ t.0
    pub start_le : t.0 ≤ s
    pub end_le : e ≤ t.1
    pub kept : (a b : ℕ) → In a b t.2 → In a b r × ((a < first) ⊎ (limit < a))
    pub right : (a b : ℕ) → In a b t.2 → limit < a → t.1 < a
    pub new_fill : (x : ℕ) → t.0 ≤ x → x < t.1 → Filled x r ⊎ ((s ≤ x) × (x < e))
    pub old_fill : (x : ℕ) → Filled x r → Filled x t.2 ⊎ ((t.0 ≤ x) × (x < t.1))
    pub agrees : (x : ℕ) → Filled x r → offset ≤ x → x < limit → Agrees x

  merge-done :
      (first s e : ℕ) (r : Ranges)
      → Before first s e r
      → ((a b : ℕ) → In a b r → (a < first) ⊎ (limit < a))
      → After first s e r (s, e, r)
  merge-done first s e r h none_left = record {
    apart = h.apart;
    first_le = h.first_le;
    start_le = omega arith;
    end_le = omega arith;
    kept = λ a b i. (i, none_left a b i);
    right = h.right;
    new_fill = λ x p q. inr (p, q);
    old_fill = λ x f. inl f;
    agrees = λ x (a, b, i, p, q) l u.
        absurd (merge-done_outside a b x (none_left a b i) (h.left a b i) p q l u);
  }
    where
      merge-done_outside :
          (a b x : ℕ)
          → (a < first) ⊎ (limit < a)
          → (a < first → b < first)
          → a ≤ x
          → x < b
          → offset ≤ x
          → x < limit
          → ⊥
      merge-done_outside a b x (inl o) f p q l u = omega (arith, f o, h.first_le, h.start_le)
      merge-done_outside a b x (inr o) f p q l u = omega arith

  module _ (first s e a b : ℕ) (r : Ranges) (h : Before first s e r) (i : In a b r)
      (from : first ≤ a) (upto : a ≤ limit) where
    Before-remove : Before first (min s a) (max e b) (remove a r)
    Before-remove = record {
      apart = remove-Apart 0 a r h.apart;
      first_le = omega (arith, h.first_le);
      start_le = omega (arith, h.start_le);
      end_le = omega (arith, h.end_le);
      left = λ c d j. h.left c d (remove-In 0 a c d r h.apart j).0;
      touching = λ c d j. h.touching c d (remove-In 0 a c d r h.apart j).0;
      right = λ c d j l.
          let k = (remove-In 0 a c d r h.apart j).0 in
          omega (arith, h.right c d k l, Apart-separate 0 a b c d r h.apart i k (omega arith));
    }

    Filled-remove : (x : ℕ) → Filled x (remove a r) → Filled x r
    Filled-remove x (c, d, j, p, q) = (c, d, (remove-In 0 a c d r h.apart j).0, p, q)

    -- A filled place is in the range from a, or stays filled without it.
    remove-Filled : (x : ℕ) → Filled x r → ((a ≤ x) × (x < b)) ⊎ Filled x (remove a r)
    remove-Filled x (c, d, j, p, q) = elim (Bool-cases (c == a)) [
      | inl t ↦
          let t' = ==→eq c a t in
          let u = Apart-unique 0 a b d r h.apart i (subst (λ k. In k d r) t' j) in inl (omega arith)
      | inr t ↦ inr (c, d, remove-In_ne a c d r j (==→ne c a t), p, q)
    ]

    After-remove :
        (t : ℕ × ℕ × Ranges)
        → ((x : ℕ) → a ≤ x → x < b → offset ≤ x → x < limit → Agrees x)
        → After first (min s a) (max e b) (remove a r) t
        → After first s e r t
    After-remove t agreed k = record {
      apart = k.apart;
      first_le = k.first_le;
      start_le = omega (arith, k.start_le);
      end_le = omega (arith, k.end_le);
      kept = λ c d j. let (j', o) = k.kept c d j in ((remove-In 0 a c d r h.apart j').0, o);
      right = k.right;
      new_fill = λ x p q. After-remove_new x (k.new_fill x p q);
      old_fill = λ x f. elim (remove-Filled x f) [
        | inl v ↦ inr (omega (arith, k.start_le, k.end_le))
        | inr g ↦ k.old_fill x g
      ];
      agrees = λ x f l u. elim (remove-Filled x f) [
        | inl v ↦ agreed x v.0 v.1 l u
        | inr g ↦ k.agrees x g l u
      ];
    }
      where
        After-remove_new :
            (x : ℕ)
            → Filled x (remove a r) ⊎ ((min s a ≤ x) × (x < max e b))
            → Filled x r ⊎ ((s ≤ x) × (x < e))
        After-remove_new x (inl f) = inl (Filled-remove x f)
        After-remove_new x (inr v) = elim (Bool-cases (leb a x && ltb x b)) [
          | inl w ↦ inl (a, b, i, ground arith, ground arith)
          | inr w ↦ inr (ground (arith, h.first_le, h.start_le, h.end_le, h.touching a b i))
        ]

  -- With a round for each range the loop merges exactly the ranges that the fragment touches.
  pub merge-After :
      (rounds first s e : ℕ) (r : Ranges) (t : ℕ × ℕ × Ranges)
      → length r ≤ rounds
      → Before first s e r
      → merge S file offset body rounds first s e r ≡ ok t
      → After first s e r t
  unfolding merge
  merge-After zero first s e [] t l h eq =
      subst (After first s e []) (ground arith) (merge-done first s e [] h (λ a b i. elim i [ ]))
  merge-After zero first s e (x ∷ r) t l h eq = absurd (omega arith)
  merge-After (suc rounds) first s e r t l h eq =
      elim (Option-cases (first_in first (some limit) r)) [
        | inl none_left ↦ subst (After first s e r) (ground arith) (
            merge-done first s e r h
              (λ a b i. first_in-none first limit 0 a b r h.apart none_left i))
        | inr ((a, b), found) ↦
            let (i, from, upto) = first_in-some first limit a b r found in
            let (u, checked, rest) =
              >>=-eq-ok (check_overlap S file offset body a b) _ (rw (found, merge) at eq) in
            After-remove first s e a b r h i from upto t (λ x. check_overlap-Agrees a b x u checked)
              (merge-After rounds first (min s a) (max e b) (remove a r) t
                (omega (arith, length-remove a b r i)) (Before-remove first s e a b r h i from upto)
                rest)
      ]
