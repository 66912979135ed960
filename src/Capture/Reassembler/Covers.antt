-- ===== src/Capture/Reassembler/Covers.antt =====
-- crates/usbscope-capture/src/lib.rs, the closure `covers`: one range holds the interval exactly if
-- every place of the interval is filled, as long as ranges that touch are merged.
use usbscope.Prelude.{
  ℕ, ◌+◌, ◌<◌, ◌≤◌, ◌^◌, ◌≡◌, ◌↔◌, inl, inr, subst, arith, true, Bool-cases, Option-cases, leb, ltb,
  ◌==◌, ==→eq, ltb→lt,
}
use usbscope.Capture.Ranges.{Ranges, last_up_to}
use usbscope.Capture.Ranges.Laws.{
  In, Apart, Filled, Apart-In, Apart-separate, Apart-unique, last_up_to-some, last_up_to-none,
  last_up_to-max,
}
use usbscope.Capture.Reassembler.End.{covers}

module _ (r : Ranges) (k : Apart 0 r) (start len : ℕ) where
  pub covers-Filled : covers r start len ≡ true → (x : ℕ) → start ≤ x → x < start + len → Filled x r
  unfolding covers
  covers-Filled h x p q = elim (Option-cases (last_up_to start r)) [
    | inl e ↦ absurd (ground arith)
    | inr ((a, b), e) ↦
        let (i, l) = last_up_to-some start a b r e in (a, b, i, omega arith, ground arith)
  ]

  -- Two ranges do not touch: no range holds the end of another.
  ends_apart : (a b c d : ℕ) → In a b r → In c d r → c ≤ b → b < d → a ≤ b → ⊥
  ends_apart a b c d i j p q s = elim (Bool-cases (c == a)) [
    | inl e ↦
        let e' = ==→eq c a e in
        omega (arith, Apart-unique 0 a b d r k i (subst (λ z. In z d r) e' j))
    | inr e ↦ elim (Bool-cases (ltb a c)) [
      | inl o ↦ omega (arith, Apart-separate 0 a b c d r k i j (ltb→lt a c o))
      | inr o ↦ omega (arith, Apart-separate 0 c d a b r k j i (ground arith), Apart-In 0 a b r k i)
    ]
  ]

  -- A range that holds the first place and ends early leaves the place of its end empty.
  reaches-Filled :
      (a b : ℕ)
      → In a b r
      → a ≤ start
      → start < b
      → ((x : ℕ) → start ≤ x → x < start + len → Filled x r)
      → start + len ≤ b
  reaches-Filled a b i l u filled = elim (Bool-cases (leb (start + len) b)) [
    | inl e ↦ ground arith
    | inr e ↦
        let (c, d, j, p, q) = filled b (omega arith) (ground arith) in
        absurd (ends_apart a b c d i j p q (omega arith))
  ]

  Filled-covers :
      start + len < 2 ^ 64
      → ((x : ℕ) → start ≤ x → x < start + len → Filled x r)
      → covers r start len ≡ true
  unfolding covers
  Filled-covers small filled = elim (Bool-cases (len == 0)) [
    | inl e ↦ rw e
    | inr e ↦
        let (a, b, i, p, q) = filled start (omega arith) (ground arith) in
        elim (Option-cases (last_up_to start r)) [
          | inl n ↦ absurd (omega (arith, last_up_to-none start 0 a b r k n i))
          | inr ((c, d), f) ↦
              let (j, l) = last_up_to-some start c d r f in
              let m = last_up_to-max start 0 c d a b r k f i p in
              let u : start < d = Filled-covers_end a b c d i j p q l m in
              ground (arith, reaches-Filled c d j l u filled)
        ]
  ]
    where
      Filled-covers_end :
          (a b c d : ℕ)
          → In a b r
          → In c d r
          → a ≤ start
          → start < b
          → c ≤ start
          → a ≤ c
          → start < d
      Filled-covers_end a b c d i j p q l m = elim (Bool-cases (c == a)) [
        | inl e ↦
            let e' = ==→eq c a e in
            omega (arith, Apart-unique 0 a b d r k i (subst (λ z. In z d r) e' j))
        | inr e ↦ absurd (omega (arith, Apart-separate 0 a b c d r k i j (ground arith)))
      ]

  -- On ranges in ascending order that neither overlap nor touch, and for an interval whose end is
  -- below 2 ^ 64, the test holds exactly if every place of the interval is in some range.
  pub covers_iff :
      start + len < 2 ^ 64
      → (covers r start len ≡ true) ↔ ((x : ℕ) → start ≤ x → x < start + len → Filled x r)
  covers_iff small = (covers-Filled, Filled-covers small)
