-- ===== src/Kernel/Accounting/Entries.antt =====
-- The entries of the map INFLIGHT: one for a key, and one for a number.
use usbscope.Prelude.{
  ℕ, ◌≤◌, ◌≡◌, ◌≢◌, some, List, [], ◌∷◌, All, arith, inl, inr, Bool-cases, ==→eq, ◌==◌, subst, sym,
}
use usbscope.Capture.Reassembler.State.{find, erase, put}
use usbscope.Kernel.Machine.{State}
use usbscope.Capture.Reassembler.Maps.{Distinct}

-- No entry has this number.
abbrev pub Fresh : ℕ → List (ℕ × State) → Type 0
Fresh id m = All (λ (e : ℕ × State). e.1.id ≢ id) m

-- Each number is at most n.
abbrev pub Below : ℕ → List (ℕ × State) → Type 0
Below n m = All (λ (e : ℕ × State). e.1.id ≤ n) m

abbrev pub Numbered : List (ℕ × State) → Type 0
Numbered [] = Unit
Numbered (e ∷ m) = Fresh e.1.id m × Numbered m

pub erase-All :
    (P : ℕ × State → Type 0) (a : ℕ) (m : List (ℕ × State)) → All P m → All P (erase a m)
unfolding erase
erase-All P a [] h = tt
erase-All P a ((j, s) ∷ m) h = elim (Bool-cases (j == a)) [
  | inl e ↦ rw e (erase-All P a m h.1)
  | inr e ↦ rw e (h.0, erase-All P a m h.1)
]

pub erase-Numbered : (a : ℕ) (m : List (ℕ × State)) → Numbered m → Numbered (erase a m)
unfolding erase
erase-Numbered a [] h = tt
erase-Numbered a ((j, s) ∷ m) h = elim (Bool-cases (j == a)) [
  | inl e ↦ rw e (erase-Numbered a m h.1)
  | inr e ↦ rw e (erase-All _ a m h.0, erase-Numbered a m h.1)
]

pub find-All :
    (P : ℕ × State → Type 0) (a : ℕ) (s : State) (m : List (ℕ × State))
    → find a m ≡ some s
    → All P m
    → P (a, s)
unfolding find
find-All P a s [] h all = absurd (ground (arith, h))
find-All P a s ((j, u) ∷ m) h all = elim (Bool-cases (j == a)) [
  | inl e ↦
      let key = ==→eq j a e in
      let value : u ≡ s = ground (arith, e, h) in
      subst (λ x. P (x, s)) key (subst (λ x. P (j, x)) value all.0)
  | inr e ↦ find-All P a s m (ground (arith, e, h)) all.1
]

-- The number of an entry is that of no other.
pub erase-Fresh :
    (a : ℕ) (s : State) (m : List (ℕ × State))
    → Distinct m
    → Numbered m
    → find a m ≡ some s
    → Fresh s.id (erase a m)
unfolding find erase
erase-Fresh a s [] d n h = absurd (ground (arith, h))
erase-Fresh a s ((j, u) ∷ m) d n h = elim (Bool-cases (j == a)) [
  | inl e ↦
      let same : u ≡ s = ground (arith, e, h) in
      rw e (erase-All _ a m (subst (λ x. Fresh x.id m) same n.0))
  | inr e ↦
      let rest : find a m ≡ some s = ground (arith, e, h) in
      let other = find-All (λ f. f.1.id ≢ u.id) a s m rest n.0 in
      rw e (λ same. other (sym same), erase-Fresh a s m d.1 n.1 rest)
]

pub put-Numbered :
    (a : ℕ) (s : State) (m : List (ℕ × State))
    → Fresh s.id (erase a m)
    → Numbered m
    → Numbered (put a s m)
unfolding put
put-Numbered a s m fresh n = (fresh, erase-Numbered a m n)

pub put-Below :
    (a : ℕ) (s : State) (n : ℕ) (m : List (ℕ × State)) → s.id ≤ n → Below n m → Below n (put a s m)
unfolding put
put-Below a s n m le below = (le, erase-All _ a m below)
