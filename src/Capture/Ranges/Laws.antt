-- ===== src/Capture/Ranges/Laws.antt =====
-- The map of filled ranges: its order, and what each operation does to the entries.
use usbscope.Prelude.{
  ℕ, suc, ◌<◌, ◌≤◌, ◌≡◌, ◌≢◌, ◌⊎◌, inl, inr, refl, ap, arith, false, Bool-cases, Option,
  Option-cases, none, some, [], ◌∷◌, length, leb, ltb, ◌==◌,
}
use usbscope.Capture.Ranges.{Ranges, last_up_to, first_in, remove, insert}

-- The entry from a to b is in the map.
abbrev pub In : ℕ → ℕ → Ranges → Type 0
In a b [] = ⊥
In a b ((c, d) ∷ r) = ((a ≡ c) × (b ≡ d)) ⊎ In a b r

-- From a bound on, ranges that are not empty follow one another with a gap between them.
abbrev pub Apart : ℕ → Ranges → Type 0
Apart lo [] = Unit
Apart lo ((a, b) ∷ r) = (lo ≤ a) × (a < b) × Apart (suc b) r

-- Some range holds the place.
abbrev pub Filled : ℕ → Ranges → Type 0
Filled x r = (a : ℕ) × (b : ℕ) × In a b r × (a ≤ x) × (x < b)

pub Apart-weaken : (lo lo' : ℕ) (r : Ranges) → lo ≤ lo' → Apart lo' r → Apart lo r
Apart-weaken lo lo' [] h k = tt
Apart-weaken lo lo' ((a, b) ∷ r) h k = (omega arith, k.1, k.2)

pub Apart-In : (lo a b : ℕ) (r : Ranges) → Apart lo r → In a b r → (lo ≤ a) × (a < b)
Apart-In lo a b [] k i = elim i [ ]
Apart-In lo a b ((c, d) ∷ r) k (inl e) = omega arith
Apart-In lo a b ((c, d) ∷ r) k (inr i) = omega (arith, Apart-In (suc d) a b r k.2 i)

-- Of two entries the one that starts first ends before the other starts.
pub Apart-separate :
    (lo a b c d : ℕ) (r : Ranges) → Apart lo r → In a b r → In c d r → a < c → b < c
Apart-separate lo a b c d [] k i j h = elim i [ ]
Apart-separate lo a b c d ((u, v) ∷ r) k (inl e) (inl e') h = absurd (omega arith)
Apart-separate lo a b c d ((u, v) ∷ r) k (inl e) (inr j) h =
    omega (arith, Apart-In (suc v) c d r k.2 j)
Apart-separate lo a b c d ((u, v) ∷ r) k (inr i) (inl e') h =
    absurd (omega (arith, Apart-In (suc v) a b r k.2 i))
Apart-separate lo a b c d ((u, v) ∷ r) k (inr i) (inr j) h =
    Apart-separate (suc v) a b c d r k.2 i j h

-- A start has one end.
pub Apart-unique : (lo a b d : ℕ) (r : Ranges) → Apart lo r → In a b r → In a d r → b ≡ d
Apart-unique lo a b d [] k i j = elim i [ ]
Apart-unique lo a b d ((u, v) ∷ r) k (inl e) (inl e') = omega arith
Apart-unique lo a b d ((u, v) ∷ r) k (inl e) (inr j) =
    absurd (omega (arith, Apart-In (suc v) a d r k.2 j))
Apart-unique lo a b d ((u, v) ∷ r) k (inr i) (inl e') =
    absurd (omega (arith, Apart-In (suc v) a b r k.2 i))
Apart-unique lo a b d ((u, v) ∷ r) k (inr i) (inr j) = Apart-unique (suc v) a b d r k.2 i j

abbrev Within : ℕ → Option ℕ → ℕ → Type 0
Within lo none a = lo ≤ a
Within lo (some hi) a = (lo ≤ a) × (a ≤ hi)

-- What first_in finds is an entry that starts within the bounds.
pub first_in-some :
    (lo hi a b : ℕ) (r : Ranges)
    → first_in lo (some hi) r ≡ some (a, b)
    → In a b r × (lo ≤ a) × (a ≤ hi)
unfolding first_in
first_in-some lo hi a b [] h = absurd (cc)
first_in-some lo hi a b ((c, d) ∷ r) h = elim (Bool-cases (ltb c lo)) [
  | inl e ↦ let (i, p, q) = first_in-some lo hi a b r (rw e at h) in (inr i, p, q)
  | inr e ↦ elim (Bool-cases (leb c hi)) [
    | inl e' ↦ (inl (ground arith), ground arith, ground arith)
    | inr e' ↦ absurd (ground arith)
  ]
]

-- Where it finds none, no entry starts within the bounds.
pub first_in-none :
    (lo hi l a b : ℕ) (r : Ranges)
    → Apart l r
    → first_in lo (some hi) r ≡ none
    → In a b r
    → (a < lo) ⊎ (hi < a)
unfolding first_in
first_in-none lo hi l a b [] k h i = elim i [ ]
first_in-none lo hi l a b ((c, d) ∷ r) k h i = elim (Bool-cases (ltb c lo)) [
  | inl e ↦ elim i [
    | inl p ↦ inl (ground arith)
    | inr i ↦ first_in-none lo hi (suc d) a b r k.2 (rw e at h) i
  ]
  | inr e ↦ elim i [
    | inl p ↦ inr (ground arith)
    | inr i ↦ inr (ground (arith, Apart-In (suc d) a b r k.2 i))
  ]
]

pub remove-Apart : (lo key : ℕ) (r : Ranges) → Apart lo r → Apart lo (remove key r)
unfolding remove
remove-Apart lo key [] k = tt
remove-Apart lo key ((a, b) ∷ r) k = elim (Bool-cases (a == key)) [
  | inl e ↦ rw e (Apart-weaken lo (suc b) r (omega arith) k.2)
  | inr e ↦ rw e (k.0, k.1, remove-Apart (suc b) key r k.2)
]

remove-In_kept :
    (lo key a b c d : ℕ) (r : Ranges)
    → (c == key) ≡ false
    → (In a b (remove key r) → In a b r × (a ≢ key))
    → In a b ((c, d) ∷ remove key r)
    → In a b ((c, d) ∷ r) × (a ≢ key)
remove-In_kept lo key a b c d r e f (inl p) = (inl p, ground arith)
remove-In_kept lo key a b c d r e f (inr i) = let (j, n) = f i in (inr j, n)

pub remove-In :
    (lo key a b : ℕ) (r : Ranges) → Apart lo r → In a b (remove key r) → In a b r × (a ≢ key)
unfolding remove
remove-In lo key a b [] k i = elim i [ ]
remove-In lo key a b ((c, d) ∷ r) k i = elim (Bool-cases (c == key)) [
  | inl e ↦ let j : In a b r = (rw e at i) in (inr j, ground (arith, Apart-In (suc d) a b r k.2 j))
  | inr e ↦ remove-In_kept lo key a b c d r e (remove-In (suc d) key a b r k.2) (rw e at i)
]

pub remove-In_ne : (key a b : ℕ) (r : Ranges) → In a b r → a ≢ key → In a b (remove key r)
unfolding remove
remove-In_ne key a b [] i h = i
remove-In_ne key a b ((c, d) ∷ r) i h = elim (Bool-cases (c == key)) [
  | inl e ↦ rw e (elim i [ inl p ↦ absurd (h (ground arith)) | inr j ↦ j ])
  | inr e ↦ rw e (elim i [ inl p ↦ inl p | inr j ↦ inr (remove-In_ne key a b r j h) ])
]

pub length-remove : (a b : ℕ) (r : Ranges) → In a b r → suc (length (remove a r)) ≡ length r
unfolding remove
length-remove a b [] i = elim i [ ]
length-remove a b ((c, d) ∷ r) (inl e) = ground arith
length-remove a b ((c, d) ∷ r) (inr i) = elim (Bool-cases (c == a)) [
  | inl e ↦ rw e
  | inr e ↦ rw e (ap suc (length-remove a b r i))
]

-- An insertion keeps the order where the new range touches no other.
pub insert-Apart :
    (lo s e : ℕ) (r : Ranges)
    → Apart lo r
    → lo ≤ s
    → s < e
    → ((a b : ℕ) → In a b r → a < s → b < s)
    → ((a b : ℕ) → In a b r → s ≤ a → e < a)
    → Apart lo (insert s e r)
unfolding insert
insert-Apart lo s e [] k l h before behind = omega arith
insert-Apart lo s e ((a, b) ∷ r) k l h before behind = elim (Bool-cases (ltb s a)) [
  | inl t ↦ rw t (l, h, (ground (arith, behind a b (inl (refl, refl))), k.1, k.2))
  | inr t ↦ elim (Bool-cases (a == s)) [
    | inl u ↦ absurd (ground (arith, behind a b (inl (refl, refl))))
    | inr u ↦
        rw (t, u)
          (
            k.0,
            k.1,
            insert-Apart (suc b) s e r k.2 (ground (arith, before a b (inl (refl, refl)))) h
                (λ c d i. before c d (inr i)) (λ c d i. behind c d (inr i)),
          )
  ]
]

pub insert-In : (s e : ℕ) (r : Ranges) → In s e (insert s e r)
unfolding insert
insert-In s e [] = inl (refl, refl)
insert-In s e ((a, b) ∷ r) = elim (Bool-cases (ltb s a)) [
  | inl t ↦ rw t (inl (refl, refl))
  | inr t ↦ elim (Bool-cases (a == s)) [
    | inl u ↦ rw (t, u) (inl (refl, refl))
    | inr u ↦ rw (t, u) (inr (insert-In s e r))
  ]
]

pub insert-In_old : (s e a b : ℕ) (r : Ranges) → In a b r → a ≢ s → In a b (insert s e r)
unfolding insert
insert-In_old s e a b [] i h = elim i [ ]
insert-In_old s e a b ((c, d) ∷ r) i h = elim (Bool-cases (ltb s c)) [
  | inl t ↦ rw t (inr i)
  | inr t ↦ elim (Bool-cases (c == s)) [
    | inl u ↦ rw (t, u) (elim i [ inl p ↦ absurd (h (ground arith)) | inr j ↦ inr j ])
    | inr u ↦ rw (t, u) (elim i [ inl p ↦ inl p | inr j ↦ inr (insert-In_old s e a b r j h) ])
  ]
]

insert-In_cases :
    (s e a b c d : ℕ) (r : Ranges)
    → (In a b (insert s e r) → ((a ≡ s) × (b ≡ e)) ⊎ In a b r)
    → In a b ((c, d) ∷ insert s e r)
    → ((a ≡ s) × (b ≡ e)) ⊎ In a b ((c, d) ∷ r)
insert-In_cases s e a b c d r f (inl p) = inr (inl p)
insert-In_cases s e a b c d r f (inr i) = elim (f i) [ inl p ↦ inl p | inr j ↦ inr (inr j) ]

pub In-insert : (s e a b : ℕ) (r : Ranges) → In a b (insert s e r) → ((a ≡ s) × (b ≡ e)) ⊎ In a b r
unfolding insert
In-insert s e a b [] i = elim i [ inl p ↦ inl p | inr j ↦ inr j ]
In-insert s e a b ((c, d) ∷ r) i = elim (Bool-cases (ltb s c)) [
  | inl t ↦ (rw t at i)
  | inr t ↦ elim (Bool-cases (c == s)) [
    | inl u ↦ In-insert_over (rw (t, u) at i)
    | inr u ↦ insert-In_cases s e a b c d r (In-insert s e a b r) (rw (t, u) at i)
  ]
]
  where
    In-insert_over : In a b ((s, e) ∷ r) → ((a ≡ s) × (b ≡ e)) ⊎ In a b ((c, d) ∷ r)
    In-insert_over (inl p) = inl p
    In-insert_over (inr j) = inr (inr j)

-- What last_up_to finds is an entry; the entries that start later start behind the bound.
pub last_up_to-some :
    (at a b : ℕ) (r : Ranges) → last_up_to at r ≡ some (a, b) → In a b r × (a ≤ at)
unfolding last_up_to
last_up_to-some at a b [] h = absurd (cc)
last_up_to-some at a b ((c, d) ∷ r) h = elim (Option-cases (last_up_to at r)) [
  | inl e ↦ (inl (ground arith), ground arith)
  | inr ((u, v), e) ↦ let (i, l) = last_up_to-some at a b r (ground arith) in (inr i, l)
]

pub last_up_to-none :
    (at lo a b : ℕ) (r : Ranges) → Apart lo r → last_up_to at r ≡ none → In a b r → at < a
unfolding last_up_to
last_up_to-none at lo a b [] k h i = elim i [ ]
last_up_to-none at lo a b ((c, d) ∷ r) k h (inl e) = ground arith
last_up_to-none at lo a b ((c, d) ∷ r) k h (inr i) = ground (arith, Apart-In (suc d) a b r k.2 i)

pub last_up_to-max :
    (at lo a b c d : ℕ) (r : Ranges)
    → Apart lo r
    → last_up_to at r ≡ some (a, b)
    → In c d r
    → c ≤ at
    → c ≤ a
unfolding last_up_to
last_up_to-max at lo a b c d [] k h i l = elim i [ ]
last_up_to-max at lo a b c d ((u, v) ∷ r) k h i l = elim (Option-cases (last_up_to at r)) [
  | inl e ↦ elim i [
    | inl p ↦ ground arith
    | inr j ↦ absurd (omega (arith, last_up_to-none at (suc v) c d r k.2 e j))
  ]
  | inr ((x, y), e) ↦ elim i [
    | inl p ↦ ground (arith, last_up_to-some at x y r e, Apart-In (suc v) x y r k.2)
    | inr j ↦ last_up_to-max at (suc v) a b c d r k.2 (ground arith) j l
  ]
]
