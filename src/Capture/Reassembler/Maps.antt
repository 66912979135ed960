-- ===== src/Capture/Reassembler/Maps.antt =====
-- The map of unfinished events: what each operation leaves at each id.
use usbscope.Prelude.{
  ℕ, suc, ◌≤◌, ◌≡◌, refl, subst, inl, inr, Bool-cases, arith, none, some, List, [], ◌∷◌, ◌==◌,
  ==→eq, if◌then◌else◌, length,
}
use usbscope.Capture.Reassembler.State.{find, erase, put}

module _ {ℓ} {V : Type ℓ} where
  pub find-erase :
      (id j : ℕ) (m : List (ℕ × V)) → find j (erase id m) ≡ (if id == j then none else find j m)
  unfolding find erase
  find-erase id j [] = ground arith
  find-erase id j ((i, v) ∷ m) = ground (arith, find-erase id j m)

  pub find-put :
      (id j : ℕ) (v : V) (m : List (ℕ × V))
      → find j (put id v m) ≡ (if id == j then some v else find j m)
  unfolding find put
  find-put id j v m = ground (arith, find-erase id j m)

  pub length-erase : (id : ℕ) (m : List (ℕ × V)) → length (erase id m) ≤ length m
  unfolding erase
  length-erase id [] = omega arith
  length-erase id ((i, v) ∷ m) = ground (arith, length-erase id m)

  -- No two entries have the same key.
  abbrev pub Distinct : List (ℕ × V) → Type ℓ
  Distinct [] = Unit
  Distinct ((j, v) ∷ m) = (find j m ≡ none) × Distinct m

  pub erase-unknown : (a : ℕ) (m : List (ℕ × V)) → find a m ≡ none → erase a m ≡ m
  unfolding find erase
  erase-unknown a [] h = refl
  erase-unknown a ((j, v) ∷ m) h = elim (Bool-cases (j == a)) [
    | inl e ↦ absurd (ground (arith, e, h))
    | inr e ↦ rw (e, erase-unknown a m (ground (arith, e, h))) refl
  ]

  pub erase-Distinct : (a : ℕ) (m : List (ℕ × V)) → Distinct m → Distinct (erase a m)
  unfolding erase
  erase-Distinct a [] d = tt
  erase-Distinct a ((j, v) ∷ m) d = elim (Bool-cases (j == a)) [
    | inl e ↦ rw e (erase-Distinct a m d.1)
    | inr e ↦ rw e (ground (arith, find-erase a j m, d.0), erase-Distinct a m d.1)
  ]

  pub length-erase_known :
      (a : ℕ) (v : V) (m : List (ℕ × V))
      → Distinct m
      → find a m ≡ some v
      → length m ≡ suc (length (erase a m))
  unfolding find erase
  length-erase_known a v [] d h = absurd (ground (arith, h))
  length-erase_known a v ((j, u) ∷ m) d h = elim (Bool-cases (j == a)) [
    | inl e ↦
        let same : find a m ≡ none = subst (λ x. find x m ≡ none) (==→eq j a e) d.0 in
        rw (e, erase-unknown a m same) refl
    | inr e ↦
        let rest = length-erase_known a v m d.1 (ground (arith, e, h)) in rw e (omega (arith, rest))
  ]

  pub put-Distinct : (a : ℕ) (v : V) (m : List (ℕ × V)) → Distinct m → Distinct (put a v m)
  unfolding put
  put-Distinct a v m d = (ground (arith, find-erase a a m), erase-Distinct a m d)
