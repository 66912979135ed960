-- ===== src/Prelude/Lists.antt =====
-- Lists measured and indexed by native numbers, under the library's names.
use Prim.Native.Nat.{ℕ, zero, suc, ◌+◌, ◌-◌, ◌<◌, ◌≤◌, min}
use mathlib.Core.Path.{◌≡◌, refl, ap, sym, subst, ◌∙◌}
use mathlib.Core.Bool.{Bool, true, false, ◌&&◌, ◌||◌}
use mathlib.Core.List.{List, [], ◌∷◌, ◌++◌}
use mathlib.Core.Option.{Option, none, some, some-injective}
use native.Mathlib.Omega.{arith}

module _ {ℓ} {A : Type ℓ} where
  abbrev pub length : List A → ℕ
  length [] = 0
  length (x ∷ xs) = suc (length xs)

  abbrev pub get_elem? : List A → ℕ → Option A
  get_elem? [] i = none
  get_elem? (x ∷ xs) zero = some x
  get_elem? (x ∷ xs) (suc i) = get_elem? xs i

  abbrev pub get_or : List A → ℕ → A → A
  get_or [] i d = d
  get_or (x ∷ xs) zero d = x
  get_or (x ∷ xs) (suc i) d = get_or xs i d

  -- A write out of bounds changes nothing.
  abbrev pub set : List A → ℕ → A → List A
  set [] i v = []
  set (x ∷ xs) zero v = v ∷ xs
  set (x ∷ xs) (suc i) v = x ∷ set xs i v

  abbrev pub take : ℕ → List A → List A
  take zero xs = []
  take (suc n) [] = []
  take (suc n) (x ∷ xs) = x ∷ take n xs

  abbrev pub drop : ℕ → List A → List A
  drop zero xs = xs
  drop (suc n) [] = []
  drop (suc n) (x ∷ xs) = drop n xs

  abbrev pub replicate : ℕ → A → List A
  replicate zero a = []
  replicate (suc n) a = a ∷ replicate n a

  -- Iterator::any and Iterator::all
  abbrev pub any : (A → Bool) → List A → Bool
  any p [] = false
  any p (x ∷ xs) = p x || any p xs

  abbrev pub all : (A → Bool) → List A → Bool
  all p [] = true
  all p (x ∷ xs) = p x && all p xs

  -- Every element satisfies the predicate.
  abbrev pub All {κ} : (A → Type κ) → List A → Type κ
  All P [] = Unit
  All P (x ∷ xs) = P x × All P xs

module _ {ℓ} {A : Type ℓ} where
  pub length-append : (xs ys : List A) → length (xs ++ ys) ≡ length xs + length ys
  length-append [] ys = omega arith
  length-append (x ∷ xs) ys = omega (arith, length-append xs ys)

  pub take-append-drop : (n : ℕ) (xs : List A) → take n xs ++ drop n xs ≡ xs
  take-append-drop zero xs = refl
  take-append-drop (suc n) [] = refl
  take-append-drop (suc n) (x ∷ xs) = rw (take-append-drop n xs)

  pub length-take : (n : ℕ) (xs : List A) → length (take n xs) ≡ min n (length xs)
  length-take zero xs = omega arith
  length-take (suc n) [] = omega arith
  length-take (suc n) (x ∷ xs) = omega (arith, length-take n xs)

  pub length-drop : (n : ℕ) (xs : List A) → length (drop n xs) ≡ length xs - n
  length-drop zero xs = omega arith
  length-drop (suc n) [] = omega arith
  length-drop (suc n) (x ∷ xs) = omega (arith, length-drop n xs)

  pub length-replicate : (n : ℕ) (a : A) → length (replicate n a) ≡ n
  length-replicate zero a = refl
  length-replicate (suc n) a = ap suc (length-replicate n a)

  pub take-all : (n : ℕ) (xs : List A) → length xs ≤ n → take n xs ≡ xs
  take-all zero [] h = refl
  take-all zero (x ∷ xs) h = absurd (omega arith)
  take-all (suc n) [] h = refl
  take-all (suc n) (x ∷ xs) h = ap (λ t. x ∷ t) (take-all n xs (omega arith))

  pub All-append {κ} : (P : A → Type κ) (xs ys : List A) → All P xs → All P ys → All P (xs ++ ys)
  All-append P [] ys h k = k
  All-append P (x ∷ xs) ys h k = (h.0, All-append P xs ys h.1 k)

  pub All-take {κ} : (P : A → Type κ) (n : ℕ) (xs : List A) → All P xs → All P (take n xs)
  All-take P zero xs h = tt
  All-take P (suc n) [] h = tt
  All-take P (suc n) (x ∷ xs) h = (h.0, All-take P n xs h.1)

  pub All-imp {κ κ'} :
      (P : A → Type κ) (Q : A → Type κ')
      → ((x : A) → P x → Q x)
      → (xs : List A) → All P xs
      → All Q xs
  All-imp P Q f [] h = tt
  All-imp P Q f (x ∷ xs) h = (f x h.0, All-imp P Q f xs h.1)

  pub length-set : (xs : List A) (i : ℕ) (v : A) → length (set xs i v) ≡ length xs
  length-set [] i v = refl
  length-set (x ∷ xs) zero v = refl
  length-set (x ∷ xs) (suc i) v = ap suc (length-set xs i v)

  pub All-set {κ} :
      (P : A → Type κ) (xs : List A) (i : ℕ) (v : A) → All P xs → P v → All P (set xs i v)
  All-set P [] i v h k = tt
  All-set P (x ∷ xs) zero v h k = (k, h.1)
  All-set P (x ∷ xs) (suc i) v h k = (h.0, All-set P xs i v h.1 k)

  pub All-replicate {κ} : (P : A → Type κ) (n : ℕ) (v : A) → P v → All P (replicate n v)
  All-replicate P zero v k = tt
  All-replicate P (suc n) v k = (k, All-replicate P n v k)

  pub All-get_elem? {κ} :
      (P : A → Type κ) (xs : List A) (i : ℕ) (v : A) → get_elem? xs i ≡ some v → All P xs → P v
  All-get_elem? P [] i v e h = absurd (cc)
  All-get_elem? P (x ∷ xs) zero v e h = subst P (some-injective x v e) h.0
  All-get_elem? P (x ∷ xs) (suc i) v e h = All-get_elem? P xs i v e h.1

  pub get_elem?-take : (n i : ℕ) (xs : List A) → i < n → get_elem? (take n xs) i ≡ get_elem? xs i
  get_elem?-take zero i xs h = absurd (omega arith)
  get_elem?-take (suc n) i [] h = refl
  get_elem?-take (suc n) zero (x ∷ xs) h = refl
  get_elem?-take (suc n) (suc i) (x ∷ xs) h = get_elem?-take n i xs (omega arith)

  pub get_elem?-drop : (k i : ℕ) (xs : List A) → get_elem? (drop k xs) i ≡ get_elem? xs (k + i)
  get_elem?-drop zero i xs = ap (get_elem? xs) (omega arith)
  get_elem?-drop (suc k) i [] = refl
  get_elem?-drop (suc k) i (x ∷ xs) =
      let e : suc k + i ≡ suc (k + i) = omega arith in rw e (get_elem?-drop k i xs)

  pub get_elem?-append_left :
      (xs ys : List A) (i : ℕ) → i < length xs → get_elem? (xs ++ ys) i ≡ get_elem? xs i
  get_elem?-append_left [] ys i h = absurd (omega arith)
  get_elem?-append_left (x ∷ xs) ys zero h = refl
  get_elem?-append_left (x ∷ xs) ys (suc i) h = get_elem?-append_left xs ys i (omega arith)

  pub get_elem?-append_right :
      (xs ys : List A) (i : ℕ) → get_elem? (xs ++ ys) (length xs + i) ≡ get_elem? ys i
  get_elem?-append_right [] ys i = ap (get_elem? ys) (omega arith)
  get_elem?-append_right (x ∷ xs) ys i =
      let e : suc (length xs) + i ≡ suc (length xs + i) = omega arith in
      rw e (get_elem?-append_right xs ys i)

  pub get_elem?-length : (xs : List A) (i : ℕ) (v : A) → get_elem? xs i ≡ some v → i < length xs
  get_elem?-length [] i v h = absurd (cc)
  get_elem?-length (x ∷ xs) zero v h = omega arith
  get_elem?-length (x ∷ xs) (suc i) v h = omega (arith, get_elem?-length xs i v h)

  pub drop-append_exact : (xs ys : List A) → drop (length xs) (xs ++ ys) ≡ ys
  drop-append_exact [] ys = refl
  drop-append_exact (x ∷ xs) ys = drop-append_exact xs ys

  pub take-append_exact : (xs ys : List A) → take (length xs) (xs ++ ys) ≡ xs
  take-append_exact [] ys = refl
  take-append_exact (x ∷ xs) ys = ap (λ zs. x ∷ zs) (take-append_exact xs ys)

  -- What is behind a list, and more.
  pub drop-past : (n k : ℕ) (xs ys : List A) → length xs ≡ n → drop (n + k) (xs ++ ys) ≡ drop k ys
  drop-past zero k [] ys h = ap (λ m. drop m ys) (omega arith)
  drop-past zero k (x ∷ xs) ys h = absurd (omega (arith, h))
  drop-past (suc n) k [] ys h = absurd (omega (arith, h))
  drop-past (suc n) k (x ∷ xs) ys h =
      let e : suc n + k ≡ suc (n + k) = omega arith in
      ap (λ m. drop m ((x ∷ xs) ++ ys)) e ∙ drop-past n k xs ys (omega (arith, h))

  pub length_0 : (xs : List A) → length xs ≡ 0 → xs ≡ []
  length_0 [] h = refl
  length_0 (x ∷ xs) h = absurd (omega (arith, h))

  pub append-cancel : (xs ys zs : List A) → xs ++ ys ≡ xs ++ zs → ys ≡ zs
  append-cancel xs ys zs h =
      sym (drop-append_exact xs ys) ∙ ap (drop (length xs)) h ∙ drop-append_exact xs zs
