-- ===== src/Filter/Balance.antt =====
-- crates/usbscope-capture/src/filter.rs: `balanced`, which joins a flat list of nodes into a tree.
use usbscope.Prelude.{
  ℕ, zero, suc, ◌+◌, ◌*◌, ◌^◌, ◌≤◌, max, ◌≡◌, refl, sym, ◌∙◌, Bool, true, false, Option, none, some,
  List, [], ◌∷◌, length, All, arith, if◌then◌else◌,
}
use usbscope.Prelude.Result.{Result, ok, ◌>>=◌}
use usbscope.Capture.Event.{Spool, Event}
use usbscope.Filter.Truth.{Truth, is_match, no_match, both, either, is_true, is_false}
use usbscope.Filter.Syntax.{Expr, conj, disj, negation}
use usbscope.Filter.Evaluate.{evaluate}

abbrev join : Bool → Expr → Expr → Expr
join true a b = conj a b
join false a b = disj a b

-- One round: neighbours are joined, and an odd last node is kept.
unfoldable pairs : Bool → List Expr → List Expr
pairs is_and [] = []
pairs is_and (a ∷ []) = a ∷ []
pairs is_and (a ∷ b ∷ rest) = join is_and a b ∷ pairs is_and rest

-- None is the panic of `unwrap` on an empty list; the fuel bounds the rounds.
unfoldable rounds : ℕ → Bool → List Expr → Option Expr
unfolding pairs
rounds fuel is_and [] = none
rounds fuel is_and (a ∷ []) = some a
rounds zero is_and (a ∷ b ∷ rest) = none
rounds (suc fuel) is_and (a ∷ b ∷ rest) = rounds fuel is_and (pairs is_and (a ∷ b ∷ rest))

unfoldable pub balanced : Bool → List Expr → Option Expr
unfolding rounds
balanced is_and nodes = rounds (length nodes) is_and nodes

-- A result joined with a later one, which is not computed where the first decides.
unfoldable pub combine : Bool → Result Truth → Result Truth → Result Truth
combine true r s = r >>= λ t. if is_false t then ok t else (s >>= λ u. ok (both t u))
combine false r s = r >>= λ t. if is_true t then ok t else (s >>= λ u. ok (either t u))

abbrev neutral : Bool → Truth
neutral true = is_match
neutral false = no_match

combine_assoc :
    (b : Bool) (r s t : Result Truth) → combine b (combine b r s) t ≡ combine b r (combine b s t)
unfolding combine
combine_assoc true r s t = ground arith
combine_assoc false r s t = ground arith

combine-neutral : (b : Bool) (r : Result Truth) → combine b r (ok (neutral b)) ≡ r
unfolding combine
combine-neutral true r = ground arith
combine-neutral false r = ground arith

module _ {S : Spool} (event : Event S) (latency : Option ℕ) where
  -- A list of nodes from left to right.
  unfoldable pub meaning : Bool → List Expr → Result Truth
  meaning is_and [] = ok (neutral is_and)
  meaning is_and (n ∷ ns) = combine is_and (evaluate event latency n) (meaning is_and ns)

  evaluate-join :
      (is_and : Bool) (a b : Expr)
      → evaluate event latency (join is_and a b)
        ≡ combine is_and (evaluate event latency a) (evaluate event latency b)
  unfolding evaluate combine
  evaluate-join true a b = refl
  evaluate-join false a b = refl

  meaning-pairs :
      (is_and : Bool) (ns : List Expr) → meaning is_and (pairs is_and ns) ≡ meaning is_and ns
  unfolding meaning pairs
  meaning-pairs is_and [] = refl
  meaning-pairs is_and (a ∷ []) = refl
  meaning-pairs is_and (a ∷ b ∷ rest) =
      rw (evaluate-join is_and a b, meaning-pairs is_and rest) (combine_assoc is_and _ _ _)

-- The depth of the recursion that evaluates an expression.
unfoldable pub height : Expr → ℕ
height (conj a b) = suc (max (height a) (height b))
height (disj a b) = suc (max (height a) (height b))
height (negation e) = suc (height e)
height _ = 0

abbrev pub Shallow : ℕ → Expr → Type 0
Shallow h e = height e ≤ h

height-join :
    (is_and : Bool) (a b : Expr) (h : ℕ)
    → height a ≤ h
    → height b ≤ h
    → height (join is_and a b) ≤ suc h
unfolding height
height-join true a b h p q = omega arith
height-join false a b h p q = omega arith

pairs-Shallow :
    (is_and : Bool) (h : ℕ) (ns : List Expr)
    → All (Shallow h) ns
    → All (Shallow (suc h)) (pairs is_and ns)
unfolding pairs
pairs-Shallow is_and h [] low = tt
pairs-Shallow is_and h (a ∷ []) low = (omega arith, tt)
pairs-Shallow is_and h (a ∷ b ∷ rest) low =
    (height-join is_and a b h low.0 low.1.0, pairs-Shallow is_and h rest low.1.1)

length-pairs :
    (is_and : Bool) (ns : List Expr) (k : ℕ) → length ns ≤ 2 * k → length (pairs is_and ns) ≤ k
unfolding pairs
length-pairs is_and [] k h = omega arith
length-pairs is_and (a ∷ []) k h = omega arith
length-pairs is_and (a ∷ b ∷ rest) zero h = absurd (omega arith)
length-pairs is_and (a ∷ b ∷ rest) (suc k) h =
    omega (arith, length-pairs is_and rest k (omega arith))

rounds_total :
    (fuel : ℕ) (is_and : Bool) (n : Expr) (ns : List Expr)
    → length ns ≤ fuel
    → (e : Expr) × (rounds fuel is_and (n ∷ ns) ≡ some e)
unfolding rounds pairs
rounds_total fuel is_and n [] enough = (n, refl)
rounds_total zero is_and n (b ∷ rest) enough = absurd (omega arith)
rounds_total (suc fuel) is_and n (b ∷ rest) enough =
    rounds_total fuel is_and (join is_and n b) (pairs is_and rest)
      (omega (arith, length-pairs is_and rest fuel (omega arith)))

-- A nonempty list is joined without a panic.
pub balanced_total :
    (is_and : Bool) (n : Expr) (ns : List Expr) → (e : Expr) × (balanced is_and (n ∷ ns) ≡ some e)
unfolding balanced
balanced_total is_and n ns = rounds_total (length (n ∷ ns)) is_and n ns (omega arith)

module _ {S : Spool} (event : Event S) (latency : Option ℕ) where
  -- A tree for a list of nodes: it means the list, and is not much deeper than its nodes.
  pub record Balances (is_and : Bool) (h k : ℕ) (ns : List Expr) (e : Expr) : Type 0 where
    pub same : evaluate event latency e ≡ meaning event latency is_and ns
    pub low : height e ≤ h + k

  rounds-Balances :
      (fuel : ℕ) (is_and : Bool) (h k : ℕ) (n : Expr) (ns : List Expr)
      → length (n ∷ ns) ≤ suc fuel
      → length (n ∷ ns) ≤ 2 ^ k
      → All (Shallow h) (n ∷ ns)
      → (e : Expr) × (rounds fuel is_and (n ∷ ns) ≡ some e) × Balances is_and h k (n ∷ ns) e
  unfolding rounds meaning pairs
  rounds-Balances fuel is_and h k n [] enough wide low =
      (n, refl, record { same = sym (combine-neutral is_and _); low = omega (arith, low.0) })
  rounds-Balances zero is_and h k n (b ∷ rest) enough wide low = absurd (omega arith)
  rounds-Balances (suc fuel) is_and h zero n (b ∷ rest) enough wide low = absurd (omega arith)
  rounds-Balances (suc fuel) is_and h (suc k) n (b ∷ rest) enough wide low =
      let (e, found, v) =
        rounds-Balances fuel is_and (suc h) k (join is_and n b) (pairs is_and rest)
          (omega (arith, length-pairs is_and (n ∷ b ∷ rest) (suc fuel) (omega arith)))
          (length-pairs is_and (n ∷ b ∷ rest) (2 ^ k) (omega arith))
          (pairs-Shallow is_and h (n ∷ b ∷ rest) low) in
      (
        e,
        found,
        record {
          same = v.same ∙ meaning-pairs event latency is_and (n ∷ b ∷ rest);
          low = omega (arith, v.low);
        },
      )

  -- A nonempty list of at most 2 ^ k nodes, none deeper than h, is joined without a panic: the tree
  -- evaluates as the nodes do from left to right, with the same errors and the same stops, and is
  -- at most h + k deep.
  pub balanced-Balances :
      (is_and : Bool) (h k : ℕ) (n : Expr) (ns : List Expr)
      → length (n ∷ ns) ≤ 2 ^ k
      → All (Shallow h) (n ∷ ns)
      → (e : Expr) × (balanced is_and (n ∷ ns) ≡ some e) × Balances is_and h k (n ∷ ns) e
  unfolding balanced
  balanced-Balances is_and h k n ns wide low =
      rounds-Balances (length (n ∷ ns)) is_and h k n ns (omega arith) wide low
