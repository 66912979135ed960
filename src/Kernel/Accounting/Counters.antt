-- ===== src/Kernel/Accounting/Counters.antt =====
-- crates/usbscope-ebpf/src/main.rs: what the counters say of the URBs in flight.
use usbscope.Prelude.{
  ℕ, suc, ◌+◌, ◌*◌, ◌^◌, ◌<◌, ◌≤◌, ◌≡◌, some, List, All-imp, length, arith, inl, inr, subst, sym,
  ap, ◌∙◌, ◌⊎◌, Option-cases, if◌then◌else◌,
}
use usbscope.Capture.Reassembler.State.{find, erase, put}
use usbscope.Kernel.Machine.{State, next_u64}
use usbscope.Kernel.Programs.{is_known}
use usbscope.Kernel.Accounting.Entries.{
  Fresh, Below, Numbered, erase-All, erase-Numbered, find-All, erase-Fresh, put-Numbered, put-Below,
}
use usbscope.Capture.Reassembler.Maps.{
  Distinct, erase-unknown, erase-Distinct, length-erase_known, put-Distinct,
}
use usbscope.Kernel.Accounting.Effects.{
  View, Effect, idle, refused, taken, dropped, finished, updated,
}

-- After n programs: each address and each number is in flight once, and the counters account for
-- the URBs in flight up to the errors of state.
pub record Accounts (n : ℕ) (v : View) : Type 0 where
  pub distinct : Distinct v.inflight
  pub numbered : Numbered v.inflight
  pub below : Below v.sequence v.inflight
  pub few : v.sequence ≤ 2 * n
  pub few_errors : v.state_errors ≤ 2 * n
  pub few_submitted : v.submitted ≤ n
  pub at_least : v.completed + v.submit_errors + length v.inflight ≤ v.submitted
  pub at_most : v.submitted ≤ v.completed + v.submit_errors + length v.inflight + v.state_errors

next_u64_small : (n m : ℕ) → m ≤ 2 * n → 2 * suc n < 2 ^ 64 → next_u64 m ≡ suc m
next_u64_small n m bound small = omega (arith, bound, small)

next_u64_twice : (n m : ℕ) → m ≤ 2 * n → 2 * suc n < 2 ^ 64 → next_u64 (next_u64 m) ≡ suc (suc m)
next_u64_twice n m bound small = omega (arith, bound, small)

Below-taken : (n m : ℕ) (entries : List (ℕ × State)) → n ≤ m → Below n entries → Below m entries
Below-taken n m entries le = All-imp _ _ (λ e h. omega (arith, le, h)) entries

above-Fresh : (n m : ℕ) (entries : List (ℕ × State)) → n < m → Below n entries → Fresh m entries
above-Fresh n m entries lt = All-imp _ _ (λ e h same. omega (arith, lt, h, same)) entries

-- The length behind an insertion, and the errors, by whether the key was there.
taken-counts :
    (address : ℕ) (s : State) (m : List (ℕ × State)) (errors errors' : ℕ)
    → Distinct m
    → (errors' ≡ (if is_known (find address m) then next_u64 errors else errors))
    → ((errors' ≡ errors) × (length (put address s m) ≡ suc (length m)))
      ⊎ ((errors' ≡ next_u64 errors) × (length (put address s m) ≡ length m))
unfolding put
taken-counts address s m errors errors' d h = elim (Option-cases (find address m)) [
  | inl e ↦ inl (ground (arith, h, e), ap (λ x. suc (length x)) (erase-unknown address m e))
  | inr (u, e) ↦ inr (ground (arith, h, e), sym (length-erase_known address u m d e))
]

-- The number of an entry that is updated is still that of no other.
updated-Numbered :
    (address : ℕ) (s s' : State) (m : List (ℕ × State))
    → Distinct m
    → Numbered m
    → find address m ≡ some s
    → s'.id ≡ s.id
    → Numbered (put address s' m)
updated-Numbered address s s' m d n found same =
    put-Numbered address s' m
      (subst (λ x. Fresh x (erase address m)) (sym same) (erase-Fresh address s m d n found)) n

put-length_known :
    (address : ℕ) (s s' : State) (m : List (ℕ × State))
    → Distinct m
    → find address m ≡ some s
    → length (put address s' m) ≡ length m
unfolding put
put-length_known address s s' m d found = sym (length-erase_known address s m d found)

pub Effect-Accounts :
    (n : ℕ) (v v' : View) → 2 * suc n < 2 ^ 64 → Accounts n v → Effect v v' → Accounts (suc n) v'
Effect-Accounts n v v' small a (idle i s u c r e) =
    let one = next_u64_small n v.state_errors a.few_errors small in
    let errors : (v'.state_errors ≡ v.state_errors) ⊎ (v'.state_errors ≡ suc v.state_errors) =
      elim e [ inl h ↦ inl h | inr h ↦ inr (h ∙ one) ] in
    record {
      distinct = subst Distinct (sym i) a.distinct;
      numbered = subst Numbered (sym i) a.numbered;
      below = subst (λ x. Below x v'.inflight) (sym s) (subst (Below v.sequence) (sym i) a.below);
      few = omega (arith, s, a.few);
      few_errors = omega (arith, errors, a.few_errors);
      few_submitted = omega (arith, u, a.few_submitted);
      at_least = omega (arith, ap length i, u, c, r, a.at_least);
      at_most = omega (arith, ap length i, u, c, r, errors, a.at_most);
    }
Effect-Accounts n v v' small a (refused i s u c r e) =
    let one = next_u64_small n v.state_errors a.few_errors small in
    let two = next_u64_twice n v.state_errors a.few_errors small in
    let next = next_u64_small n v.sequence a.few small in
    let errors : (v'.state_errors ≡ suc v.state_errors)
        ⊎ (v'.state_errors ≡ suc (suc v.state_errors)) =
      elim e [ inl h ↦ inl (h ∙ one) | inr h ↦ inr (h ∙ two) ] in
    record {
      distinct = subst Distinct (sym i) a.distinct;
      numbered = subst Numbered (sym i) a.numbered;
      below =
          Below-taken v.sequence v'.sequence v'.inflight (omega (arith, s, next))
            (subst (Below v.sequence) (sym i) a.below);
      few = omega (arith, s, next, a.few);
      few_errors = omega (arith, errors, a.few_errors);
      few_submitted = omega (arith, u, a.few_submitted);
      at_least = omega (arith, ap length i, u, c, r, a.at_least);
      at_most = omega (arith, ap length i, u, c, r, errors, a.at_most);
    }
Effect-Accounts n v v' small a (taken address s number i q u c r e) =
    let one = next_u64_small n v.state_errors a.few_errors small in
    let next = next_u64_small n v.sequence a.few small in
    let two = next_u64_twice n v.sequence a.few small in
    let sum = next_u64_small n v.submitted (omega (arith, a.few_submitted)) small in
    let after : (v'.sequence ≡ suc v.sequence) ⊎ (v'.sequence ≡ suc (suc v.sequence)) = elim q [
      | inl h ↦ inl (h ∙ next)
      | inr h ↦ inr (h ∙ two)
    ] in
    let counts : ((v'.state_errors ≡ v.state_errors)
          × (length v'.inflight ≡ suc (length v.inflight)))
        ⊎ ((v'.state_errors ≡ suc v.state_errors) × (length v'.inflight ≡ length v.inflight)) =
      elim (taken-counts address s v.inflight v.state_errors v'.state_errors a.distinct e) [
        | inl h ↦ inl (h.0, ap length i ∙ h.1)
        | inr h ↦ inr (h.0 ∙ one, ap length i ∙ h.1)
      ] in
    let up : s.id ≤ v'.sequence = omega (arith, number, next, after) in
    let new = above-Fresh v.sequence s.id v.inflight (omega (arith, number, next)) a.below in
    let grown = Below-taken v.sequence v'.sequence v.inflight (omega (arith, after)) a.below in
    record {
      distinct = subst Distinct (sym i) (put-Distinct address s v.inflight a.distinct);
      numbered =
          subst Numbered (sym i)
            (put-Numbered address s v.inflight (erase-All _ address v.inflight new) a.numbered);
      below =
          subst (Below v'.sequence) (sym i) (put-Below address s v'.sequence v.inflight up grown);
      few = omega (arith, after, a.few);
      few_errors = omega (arith, counts, a.few_errors);
      few_submitted = omega (arith, u, sum, a.few_submitted);
      at_least = omega (arith, counts, u, sum, c, r, a.at_least);
      at_most = omega (arith, counts, u, sum, c, r, a.at_most);
    }
Effect-Accounts n v v' small a (dropped address s found i q u c r e) =
    let next = next_u64_small n v.sequence a.few small in
    let after : (v'.sequence ≡ v.sequence) ⊎ (v'.sequence ≡ suc v.sequence) = elim q [
      | inl h ↦ inl h
      | inr h ↦ inr (h ∙ next)
    ] in
    let size = length-erase_known address s v.inflight a.distinct found in
    let same = ap length i in
    let dropped =
      next_u64_small n v.submit_errors (omega (arith, a.at_least, a.few_submitted)) small in
    let grown = Below-taken v.sequence v'.sequence v.inflight (omega (arith, after)) a.below in
    record {
      distinct = subst Distinct (sym i) (erase-Distinct address v.inflight a.distinct);
      numbered = subst Numbered (sym i) (erase-Numbered address v.inflight a.numbered);
      below = subst (Below v'.sequence) (sym i) (erase-All _ address v.inflight grown);
      few = omega (arith, after, a.few);
      few_errors = omega (arith, e, a.few_errors);
      few_submitted = omega (arith, u, a.few_submitted);
      at_least = omega (arith, size, same, u, c, r, dropped, a.at_least);
      at_most = omega (arith, size, same, u, c, r, e, dropped, a.at_most);
    }
Effect-Accounts n v v' small a (finished address s found i q u o r) =
    let next = next_u64_small n v.sequence a.few small in
    let one = next_u64_small n v.state_errors a.few_errors small in
    let after : (v'.sequence ≡ v.sequence) ⊎ (v'.sequence ≡ suc v.sequence) = elim q [
      | inl h ↦ inl h
      | inr h ↦ inr (h ∙ next)
    ] in
    let size = length-erase_known address s v.inflight a.distinct found in
    let same = ap length i in
    let sum = next_u64_small n v.completed (omega (arith, a.at_least, a.few_submitted)) small in
    let counts : ((v'.completed ≡ suc v.completed) × (v'.state_errors ≡ v.state_errors))
        ⊎ ((v'.completed ≡ v.completed) × (v'.state_errors ≡ suc v.state_errors)) =
      elim o [ inl h ↦ inl (h.0 ∙ sum, h.1) | inr h ↦ inr (h.0, h.1 ∙ one) ] in
    let grown = Below-taken v.sequence v'.sequence v.inflight (omega (arith, after)) a.below in
    record {
      distinct = subst Distinct (sym i) (erase-Distinct address v.inflight a.distinct);
      numbered = subst Numbered (sym i) (erase-Numbered address v.inflight a.numbered);
      below = subst (Below v'.sequence) (sym i) (erase-All _ address v.inflight grown);
      few = omega (arith, after, a.few);
      few_errors = omega (arith, counts, a.few_errors);
      few_submitted = omega (arith, u, a.few_submitted);
      at_least = omega (arith, size, same, u, counts, r, a.at_least);
      at_most = omega (arith, size, same, u, counts, r, a.at_most);
    }
Effect-Accounts n v v' small a (updated address s s' found number i q u c r e) =
    let old = find-All _ address s v.inflight found a.below in
    let up : s'.id ≤ v.sequence = omega (arith, number, old) in
    let size = ap length i ∙ put-length_known address s s' v.inflight a.distinct found in
    record {
      distinct = subst Distinct (sym i) (put-Distinct address s' v.inflight a.distinct);
      numbered =
          subst Numbered (sym i)
            (updated-Numbered address s s' v.inflight a.distinct a.numbered found number);
      below =
          subst (λ x. Below x v'.inflight) (sym q)
            (subst (Below v.sequence) (sym i)
              (put-Below address s' v.sequence v.inflight up a.below));
      few = omega (arith, q, a.few);
      few_errors = omega (arith, e, a.few_errors);
      few_submitted = omega (arith, u, a.few_submitted);
      at_least = omega (arith, size, u, c, r, a.at_least);
      at_most = omega (arith, size, u, c, r, e, a.at_most);
    }
