-- ===== src/Capture/Pcapng/Layout.antt =====
-- crates/usbscope-capture/src/pcapng.rs: the interfaces of the sources, and the blocks of the output
-- in their order.
use usbscope.Prelude.{
  ℕ, suc, ◌<◌, ◌≤◌, ◌^◌, ◌≡◌, ◌⊎◌, refl, ap, sym, subst, ◌∙◌, arith, Bool-cases, Option-cases, inl,
  inr, List, ◌++◌, append-nil, length, ◌==◌, ==→eq, ==-refl, if◌then◌else◌, none, some,
}
use mathlib.Core.Option.{some-injective}
use usbscope.Capture.Event.{Spool, Event}
use usbscope.Capture.Reassembler.State.{find, put}
use usbscope.Capture.Reassembler.Maps.{find-put, erase-unknown}
use usbscope.Capture.Pcapng.Writer.{section_block, interface_block, packet_block}
use usbscope.Capture.Pcapng.Written.{Sources, sources_after, interface_of, prefix_of}

-- Each source has an interface of its own, among those that were written.
pub record SourcesAreValid (known : Sources) : Type 0 where
  pub few : length known ≤ 2 ^ 32
  pub below : (s i : ℕ) → find s known ≡ some i → i < length known
  pub apart : (s t i : ℕ) → find s known ≡ some i → find t known ≡ some i → s ≡ t

pub length-put :
    (s i : ℕ) (known : Sources) → find s known ≡ none → length (put s i known) ≡ suc (length known)
unfolding put
length-put s i known h = ap (λ x. suc (length x)) (erase-unknown s known h)

find-put_cases :
    (s n t i : ℕ) (known : Sources)
    → find t (put s n known) ≡ some i
    → ((s ≡ t) × (n ≡ i)) ⊎ (find t known ≡ some i)
find-put_cases s n t i known h = elim (Bool-cases (s == t)) [
  | inl e ↦ inl (==→eq s t e, some-injective n i (rw e at (sym (find-put s t n known) ∙ h)))
  | inr e ↦ inr (rw e at (sym (find-put s t n known) ∙ h))
]

put-AreValid :
    (known : Sources) (s : ℕ)
    → find s known ≡ none
    → length known < 2 ^ 32
    → SourcesAreValid known
    → SourcesAreValid (put s (length known) known)
put-AreValid known s new room v =
    let n = length known in
    let size = length-put s n known new in
    record {
      few = omega (arith, size, room);
      below = λ t i h. elim (find-put_cases s n t i known h) [
        | inl (_, same) ↦ omega (arith, same, size)
        | inr k ↦ omega (arith, v.below t i k, size)
      ];
      apart = λ t u i h k. elim (find-put_cases s n t i known h) [
        | inl (a, same) ↦ elim (find-put_cases s n u i known k) [
          | inl (b, _) ↦ sym a ∙ b
          | inr l ↦ absurd (omega (arith, same, v.below u i l))
        ]
        | inr l ↦ elim (find-put_cases s n u i known k) [
          | inl (_, same) ↦ absurd (omega (arith, same, v.below t i l))
          | inr m ↦ v.apart t u i l m
        ]
      ];
    }

pub sources_after-AreValid :
    (known : Sources) (s : ℕ)
    → SourcesAreValid known
    → (find s known ≡ none → length known < 2 ^ 32)
    → SourcesAreValid (sources_after known s)
      × (find s (sources_after known s) ≡ some (interface_of known s))
sources_after-AreValid known s v room = elim (Option-cases (find s known)) [
  | inl e ↦
      rw e
        (put-AreValid known s e (room e) v, rw (find-put s s (length known) known, ==-refl s) refl)
  | inr (i, e) ↦ rw e (v, e)
]

-- Outputs that begin with a section and an interface, followed by further interfaces and packets,
-- where each packet names an interface whose block stands before it; with the number of interfaces.
pub data Laid (S : Spool) : ℕ → List ℕ → Type 0 where
  opened : Laid S 1 (section_block ++ interface_block)
  described :
      (n : ℕ) (output : List ℕ) → Laid S n output → Laid S (suc n) (output ++ interface_block)
  stored :
      (n : ℕ) (output : List ℕ) (interface : ℕ) (e : Event S) (payload : List ℕ)
      → interface < n
      → Laid S n output
      → Laid S n (output ++ packet_block interface e payload)

-- The number of interface blocks: the first stands there before any source is known.
abbrev pub described_of : Sources → ℕ
described_of known = if length known == 0 then 1 else length known

pub Laid-prefix_of :
    (S : Spool) (known : Sources) (s : ℕ) (output : List ℕ)
    → (find s known ≡ none → length (put s (length known) known) ≡ suc (length known))
    → Laid S (described_of known) output
    → Laid S (described_of (sources_after known s)) (output ++ prefix_of known s)
Laid-prefix_of S known s output grows l = elim (Option-cases (find s known)) [
  | inr (i, e) ↦ rw e (subst (Laid S (described_of known)) (sym (append-nil output)) l)
  | inl e ↦ elim (Bool-cases (length known == 0)) [
    | inl k ↦
        let n : described_of known ≡ described_of (put s (length known) known) =
          ground (arith, grows e, k) in
        rw (e, k)
          (subst (λ x. Laid S (described_of (put s (length known) known)) x)
            (sym (append-nil output)) (subst (λ x. Laid S x output) n l))
    | inr k ↦
        let n : suc (described_of known) ≡ described_of (put s (length known) known) =
          ground (arith, grows e, k) in
        rw (e, k) (subst (λ x. Laid S x (output ++ interface_block)) n (described _ output l))
  ]
]
