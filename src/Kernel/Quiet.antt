-- ===== src/Kernel/Quiet.antt =====
-- crates/usbscope-ebpf/src/main.rs: what the publication of an event leaves alone. It counts losses,
-- but neither the URBs in flight nor the counters of submissions and completions change.
pub mod Payload
pub mod Events
use usbscope.Prelude.{
  ℕ, zero, suc, ◌+◌, ◌<◌, ◌≤◌, ◌≡◌, refl, ◌∙◌, ◌≢◌, Bool, true, false, not, ◌&&◌, ◌||◌, Option,
  none, some, List, ◌==◌, ltb, leb, min, ◌-◌, ◌*◌, ◌^◌, inl, inr, Bool-cases, if◌then◌else◌, arith,
  ◌∷◌, [], ◌++◌,
}
use usbscope.Kernel.Machine.{
  World, Kernel, Action, pure, ◌>>=◌, ◌>>◌, ask, count, submit_record, rounds, bpf_loop, SgMemory,
}
use usbscope.Common.Meta.{chunk_size}
use usbscope.Kernel.Copy.{
  CopyContext, copy_chunk, submit_chunk, copy_callback, capacity_for, chunks_of,
}
use usbscope.Kernel.Scatter.{
  SgContext, failed_segment, next_segment, copy_piece, sg_copy_segment, copy_segments, copy_sg,
}

pub record Same (k k' : Kernel) : Type 0 where
  pub inflight : k'.inflight ≡ k.inflight
  pub sequence : k'.sequence ≡ k.sequence
  pub submitted : k'.stats.submitted ≡ k.stats.submitted
  pub completed : k'.stats.completed ≡ k.stats.completed
  pub submit_errors : k'.stats.submit_errors ≡ k.stats.submit_errors
  pub state_errors : k'.stats.state_errors ≡ k.stats.state_errors

Same-refl : (k : Kernel) → Same k k
Same-refl k = record {
  inflight = refl;
  sequence = refl;
  submitted = refl;
  completed = refl;
  submit_errors = refl;
  state_errors = refl;
}

Same-trans : {i j k : Kernel} → Same i j → Same j k → Same i k
Same-trans a b = record {
  inflight = b.inflight ∙ a.inflight;
  sequence = b.sequence ∙ a.sequence;
  submitted = b.submitted ∙ a.submitted;
  completed = b.completed ∙ a.completed;
  submit_errors = b.submit_errors ∙ a.submit_errors;
  state_errors = b.state_errors ∙ a.state_errors;
}

-- An action that leaves them alone, whatever maps it starts from.
pub record IsQuiet {ℓ} {A : Type ℓ} (m : Action A) : Type 0 where
  pub same : (k : Kernel) → Same k (m k).1

module _ {ℓ} {A : Type ℓ} where
  pub IsQuiet-pure : (a : A) → IsQuiet (pure a)
  unfolding pure
  IsQuiet-pure a = record { same = λ k. Same-refl k }

  pub IsQuiet-ask : (f : ℕ → A) → IsQuiet (ask f)
  unfolding ask
  IsQuiet-ask f = record {
    same = λ k. record {
      inflight = refl;
      sequence = refl;
      submitted = refl;
      completed = refl;
      submit_errors = refl;
      state_errors = refl;
    };
  }

  pub IsQuiet-bind {κ} :
      {B : Type κ} {m : Action A} {rest : A → Action B}
      → IsQuiet m
      → ((a : A) → IsQuiet (rest a))
      → IsQuiet (m >>= rest)
  unfolding ◌>>=◌
  IsQuiet-bind {m = m} q r = record { same = λ k. Same-trans (q.same k) ((r (m k).0).same (m k).1) }

  pub IsQuiet-if :
      (b : Bool) {m n : Action A} → IsQuiet m → IsQuiet n → IsQuiet (if b then m else n)
  IsQuiet-if true q r = q
  IsQuiet-if false q r = r

module _ {ℓ κ} {A : Type ℓ} {B : Type κ} where
  pub IsQuiet-option :
      (o : Option B) {m : Action A} {f : B → Action A}
      → IsQuiet m
      → ((b : B) → IsQuiet (f b))
      → IsQuiet (elim o [ none ↦ m | some b ↦ f b ])
  IsQuiet-option none q r = q
  IsQuiet-option (some b) q r = r b

pub IsQuiet-count : (field : ℕ) → 3 ≤ field → field ≢ 6 → IsQuiet (count field)
unfolding count
IsQuiet-count field h g = record { same = λ k. ground arith }

pub IsQuiet-submit_record : (bytes : List ℕ) → IsQuiet (submit_record bytes)
unfolding submit_record
IsQuiet-submit_record bytes = record {
  same = λ k. record {
    inflight = refl;
    sequence = refl;
    submitted = refl;
    completed = refl;
    submit_errors = refl;
    state_errors = refl;
  };
}

module _ {ℓ} {C : Type ℓ} (callback : ℕ → C → Action (Bool × C))
    (quiet : (index : ℕ) (c : C) → IsQuiet (callback index c)) where
  rounds-Same : (n index : ℕ) (c : C) (k : Kernel) → Same k (rounds callback n index c k).1
  unfolding rounds
  rounds-Same zero index c k = Same-refl k
  rounds-Same (suc n) index c k = elim (Bool-cases (callback index c k).0.0) [
    | inl stop ↦ rw (stop, rounds) ((quiet index c).same k)
    | inr go ↦
        rw (go, rounds)
          (Same-trans ((quiet index c).same k)
            (rounds-Same n (suc index) (callback index c k).0.1 (callback index c k).1))
  ]

  pub IsQuiet-bpf_loop : (w : World) (n : ℕ) (c : C) → IsQuiet (bpf_loop callback w n c)
  unfolding bpf_loop
  IsQuiet-bpf_loop w n c = IsQuiet-bind (IsQuiet-ask (λ t. w.runs_loop t n)) λ runs.
      IsQuiet-if runs
        (IsQuiet-bind (record { same = λ k. rounds-Same n 0 c k })
          λ done. IsQuiet-pure (true, done))
        (IsQuiet-pure (false, c))

pub IsQuiet-ring_losses : IsQuiet (count 3)
IsQuiet-ring_losses = IsQuiet-count 3 (omega arith) (omega arith)

pub IsQuiet-read_errors : IsQuiet (count 4)
IsQuiet-read_errors = IsQuiet-count 4 (omega arith) (omega arith)

pub IsQuiet-unsupported_buffers : IsQuiet (count 5)
IsQuiet-unsupported_buffers = IsQuiet-count 5 (omega arith) (omega arith)
