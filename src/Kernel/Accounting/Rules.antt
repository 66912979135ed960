-- ===== src/Kernel/Accounting/Rules.antt =====
-- crates/usbscope-ebpf/src/main.rs: the effect of an action, from those of its parts.
use usbscope.Prelude.{
  ℕ, ◌≡◌, refl, Bool, true, false, Option, none, some, inr, if◌then◌else◌, subst, sym,
}
use usbscope.Capture.Reassembler.State.{find}
use usbscope.Kernel.Machine.{Kernel, State, Action, pure, ◌>>=◌, count}
use usbscope.Kernel.Programs.{lookup}
use usbscope.Kernel.Quiet.{IsQuiet, IsQuiet-pure}
use usbscope.Kernel.Accounting.Effects.{view, Effect, idle, Acts, view-Same, idle-Effect}

pub quiet-Acts : {A : Type 0} {m : Action A} {k : Kernel} → IsQuiet m → Acts k m
quiet-Acts {m = m} {k = k} q = record {
  effect = subst (λ v. Effect (view k) v) (sym (view-Same (q.same k))) (idle-Effect (view k));
}

-- A quiet action first changes nothing.
pub after_quiet-Acts :
    {A B : Type 0} {m : Action A} {rest : A → Action B} {k : Kernel}
    → IsQuiet m
    → ((a : A) (j : Kernel) → view j ≡ view k → Acts j (rest a))
    → Acts k (m >>= rest)
unfolding ◌>>=◌
after_quiet-Acts {m = m} {rest = rest} {k = k} q e = record {
  effect =
      subst (λ v. Effect v (view (rest (m k).0 (m k).1).1)) (view-Same (q.same k))
        (e (m k).0 (m k).1 (view-Same (q.same k))).effect;
}

pub if-Acts :
    {A : Type 0} (b : Bool) {m n : Action A} {k : Kernel}
    → Acts k m
    → Acts k n
    → Acts k (if b then m else n)
if-Acts true e f = e
if-Acts false e f = f

pub option-Acts :
    {A B : Type 0} (o : Option B) {m : Action A} {f : B → Action A} {k : Kernel}
    → Acts k m
    → ((b : B) → o ≡ some b → Acts k (f b))
    → Acts k (elim o [ none ↦ m | some b ↦ f b ])
option-Acts none e f = e
option-Acts (some b) e f = f b refl

pub lookup-Acts :
    {A : Type 0} (address : ℕ) {rest : Option State → Action A} {k : Kernel}
    → ((o : Option State) → find address k.inflight ≡ o → Acts k (rest o))
    → Acts k (lookup address >>= rest)
unfolding ◌>>=◌ lookup
lookup-Acts address {k = k} e = record { effect = (e (find address k.inflight) refl).effect }

pub pure-Acts : {k : Kernel} → Acts k (pure (tt {0}))
pure-Acts = quiet-Acts (IsQuiet-pure tt)

pub state_error-Acts : {k : Kernel} → Acts k (count 6)
unfolding count
state_error-Acts = record { effect = idle refl refl refl refl refl (inr refl) }
