-- ===== src/Kernel/Accounting/Moves.antt =====
-- crates/usbscope-ebpf/src/main.rs: what the programs for refusals, returns and completions do.
use usbscope.Prelude.{
  ℕ, ◌≡◌, ◌∙◌, refl, ap, ◌||◌, Option, none, some, inl, inr, Bool-cases, ◌==◌, leb, ltb,
}
use usbscope.Prelude.Int.{ℤ, pos, ltb_ℤ}
use usbscope.Capture.Reassembler.State.{find, erase}
use usbscope.Kernel.Machine.{World, Kernel, State, ◌>>=◌, ◌>>◌, count, next_u64}
use usbscope.Kernel.Emit.{emit}
use usbscope.Kernel.Programs.{forget, remember, submit_error, giveback, complete_known, complete}
use usbscope.Kernel.Quiet.{IsQuiet-read_errors}
use usbscope.Kernel.Quiet.Events.{emit-Emitted, IsQuiet-core_completion_status}
use usbscope.Kernel.Accounting.Effects.{View, dropped, finished, updated, Acts}
use usbscope.Kernel.Accounting.Rules.{
  quiet-Acts, after_quiet-Acts, if-Acts, option-Acts, lookup-Acts, pure-Acts, state_error-Acts,
}

dropped-Acts :
    (w : World) (address : ℕ) (status : ℤ) (s : State) (k : Kernel)
    → find address k.inflight ≡ some s
    → Acts k (forget address >> (count 2 >> emit w address s.id b'E' status))
unfolding ◌>>=◌ forget count
dropped-Acts w address status s k found =
    let e = emit-Emitted w address s.id b'E' status (record k {
      inflight = erase address k.inflight;
      stats = record (k.stats) { submit_errors = next_u64 k.stats.submit_errors };
    }) in
    record {
      effect =
          dropped address s found e.inflight e.sequence e.submitted e.completed e.submit_errors
            e.state_errors;
    }

pub submit_error-Acts :
    (w : World) (address : ℕ) (status : Option ℤ) (k : Kernel)
    → Acts k (submit_error w address status)
unfolding submit_error
submit_error-Acts w address none k = state_error-Acts
submit_error-Acts w address (some status) k =
    if-Acts (ltb_ℤ status (pos 0))
      (lookup-Acts address λ o known.
        option-Acts o pure-Acts λ s found. dropped-Acts w address status s k (known ∙ found))
      pure-Acts

finished-Acts :
    (w : World) (address : ℕ) (s : State) (k : Kernel)
    → find address k.inflight ≡ some s
    → Acts k (complete_known w address s)
unfolding complete_known ◌>>=◌ forget count
finished-Acts w address s k found = elim (Bool-cases (s.ready == 0)) [
  | inl unready ↦ record {
    effect = rw unready (finished address s found refl (inl refl) refl (inr (refl, refl)) refl);
  }
  | inr ready ↦
      let e = emit-Emitted w address s.id b'C' s.status (record k {
        inflight = erase address k.inflight;
        stats = record (k.stats) { completed = next_u64 k.stats.completed };
      }) in
      record {
        effect = rw ready (
            finished address s found e.inflight e.sequence e.submitted
              (inl (e.completed, e.state_errors)) e.submit_errors);
      }
]

pub complete-Acts :
    (w : World) (caller : ℕ) (argument : Option ℕ) (k : Kernel)
    → Acts k (complete w caller argument)
unfolding complete
complete-Acts w caller argument k = option-Acts w.config pure-Acts λ config _.
    if-Acts (ltb caller config.giveback_start || leb config.giveback_end caller) pure-Acts (
      option-Acts argument state_error-Acts λ address _.
        lookup-Acts address
          λ o known. option-Acts o pure-Acts λ s found. finished-Acts w address s k (known ∙ found))

updated-Acts :
    (address : ℕ) (s s' : State) (k : Kernel)
    → find address k.inflight ≡ some s
    → s'.id ≡ s.id
    → Acts k (remember address s')
unfolding remember
updated-Acts address s s' k found number = record {
  effect = updated address s s' found number refl refl refl refl refl refl;
}

pub giveback-Acts : (w : World) (address : ℕ) (k : Kernel) → Acts k (giveback w address)
unfolding giveback
giveback-Acts w address k = lookup-Acts address λ o known. option-Acts o pure-Acts λ s found.
    after_quiet-Acts (IsQuiet-core_completion_status w address) λ read j same.
      let still : find address j.inflight ≡ some s =
        ap (λ (v : View). find address v.inflight) same ∙ known ∙ found in
      option-Acts read (quiet-Acts IsQuiet-read_errors)
        λ status _. updated-Acts address s (record s { status = status; ready = 1 }) j still refl
