-- ===== src/Kernel/Accounting/Submissions.antt =====
-- crates/usbscope-ebpf/src/main.rs: what the program for submissions does.
use usbscope.Prelude.{ℕ, ◌+◌, ◌≡◌, ◌∙◌, refl, ap, arith, inl, inr, Bool-cases, if◌then◌else◌, ◌==◌}
use usbscope.Prelude.Int.{pos, negsuc}
use usbscope.Common.Meta.{default_meta}
use usbscope.Capture.Reassembler.State.{find, put}
use usbscope.Kernel.Machine.{World, Kernel, State, pure, ◌>>=◌, ask, count, next_id, next_u64}
use usbscope.Kernel.Programs.{
  lookup, remember, is_known, insert_fails, enter_submission, submit_selected, submit,
}
use usbscope.Kernel.Quiet.{IsQuiet-ask, IsQuiet-read_errors}
use usbscope.Kernel.Quiet.Events.{emit-Emitted, IsQuiet-core_read_urb}
use usbscope.Kernel.Accounting.Effects.{View, view, Effect, refused, taken, Steps, Acts}
use usbscope.Kernel.Accounting.Rules.{quiet-Acts, after_quiet-Acts, if-Acts, option-Acts, pure-Acts}

-- What the entry of a submission does.
data Entered (address id : ℕ) (v v' : View) : Type 0 where
  rejected :
      (inflight : v'.inflight ≡ v.inflight) (sequence : v'.sequence ≡ v.sequence)
      (submitted : v'.submitted ≡ v.submitted) (completed : v'.completed ≡ v.completed)
      (submit_errors : v'.submit_errors ≡ v.submit_errors)
      (state_errors : v'.state_errors ≡ next_u64 v.state_errors)
      → Entered address id v v'
  accepted :
      (s : State) (number : s.id ≡ id) (inflight : v'.inflight ≡ put address s v.inflight)
      (sequence : Steps v.sequence v'.sequence) (submitted : v'.submitted ≡ next_u64 v.submitted)
      (completed : v'.completed ≡ v.completed) (submit_errors : v'.submit_errors ≡ v.submit_errors)
      (state_errors : v'.state_errors ≡ v.state_errors)
      → Entered address id v v'

enter_submission-Entered :
    (w : World) (address id : ℕ) (k : Kernel)
    → Entered address id (view k) (view (enter_submission w address id k).1)
unfolding enter_submission ◌>>=◌ insert_fails ask remember count
enter_submission-Entered w address id k = elim (Bool-cases (insert_fails w address k).0) [
  | inl full ↦ rw full (rejected refl refl refl refl refl refl)
  | inr fits ↦
      let s : State = record { id = id; status = pos 0; ready = 0 } in
      let e = emit-Emitted w address id b'S' (negsuc 114) (record k {
        inflight = put address s k.inflight;
        stats = record (k.stats) { submitted = next_u64 k.stats.submitted };
        tick = k.tick + 1;
      }) in
      rw fits (
        accepted s refl e.inflight e.sequence e.submitted e.completed e.submit_errors
          e.state_errors)
]

-- The entry behind the number that was taken, and behind the error that an old entry is.
numbered-Effect :
    (address : ℕ) (v j v' : View)
    → j.inflight ≡ v.inflight
    → j.sequence ≡ next_u64 v.sequence
    → j.submitted ≡ v.submitted
    → j.completed ≡ v.completed
    → j.submit_errors ≡ v.submit_errors
    → j.state_errors
      ≡ (if is_known (find address v.inflight) then next_u64 v.state_errors else v.state_errors)
    → Entered address (next_u64 v.sequence) j v'
    → Effect v v'
numbered-Effect address v j v' i n a c r e (rejected i' n' a' c' r' e') =
    refused (i' ∙ i) (n' ∙ n) (a' ∙ a) (c' ∙ c) (r' ∙ r) (ground (arith, e, e'))
numbered-Effect address v j v' i n a c r e (accepted s number i' n' a' c' r' e') =
    taken address s number (i' ∙ ap (put address s) i) (ground (arith, n, n')) (a' ∙ ap next_u64 a)
      (c' ∙ c) (r' ∙ r) (e' ∙ e)

selected-Acts : (w : World) (address : ℕ) (k : Kernel) → Acts k (submit_selected w address)
unfolding submit_selected ◌>>=◌ next_id lookup count pure
selected-Acts w address k = elim (Bool-cases (is_known (find address k.inflight))) [
  | inl known ↦
      let j : Kernel = record k {
        sequence = next_u64 k.sequence;
        stats = record (k.stats) { state_errors = next_u64 k.stats.state_errors };
      } in
      let entered = enter_submission-Entered w address (next_u64 k.sequence) j in
      record {
        effect = rw known (
            numbered-Effect address (view k) (view j) _ refl refl refl refl refl (rw known refl)
              entered);
      }
  | inr new ↦
      let j : Kernel = record k { sequence = next_u64 k.sequence } in
      let entered = enter_submission-Entered w address (next_u64 k.sequence) j in
      record {
        effect = rw new (
            numbered-Effect address (view k) (view j) _ refl refl refl refl refl (rw new refl)
              entered);
      }
]

pub submit-Acts : (w : World) (address : ℕ) (k : Kernel) → Acts k (submit w address)
unfolding submit
submit-Acts w address k = option-Acts w.config pure-Acts λ config _.
    if-Acts (config.enabled == 0) pure-Acts (
      after_quiet-Acts (IsQuiet-core_read_urb w address (record default_meta { event_type = b'S' }))
        λ read j _. option-Acts read (quiet-Acts IsQuiet-read_errors) λ found _.
          after_quiet-Acts (IsQuiet-ask _)
            λ runs i _. if-Acts _ pure-Acts (selected-Acts w address i))
