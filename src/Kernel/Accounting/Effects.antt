-- ===== src/Kernel/Accounting/Effects.antt =====
-- crates/usbscope-ebpf/src/main.rs: what a program may do to the URBs in flight and to the counters
-- of submissions, completions and errors.
use usbscope.Prelude.{ℕ, ◌≡◌, ◌⊎◌, refl, some, List, inl, if◌then◌else◌}
use usbscope.Capture.Reassembler.State.{find, erase, put}
use usbscope.Kernel.Machine.{Kernel, State, Action, next_u64}
use usbscope.Kernel.Programs.{is_known}
use usbscope.Kernel.Quiet.{Same}

abbrev pub Steps : ℕ → ℕ → Type 0
Steps n n' = (n' ≡ n) ⊎ (n' ≡ next_u64 n)

-- What the programs account by.
pub record View : Type 0 where
  pub inflight : List (ℕ × State)
  pub sequence : ℕ
  pub submitted : ℕ
  pub completed : ℕ
  pub submit_errors : ℕ
  pub state_errors : ℕ

abbrev pub view : Kernel → View
view k = record {
  inflight = k.inflight;
  sequence = k.sequence;
  submitted = k.stats.submitted;
  completed = k.stats.completed;
  submit_errors = k.stats.submit_errors;
  state_errors = k.stats.state_errors;
}

pub view-Same : {k k' : Kernel} → Same k k' → view k' ≡ view k
view-Same s = λ i. record {
  inflight = s.inflight i;
  sequence = s.sequence i;
  submitted = s.submitted i;
  completed = s.completed i;
  submit_errors = s.submit_errors i;
  state_errors = s.state_errors i;
}

-- What one run of a program does.
pub data Effect (v v' : View) : Type 0 where
  -- nothing, but perhaps one error is counted
  idle :
      (inflight : v'.inflight ≡ v.inflight) (sequence : v'.sequence ≡ v.sequence)
      (submitted : v'.submitted ≡ v.submitted) (completed : v'.completed ≡ v.completed)
      (submit_errors : v'.submit_errors ≡ v.submit_errors)
      (state_errors : Steps v.state_errors v'.state_errors)
      → Effect v v'
  -- a submission for which the map has no room
  refused :
      (inflight : v'.inflight ≡ v.inflight) (sequence : v'.sequence ≡ next_u64 v.sequence)
      (submitted : v'.submitted ≡ v.submitted) (completed : v'.completed ≡ v.completed)
      (submit_errors : v'.submit_errors ≡ v.submit_errors)
      (state_errors : (v'.state_errors ≡ next_u64 v.state_errors)
        ⊎ (v'.state_errors ≡ next_u64 (next_u64 v.state_errors)))
      → Effect v v'
  -- a submission with the next number; an entry of the same address is displaced, and counted
  taken :
      (address : ℕ) (s : State) (number : s.id ≡ next_u64 v.sequence)
      (inflight : v'.inflight ≡ put address s v.inflight)
      (sequence : (v'.sequence ≡ next_u64 v.sequence)
        ⊎ (v'.sequence ≡ next_u64 (next_u64 v.sequence)))
      (submitted : v'.submitted ≡ next_u64 v.submitted) (completed : v'.completed ≡ v.completed)
      (submit_errors : v'.submit_errors ≡ v.submit_errors)
      (state_errors : v'.state_errors
        ≡ (if is_known (find address v.inflight) then next_u64 v.state_errors else v.state_errors))
      → Effect v v'
  -- a submission that the host controller refused
  dropped :
      (address : ℕ) (s : State) (found : find address v.inflight ≡ some s)
      (inflight : v'.inflight ≡ erase address v.inflight) (sequence : Steps v.sequence v'.sequence)
      (submitted : v'.submitted ≡ v.submitted) (completed : v'.completed ≡ v.completed)
      (submit_errors : v'.submit_errors ≡ next_u64 v.submit_errors)
      (state_errors : v'.state_errors ≡ v.state_errors)
      → Effect v v'
  -- a completion with a status, or one without: that is counted as an error
  finished :
      (address : ℕ) (s : State) (found : find address v.inflight ≡ some s)
      (inflight : v'.inflight ≡ erase address v.inflight) (sequence : Steps v.sequence v'.sequence)
      (submitted : v'.submitted ≡ v.submitted)
      (outcome : ((v'.completed ≡ next_u64 v.completed) × (v'.state_errors ≡ v.state_errors))
        ⊎ ((v'.completed ≡ v.completed) × (v'.state_errors ≡ next_u64 v.state_errors)))
      (submit_errors : v'.submit_errors ≡ v.submit_errors)
      → Effect v v'
  -- the status of an URB that is given back
  updated :
      (address : ℕ) (s s' : State) (found : find address v.inflight ≡ some s)
      (number : s'.id ≡ s.id) (inflight : v'.inflight ≡ put address s' v.inflight)
      (sequence : v'.sequence ≡ v.sequence) (submitted : v'.submitted ≡ v.submitted)
      (completed : v'.completed ≡ v.completed) (submit_errors : v'.submit_errors ≡ v.submit_errors)
      (state_errors : v'.state_errors ≡ v.state_errors)
      → Effect v v'

pub idle-Effect : (v : View) → Effect v v
idle-Effect v = idle refl refl refl refl refl (inl refl)

-- An action has one of these effects on the maps that it starts from.
pub record Acts {A : Type 0} (k : Kernel) (m : Action A) : Type 0 where
  pub effect : Effect (view k) (view (m k).1)
