-- ===== src/Kernel/Accounting.antt =====
-- crates/usbscope-ebpf/src/main.rs: what the counters say of the URBs in flight, after any programs
-- in any order, and that no two URBs in flight have one number.
pub mod Entries
pub mod Effects
pub mod Rules
pub mod Moves
pub mod Submissions
pub mod Counters
use usbscope.Kernel.Accounting.Counters.{Accounts, Effect-Accounts}
use usbscope.Prelude.{
  ℕ, zero, suc, ◌+◌, ◌*◌, ◌^◌, ◌<◌, ◌≤◌, ◌≡◌, ◌≢◌, refl, Option, none, some, List, [], ◌∷◌, All,
  All-imp, length, arith, inl, inr, subst, sym, ap, ◌∙◌, ◌⊎◌, Option-cases, true, Bool,
  if◌then◌else◌,
}
use usbscope.Prelude.Int.{ℤ}
use usbscope.Common.Meta.{CaptureStats}
use usbscope.Capture.Reassembler.State.{find, erase, put}
use usbscope.Kernel.Machine.{World, Kernel, State, Action, next_u64}
use usbscope.Kernel.Programs.{submit, submit_error, giveback, complete, is_known}
use usbscope.Kernel.Accounting.Entries.{
  Fresh, Below, Numbered, erase-All, erase-Numbered, find-All, erase-Fresh, put-Numbered, put-Below,
}
use usbscope.Capture.Reassembler.Maps.{
  Distinct, erase-unknown, erase-Distinct, length-erase_known, put-Distinct,
}
use usbscope.Kernel.Accounting.Effects.{
  View, view, Effect, idle, refused, taken, dropped, finished, updated, Acts,
}
use usbscope.Kernel.Accounting.Moves.{submit_error-Acts, giveback-Acts, complete-Acts}
use usbscope.Kernel.Accounting.Submissions.{submit-Acts}

-- A run of one of the programs, with its arguments.
pub data Program : Type 0 where
  submits : ℕ → Program
  refuses : ℕ → Option ℤ → Program
  gives_back : ℕ → Program
  completes : ℕ → Option ℕ → Program

unfoldable pub run_program : World → Program → Action (Unit {0})
run_program w (submits address) = submit w address
run_program w (refuses address status) = submit_error w address status
run_program w (gives_back address) = giveback w address
run_program w (completes caller argument) = complete w caller argument

-- Programs one after another, each in a world of its own.
unfoldable pub run_all : List (World × Program) → Kernel → Kernel
unfolding run_program
run_all [] k = k
run_all ((w, p) ∷ ps) k = run_all ps (run_program w p k).1

-- The maps as they are loaded.
abbrev pub fresh_maps : Kernel
fresh_maps = record {
  inflight = [];
  sequence = 0;
  stats = record {
    submitted = 0;
    completed = 0;
    submit_errors = 0;
    ring_losses = 0;
    read_errors = 0;
    unsupported_buffers = 0;
    state_errors = 0;
    sg_events = 0;
  };
  ring = [];
  tick = 0;
}

run_program-Acts : (w : World) (p : Program) (k : Kernel) → Acts k (run_program w p)
unfolding run_program
run_program-Acts w (submits address) k = submit-Acts w address k
run_program-Acts w (refuses address status) k = submit_error-Acts w address status k
run_program-Acts w (gives_back address) k = giveback-Acts w address k
run_program-Acts w (completes caller argument) k = complete-Acts w caller argument k

fresh-Accounts : Accounts 0 (view fresh_maps)
fresh-Accounts = record {
  distinct = tt;
  numbered = tt;
  below = tt;
  few = omega arith;
  few_errors = omega arith;
  few_submitted = omega arith;
  at_least = omega arith;
  at_most = omega arith;
}

run_all-Accounts_from :
    (n : ℕ) (ps : List (World × Program)) (k : Kernel)
    → 2 * (n + length ps) < 2 ^ 64
    → Accounts n (view k)
    → Accounts (n + length ps) (view (run_all ps k))
unfolding run_all
run_all-Accounts_from n [] k small a = subst (λ x. Accounts x (view k)) (omega arith) a
run_all-Accounts_from n ((w, p) ∷ ps) k small a =
    let next =
      Effect-Accounts n (view k) _ (omega (arith, small)) a (run_program-Acts w p k).effect in
    subst (λ x. Accounts x (view (run_all ps (run_program w p k).1))) (omega arith)
      (run_all-Accounts_from (suc n) ps (run_program w p k).1 (omega (arith, small)) next)

-- After any programs in any order, from the maps as they are loaded, each in a world of its own and
-- fewer than 2^63 of them: each address and each number is in flight once, no number in flight is
-- above the sequence, the completions, the refusals and the URBs in flight are at most the
-- submissions, and the submissions are at most those and the errors of state.
pub run_all-Accounts :
    (ps : List (World × Program))
    → 2 * length ps < 2 ^ 64
    → Accounts (length ps) (view (run_all ps fresh_maps))
run_all-Accounts ps small =
    subst (λ x. Accounts x (view (run_all ps fresh_maps))) (omega arith)
      (run_all-Accounts_from 0 ps fresh_maps (omega (arith, small)) fresh-Accounts)
