-- ===== src/Kernel/Programs.antt =====
-- crates/usbscope-ebpf/src/main.rs: the programs, which run where the kernel submits an URB, refuses
-- it, gives it back and completes it.
use usbscope.Prelude.{
  ℕ, min, Bool, true, false, not, ◌&&◌, ◌||◌, Option, none, some, length, ltb, leb, ◌==◌,
  if◌then◌else◌,
}
use usbscope.Prelude.Int.{ℤ, pos, negsuc, ltb_ℤ}
use usbscope.Common.Meta.{default_meta, max_kernel_predicates}
use usbscope.Capture.Reassembler.State.{find, erase, put}
use usbscope.Kernel.Prefilter.{prefilter}
use usbscope.Kernel.Machine.{
  World, State, Action, pure, ◌>>=◌, ◌>>◌, ask, count, next_id, submitted_field, completed_field,
  submit_errors_field, read_errors_field, state_errors_field,
}
use usbscope.Kernel.Urb.{core_read_urb, core_completion_status, selected}
use usbscope.Kernel.Emit.{emit}

abbrev pub max_inflight : ℕ
max_inflight = 65536

-- INFLIGHT.get
unfoldable pub lookup : ℕ → Action (Option State)
lookup address k = (find address k.inflight, k)

-- INFLIGHT.remove
unfoldable pub forget : ℕ → Action (Unit {0})
forget address k = (tt, record k { inflight = erase address k.inflight })

-- INFLIGHT.insert, and the write through get_ptr_mut
unfoldable pub remember : ℕ → State → Action (Unit {0})
remember address s k = (tt, record k { inflight = put address s k.inflight })

abbrev pub is_known : Option State → Bool
is_known none = false
is_known (some s) = true

-- Whether INFLIGHT.insert is refused: the map is full, or the kernel has no memory.
unfoldable pub insert_fails : World → ℕ → Action Bool
insert_fails w address k =
    ask
      (λ t.
        not (w.has_memory t)
        || (not (is_known (find address k.inflight)) && leb max_inflight (length k.inflight)))
      k

-- The entry of a submission, and its event.
unfoldable pub enter_submission : World → ℕ → ℕ → Action (Unit {0})
unfolding remember insert_fails emit
enter_submission w address id = do
  refused ← insert_fails w address
  (if refused then count state_errors_field else (do
    remember address (record { id = id; status = pos 0; ready = 0 })
    count submitted_field
    emit w address id b'S' (negsuc 114)))

-- A submission that is selected.
unfoldable pub submit_selected : World → ℕ → Action (Unit {0})
unfolding lookup enter_submission
submit_selected w address = do
  id ← next_id
  old ← lookup address
  (if is_known old then count state_errors_field else pure tt)
  enter_submission w address id

-- fn submit
unfoldable pub submit : World → ℕ → Action (Unit {0})
unfolding submit_selected core_read_urb
submit w address = elim w.config [
  | none ↦ pure tt
  | some config ↦ if config.enabled == 0 then pure tt else (do
    read ← core_read_urb w address (record default_meta { event_type = b'S' })
    elim read [
      | none ↦ count read_errors_field
      | some (m, buffer, segments) ↦ (do
        runs ← ask (λ t. w.runs_loop t (min config.filter_count max_kernel_predicates))
        (if not (selected m config) || not (prefilter w.filter (not runs) m config.filter_count)
            then pure tt
            else submit_selected w address))
    ])
]

-- observe_submit_error; the status is none where the program cannot read it
unfoldable pub submit_error : World → ℕ → Option ℤ → Action (Unit {0})
unfolding lookup forget emit
submit_error w address none = count state_errors_field
submit_error w address (some status) =
    if ltb_ℤ status (pos 0)
    then (do
      found ← lookup address
      elim found [
        | none ↦ pure tt
        | some s ↦ (do forget address; count submit_errors_field; emit w address s.id b'E' status)
      ])
    else pure tt

-- observe_giveback
unfoldable pub giveback : World → ℕ → Action (Unit {0})
unfolding lookup remember core_completion_status
giveback w address = do
  found ← lookup address
  elim found [
    | none ↦ pure tt
    | some s ↦ (do
      read ← core_completion_status w address
      elim read [
        | none ↦ count read_errors_field
        | some status ↦ remember address (record s { status = status; ready = 1 })
      ])
  ]

-- An URB that is known, at its completion.
unfoldable pub complete_known : World → ℕ → State → Action (Unit {0})
unfolding forget emit
complete_known w address s = do
  forget address
  (if s.ready == 0
      then count state_errors_field
      else (do count completed_field; emit w address s.id b'C' s.status))

-- fn complete; the caller's address is 0 where it cannot be read, and the argument none
unfoldable pub complete : World → ℕ → Option ℕ → Action (Unit {0})
unfolding lookup complete_known
complete w caller argument = elim w.config [
  | none ↦ pure tt
  | some config ↦
      if ltb caller config.giveback_start || leb config.giveback_end caller
      then pure tt
      else elim argument [
        | none ↦ count state_errors_field
        | some address ↦ (do
          found ← lookup address
          elim found [ none ↦ pure tt | some s ↦ complete_known w address s ])
      ]
]
