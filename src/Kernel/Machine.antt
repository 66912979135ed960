-- ===== src/Kernel/Machine.antt =====
-- crates/usbscope-ebpf/src/main.rs: the maps that the programs share, and the kernel around them.
-- A program is an action on the maps. What it asks of the kernel (its memory, room in the ring, the
-- helper bpf_loop) is a parameter, the `World`; each question takes a tick, so that two questions
-- may have different answers. Programs run one at a time: of two on different processors, the map
-- operations and the records of different events may interleave, which is not modelled.
use usbscope.Prelude.{
  ℕ, zero, suc, ◌+◌, ◌%◌, ◌^◌, ◌<◌, Bool, true, false, Option, List, [], ◌∷◌, ◌++◌, ◌==◌,
  if◌then◌else◌,
}
use usbscope.Prelude.Int.{ℤ}
use usbscope.Common.Meta.{CaptureStats, IsI32}
use usbscope.Common.KernelPredicate.{KernelPredicate}
use usbscope.Common.Wire.{Endian}

pub record SgMemory : Type 0 where
  pub vmemmap_symbol : ℕ
  pub page_offset_symbol : ℕ
  pub page_shift : ℕ
  pub va_bits : ℕ
  pub layout : ℕ

pub record CaptureConfig : Type 0 where
  pub epoch_offset_ns : ℕ
  pub giveback_start : ℕ
  pub giveback_end : ℕ
  pub memory : SgMemory
  pub bus : ℕ
  pub device : ℕ
  pub enabled : ℕ
  pub filter_count : ℕ

-- An URB in flight, an entry of the map INFLIGHT.
pub record State : Type 0 where
  pub id : ℕ
  pub status : ℤ
  pub ready : ℕ

-- The fields that usb.c reads of `struct urb` and of what it points to.
pub record UrbFields : Type 0 where
  pub busnum : ℕ
  pub devnum : ℕ
  pub vendor : ℕ
  pub product : ℕ
  pub attributes : ℕ
  pub endpoint_address : ℕ
  pub transfer_flags : ℕ
  pub transfer_buffer_length : ℕ
  pub actual_length : ℕ
  pub interval : ℤ
  pub start_frame : ℤ
  pub error_count : ℤ
  pub status : ℤ
  pub number_of_packets : ℤ
  pub transfer_buffer : ℕ
  pub num_sgs : ℕ

pub record CompletionFields : Type 0 where
  pub unlinked : ℤ
  pub transfer_flags : ℕ
  pub actual_length : ℕ
  pub transfer_buffer_length : ℕ

-- `struct usb_iso_packet_descriptor`
pub record IsoFields : Type 0 where
  pub offset : ℕ
  pub length : ℕ
  pub actual_length : ℕ
  pub status : ℤ

pub record SgSegment : Type 0 where
  pub source : ℕ
  pub next : ℕ
  pub length : ℕ

-- The ranges of the C types; a vendor and a product are in host order.
pub record FieldsInRange (f : UrbFields) : Type 0 where
  pub vendor_u16 : f.vendor < 2 ^ 16
  pub product_u16 : f.product < 2 ^ 16
  pub flags_u32 : f.transfer_flags < 2 ^ 32
  pub requested_u32 : f.transfer_buffer_length < 2 ^ 32
  pub actual_u32 : f.actual_length < 2 ^ 32
  pub interval_i32 : IsI32 f.interval
  pub start_frame_i32 : IsI32 f.start_frame
  pub error_count_i32 : IsI32 f.error_count
  pub status_i32 : IsI32 f.status
  pub packets_i32 : IsI32 f.number_of_packets

-- The kernel outside these programs: its answers by the tick of the question. None is a failed
-- read.
pub record World : Type 0 where
  pub host : Endian
  pub config : Option CaptureConfig
  pub filter : List KernelPredicate
  pub clock_ns : ℕ → ℕ
  pub urb_fields : ℕ → ℕ → Option UrbFields
  pub setup_packet : ℕ → ℕ → Option (List ℕ)
  pub completion_fields : ℕ → ℕ → Option CompletionFields
  pub iso_fields : ℕ → ℕ → ℕ → Option IsoFields
  pub sg_start : ℕ → ℕ → Option ℕ
  pub sg_segment : ℕ → ℕ → SgMemory → Option SgSegment
  -- bpf_probe_read_kernel from an address, of a length
  pub read_kernel : ℕ → ℕ → ℕ → Option (List ℕ)
  -- whether RingBuf::reserve of a number of bytes succeeds, and what the reservation held
  pub has_room : ℕ → ℕ → Bool
  pub stale : ℕ → ℕ → List ℕ
  -- whether a program reads its own stack
  pub reads_stack : ℕ → Bool
  -- whether HashMap::insert finds memory
  pub has_memory : ℕ → Bool
  -- whether bpf_loop runs for a number of rounds
  pub runs_loop : ℕ → ℕ → Bool

-- The maps. The counters of all processors are added up.
pub record Kernel : Type 0 where
  pub inflight : List (ℕ × State)
  pub sequence : ℕ
  pub stats : CaptureStats
  -- the records that were submitted to EVENTS, the oldest first
  pub ring : List (List ℕ)
  pub tick : ℕ

abbrev pub Action {ℓ} : Type ℓ → Type ℓ
Action A = Kernel → A × Kernel

unfoldable pub pure {ℓ} : {A : Type ℓ} → A → Action A
pure a k = (a, k)

infixl 5 ◌>>=◌ ◌>>◌
unfoldable pub ◌>>=◌ {ℓ κ} :
    {A : Type ℓ} {B : Type κ} (m : Action A) (rest : A → Action B) → Action B
◌>>=◌ m rest k = let found = m k in rest found.0 found.1

abbrev pub ◌>>◌ {ℓ} : {B : Type ℓ} (m : Action (Unit {0})) (rest : Action B) → Action B
m >> rest = m >>= λ done. rest

-- A question to the world.
unfoldable pub ask {ℓ} : {A : Type ℓ} → (ℕ → A) → Action A
ask answer k = (answer k.tick, record k { tick = k.tick + 1 })

-- The fields of the counters that a program counts in.
abbrev pub submitted_field : ℕ
submitted_field = 0

abbrev pub completed_field : ℕ
completed_field = 1

abbrev pub submit_errors_field : ℕ
submit_errors_field = 2

abbrev pub ring_losses_field : ℕ
ring_losses_field = 3

abbrev pub read_errors_field : ℕ
read_errors_field = 4

abbrev pub unsupported_buffers_field : ℕ
unsupported_buffers_field = 5

abbrev pub state_errors_field : ℕ
state_errors_field = 6

abbrev pub sg_events_field : ℕ
sg_events_field = 7

-- atomic_xadd of 1 to a u64
abbrev pub next_u64 : ℕ → ℕ
next_u64 n = (n + 1) % 2 ^ 64

unfoldable pub counted : ℕ → CaptureStats → CaptureStats
counted field s =
    if field == 0
    then record s { submitted = next_u64 s.submitted }
    else if field == 1
    then record s { completed = next_u64 s.completed }
    else if field == 2
    then record s { submit_errors = next_u64 s.submit_errors }
    else if field == 3
    then record s { ring_losses = next_u64 s.ring_losses }
    else if field == 4
    then record s { read_errors = next_u64 s.read_errors }
    else if field == 5
    then record s { unsupported_buffers = next_u64 s.unsupported_buffers }
    else if field == 6
    then record s { state_errors = next_u64 s.state_errors }
    else record s { sg_events = next_u64 s.sg_events }

-- fn count
unfoldable pub count : ℕ → Action (Unit {0})
unfolding counted
count field k = (tt, record k { stats = counted field k.stats })

-- fn next_id
unfoldable pub next_id : Action ℕ
next_id k = (next_u64 k.sequence, record k { sequence = next_u64 k.sequence })

-- RingBuf::submit of a reservation, as its bytes
unfoldable pub submit_record : List ℕ → Action (Unit {0})
submit_record bytes k = (tt, record k { ring = k.ring ++ (bytes ∷ []) })

module _ {ℓ} {C : Type ℓ} (callback : ℕ → C → Action (Bool × C)) where
  -- The rounds of bpf_loop, from an index on, until the callback returns 1.
  unfoldable pub rounds : ℕ → ℕ → C → Action C
  rounds zero index c k = (c, k)
  rounds (suc n) index c k =
      let found = callback index c k in
      elim found.0.0 [
        | true ↦ (found.0.1, found.1)
        | false ↦ rounds n (suc index) found.0.1 found.1
      ]

  -- bpf_loop: whether it ran (its result is not negative), and the context behind it
  unfoldable pub bpf_loop : World → ℕ → C → Action (Bool × C)
  unfolding rounds
  bpf_loop w n c = do
    runs ← ask (λ t. w.runs_loop t n)
    (if runs then (rounds n 0 c >>= λ done. pure (true, done)) else pure (false, c))
