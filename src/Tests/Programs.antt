-- ===== src/Tests/Programs.antt =====
-- Programs that run in a small world.
use usbscope.Prelude.{
  ℕ, zero, suc, ◌-◌, ◌≡◌, ◌^◌, refl, arith, true, false, none, some, List, [], ◌∷◌, Bool,
}
use usbscope.Prelude.Int.{pos, negsuc}
use usbscope.Common.Wire.{big}
use usbscope.Kernel.Machine.{World, Kernel, CaptureConfig, UrbFields}
use usbscope.Capture.Reassembler.State
use usbscope.Kernel.Machine
use usbscope.Kernel.Prefilter
use usbscope.Kernel.Urb
use usbscope.Kernel.Programs
use usbscope.Kernel.Accounting.{
  Program, submits, refuses, gives_back, completes, run_all, fresh_maps, run_all-Accounts,
}
use usbscope.Kernel.Accounting.Effects.{view}
use usbscope.Kernel.Accounting.Counters.{Accounts}

abbrev small_config : CaptureConfig
small_config = record {
  epoch_offset_ns = 5;
  giveback_start = 100;
  giveback_end = 200;
  memory = record {
    vmemmap_symbol = 0;
    page_offset_symbol = 0;
    page_shift = 12;
    va_bits = 48;
    layout = 0;
  };
  bus = 0;
  device = 2 ^ 32 - 1;
  enabled = 1;
  filter_count = 0;
}

-- A bulk submission of three bytes, out of endpoint 2.
abbrev pub small_urb : UrbFields
small_urb = record {
  busnum = 1;
  devnum = 4;
  vendor = 0x1d6b;
  product = 2;
  attributes = 2;
  endpoint_address = 2;
  transfer_flags = 0;
  transfer_buffer_length = 3;
  actual_length = 3;
  interval = pos 0;
  start_frame = pos 0;
  error_count = pos 0;
  status = pos 0;
  number_of_packets = pos 0;
  transfer_buffer = 4096;
  num_sgs = 0;
}

abbrev pub bytes_of : ℕ → List ℕ
bytes_of zero = []
bytes_of (suc n) = 7 ∷ bytes_of n

-- The ring has room for events where roomy.
abbrev pub small_world : Bool → World
small_world roomy = record {
  host = big;
  config = some small_config;
  filter = [];
  clock_ns = λ t. t;
  urb_fields = λ t address. some small_urb;
  setup_packet = λ t address. none;
  completion_fields = λ t address. some (record {
    unlinked = pos 0;
    transfer_flags = 0;
    actual_length = 3;
    transfer_buffer_length = 3;
  });
  iso_fields = λ t address index. none;
  sg_start = λ t address. none;
  sg_segment = λ t start memory. none;
  read_kernel = λ t source n. some (bytes_of n);
  has_room = λ t n. roomy;
  stale = λ t n. bytes_of (n - 24);
  reads_stack = λ t. true;
  has_memory = λ t. true;
  runs_loop = λ t n. true;
}

-- One URB is submitted twice, given back and completed; another is refused.
abbrev few_programs : List (World × Program)
few_programs =
    (small_world true, submits 10)
    ∷ (small_world false, submits 10)
    ∷ (small_world true, submits 11)
    ∷ (small_world true, refuses 11 (some (negsuc 21)))
    ∷ (small_world true, gives_back 10)
    ∷ (small_world true, completes 150 (some 10))
    ∷ []

run_all_counts :
    ((view (run_all few_programs fresh_maps)).submitted ≡ 3)
    × ((view (run_all few_programs fresh_maps)).completed ≡ 1)
    × ((view (run_all few_programs fresh_maps)).submit_errors ≡ 1)
    × ((view (run_all few_programs fresh_maps)).state_errors ≡ 1)
unfolding run_all Programs.submit Programs.submit_error Programs.giveback Programs.complete
    Urb.selected Prefilter.prefilter State.find State.put Machine.◌>>=◌ Machine.ask Machine.pure
    Machine.next_id Machine.submit_record Machine.bpf_loop Machine.count
run_all_counts = (refl, refl, refl, refl)

run_all-Accounts_example : Accounts 6 (view (run_all few_programs fresh_maps))
run_all-Accounts_example = run_all-Accounts few_programs (omega arith)
