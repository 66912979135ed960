-- ===== src/Common/Meta.antt =====
-- crates/usbscope-common/src/lib.rs: the metadata of an event, and the ranges of its fields.
use usbscope.Prelude.{ℕ, ◌^◌, ◌<◌, List, All, length, ◌≡◌, ◌*◌, replicate}
use usbscope.Prelude.Int.{ℤ, pos, negsuc}
use usbscope.Prelude.Bytes.{IsByte}

abbrev pub abi_version : ℕ
abi_version = 1

abbrev pub chunk_size : ℕ
chunk_size = 16 * 1024

abbrev pub record_begin : ℕ
record_begin = 1

abbrev pub record_data : ℕ
record_data = 2

abbrev pub record_iso : ℕ
record_iso = 3

abbrev pub record_end : ℕ
record_end = 4

abbrev pub record_stats : ℕ
record_stats = 5

abbrev pub complete : ℕ
complete = 0

abbrev pub loss_ring : ℕ
loss_ring = 1

abbrev pub loss_read : ℕ
loss_read = 2

abbrev pub loss_unsupported_buffer : ℕ
loss_unsupported_buffer = 3

abbrev pub max_kernel_predicates : ℕ
max_kernel_predicates = 64

pub record EventMeta : Type 0 where
  pub urb_id : ℕ
  pub timestamp_ns : ℕ
  pub bus : ℕ
  pub device : ℕ
  pub endpoint : ℕ
  -- ISO is 0, interrupt 1, control 2, bulk 3
  pub transfer_type : ℕ
  pub event_type : ℕ
  pub setup_present : ℕ
  pub has_data : ℕ
  pub status : ℤ
  pub requested_len : ℕ
  pub actual_len : ℕ
  pub payload_len : ℕ
  pub interval : ℤ
  pub start_frame : ℤ
  pub transfer_flags : ℕ
  pub iso_count : ℕ
  pub error_count : ℤ
  pub vid : ℕ
  pub pid : ℕ
  pub setup : List ℕ

-- EventMeta::default()
abbrev pub default_meta : EventMeta
default_meta = record {
  urb_id = 0;
  timestamp_ns = 0;
  bus = 0;
  device = 0;
  endpoint = 0;
  transfer_type = 0;
  event_type = 0;
  setup_present = 0;
  has_data = 0;
  status = pos 0;
  requested_len = 0;
  actual_len = 0;
  payload_len = 0;
  interval = pos 0;
  start_frame = pos 0;
  transfer_flags = 0;
  iso_count = 0;
  error_count = pos 0;
  vid = 0;
  pid = 0;
  setup = replicate 8 0;
}

-- An i32.
abbrev pub IsI32 : ℤ → Type 0
IsI32 (pos n) = n < 2 ^ 31
IsI32 (negsuc n) = n < 2 ^ 31

-- The ranges that the field types give: u64, u16, u8, u32, i32 and [u8; 8].
pub record MetaInRange (m : EventMeta) : Type 0 where
  pub urb_id_u64 : m.urb_id < 2 ^ 64
  pub timestamp_u64 : m.timestamp_ns < 2 ^ 64
  pub bus_u16 : m.bus < 2 ^ 16
  pub device_u8 : m.device < 256
  pub endpoint_u8 : m.endpoint < 256
  pub transfer_type_u8 : m.transfer_type < 256
  pub event_type_u8 : m.event_type < 256
  pub setup_present_u8 : m.setup_present < 256
  pub has_data_u8 : m.has_data < 256
  pub status_i32 : IsI32 m.status
  pub requested_u32 : m.requested_len < 2 ^ 32
  pub actual_u32 : m.actual_len < 2 ^ 32
  pub payload_u32 : m.payload_len < 2 ^ 32
  pub interval_i32 : IsI32 m.interval
  pub start_frame_i32 : IsI32 m.start_frame
  pub flags_u32 : m.transfer_flags < 2 ^ 32
  pub iso_count_u32 : m.iso_count < 2 ^ 32
  pub error_count_i32 : IsI32 m.error_count
  pub vid_u16 : m.vid < 2 ^ 16
  pub pid_u16 : m.pid < 2 ^ 16
  pub setup_length : length m.setup ≡ 8
  pub setup_bytes : All IsByte m.setup

pub record IsoDescriptor : Type 0 where
  pub status : ℤ
  pub offset : ℕ
  pub length : ℕ
  pub padding : ℕ

pub record IsoInRange (d : IsoDescriptor) : Type 0 where
  pub status_i32 : IsI32 d.status
  pub offset_u32 : d.offset < 2 ^ 32
  pub length_u32 : d.length < 2 ^ 32

pub record EventEnd : Type 0 where
  pub copied_bytes : ℕ
  pub descriptors : ℕ
  pub reason : ℕ

pub record RecordHeader : Type 0 where
  pub version : ℕ
  pub kind : ℕ
  pub size : ℕ
  pub event_id : ℕ
  pub offset : ℕ

pub record CaptureStats : Type 0 where
  pub submitted : ℕ
  pub completed : ℕ
  pub submit_errors : ℕ
  pub ring_losses : ℕ
  pub read_errors : ℕ
  pub unsupported_buffers : ℕ
  pub state_errors : ℕ
  pub sg_events : ℕ
