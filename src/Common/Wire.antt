-- ===== src/Common/Wire.antt =====
-- crates/usbscope-common/src/lib.rs: the bytes of the records that are published, `to_le` and
-- `encode_le` over the `repr(C)` layout of a host of either byte order.
pub mod Layout
use mathlib.Core.List.{reverse}
use usbscope.Prelude.{ℕ, zero, suc, ◌+◌, ◌/◌, ◌%◌, List, [], ◌∷◌, ◌++◌}
use usbscope.Prelude.Int.{ℤ, unsigned}
use usbscope.Prelude.Bytes.{from_le, to_le}
use usbscope.Common.Meta.{EventMeta, IsoDescriptor, EventEnd, RecordHeader, abi_version}

pub data Endian : Type 0 where
  little big : Endian

-- The bytes of a w-byte scalar in the memory of a host.
unfoldable pub memory : Endian → ℕ → ℕ → List ℕ
memory little w n = to_le w n
memory big w n = reverse (to_le w n)

-- n.to_le(): the scalar itself, or with its bytes swapped.
unfoldable pub host_to_le : Endian → ℕ → ℕ → ℕ
host_to_le little w n = n
host_to_le big w n = from_le (reverse (to_le w n))

unfoldable pub publish : Endian → ℕ → ℕ → List ℕ
unfolding memory host_to_le
publish host w n = memory host w (host_to_le host w n)

-- RecordHeader::to_le
unfoldable pub encode_header : Endian → RecordHeader → List ℕ
encode_header host h =
    publish host 2 h.version
    ++ (publish host 2 h.kind
        ++ (publish host 4 h.size ++ (publish host 8 h.event_id ++ publish host 8 h.offset)))

-- EventMeta::encode_le: bytes stand as they are, and the setup packet is USB's own.
unfoldable pub encode_meta : Endian → EventMeta → List ℕ
encode_meta host m =
    publish host 8 m.urb_id
    ++ (publish host 8 m.timestamp_ns
        ++ (publish host 2 m.bus
            ++ (m.device
                ∷ m.endpoint
                ∷ m.transfer_type
                ∷ m.event_type
                ∷ m.setup_present
                ∷ m.has_data
                ∷ (publish host 4 (unsigned 32 m.status)
                    ++ (publish host 4 m.requested_len
                        ++ (publish host 4 m.actual_len
                            ++ (publish host 4 m.payload_len
                                ++ (publish host 4 (unsigned 32 m.interval)
                                    ++ (publish host 4 (unsigned 32 m.start_frame)
                                        ++ (publish host 4 m.transfer_flags
                                            ++ (publish host 4 m.iso_count
                                                ++ (publish host 4 (unsigned 32 m.error_count)
                                                    ++ (publish host 2 m.vid
                                                        ++ (publish host 2 m.pid
                                                            ++ m.setup))))))))))))))

-- IsoDescriptor::to_le
unfoldable pub encode_iso : Endian → IsoDescriptor → List ℕ
encode_iso host d =
    publish host 4 (unsigned 32 d.status)
    ++ (publish host 4 d.offset ++ (publish host 4 d.length ++ publish host 4 d.padding))

-- EventEnd::to_le
unfoldable pub encode_end : Endian → EventEnd → List ℕ
encode_end host e =
    publish host 8 e.copied_bytes ++ (publish host 4 e.descriptors ++ publish host 4 e.reason)
