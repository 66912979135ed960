-- ===== src/Capture/Reassembler/State.antt =====
-- crates/usbscope-capture/src/lib.rs: the state of the reassembler and the head of a record.
use usbscope.Prelude.{
  ℕ, ◌+◌, ◌-◌, ◌^◌, Bool, true, false, ◌&&◌, Option, none, some, List, [], ◌∷◌, length, take, drop,
  leb, ◌==◌, if◌then◌else◌, min,
}
use usbscope.Prelude.Result.{
  Result, ok, ensure, ◌>>◌, short_record_header, unsupported_event_abi, invalid_record_size,
}
use usbscope.Common.Meta.{abi_version, chunk_size}
use usbscope.Capture.Event.{Spool, Event}
use usbscope.Capture.Decode.{u16_at, u32_at, u64_at}
use usbscope.Capture.Ranges.{Ranges}

abbrev pub max_record_size : ℕ
max_record_size = chunk_size + 24

abbrev pub max_pending_events : ℕ
max_pending_events = 4096

pub record Pending (S : Spool) : Type 0 where
  pub event : Event S
  pub ranges : Ranges
  pub copied : ℕ

pub record ReassemblyStats : Type 0 where
  pub complete_events : ℕ
  pub incomplete : ℕ
  pub orphan_records : ℕ
  pub kernel_losses : ℕ

-- The unfinished events, one entry for an id: a HashMap whose order nothing observes.
pub record Reassembler (S : Spool) : Type 0 where
  pub pending : List (ℕ × Pending S)
  pub stats : ReassemblyStats

-- Reassembler::default()
abbrev pub fresh : (S : Spool) → Reassembler S
fresh S = record {
  pending = [];
  stats = record { complete_events = 0; incomplete = 0; orphan_records = 0; kernel_losses = 0 };
}

module _ {ℓ} {V : Type ℓ} where
  -- HashMap::get, contains_key
  unfoldable pub find : ℕ → List (ℕ × V) → Option V
  find id [] = none
  find id ((j, v) ∷ m) = if j == id then some v else find id m

  -- HashMap::remove
  unfoldable pub erase : ℕ → List (ℕ × V) → List (ℕ × V)
  erase id [] = []
  erase id ((j, v) ∷ m) = let rest = erase id m in if j == id then rest else (j, v) ∷ rest

  -- HashMap::insert, and the update through get_mut
  unfoldable pub put : ℕ → V → List (ℕ × V) → List (ℕ × V)
  unfolding erase
  put id v m = (id, v) ∷ erase id m

-- A record after its header is read.
pub record Frame : Type 0 where
  pub kind : ℕ
  pub id : ℕ
  pub offset : ℕ
  pub body : List ℕ

-- The checks at the head of `push`.
unfoldable pub read_frame : List ℕ → Result Frame
read_frame bytes = do
  ensure (leb 24 (length bytes)) short_record_header
  ensure (u16_at bytes 0 == abi_version) unsupported_event_abi
  let size = u32_at bytes 4
  ensure ((leb 24 size && leb size max_record_size) && leb size (length bytes)) invalid_record_size
  ok (record {
    kind = u16_at bytes 2;
    id = u64_at bytes 8;
    offset = u64_at bytes 16;
    body = drop 24 (take size bytes);
  })

-- u64::saturating_add
abbrev pub saturating_add : ℕ → ℕ → ℕ
saturating_add a b = min (a + b) (2 ^ 64 - 1)

-- The losses that a summary of the kernel's counters reports.
unfoldable pub add_losses : ℕ → List ℕ → ℕ
add_losses losses body =
    saturating_add
      (saturating_add (saturating_add (saturating_add losses (u64_at body 24)) (u64_at body 32))
        (u64_at body 40))
      (u64_at body 48)

-- Two byte strings are equal.
unfoldable pub same_bytes : List ℕ → List ℕ → Bool
same_bytes [] [] = true
same_bytes (x ∷ xs) (y ∷ ys) = x == y && same_bytes xs ys
same_bytes _ _ = false
