-- ===== src/Kernel/Delivery/Payload.antt =====
-- crates/usbscope-ebpf/src/main.rs: the records of a payload as fragments that follow each other,
-- over memory that holds still.
use usbscope.Prelude.{
  false, none, ℕ, zero, suc, ◌+◌, ◌≤◌, ◌≡◌, ◌≢◌, refl, ap, ◌∙◌, some, List, [], ◌∷◌, ◌++◌, length,
  arith,
}
use usbscope.Common.Meta.{chunk_size, record_data}
use usbscope.Common.Wire.{Endian}
use usbscope.Kernel.Machine.{World}
use usbscope.Kernel.Copy.{header}

-- The bytes of a memory from an address on.
unfoldable pub bytes_at : (ℕ → ℕ) → ℕ → ℕ → List ℕ
bytes_at mem a zero = []
bytes_at mem a (suc n) = mem a ∷ bytes_at mem (suc a) n

-- What is read, at any time, is what the memory holds.
abbrev pub Holds : World → (ℕ → ℕ) → Type 0
Holds w mem =
    (t a n : ℕ) (bytes : List ℕ) → w.read_kernel t a n ≡ some bytes → bytes ≡ bytes_at mem a n

-- The bytes of a record of data, and what stands behind them in the reservation.
abbrev pub Fragment : Type 0
Fragment = List ℕ × List ℕ

abbrev pub Sendable : Fragment → Type 0
Sendable f = (length f.0 ≢ 0) × (length f.0 ≤ chunk_size)

abbrev pub data_item : Endian → ℕ → ℕ → Fragment → List ℕ
data_item host id from f = header host record_data id (24 + length f.0) from ++ (f.0 ++ f.1)

-- The records of fragments that follow each other.
unfoldable pub items_of : Endian → ℕ → ℕ → List Fragment → List (List ℕ)
items_of host id from [] = []
items_of host id from (f ∷ fs) = data_item host id from f ∷ items_of host id (from + length f.0) fs

unfoldable pub payload_of : List Fragment → List ℕ
payload_of [] = []
payload_of (f ∷ fs) = f.0 ++ payload_of fs

pub length-bytes_at : (mem : ℕ → ℕ) (a n : ℕ) → length (bytes_at mem a n) ≡ n
unfolding bytes_at
length-bytes_at mem a zero = refl
length-bytes_at mem a (suc n) = ap suc (length-bytes_at mem (suc a) n)

pub bytes_at-add :
    (mem : ℕ → ℕ) (a n m : ℕ) → bytes_at mem a (n + m) ≡ bytes_at mem a n ++ bytes_at mem (a + n) m
unfolding bytes_at
bytes_at-add mem a zero m = ground arith
bytes_at-add mem a (suc n) m =
    let same : suc n + m ≡ suc (n + m) = omega arith in
    let moved : suc a + n ≡ a + suc n = omega arith in
    ap (bytes_at mem a) same
    ∙ ap (λ x. mem a ∷ x) (bytes_at-add mem (suc a) n m)
    ∙ ap (λ x. mem a ∷ (bytes_at mem (suc a) n ++ bytes_at mem x m)) moved

-- What makes a copy fail: no room in the ring, memory that cannot be read, a loop that does not run,
-- or no buffer.
pub data Fault (w : World) (buffer : ℕ) : Type 0 where
  no_room : (t n : ℕ) → w.has_room t n ≡ false → Fault w buffer
  unread : (t a n : ℕ) → w.read_kernel t a n ≡ none → Fault w buffer
  no_loop : (t n : ℕ) → w.runs_loop t n ≡ false → Fault w buffer
  no_buffer : buffer ≡ 0 → Fault w buffer
