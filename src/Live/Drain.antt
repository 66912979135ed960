-- ===== src/Live/Drain.antt =====
-- src/live.rs, the drain of the ring, with the callback `consume` of src/main.rs where no raw archive
-- is written: what is delivered goes to `consume_event`, here a list.
use usbscope.Prelude.{ℕ, ◌&&◌, Option, none, some, List, [], ◌∷◌, ◌++◌, length, take, leb}
use usbscope.Prelude.Result.{
  Result, ok, ensure, ◌>>◌, ◌>>=◌, short_kernel_record, invalid_kernel_record_length,
}
use usbscope.Capture.Event.{Spool, Event}
use usbscope.Capture.Decode.{u32_at}
use usbscope.Capture.Reassembler.State.{Reassembler}
use usbscope.Capture.Reassembler.Push.{push}

-- The record in an item of the ring, whose reservation may be longer.
unfoldable pub record_of : List ℕ → Result (List ℕ)
record_of item = do
  ensure (leb 24 (length item)) short_kernel_record
  let size = u32_at item 4
  ensure (leb 24 size && leb size (length item)) invalid_kernel_record_length
  ok (take size item)

abbrev pub delivered : {S : Spool} → Option (Event S) → List (Event S)
delivered none = []
delivered (some event) = event ∷ []

-- The items of the ring in turn, and the events that come out.
unfoldable pub drain :
    {S : Spool} → Reassembler S → List (List ℕ) → Result (List (Event S) × Reassembler S)
unfolding record_of
drain r [] = ok ([], r)
drain r (item ∷ items) = record_of item >>= λ bytes.
    push r bytes >>= λ step. drain step.1 items >>= λ rest. ok (delivered step.0 ++ rest.0, rest.1)

-- The records of the items, which `consume` writes to a raw archive.
unfoldable pub recorded : List (List ℕ) → Result (List (List ℕ))
unfolding record_of
recorded [] = ok []
recorded (item ∷ items) =
    record_of item >>= λ bytes. recorded items >>= λ records. ok (bytes ∷ records)

-- The loop of src/main.rs over the records of an archive, which no limit stops.
unfoldable pub consume_all :
    {S : Spool} → Reassembler S → List (List ℕ) → Result (List (Event S) × Reassembler S)
consume_all r [] = ok ([], r)
consume_all r (bytes ∷ records) = push r bytes >>= λ step.
    consume_all step.1 records >>= λ rest. ok (delivered step.0 ++ rest.0, rest.1)
