-- ===== src/Tests/Observations.antt =====
-- One observation, from the URB to the event that is delivered.
use mathlib.Core.Option.{some-injective}
use usbscope.Prelude.{
  ℕ, zero, suc, ◌≡◌, refl, ap, sym, subst, ◌∙◌, arith, true, false, Bool, [], ◌∷◌, ◌++◌, inl,
}
use usbscope.Prelude.Int.{negsuc}
use usbscope.Prelude.Result.{ok, ◌>>=◌}
use usbscope.Common.Wire.{big}
use usbscope.Common.Meta.{record_data}
use usbscope.Capture.Reassembler.State
use usbscope.Capture.Reassembler.State.{fresh, read_frame}
use usbscope.Kernel.Copy.{header}
use usbscope.Kernel.Emit.{emit}
use usbscope.Kernel.Machine
use usbscope.Kernel.Accounting.{fresh_maps}
use usbscope.Kernel.Delivery.Payload.{Holds, bytes_at}
use usbscope.Kernel.Delivery.Readings.{Plain, PlainWorld}
use usbscope.Live.Drain.{record_of}
use usbscope.Live.Items.{read_frame-record_of}
use usbscope.Capture.Event.{Reliable}
use usbscope.Live.Observation.{Observation, emit-Observation}
use usbscope.Tests.Memory.{memory}
use usbscope.Tests.Programs.{small_urb, small_world, bytes_of}

all_sevens : (a n : ℕ) → bytes_of n ≡ bytes_at (λ x. 7) a n
unfolding bytes_at
all_sevens a zero = refl
all_sevens a (suc n) = ap (λ x. 7 ∷ x) (all_sevens (suc a) n)

small_world-Holds : (roomy : Bool) → Holds (small_world roomy) (λ a. 7)
small_world-Holds roomy t a n bytes h = sym (some-injective _ _ h) ∙ all_sevens a n

small_urb-Plain : Plain small_urb
small_urb-Plain = record {
  in_range = omega arith;
  address = omega arith;
  not_iso = omega arith;
  one_buffer = refl;
  placed = omega arith;
}

small_world-Plain : (roomy : Bool) → PlainWorld (small_world roomy)
small_world-Plain roomy = record {
  plain = λ t a f h. subst Plain (some-injective _ _ h) small_urb-Plain;
  setup = λ t a bytes h. absurd (ground (arith, h));
}

memory-Reliable : Reliable memory
memory-Reliable = record { seeks = λ f off. refl; writes = λ f off bs. (_, refl) }

emit-Observation_example :
    Observation
      (fresh memory)
      (small_world true)
      (λ a. 7)
      10
      1
      b'S'
      (negsuc 114)
      fresh_maps
      (emit (small_world true) 10 1 b'S' (negsuc 114) fresh_maps).1
unfolding State.find
emit-Observation_example =
    emit-Observation memory-Reliable (fresh memory) (small_world true) (λ a. 7) 10 1 b'S'
      (negsuc 114) fresh_maps (small_world-Holds true) (small_world-Plain true) (inl refl)
      (omega arith) (omega arith) refl (omega arith)

read_frame-record_of_example :
    (record_of (header big record_data 3 26 5 ++ (0x61 ∷ 0x62 ∷ 0 ∷ [])) >>= read_frame)
    ≡ ok (record { kind = record_data; id = 3; offset = 5; body = 0x61 ∷ 0x62 ∷ [] })
read_frame-record_of_example =
    read_frame-record_of big record_data 3 5 (0x61 ∷ 0x62 ∷ []) (0 ∷ []) (omega arith) (omega arith)
      (omega arith) (omega arith)

-- In the same world without room nothing is published.
emit_lost : (emit (small_world false) 10 1 b'S' (negsuc 114) fresh_maps).1.ring ≡ []
unfolding emit Machine.◌>>=◌ Machine.ask Machine.pure Machine.count Machine.next_id
emit_lost = refl
