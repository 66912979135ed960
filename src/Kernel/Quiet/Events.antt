-- ===== src/Kernel/Quiet/Events.antt =====
-- crates/usbscope-ebpf/src/main.rs: the publication of an event is quiet, and `emit` takes at most
-- one number of the sequence.
use usbscope.Prelude.{
  ℕ, ◌+◌, ◌≡◌, ◌∙◌, Bool, not, ◌&&◌, ◌||◌, Option, none, some, List, ◌==◌, ◌⊎◌, ◌%◌, ltb, ◌-◌, ◌^◌,
  inl, inr, arith,
}
use usbscope.Kernel.Machine.{World, Kernel, Action, ◌>>=◌}
use usbscope.Kernel.Copy.{CopyContext, copy_callback}
use usbscope.Common.Meta.{EventMeta, IsoDescriptor}
use usbscope.Prelude.Int.{ℤ}
use usbscope.Kernel.Machine.{next_id, next_u64}
use usbscope.Kernel.Urb.{
  core_read_urb, core_completion_status, core_read_iso, fill_meta, fill_setup,
}
use usbscope.Kernel.Iso.{IsoContext, iso_measure, iso_emit, emit_descriptor, copy_frame}
use usbscope.Kernel.Emit.{
  measure, copy_iso, copy_buffer, copy_payload, publish_record, publish_end, publish_event,
  emit_read, emit, observed_meta,
}
use usbscope.Kernel.Quiet.{
  IsQuiet, IsQuiet-pure, IsQuiet-ask, IsQuiet-bind, IsQuiet-if, IsQuiet-option,
  IsQuiet-submit_record, IsQuiet-bpf_loop, IsQuiet-ring_losses, IsQuiet-read_errors,
  IsQuiet-unsupported_buffers,
}
use usbscope.Kernel.Quiet.Payload.{IsQuiet-copy_callback, IsQuiet-copy_sg}

IsQuiet-fill_setup : (w : World) (address : ℕ) (m : EventMeta) → IsQuiet (fill_setup w address m)
unfolding fill_setup
IsQuiet-fill_setup w address m =
    IsQuiet-if (m.transfer_type == 2 && m.event_type == b'S')
      (IsQuiet-bind (IsQuiet-ask _) λ read. IsQuiet-pure _) (IsQuiet-pure _)

pub IsQuiet-core_read_urb :
    (w : World) (address : ℕ) (m : EventMeta) → IsQuiet (core_read_urb w address m)
unfolding core_read_urb
IsQuiet-core_read_urb w address m = IsQuiet-bind (IsQuiet-ask _) λ fields.
    IsQuiet-option fields (IsQuiet-pure _) λ f.
      IsQuiet-option (fill_meta f m) (IsQuiet-pure _)
        λ filled. IsQuiet-bind (IsQuiet-fill_setup w address filled) λ whole. IsQuiet-pure _

pub IsQuiet-core_completion_status :
    (w : World) (address : ℕ) → IsQuiet (core_completion_status w address)
unfolding core_completion_status
IsQuiet-core_completion_status w address = IsQuiet-bind (IsQuiet-ask _) λ fields. IsQuiet-pure _

IsQuiet-core_read_iso :
    (w : World) (address index : ℕ) (submission : Bool)
    → IsQuiet (core_read_iso w address index submission)
unfolding core_read_iso
IsQuiet-core_read_iso w address index submission =
    IsQuiet-bind (IsQuiet-ask _) λ fields. IsQuiet-pure _

IsQuiet-iso_measure : (w : World) (index : ℕ) (c : IsoContext) → IsQuiet (iso_measure w index c)
unfolding iso_measure
IsQuiet-iso_measure w index c =
    IsQuiet-bind (IsQuiet-core_read_iso w c.address index c.submission) λ d. IsQuiet-pure _

IsQuiet-copy_frame : (w : World) (c : IsoContext) (d : IsoDescriptor) → IsQuiet (copy_frame w c d)
unfolding copy_frame
IsQuiet-copy_frame w c d =
    IsQuiet-bind (IsQuiet-bpf_loop (copy_callback w) (IsQuiet-copy_callback w) w _ _) λ done.
      IsQuiet-if (not done.0) (IsQuiet-bind IsQuiet-read_errors λ _. IsQuiet-pure _)
        (IsQuiet-pure _)

IsQuiet-emit_descriptor :
    (w : World) (index : ℕ) (c : IsoContext) (d : IsoDescriptor)
    → IsQuiet (emit_descriptor w index c d)
unfolding emit_descriptor
IsQuiet-emit_descriptor w index c d = IsQuiet-bind (IsQuiet-ask _) λ room.
    IsQuiet-if (not room) (IsQuiet-bind IsQuiet-ring_losses λ _. IsQuiet-pure _) (
      IsQuiet-bind (IsQuiet-submit_record _) λ _.
        IsQuiet-if (c.data_phase && not (d.length == 0))
          (IsQuiet-copy_frame w (record c { descriptors = (c.descriptors + 1) % 2 ^ 32 }) d)
          (IsQuiet-pure _))

IsQuiet-iso_emit : (w : World) (index : ℕ) (c : IsoContext) → IsQuiet (iso_emit w index c)
unfolding iso_emit
IsQuiet-iso_emit w index c =
    IsQuiet-bind (IsQuiet-core_read_iso w c.address index c.submission) λ d.
      IsQuiet-option d (IsQuiet-bind IsQuiet-read_errors λ _. IsQuiet-pure _)
        λ descriptor. IsQuiet-emit_descriptor w index c descriptor

IsQuiet-measure : (w : World) (m : EventMeta) (iso : IsoContext) → IsQuiet (measure w m iso)
unfolding measure
IsQuiet-measure w m iso =
    IsQuiet-if (m.transfer_type == 0)
      (IsQuiet-bind (IsQuiet-bpf_loop (iso_measure w) (IsQuiet-iso_measure w) w _ _) λ done.
        IsQuiet-if (not done.0 || not (done.1.copy.reason == 0))
          (IsQuiet-bind IsQuiet-read_errors λ _. IsQuiet-pure _) (IsQuiet-pure _))
      (IsQuiet-pure _)

IsQuiet-copy_iso :
    (w : World) (m : EventMeta) (buffer segments : ℕ) (iso : IsoContext)
    → IsQuiet (copy_iso w m buffer segments iso)
unfolding copy_iso
IsQuiet-copy_iso w m buffer segments iso =
    IsQuiet-if (not (m.payload_len == 0) && (not (segments == 0) || buffer == 0))
      (IsQuiet-bind IsQuiet-unsupported_buffers λ _. IsQuiet-pure _)
      (IsQuiet-bind (IsQuiet-bpf_loop (iso_emit w) (IsQuiet-iso_emit w) w _ _) λ done.
        IsQuiet-if done.0 (IsQuiet-pure _) (IsQuiet-bind IsQuiet-read_errors λ _. IsQuiet-pure _))

IsQuiet-copy_buffer : (w : World) (c : CopyContext) → IsQuiet (copy_buffer w c)
unfolding copy_buffer
IsQuiet-copy_buffer w c =
    IsQuiet-bind (IsQuiet-bpf_loop (copy_callback w) (IsQuiet-copy_callback w) w _ _) λ done.
      IsQuiet-if done.0 (IsQuiet-pure _) (IsQuiet-bind IsQuiet-read_errors λ _. IsQuiet-pure _)

IsQuiet-copy_payload :
    (w : World) (address : ℕ) (m : EventMeta) (buffer segments event_id : ℕ) (iso : IsoContext)
    → IsQuiet (copy_payload w address m buffer segments event_id iso)
unfolding copy_payload
IsQuiet-copy_payload w address m buffer segments event_id iso =
    IsQuiet-if (m.transfer_type == 0) (IsQuiet-copy_iso w m buffer segments iso) (
      IsQuiet-if (m.payload_len == 0) (IsQuiet-pure _) (
        IsQuiet-if (not (segments == 0))
          (IsQuiet-bind (IsQuiet-copy_sg w address segments _) λ c. IsQuiet-pure _)
          (IsQuiet-if (buffer == 0) (IsQuiet-bind IsQuiet-unsupported_buffers λ _. IsQuiet-pure _)
            (IsQuiet-copy_buffer w _))))

IsQuiet-publish_record :
    (w : World) (size : ℕ) (bytes : List ℕ) → IsQuiet (publish_record w size bytes)
unfolding publish_record
IsQuiet-publish_record w size bytes = IsQuiet-bind (IsQuiet-ask _) λ room.
    IsQuiet-if room (IsQuiet-bind (IsQuiet-submit_record bytes) λ _. IsQuiet-pure _)
      (IsQuiet-bind IsQuiet-ring_losses λ _. IsQuiet-pure _)

IsQuiet-publish_event :
    (w : World) (address : ℕ) (m : EventMeta) (buffer segments event_id : ℕ) (iso : IsoContext)
    → IsQuiet (publish_event w address m buffer segments event_id iso)
unfolding publish_event publish_end
IsQuiet-publish_event w address m buffer segments event_id iso =
    IsQuiet-if (ltb m.requested_len m.payload_len || ltb (2 ^ 31 - 1) m.requested_len)
      IsQuiet-read_errors
      (IsQuiet-bind (IsQuiet-publish_record w 96 _) λ begun.
        IsQuiet-if (not begun) (IsQuiet-pure _) (
          IsQuiet-bind (IsQuiet-copy_payload w address m buffer segments event_id iso)
            λ done. IsQuiet-bind (IsQuiet-publish_record w 40 _) λ _. IsQuiet-pure _))

-- As quiet, but for at most one number that is taken.
pub record Emitted (k k' : Kernel) : Type 0 where
  pub inflight : k'.inflight ≡ k.inflight
  pub sequence : (k'.sequence ≡ k.sequence) ⊎ (k'.sequence ≡ next_u64 k.sequence)
  pub submitted : k'.stats.submitted ≡ k.stats.submitted
  pub completed : k'.stats.completed ≡ k.stats.completed
  pub submit_errors : k'.stats.submit_errors ≡ k.stats.submit_errors
  pub state_errors : k'.stats.state_errors ≡ k.stats.state_errors

-- An action that does so, whatever maps it starts from.
record IsEmission {ℓ} {A : Type ℓ} (m : Action A) : Type 0 where
  emitted : (k : Kernel) → Emitted k (m k).1

module _ {ℓ} {A : Type ℓ} where
  quiet-IsEmission : {m : Action A} → IsQuiet m → IsEmission m
  quiet-IsEmission q = record {
    emitted = λ k.
        let s = q.same k in
        record {
          inflight = s.inflight;
          sequence = inl s.sequence;
          submitted = s.submitted;
          completed = s.completed;
          submit_errors = s.submit_errors;
          state_errors = s.state_errors;
        };
  }

  bind-IsEmission {κ} :
      {B : Type κ} {m : Action A} {rest : A → Action B}
      → IsQuiet m
      → ((a : A) → IsEmission (rest a))
      → IsEmission (m >>= rest)
  unfolding ◌>>=◌
  bind-IsEmission {m = m} q r = record {
    emitted = λ k.
        let s = q.same k in
        let e = (r (m k).0).emitted (m k).1 in
        record {
          inflight = e.inflight ∙ s.inflight;
          sequence = ground (arith, e.sequence, s.sequence);
          submitted = e.submitted ∙ s.submitted;
          completed = e.completed ∙ s.completed;
          submit_errors = e.submit_errors ∙ s.submit_errors;
          state_errors = e.state_errors ∙ s.state_errors;
        };
  }

option-IsEmission {ℓ κ} :
    {A : Type ℓ} {B : Type κ} (o : Option B) {m : Action A} {f : B → Action A}
    → IsQuiet m
    → ((b : B) → IsEmission (f b))
    → IsEmission (elim o [ none ↦ m | some b ↦ f b ])
option-IsEmission none q r = quiet-IsEmission q
option-IsEmission (some b) q r = r b

numbered-IsEmission :
    {B : Type 0} {rest : ℕ → Action B}
    → ((id : ℕ) → IsQuiet (rest id))
    → IsEmission (next_id >>= rest)
unfolding next_id ◌>>=◌
numbered-IsEmission q = record {
  emitted = λ k.
      let s = (q (next_u64 k.sequence)).same (record k { sequence = next_u64 k.sequence }) in
      record {
        inflight = s.inflight;
        sequence = inr s.sequence;
        submitted = s.submitted;
        completed = s.completed;
        submit_errors = s.submit_errors;
        state_errors = s.state_errors;
      };
}

emit_read-IsEmission :
    (w : World) (address : ℕ) (m : EventMeta) (buffer segments : ℕ)
    → IsEmission (emit_read w address m buffer segments)
unfolding emit_read
emit_read-IsEmission w address m buffer segments = numbered-IsEmission λ event_id.
    IsQuiet-bind (IsQuiet-ask _) λ readable. IsQuiet-bind (IsQuiet-measure w m _) λ found.
      IsQuiet-option found (IsQuiet-pure _)
        λ whole. IsQuiet-publish_event w address whole.0 buffer segments event_id whole.1

emit-IsEmission :
    (w : World) (address urb_id event_type : ℕ) (status : ℤ)
    → IsEmission (emit w address urb_id event_type status)
unfolding emit
emit-IsEmission w address urb_id event_type status =
    option-IsEmission w.config (IsQuiet-pure _) λ config. bind-IsEmission (IsQuiet-ask _) λ clock.
      bind-IsEmission
        (IsQuiet-core_read_urb w address
          (observed_meta urb_id event_type ((clock + config.epoch_offset_ns) % 2 ^ 64)))
        λ read. option-IsEmission read IsQuiet-read_errors λ found.
          emit_read-IsEmission w address (record (found.0) { status = status }) found.1 found.2

pub emit-Emitted :
    (w : World) (address urb_id event_type : ℕ) (status : ℤ) (k : Kernel)
    → Emitted k (emit w address urb_id event_type status k).1
emit-Emitted w address urb_id event_type status k =
    (emit-IsEmission w address urb_id event_type status).emitted k
