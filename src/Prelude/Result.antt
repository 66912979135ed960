-- ===== src/Prelude/Result.antt =====
-- anyhow::Result: an error is the message of the `ensure!`, `bail!` or `context` that raised it.
use mathlib.Core.Path.{◌≡◌, refl, ap, subst, ◌∙◌}
use mathlib.Core.Bool.{Bool, true, false}
use mathlib.Core.Option.{Option, none, some}
use usbscope.Prelude.Tests.{if◌then◌else◌}

pub data Error : Type 0 where
  -- an error of the operating system, of a file or of the end of an input
  io : Error
  -- not of the code: the fuel of a model ran out, a panic
  out_of_fuel panicked : Error
  -- filter.rs, the expression
  unfinished_quoted_escape unterminated_quoted_string unexpected_end_of_filter : Error
  unexpected_token expected_token nesting_limit unknown_field : Error
  pattern_needs_quote_or_hex hex_pattern_whole_bytes invalid_hex_byte empty_pattern : Error
  payload_offset_fits_u64 invalid_payload_width payload_width_1_2_4_8 mask_fits_u64 : Error
  invalid_hex_number invalid_number number_out_of_range duration_overflow : Error
  -- lib.rs, the records
  invalid_metadata_length invalid_event_type invalid_usb_metadata invalid_presence_flag : Error
  payload_without_data_flag iso_descriptors_on_non_iso payload_span_exceeds_buffer : Error
  short_record_header unsupported_event_abi invalid_record_size invalid_counter_summary : Error
  metadata_offset_must_be_zero duplicate_begin too_many_unfinished unknown_record_kind : Error
  empty_payload_record payload_offset_overflow payload_outside_span overlapping_payload : Error
  conflicting_iso_payload invalid_iso_descriptor_length invalid_iso_descriptor_index : Error
  invalid_event_end iso_descriptor_outside_buffer : Error
  not_an_archive truncated_length invalid_archive_length truncated_record lengths_disagree : Error
  -- output.rs
  rotation_requires_path max_files_requires_rotation rotation_limits_positive : Error
  rotation_counter_exhausted : Error
  -- pcapng.rs
  too_many_output_interfaces too_many_iso_descriptors iso_descriptor_length_overflow : Error
  usb_record_exceeds_format pcapng_block_exceeds_format payload_shorter_than_span : Error
  -- pcapng_read.rs
  truncated_block_header invalid_byte_order_magic invalid_section_length : Error
  unsupported_pcapng_version must_start_with_section invalid_block_length : Error
  short_interface_block option_outside_block invalid_timestamp_resolution : Error
  resolution_not_representable invalid_timestamp_offset invalid_end_of_options : Error
  too_many_capture_sources short_packet_block unknown_interface unsupported_linktype : Error
  packet_timestamp_out_of_range packet_exceeds_block captured_exceeds_original : Error
  invalid_usb_pseudoheader data_length_disagrees iso_descriptor_size_overflow : Error
  invalid_iso_descriptor_span usb_payload_without_flag too_many_pcapng_submissions : Error
  truncated_iso_descriptors iso_outside_urb_buffer truncated_iso_payload : Error
  truncated_pcapng_payload truncated_block block_lengths_disagree legacy_packet_block : Error
  -- live.rs
  short_kernel_record invalid_kernel_record_length : Error
  -- main.rs
  too_many_unmatched_submissions lost_or_incomplete_events : Error

pub data Result {ℓ} (T : Type ℓ) : Type ℓ where
  err : Error → Result T
  ok : T → Result T

infixl 5 ◌>>=◌ ◌>>◌
-- The operator `?`: what follows runs on a value, and an error is returned at once.
abbrev pub ◌>>=◌ {ℓ κ} : {T : Type ℓ} {U : Type κ} (r : Result T) (rest : T → Result U) → Result U
err e >>= rest = err e
ok value >>= rest = rest value

abbrev pub ◌>>◌ {ℓ} : {U : Type ℓ} (check : Result (Unit {0})) (rest : Result U) → Result U
check >> rest = check >>= λ done. rest

-- ensure!(b, e)
abbrev pub ensure : Bool → Error → Result (Unit {0})
ensure true e = ok tt
ensure false e = err e

-- Option::context
abbrev pub context {ℓ} : {A : Type ℓ} → Option A → Error → Result A
context (some a) e = ok a
context none e = err e

pub >>=-eq-ok {ℓ κ} :
    {T : Type ℓ} {U : Type κ} (r : Result T) (rest : T → Result U) {u : U} (h : (r >>= rest) ≡ ok u)
    → (value : T) × (r ≡ ok value) × (rest value ≡ ok u)
>>=-eq-ok (ok value) rest h = (value, refl, h)
>>=-eq-ok (err e) rest h = cc

pub ensure-eq-ok {ℓ} :
    {B : Type ℓ} (b : Bool) (e : Error) (k : Result B) {v : B}
    → (ensure b e >> k) ≡ ok v
    → (b ≡ true) × (k ≡ ok v)
ensure-eq-ok true e k h = (refl, h)
ensure-eq-ok false e k h = cc

-- An error that the code has, not a limit of its model or a panic.
abbrev pub is_genuine : Error → Bool
is_genuine out_of_fuel = false
is_genuine panicked = false
is_genuine _ = true

-- Every value of the result satisfies the predicate, and every error is one of the code's.
pub data Yields {ℓ} {T : Type ℓ} (P : T → Type 0) : Result T → Type ℓ where
  fails : {e : Error} → is_genuine e ≡ true → Yields P (err e)
  yields : {value : T} → P value → Yields P (ok value)

pub Yields-bind {ℓ κ} :
    {T : Type ℓ} {U : Type κ} {P : T → Type 0} {Q : U → Type 0} {r : Result T} {rest : T → Result U}
    → Yields P r
    → ((value : T) → P value → Yields Q (rest value))
    → Yields Q (r >>= rest)
Yields-bind (fails h) k = fails h
Yields-bind (yields h) k = k _ h

pub Yields-ensure {ℓ} :
    {U : Type ℓ} {Q : U → Type 0} (b : Bool) (e : Error) {rest : Result U}
    → is_genuine e ≡ true
    → Yields Q rest
    → Yields Q (ensure b e >> rest)
Yields-ensure true e g k = k
Yields-ensure false e g k = fails g

pub Yields-if {ℓ} :
    {T : Type ℓ} {P : T → Type 0} (b : Bool) {r s : Result T}
    → Yields P r
    → Yields P s
    → Yields P (if b then r else s)
Yields-if true h k = h
Yields-if false h k = k

pub Yields-imp {ℓ} :
    {T : Type ℓ} {P Q : T → Type 0} {r : Result T}
    → Yields P r
    → ((value : T) → P value → Q value)
    → Yields Q r
Yields-imp (fails h) k = fails h
Yields-imp (yields h) k = yields (k _ h)

pub Yields-context {ℓ} :
    {T : Type ℓ} (o : Option T) (e : Error)
    → is_genuine e ≡ true
    → Yields (λ _. Unit {0}) (context o e)
Yields-context none e g = fails g
Yields-context (some value) e g = yields tt

-- What follows a check may use it.
pub Yields-checked {ℓ} :
    {U : Type ℓ} {Q : U → Type 0} (b : Bool) (e : Error) {rest : Result U}
    → is_genuine e ≡ true
    → (b ≡ true → Yields Q rest)
    → Yields Q (ensure b e >> rest)
Yields-checked true e g k = k refl
Yields-checked false e g k = fails g

-- What follows may use the value that it runs on.
pub Yields-bind-eq {ℓ κ} :
    {T : Type ℓ} {U : Type κ} {P : T → Type 0} {Q : U → Type 0} {r : Result T} {rest : T → Result U}
    → Yields P r
    → ((value : T) → r ≡ ok value → P value → Yields Q (rest value))
    → Yields Q (r >>= rest)
Yields-bind-eq (fails h) k = fails h
Yields-bind-eq (yields h) k = k _ refl h

-- A check at the end.
pub Yields-test :
    {P : Unit {0} → Type 0} (b : Bool) (e : Error)
    → is_genuine e ≡ true
    → (b ≡ true → P tt)
    → Yields P (ensure b e)
Yields-test true e g k = yields (k refl)
Yields-test false e g k = fails g

-- A computation that is run step by step.
pub >>=-ok {ℓ κ} :
    {T : Type ℓ} {U : Type κ} {r : Result T} (rest : T → Result U) {value : T} {result : Result U}
    → r ≡ ok value
    → rest value ≡ result
    → (r >>= rest) ≡ result
>>=-ok rest h k = ap (λ x. x >>= rest) h ∙ k

pub ensure-ok {ℓ} :
    {U : Type ℓ} {b : Bool} (e : Error) (rest : Result U) {result : Result U}
    → b ≡ true
    → rest ≡ result
    → (ensure b e >> rest) ≡ result
ensure-ok e rest h k = ap (λ x. ensure x e >> rest) h ∙ k

pub ok-injective {ℓ} : {T : Type ℓ} {u v : T} → ok u ≡ ok v → u ≡ v
ok-injective h = cc

pub Yields-eq-ok {ℓ} :
    {T : Type ℓ} {P : T → Type 0} {r : Result T} (value : T) → Yields P r → r ≡ ok value → P value
Yields-eq-ok value (fails h) e = absurd (cc)
Yields-eq-ok {P = P} value (yields h) e = subst P (ok-injective e) h
