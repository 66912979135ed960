-- ===== src/Capture/Pcapng/Reader.antt =====
-- crates/usbscope-capture/src/pcapng_read.rs: the reader, its byte orders, and the blocks of a
-- section and of an interface. The input is the list of the bytes that are left, whose reads do not
-- fail otherwise.
use usbscope.Prelude.{
  ℕ, zero, suc, ◌+◌, ◌-◌, ◌*◌, ◌/◌, ◌%◌, ◌^◌, Bool, true, false, ◌&&◌, Option, none, some, List, [],
  ◌∷◌, ◌++◌, length, take, drop, get_or, ltb, leb, ◌==◌, if◌then◌else◌, min,
}
use usbscope.Prelude.Int.{ℤ, pos, signed}
use usbscope.Prelude.Bytes.{from_le, from_be}
use usbscope.Prelude.Result.{
  Result, ok, err, ensure, context, ◌>>◌, ◌>>=◌, io, out_of_fuel, truncated_block,
  block_lengths_disagree, invalid_byte_order_magic, invalid_section_length,
  unsupported_pcapng_version, option_outside_block, invalid_timestamp_resolution,
  resolution_not_representable, invalid_timestamp_offset, invalid_end_of_options,
  short_interface_block, too_many_capture_sources,
}
use usbscope.Common.Wire.{Endian, little, big}
use usbscope.Capture.Archive.{read_exact}
use usbscope.Capture.Reassembler.State.{same_bytes}
use usbscope.Capture.Submissions.{Submissions}

-- Endian::u16, u32 and u64, of a slice that has the bytes
unfoldable pub endian_uint : Endian → ℕ → List ℕ → ℕ
endian_uint little w b = from_le (take w b)
endian_uint big w b = from_be 0 (take w b)

abbrev pub endian_u16 : Endian → List ℕ → ℕ
endian_u16 e b = endian_uint e 2 b

abbrev pub endian_u32 : Endian → List ℕ → ℕ
endian_u32 e b = endian_uint e 4 b

abbrev pub endian_u64 : Endian → List ℕ → ℕ
endian_u64 e b = endian_uint e 8 b

pub record Interface : Type 0 where
  pub source_id : ℕ
  pub linktype : ℕ
  -- the ticks of a second
  pub units : ℕ
  -- in seconds
  pub offset : ℤ

pub record Reader : Type 0 where
  pub input : List ℕ
  pub endian : Endian
  pub section : Bool
  pub interfaces : List Interface
  pub next_source_id : ℕ
  pub requested : Submissions
  pub incomplete : ℕ

-- Reader::new
abbrev pub new_reader : List ℕ → Reader
new_reader input = record {
  input = input;
  endian = little;
  section = false;
  interfaces = [];
  next_source_id = 0;
  requested = [];
  incomplete = 0;
}

-- (n + 3) & !3
abbrev pub padded_to_4 : ℕ → ℕ
padded_to_4 n = (n + 3) / 4 * 4

-- skip: what is left after the bytes
unfoldable pub skip : ℕ → List ℕ → Result (List ℕ)
skip count input = do
  ensure (min count (length input) == count) truncated_block
  ok (drop count input)

-- Reader::footer
unfoldable pub footer : Endian → ℕ → List ℕ → Result (List ℕ)
unfolding read_exact endian_uint
footer e size input = do
  found ← context (read_exact 4 input) truncated_block
  ensure (endian_u32 e found.0 == size) block_lengths_disagree
  ok found.1

unfoldable pub byte_order : List ℕ → Result Endian
unfolding same_bytes
byte_order magic =
    if same_bytes magic (77 ∷ 60 ∷ 43 ∷ 26 ∷ [])
    then ok little
    else (if same_bytes magic (26 ∷ 43 ∷ 60 ∷ 77 ∷ [])
        then ok big
        else err invalid_byte_order_magic)

-- A section header, behind the eight bytes that every block starts with.
unfoldable pub read_section : Reader → List ℕ → List ℕ → Result Reader
unfolding read_exact byte_order endian_uint skip footer
read_section r header input = do
  magic ← context (read_exact 4 input) io
  e ← byte_order magic.0
  let size = endian_u32 e (drop 4 header)
  ensure (leb 28 size && size % 4 == 0) invalid_section_length
  version ← context (read_exact 4 magic.1) io
  ensure (endian_u16 e version.0 == 1) unsupported_pcapng_version
  rest ← skip (size - 20) version.1
  rest ← footer e size rest
  ok (record r { input = rest; endian = e; section = true; interfaces = []; requested = [] })

-- u64::checked_pow
abbrev pub checked_pow : ℕ → ℕ → Option ℕ
checked_pow b n = if ltb (b ^ n) (2 ^ 64) then some (b ^ n) else none

-- The ticks of a second that the option 9 names.
abbrev pub timestamp_units : ℕ → Option ℕ
timestamp_units v = if leb 128 v then checked_pow 2 (v % 128) else checked_pow 10 v

-- What an option says: whether it is the last one, and the interface with it.
unfoldable pub apply_option : Endian → ℕ → List ℕ → Interface → Result (Bool × Interface)
unfolding endian_uint
apply_option e code value i =
    if code == 9
    then (do
      ensure (length value == 1) invalid_timestamp_resolution
      units ← context (timestamp_units (get_or value 0 0)) resolution_not_representable
      ok (false, record i { units = units }))
    else (if code == 14
        then (do
          ensure (length value == 8) invalid_timestamp_offset
          ok (false, record i { offset = signed 64 (endian_u64 e value) }))
        else (if code == 0
            then (do ensure (length value == 0) invalid_end_of_options; ok (true, i))
            else ok (false, i)))

-- The interface, the bytes of its block that remain and the input behind the options.
abbrev pub OptionsRead : Type 0
OptionsRead = Interface × ℕ × List ℕ

-- One option: whether it is the last one, and what is left.
unfoldable pub read_option : Endian → Interface → ℕ → List ℕ → Result (Bool × OptionsRead)
unfolding read_exact endian_uint skip apply_option
read_option e i remaining input = do
  option ← context (read_exact 4 input) io
  let code = endian_u16 e option.0
  let len = endian_u16 e (drop 2 option.0)
  let padded = padded_to_4 len
  ensure (leb padded (remaining - 4)) option_outside_block
  value ← context (read_exact len option.1) io
  rest ← skip (padded - len) value.1
  applied ← apply_option e code value.0 i
  ok (applied.0, (applied.1, remaining - 4 - padded, rest))

abbrev pub next_option :
    (Interface → ℕ → List ℕ → Result OptionsRead) → Bool × OptionsRead → Result OptionsRead
next_option more (true, found) = ok found
next_option more (false, (i, remaining, input)) = more i remaining input

-- The loop over the options; each takes at least four of the bytes that remain.
unfoldable pub read_options : Endian → ℕ → Interface → ℕ → List ℕ → Result OptionsRead
unfolding read_option
read_options e zero i remaining input = err out_of_fuel
read_options e (suc fuel) i remaining input =
    if ltb remaining 4
    then ok (i, remaining, input)
    else read_option e i remaining input >>= next_option (read_options e fuel)

-- The block of an interface, which is a new capture source.
unfoldable pub read_interface : Reader → ℕ → List ℕ → Result Reader
unfolding read_exact endian_uint skip footer read_options
read_interface r size input = do
  ensure (leb 20 size) short_interface_block
  body ← context (read_exact 8 input) io
  let i : Interface = record {
    source_id = r.next_source_id;
    linktype = endian_u16 r.endian body.0;
    units = 1000000;
    offset = pos 0;
  }
  found ← read_options r.endian (suc (size - 20)) i (size - 20) body.1
  rest ← skip found.1 found.2
  ensure (ltb (r.next_source_id + 1) (2 ^ 64)) too_many_capture_sources
  rest ← footer r.endian size rest
  ok (record r {
    input = rest;
    interfaces = r.interfaces ++ (found.0 ∷ []);
    next_source_id = r.next_source_id + 1;
  })
