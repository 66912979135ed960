-- ===== src/Output/Rotation.antt =====
-- src/output.rs: the rotation of output files. The pcapng writer is an interface: a file is opened
-- by its index, and `written` names the events that it holds.
pub mod Files
use usbscope.Prelude.{
  ℕ, ◌+◌, ◌-◌, ◌*◌, ◌/◌, ◌%◌, ◌^◌, Bool, true, false, not, ◌&&◌, ◌||◌, ◌≡◌, Option, none, some,
  List, [], ◌∷◌, ◌++◌, ltb, leb, ◌==◌, if◌then◌else◌,
}
use usbscope.Prelude.Result.{
  Result, ok, err, ◌>>=◌, ◌>>◌, ensure, rotation_requires_path, max_files_requires_rotation,
  rotation_limits_positive, rotation_counter_exhausted,
}
use usbscope.Capture.Event.{Spool, Event}

pub record Sink (S : Spool) : Type 1 where
  pub Writer : Type 0
  -- CaptureOutput::open: the file of an index where the output rotates, the base path otherwise
  pub open_file : Bool → ℕ → Result Writer
  pub bytes_written : Writer → ℕ
  pub write_event : Writer → Event S → Result Writer
  pub flush : Writer → Result Writer
  pub written : Writer → List (Event S)
  -- a new file holds no event, and a write adds one at its end
  pub open_empty :
      (rotating : Bool) (index : ℕ) (w : Writer) → open_file rotating index ≡ ok w → written w ≡ []
  pub write_adds :
      (w w' : Writer) (e : Event S) → write_event w e ≡ ok w' → written w' ≡ written w ++ (e ∷ [])

module _ {S : Spool} (T : Sink S) where
  pub record CaptureOutput : Type 0 where
    pub writer : T.Writer
    pub size : Option ℕ
    pub seconds : Option ℕ
    pub max_files : Option ℕ
    pub file_index : ℕ
    pub events : ℕ
    pub started : Option ℕ

abbrev is_some : Option ℕ → Bool
is_some none = false
is_some (some _) = true

-- limit == Some(0)
abbrev is_zero : Option ℕ → Bool
is_zero none = false
is_zero (some n) = n == 0

-- is_some_and(|limit| value >= limit)
abbrev pub reached : Option ℕ → ℕ → Bool
reached none value = false
reached (some limit) value = leb limit value

-- The whole seconds since the file's first event; 0 before that event.
abbrev pub elapsed : Option ℕ → ℕ → ℕ
elapsed none now = 0
elapsed (some start) now = (now - start) / 1000000000

-- Option::get_or_insert
abbrev pub get_or_insert : Option ℕ → ℕ → ℕ
get_or_insert none now = now
get_or_insert (some start) now = start

module _ {S : Spool} (T : Sink S) where
  -- CaptureOutput::new; the base path is `-` where `to_stdout`.
  unfoldable pub open_output : Bool → Option ℕ → Option ℕ → Option ℕ → Result (CaptureOutput T)
  open_output to_stdout size seconds max_files =
      let rotating = is_some size || is_some seconds in
      (do
        ensure (not rotating || not to_stdout) rotation_requires_path
        ensure (not (is_some max_files) || rotating) max_files_requires_rotation
        ensure (not (is_zero size) && not (is_zero seconds) && not (is_zero max_files))
            rotation_limits_positive
        writer ← T.open_file rotating 0
        ok (record {
          writer = writer;
          size = size;
          seconds = seconds;
          max_files = max_files;
          file_index = 0;
          events = 0;
          started = none;
        }))

  -- Whether the next event belongs to a new file.
  unfoldable pub is_due : CaptureOutput T → ℕ → Bool
  is_due o now =
      not (o.events == 0)
      && (reached o.size (T.bytes_written o.writer)
          || is_some o.started && reached o.seconds (elapsed o.started now))

  unfoldable pub next_file : CaptureOutput T → Result (CaptureOutput T)
  next_file o = do
    _ ← T.flush o.writer
    ensure (ltb (o.file_index + 1) (2 ^ 32)) rotation_counter_exhausted
    writer ← T.open_file true (o.file_index + 1)
    ok (record o { writer = writer; file_index = o.file_index + 1; events = 0; started = none })

  unfoldable pub append_event : CaptureOutput T → Event S → Result (Bool × CaptureOutput T)
  append_event o e = do
    writer ← T.write_event o.writer e
    ok (
      true,
      record o {
        writer = writer;
        events = (o.events + 1) % 2 ^ 64;
        started = some (get_or_insert o.started e.meta.timestamp_ns);
      },
    )

  -- CaptureOutput::write: false where the number of files is reached.
  unfoldable pub write : CaptureOutput T → Event S → Result (Bool × CaptureOutput T)
  unfolding is_due next_file append_event
  write o e =
      if is_due o e.meta.timestamp_ns
      then if reached o.max_files ((o.file_index + 1) % 2 ^ 32)
        then ok (false, o)
        else (do o' ← next_file o; append_event o' e)
      else append_event o e
