-- ===== src/Capture/Event.antt =====
-- crates/usbscope-capture/src/lib.rs: a complete event. Its payload lies in a spooled temporary
-- file, which a third-party package implements: the file is a parameter, with the behaviour that
-- `Read`, `Write` and `Seek` document.
pub mod Overwrite
use usbscope.Prelude.{ℕ, ◌+◌, ◌-◌, ◌≡◌, List, [], ◌++◌, Bool, length, take, drop, replicate}
use usbscope.Prelude.Result.{Result, ok}
use usbscope.Common.Meta.{EventMeta, IsoDescriptor}

-- The contents after writing bs at an offset: a gap behind the end is filled by zeros.
abbrev pub overwrite : List ℕ → ℕ → List ℕ → List ℕ
overwrite xs off bs =
    take off (xs ++ replicate (off - length xs) 0) ++ (bs ++ drop (off + length bs) xs)

pub record Spool : Type 1 where
  pub File : Type 0
  -- SpooledTempFile::new
  pub empty : File
  -- seek(SeekFrom::Start(offset)); the cursor is then an argument of the next read or write
  pub seek : File → ℕ → Result (Unit {0})
  -- read_exact with the cursor at an offset, into a buffer of a length
  pub read_at : File → ℕ → ℕ → Result (List ℕ)
  -- write_all with the cursor at an offset
  pub write_at : File → ℕ → List ℕ → Result File
  -- what the file holds
  pub contents : File → List ℕ
  pub contents-empty : contents empty ≡ []
  pub read_at-contents :
      (f : File) (off n : ℕ) (bs : List ℕ)
      → read_at f off n ≡ ok bs
      → (bs ≡ take n (drop off (contents f))) × (length bs ≡ n)
  pub contents-write_at :
      (f g : File) (off : ℕ) (bs : List ℕ)
      → write_at f off bs ≡ ok g
      → contents g ≡ overwrite (contents f) off bs

pub record Event (S : Spool) : Type 0 where
  pub source_id : ℕ
  pub meta : EventMeta
  pub iso : List IsoDescriptor
  pub payload : S.File
  pub identity_known : Bool
  pub requested_known : Bool

-- A file whose operations succeed.
pub record Reliable (S : Spool) : Type 0 where
  pub seeks : (f : S.File) (off : ℕ) → S.seek f off ≡ ok tt
  pub writes : (f : S.File) (off : ℕ) (bs : List ℕ) → (g : S.File) × (S.write_at f off bs ≡ ok g)
