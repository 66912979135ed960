-- ===== src/Prelude/Text.antt =====
-- Strings: what the code uses of `str`. A text is its sequence of characters.
pub use Prim.Native.Char.{Char, code}
use Prim.Native.Nat.{ℕ, suc, ◌+◌, ◌/◌, ◌%◌}
pub use Prim.Native.String.{String}
use mathlib.Core.Bool.{Bool, false, ◌&&◌, ◌||◌}
use mathlib.Core.Option.{Option, none, some}
use mathlib.Core.List.{List, [], ◌∷◌, ◌++◌}
pub use text.Mathlib.Text.{◌==◌ as str_eq}
use usbscope.Prelude.Tests.{ltb, leb, ◌==◌, if◌then◌else◌}

-- The number of characters.
abbrev pub size : String → ℕ
size String.[] = 0
size (String.◌∷◌ c s) = suc (size s)

abbrev pub codes : String → List ℕ
codes String.[] = []
codes (String.◌∷◌ c s) = code c ∷ codes s

-- char::is_whitespace, the property White_Space of Unicode
unfoldable pub is_whitespace : ℕ → Bool
is_whitespace c =
    leb 9 c && leb c 13
    || c == 32
    || c == 0x85
    || c == 0xA0
    || c == 0x1680
    || leb 0x2000 c && leb c 0x200A
    || c == 0x2028
    || c == 0x2029
    || c == 0x202F
    || c == 0x205F
    || c == 0x3000

-- str::contains of a character
abbrev pub has_char : ℕ → String → Bool
has_char c String.[] = false
has_char c (String.◌∷◌ d s) = code d == c || has_char c s

-- strip_prefix("0x")
abbrev pub strip_0x : String → Option String
strip_0x (String.◌∷◌ a (String.◌∷◌ b s)) = if code a == b'0' && code b == b'x' then some s else none
strip_0x _ = none

-- str::strip_suffix
abbrev pub strip_suffix : String → String → Option String
strip_suffix suffix String.[] = if str_eq String.[] suffix then some String.[] else none
strip_suffix suffix (String.◌∷◌ c s) =
    let rest = strip_suffix suffix s in
    if str_eq (String.◌∷◌ c s) suffix
    then some String.[]
    else elim rest [ none ↦ none | some t ↦ some (String.◌∷◌ c t) ]

-- The encoding of a character in UTF-8.
abbrev pub utf8_char : ℕ → List ℕ
utf8_char c =
    if ltb c 0x80
    then c ∷ []
    else if ltb c 0x800
    then (0xC0 + c / 64) ∷ (0x80 + c % 64) ∷ []
    else if ltb c 0x10000
    then (0xE0 + c / 4096) ∷ (0x80 + c / 64 % 64) ∷ (0x80 + c % 64) ∷ []
    else (0xF0 + c / 262144) ∷ (0x80 + c / 4096 % 64) ∷ (0x80 + c / 64 % 64) ∷ (0x80 + c % 64) ∷ []

-- str::as_bytes and String::into_bytes
abbrev pub utf8 : String → List ℕ
utf8 String.[] = []
utf8 (String.◌∷◌ c s) = utf8_char (code c) ++ utf8 s
