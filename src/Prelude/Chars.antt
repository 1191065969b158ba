-- ===== src/Prelude/Chars.antt =====
-- Characters as Rust's `char` methods class them, and the `str` methods that read them.
pub mod Laws
use Prim.Native.Nat.{ℕ, zero, suc, ◌+◌}
use Prim.Native.Char.{Char, code}
use Prim.Native.String.{String}
use mathlib.Core.Bool.{Bool, true, false, not, ◌&&◌, ◌||◌}
use mathlib.Core.Option.{Option, none, some}
use mathlib.Core.List.{List, [], ◌∷◌}
use text.Mathlib.Text.{◌==◌}
use servarr_operator.Prelude.Tests.{ltb, leb, eqb, if◌then◌else◌}
use servarr_operator.Prelude.Texts.{is_blank}

abbrev pub between : ℕ → ℕ → ℕ → Bool
between lo hi k = leb lo k && leb k hi

-- `char::is_whitespace`: the code points with the property White_Space.
unfoldable pub is_whitespace : Char → Bool
is_whitespace c =
    let k = code c in
    between 9 13 k
    || eqb k 32
    || eqb k 133
    || eqb k 160
    || eqb k 5760
    || between 8192 8202 k
    || eqb k 8232
    || eqb k 8233
    || eqb k 8239
    || eqb k 8287
    || eqb k 12288

abbrev pub is_digit : Char → Bool
is_digit c = between b'0' b'9' (code c)

abbrev pub is_lower : Char → Bool
is_lower c = between b'a' b'z' (code c)

abbrev pub is_upper : Char → Bool
is_upper c = between b'A' b'Z' (code c)

-- `s.chars().all(p)` and `s.chars().any(p)`
abbrev pub all_chars : (Char → Bool) → String → Bool
all_chars p String.[] = true
all_chars p (String.◌∷◌ c s) = p c && all_chars p s

abbrev pub any_char : (Char → Bool) → String → Bool
any_char p String.[] = false
any_char p (String.◌∷◌ c s) = p c || any_char p s

-- `s.chars().count()`
abbrev pub count_chars : String → ℕ
count_chars String.[] = 0
count_chars (String.◌∷◌ c s) = suc (count_chars s)

-- `char::len_utf8` and `str::len`
abbrev pub len_utf8 : Char → ℕ
len_utf8 c =
    if ltb (code c) 128
    then 1
    else if ltb (code c) 2048
    then 2
    else if ltb (code c) 65536
    then 3
    else 4

abbrev pub byte_len : String → ℕ
byte_len String.[] = 0
byte_len (String.◌∷◌ c s) = len_utf8 c + byte_len s

-- `str::trim`
unfoldable pub trim_start : String → String
trim_start String.[] = ""
trim_start (String.◌∷◌ c s) =
    let rest = trim_start s in if is_whitespace c then rest else String.◌∷◌ c s

unfoldable pub trim_end : String → String
trim_end String.[] = ""
trim_end (String.◌∷◌ c s) =
    let rest = trim_end s in if is_blank rest && is_whitespace c then "" else String.◌∷◌ c rest

unfoldable pub trim : String → String
unfolding trim_start trim_end
trim s = trim_start (trim_end s)

-- A character in front of the words of the text that follows it.
abbrev pub put_char : Char → String → List String → List String
put_char c String.[] words = String.◌∷◌ c "" ∷ words
put_char c (String.◌∷◌ d s) [] = String.◌∷◌ c "" ∷ []
put_char c (String.◌∷◌ d s) (w ∷ words) =
    if is_whitespace d then String.◌∷◌ c "" ∷ w ∷ words else String.◌∷◌ c w ∷ words

-- `str::split_whitespace`
unfoldable pub split_whitespace : String → List String
split_whitespace String.[] = []
split_whitespace (String.◌∷◌ c s) =
    let words = split_whitespace s in if is_whitespace c then words else put_char c s words

-- `str::strip_suffix`
unfoldable pub strip_suffix : String → String → Option String
strip_suffix suffix String.[] = if suffix == "" then some "" else none
strip_suffix suffix (String.◌∷◌ c s) =
    let rest = strip_suffix suffix s in
    if suffix == String.◌∷◌ c s
    then some ""
    else elim rest [ some front ↦ some (String.◌∷◌ c front) | none ↦ none ]
