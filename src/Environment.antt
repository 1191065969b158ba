-- ===== src/Environment.antt =====
-- crates/servarr-operator/src/env.rs: reading of environment variables.
pub mod Webhook
use servarr_operator.Prelude.{
  ℕ, ◌+◌, String, ◌≡◌, refl, Bool, true, false, not, ◌&&◌, ◌||◌, Option, none, some, List, [], ◌∷◌,
  ◌==◌, is_blank, is_empty, length, eqb, unwrap_or, Result, ok, err, ◌>>=◌, if◌then◌else◌,
}
use servarr_operator.Prelude.Chars.{is_upper, byte_len}
use Prim.Native.Char.{Char, code}

-- `OsString`: text, or bytes that are no UTF-8.
pub data OsString : Type 0 where
  text : String → OsString
  raw : List ℕ → OsString

-- The environment of the process.
abbrev pub Environment : Type 0
Environment = String → Option OsString

pub data EnvError : Type 0 where
  not_unicode : String → ℕ → EnvError
  not_bool : String → ℕ → EnvError
  unusable : String → String → EnvError

-- `std::env::var`, with the error NotUnicode on bytes.
abbrev pub readable : String → Option OsString → Result EnvError (Option String)
readable key none = ok none
readable key (some (text value)) = ok (some value)
readable key (some (raw bytes)) = err (not_unicode key (length bytes))

unfoldable pub var_strict : Environment → String → Result EnvError (Option String)
var_strict env key = readable key (env key)

abbrev or_default : {A : Type 0} → A → Result EnvError A → A
or_default default (ok value) = value
or_default default (err error) = default

unfoldable pub var : Environment → String → Option String
unfolding var_strict
var env key = or_default none (var_strict env key)

-- `eq_ignore_ascii_case`
abbrev lower_code : Char → ℕ
lower_code c = if is_upper c then code c + 32 else code c

abbrev eq_ignore_ascii_case : String → String → Bool
eq_ignore_ascii_case String.[] String.[] = true
eq_ignore_ascii_case (String.◌∷◌ c s) (String.◌∷◌ d t) =
    eqb (lower_code c) (lower_code d) && eq_ignore_ascii_case s t
eq_ignore_ascii_case _ _ = false

abbrev pub is_truthy : String → Bool
is_truthy value =
    eq_ignore_ascii_case value "true" || value == "1" || eq_ignore_ascii_case value "yes"

abbrev pub is_falsey : String → Bool
is_falsey value =
    eq_ignore_ascii_case value "false" || value == "0" || eq_ignore_ascii_case value "no"

abbrev read_bool : String → Bool → Option String → Result EnvError Bool
read_bool key default none = ok default
read_bool key default (some value) =
    if is_blank value
    then ok default
    else if is_truthy value
    then ok true
    else if is_falsey value
    then ok false
    else err (not_bool key (byte_len value))

unfoldable pub var_bool_strict : Environment → String → Bool → Result EnvError Bool
unfolding var_strict
var_bool_strict env key default = var_strict env key >>= read_bool key default

unfoldable pub var_bool : Environment → String → Bool → Bool
unfolding var_bool_strict
var_bool env key default = or_default default (var_bool_strict env key default)

abbrev pub is_empty_os : OsString → Bool
is_empty_os (text value) = is_blank value
is_empty_os (raw bytes) = is_empty bytes

-- A `PathBuf` is the `OsString` that it is made from.
abbrev pub read_path : String → Option OsString → Result EnvError (Option OsString)
read_path key none = ok none
read_path key (some value) =
    if is_empty_os value
    then err (unusable key "expected a filesystem path, got an empty value.")
    else ok (some value)

unfoldable pub var_path : Environment → String → Result EnvError (Option OsString)
var_path env key = read_path key (env key)

truthy_tests : (is_truthy "TRUE" ≡ true) × (is_falsey "No" ≡ true) × (is_truthy "on" ≡ false)
truthy_tests = (refl, refl, refl)
