-- ===== src/Webhook/Names.antt =====
-- The texts that reach a shell: `is_valid_ssh_username`, `is_valid_allowed_path` and
-- `is_valid_shell_path`.
pub mod Laws
use servarr_operator.Prelude.{ℕ, String, Bool, false, not, ◌&&◌, ◌||◌, begins_with, leb, eqb}
use Prim.Native.Char.{Char, code}
use servarr_operator.Prelude.Chars.{
  is_lower, is_digit, is_whitespace, all_chars, any_char, byte_len,
}

abbrev pub is_username_start : Char → Bool
is_username_start c = is_lower c || eqb (code c) b'_'

abbrev pub is_username_char : Char → Bool
is_username_char c = is_lower c || is_digit c || eqb (code c) b'_' || eqb (code c) b'-'

unfoldable pub is_valid_ssh_username : String → Bool
is_valid_ssh_username String.[] = false
is_valid_ssh_username (String.◌∷◌ first chars) =
    is_username_start first
    && (leb (byte_len (String.◌∷◌ first chars)) 32 && all_chars is_username_char chars)

-- `"`, `\`, `$` and the backquote.
abbrev pub is_metacharacter : Char → Bool
is_metacharacter c = eqb (code c) 34 || eqb (code c) 92 || eqb (code c) 36 || eqb (code c) 96

unfoldable pub is_valid_allowed_path : String → Bool
unfolding is_whitespace
is_valid_allowed_path path =
    begins_with b'/' path && not (any_char (λ c. is_metacharacter c || is_whitespace c) path)

unfoldable pub is_valid_shell_path : String → Bool
unfolding is_whitespace
is_valid_shell_path shell =
    begins_with b'/' shell
    && not (any_char (λ c. eqb (code c) b':' || is_metacharacter c || is_whitespace c) shell)
