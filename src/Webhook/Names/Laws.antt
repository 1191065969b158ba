-- ===== src/Webhook/Names/Laws.antt =====
-- The accepted user names against the documented pattern.
use servarr_operator.Prelude.{◌≤◌, String, ◌≡◌, ◌↔◌, refl, true, arith}
use Prim.Native.Char.{Char}
use servarr_operator.Prelude.Chars.{all_chars, count_chars, byte_len, len_utf8}
use servarr_operator.Webhook.Names.{is_username_start, is_username_char, is_valid_ssh_username}

-- A character of the class takes one byte.
start-len : (c : Char) → is_username_start c ≡ true → len_utf8 c ≡ 1
start-len c h = ground arith

char-len : (c : Char) → is_username_char c ≡ true → len_utf8 c ≡ 1
char-len c h = ground arith

byte_len-count : (s : String) → all_chars is_username_char s ≡ true → byte_len s ≡ count_chars s
byte_len-count String.[] h = refl
byte_len-count (String.◌∷◌ c s) h =
    let one = char-len c (ground arith) in
    let rest = byte_len-count s (ground arith) in omega (arith, one, rest)

-- The pattern `^[a-z_][a-z0-9_-]{0,31}$`.
unfoldable pub IsUsername : String → Type 0
IsUsername String.[] = ⊥
IsUsername (String.◌∷◌ c s) =
    (is_username_start c ≡ true) × (all_chars is_username_char s ≡ true) × (count_chars s ≤ 31)

-- A user name is accepted exactly if it matches `^[a-z_][a-z0-9_-]{0,31}$`, whose length is in
-- characters, while the code limits the length in bytes of UTF-8.
pub is_valid_ssh_username_iff : (s : String) → (is_valid_ssh_username s ≡ true) ↔ IsUsername s
unfolding is_valid_ssh_username IsUsername
is_valid_ssh_username_iff String.[] = (λ h. ground arith, λ h. absurd h)
is_valid_ssh_username_iff (String.◌∷◌ c s) = (
  λ h.
      let rest : all_chars is_username_char s ≡ true = ground arith in
      let one = start-len c (ground arith) in
      let count = byte_len-count s rest in (ground arith, rest, ground arith),
  λ h.
      let one = start-len c h.0 in
      let count = byte_len-count s h.1 in ground (arith, h.0, h.1, h.2),
)
