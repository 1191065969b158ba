-- ===== src/Webhook/Quantity.antt =====
-- The quantities that the webhook compares: `parse_cpu` and `parse_memory`.
pub mod Laws
use servarr_operator.Prelude.{
  ℕ, ◌*◌, ◌%◌, String, ◌≡◌, refl, Option, none, some, List, [], ◌∷◌, is_blank, if◌then◌else◌,
}
use servarr_operator.Prelude.Chars.{strip_suffix}
use servarr_operator.Prelude.Decimal.Parse.{parse_u64, parse_unsigned, u64_limit}

-- The suffixes in the order in which they are tried.
unfoldable pub memory_units : List (String × ℕ)
memory_units =
    ("Ti", 1099511627776)
    ∷ ("Gi", 1073741824)
    ∷ ("Mi", 1048576)
    ∷ ("Ki", 1024)
    ∷ ("T", 1000000000000)
    ∷ ("G", 1000000000)
    ∷ ("M", 1000000)
    ∷ ("K", 1000)
    ∷ []

-- `v * multiplier` on u64, which wraps in a release build.
abbrev pub times : ℕ → Option ℕ → Option ℕ
times multiplier none = none
times multiplier (some v) = some ((v * multiplier) % u64_limit)

unfoldable pub parse_units : List (String × ℕ) → String → Option ℕ
unfolding parse_unsigned strip_suffix
parse_units [] s = parse_u64 s
parse_units ((suffix, multiplier) ∷ units) s =
    let later = parse_units units s in
    elim (strip_suffix suffix s) [ some num ↦ times multiplier (parse_u64 num) | none ↦ later ]

-- Bytes.
unfoldable pub parse_memory : String → Option ℕ
unfolding parse_units memory_units
parse_memory s = if is_blank s then none else parse_units memory_units s

-- Millicores. `parse_cores` is the reading of a decimal fraction by `parse::<f64>()`, with the
-- product by 1000 cut off to u64.
unfoldable pub parse_cpu : (parse_cores : String → Option ℕ) → String → Option ℕ
unfolding strip_suffix parse_unsigned
parse_cpu parse_cores s =
    if is_blank s
    then none
    else elim (strip_suffix "m" s) [ some m ↦ parse_u64 m | none ↦ parse_cores s ]

memory_test : parse_memory "512Mi" ≡ some 536870912
unfolding parse_memory
memory_test = refl

-- 2 ^ 24 tebibytes are 2 ^ 64 bytes, which wraps to 0.
wrap_test : parse_memory "16777216Ti" ≡ some 0
unfolding parse_memory
wrap_test = refl
