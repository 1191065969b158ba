-- ===== src/Prelude/Decimal/Parse.antt =====
-- `str::parse` to an unsigned integer of a machine width, and its round trip with `format!`.
use servarr_operator.Prelude.{
  ℕ, zero, suc, ◌+◌, ◌*◌, ◌-◌, ◌/◌, ◌%◌, ◌<◌, ◌≤◌, String, ◌≡◌, refl, Bool, true, false, Option,
  none, some, ap, ◌∙◌, arith, is_blank, begins_with, ltb, if◌then◌else◌, ◌⧺◌, Bool-cases, inl, inr,
}
use Prim.Native.Char.{Char, code}
use servarr_operator.Prelude.Chars.{is_digit, all_chars}
use servarr_operator.Prelude.Decimal.{digit, digits, show}

-- Each digit is added with `checked_mul` and `checked_add`: none at the limit, 2 ^ width.
unfoldable pub parse_digits : ℕ → ℕ → String → Option ℕ
parse_digits limit acc String.[] = some acc
parse_digits limit acc (String.◌∷◌ c s) =
    let next = acc * 10 + (code c - 48) in
    let rest = parse_digits limit next s in
    if is_digit c then if ltb next limit then rest else none else none

abbrev drop_first : String → String
drop_first String.[] = ""
drop_first (String.◌∷◌ c s) = s

-- A sign `+` is allowed in front; no digit at all is an error.
unfoldable pub parse_unsigned : ℕ → String → Option ℕ
unfolding parse_digits
parse_unsigned limit s =
    let digits_of = if begins_with b'+' s then drop_first s else s in
    if is_blank digits_of then none else parse_digits limit 0 digits_of

-- 2 ^ 64
abbrev pub u64_limit : ℕ
u64_limit = 18446744073709551616

abbrev pub parse_u64 : String → Option ℕ
parse_u64 s = parse_unsigned u64_limit s

-- The ten digits.
digit_char : (n : ℕ) → n < 10 → (c : Char) × (digit n ≡ String.◌∷◌ c "") × (code c ≡ n + 48)
unfolding digit
digit_char zero h = ("0", refl, refl)
digit_char (suc zero) h = ("1", refl, refl)
digit_char (suc (suc zero)) h = ("2", refl, refl)
digit_char (suc (suc (suc zero))) h = ("3", refl, refl)
digit_char (suc (suc (suc (suc zero)))) h = ("4", refl, refl)
digit_char (suc (suc (suc (suc (suc zero))))) h = ("5", refl, refl)
digit_char (suc (suc (suc (suc (suc (suc zero)))))) h = ("6", refl, refl)
digit_char (suc (suc (suc (suc (suc (suc (suc zero))))))) h = ("7", refl, refl)
digit_char (suc (suc (suc (suc (suc (suc (suc (suc zero)))))))) h = ("8", refl, refl)
digit_char (suc (suc (suc (suc (suc (suc (suc (suc (suc zero))))))))) h = ("9", refl, refl)
digit_char (suc (suc (suc (suc (suc (suc (suc (suc (suc (suc n)))))))))) h = ground arith

parse_digits-cons :
    (limit acc k : ℕ) (c : Char) (s : String)
    → code c ≡ k + 48
    → k < 10
    → acc * 10 + k < limit
    → parse_digits limit acc (String.◌∷◌ c s) ≡ parse_digits limit (acc * 10 + k) s
unfolding parse_digits
parse_digits-cons limit acc k c s e small fits =
    let value : code c - 48 ≡ k = omega (arith, e) in rw value (ground (arith, e))

parse_digits-digit :
    (limit acc k : ℕ) (s : String)
    → k < 10
    → acc * 10 + k < limit
    → parse_digits limit acc (digit k ⧺ s) ≡ parse_digits limit (acc * 10 + k) s
unfolding ◌⧺◌
parse_digits-digit limit acc k s small fits =
    let (c, shown, e) = digit_char k small in
    rw shown (parse_digits-cons limit acc k c s e small fits)

parse_digits-first :
    (limit k : ℕ) (s : String)
    → k < 10
    → k < limit
    → parse_digits limit 0 (digit k ⧺ s) ≡ parse_digits limit k s
parse_digits-first limit k s small fits =
    let start : 0 * 10 + k ≡ k = omega arith in
    parse_digits-digit limit 0 k s small (rw start fits)
    ∙ ap (λ (value : ℕ). parse_digits limit value s) start

digits-last : (fuel n : ℕ) (s : String) → n < 10 → digits (suc fuel) n s ≡ digit n ⧺ s
unfolding digits
digits-last fuel n s h = ground arith

digits-more :
    (fuel n : ℕ) (s : String)
    → 10 ≤ n
    → digits (suc fuel) n s ≡ digits fuel (n / 10) (digit (n % 10) ⧺ s)
unfolding digits
digits-more fuel n s h = ground arith

-- Reading what `digits` wrote gives the number back, and goes on with what follows.
parse_digits-digits :
    (limit fuel n : ℕ) (s : String)
    → n ≤ fuel
    → n < limit
    → parse_digits limit 0 (digits (suc fuel) n s) ≡ parse_digits limit n s
parse_digits-digits limit zero n s bound fits =
    rw (digits-last zero n s (omega (arith, bound)))
      (parse_digits-first limit n s (omega (arith, bound)) fits)
parse_digits-digits limit (suc fuel) n s bound fits = elim (Bool-cases (ltb n 10)) [
  | inl small ↦
      rw (digits-last (suc fuel) n s (ground arith))
        (parse_digits-first limit n s (ground arith) fits)
  | inr large ↦
      let split : n / 10 * 10 + n % 10 ≡ n = omega arith in
      rw (digits-more (suc fuel) n s (ground arith)) (
        parse_digits-digits limit fuel (n / 10) (digit (n % 10) ⧺ s) (ground arith) (ground arith)
        ∙ parse_digits-digit limit (n / 10) (n % 10) s (omega arith) (rw split fits)
        ∙ ap (λ (value : ℕ). parse_digits limit value s) split)
]

digit_lem :
    (k : ℕ) (s : String)
    → k < 10
    → (all_chars is_digit (digit k ⧺ s) ≡ all_chars is_digit s) × (is_blank (digit k ⧺ s) ≡ false)
unfolding ◌⧺◌
digit_lem k s small =
    let (c, shown, e) = digit_char k small in rw (shown, e) (ground (arith, small), refl)

digits_lem :
    (fuel n : ℕ) (s : String)
    → n ≤ fuel
    → (all_chars is_digit (digits (suc fuel) n s) ≡ all_chars is_digit s)
      × (is_blank (digits (suc fuel) n s) ≡ false)
digits_lem zero n s bound =
    rw (digits-last zero n s (omega (arith, bound))) (digit_lem n s (omega (arith, bound)))
digits_lem (suc fuel) n s bound = elim (Bool-cases (ltb n 10)) [
  | inl small ↦ rw (digits-last (suc fuel) n s (ground arith)) (digit_lem n s (ground arith))
  | inr large ↦
      let rest = digit (n % 10) ⧺ s in
      let (digits_only, filled) = digits_lem fuel (n / 10) rest (ground arith) in
      rw (digits-more (suc fuel) n s (ground arith))
        (digits_only ∙ (digit_lem (n % 10) s (omega arith)).0, filled)
]

-- A printed number is not empty and has digits alone.
pub show_lem : (n : ℕ) → (all_chars is_digit (show n) ≡ true) × (is_blank (show n) ≡ false)
unfolding show
show_lem n = digits_lem n n "" (omega arith)

no_sign :
    (s : String) → all_chars is_digit s ≡ true → is_blank s ≡ false → begins_with b'+' s ≡ false
no_sign String.[] digits_only filled = ground arith
no_sign (String.◌∷◌ c s) digits_only filled = ground arith

-- Every number below the limit is read back as it was printed.
pub parse_unsigned-show : (limit n : ℕ) → n < limit → parse_unsigned limit (show n) ≡ some n
unfolding parse_unsigned show parse_digits
parse_unsigned-show limit n fits =
    let (digits_only, filled) = show_lem n in
    rw (no_sign (show n) digits_only filled, filled)
      (parse_digits-digits limit n n "" (omega arith) fits)

both_tests :
    {n : ℕ} (a b : Bool) (rest : Option ℕ)
    → (if a then if b then rest else none else none) ≡ some n
    → (b ≡ true) × (rest ≡ some n)
both_tests true true rest h = (refl, h)
both_tests true false rest h = ground arith
both_tests false b rest h = ground arith

not_none :
    {n : ℕ} (b : Bool) (rest : Option ℕ) → (if b then none else rest) ≡ some n → rest ≡ some n
not_none true rest h = ground arith
not_none false rest h = h

parse_digits-lt :
    (limit acc n : ℕ) (s : String) → acc < limit → parse_digits limit acc s ≡ some n → n < limit
unfolding parse_digits
parse_digits-lt limit acc n String.[] small h = ground (arith, small, h)
parse_digits-lt limit acc n (String.◌∷◌ c s) small h =
    let next = acc * 10 + (code c - 48) in
    let (fits, rest) = both_tests (is_digit c) (ltb next limit) (parse_digits limit next s) h in
    parse_digits-lt limit next n s (ground (arith, fits)) rest

-- What is read is below the limit.
pub parse_unsigned-lt :
    (limit n : ℕ) (s : String) → 0 < limit → parse_unsigned limit s ≡ some n → n < limit
unfolding parse_unsigned parse_digits
parse_unsigned-lt limit n s positive h =
    let digits_of = if begins_with b'+' s then drop_first s else s in
    parse_digits-lt limit 0 n digits_of positive (not_none (is_blank digits_of) _ h)
