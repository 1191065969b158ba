-- ===== src/Webhook/Quantity/Laws.antt =====
-- The memory quantities: what each suffix multiplies by.
use servarr_operator.Prelude.{
  ℕ, ◌*◌, ◌%◌, ◌<◌, String, ◌≡◌, refl, sym, ap, take, ◌∙◌, Bool, true, false, not, ◌&&◌, is_none,
  Option, none, some, List, [], ◌∷◌, ◌++◌, arith, All, is_blank, ◌⧺◌, ◌==◌, eq_iff, Bool-cases, inl,
  inr,
}
use Prim.Native.Char.{Char}
use servarr_operator.Prelude.Chars.{strip_suffix, all_chars, is_digit}
use servarr_operator.Prelude.Decimal.{show}
use servarr_operator.Prelude.Decimal.Parse.{u64_limit, show_lem, parse_unsigned-show}
use servarr_operator.Webhook.Quantity.{memory_units, parse_units, parse_memory}

-- A suffix that starts with no digit is not in front of one.
abbrev starts_digit : String → Bool
starts_digit String.[] = false
starts_digit (String.◌∷◌ c s) = is_digit c

abbrev after_front : String → Option String → Option String
after_front front none = none
after_front front (some rest) = some (front ⧺ rest)

append-empty : (s : String) → s ⧺ "" ≡ s
unfolding ◌⧺◌
append-empty String.[] = refl
append-empty (String.◌∷◌ c s) = ap (λ (t : String). String.◌∷◌ c t) (append-empty s)

after_front-empty : (o : Option String) → o ≡ after_front "" o
unfolding ◌⧺◌
after_front-empty none = refl
after_front-empty (some rest) = refl

after_front-cons :
    (c : Char) (s : String) (o : Option String)
    → elim (after_front s o) [ some front ↦ some (String.◌∷◌ c front) | none ↦ none ]
      ≡ after_front (String.◌∷◌ c s) o
unfolding ◌⧺◌
after_front-cons c s none = refl
after_front-cons c s (some rest) = refl

strip_suffix-cons :
    (suffix s : String) (c : Char)
    → (suffix == String.◌∷◌ c s) ≡ false
    → strip_suffix suffix (String.◌∷◌ c s)
      ≡ elim (strip_suffix suffix s) [ some front ↦ some (String.◌∷◌ c front) | none ↦ none ]
unfolding strip_suffix
strip_suffix-cons suffix s c e = rw e refl

-- Digits in front of a text are kept by `strip_suffix`.
strip_suffix-digits :
    (suffix front t : String)
    → starts_digit suffix ≡ false
    → all_chars is_digit front ≡ true
    → strip_suffix suffix (front ⧺ t) ≡ after_front front (strip_suffix suffix t)
unfolding ◌⧺◌
strip_suffix-digits suffix String.[] t h digits_only = after_front-empty (strip_suffix suffix t)
strip_suffix-digits suffix (String.◌∷◌ c s) t h digits_only =
    elim (Bool-cases (suffix == String.◌∷◌ c (s ⧺ t))) [
      | inl e ↦ ground (arith, ap starts_digit ((eq_iff suffix (String.◌∷◌ c (s ⧺ t))).0 e))
      | inr e ↦
          rw (strip_suffix-cons suffix (s ⧺ t) c e, strip_suffix-digits suffix s t h (ground arith))
            (after_front-cons c s (strip_suffix suffix t))
    ]

-- The first unit in the list whose suffix ends the text is the one read.
parse_units-skip :
    (suffix : String) (multiplier : ℕ) (units : List (String × ℕ)) (front t : String)
    → starts_digit suffix ≡ false
    → all_chars is_digit front ≡ true
    → strip_suffix suffix t ≡ none
    → parse_units ((suffix, multiplier) ∷ units) (front ⧺ t) ≡ parse_units units (front ⧺ t)
unfolding parse_units
parse_units-skip suffix multiplier units front t h digits_only other =
    rw (parse_units, strip_suffix-digits suffix front t h digits_only, other) refl

parse_units-read :
    (suffix : String) (multiplier : ℕ) (units : List (String × ℕ)) (n : ℕ) (t : String)
    → n < u64_limit
    → starts_digit suffix ≡ false
    → strip_suffix suffix t ≡ some ""
    → parse_units ((suffix, multiplier) ∷ units) (show n ⧺ t) ≡ some ((n * multiplier) % u64_limit)
unfolding parse_units
parse_units-read suffix multiplier units n t fits h found =
    rw
      (
        parse_units,
        strip_suffix-digits suffix (show n) t h (show_lem n).0,
        found,
        append-empty (show n),
        parse_unsigned-show u64_limit n fits,
      )
      refl

-- The units of a list are passed over at a text that none of them ends.
abbrev passed : String → List (String × ℕ) → Bool
passed t [] = true
passed t ((suffix, multiplier) ∷ units) =
    not (starts_digit suffix) && is_none (strip_suffix suffix t) && passed t units

is_none-eq : (o : Option String) → is_none o ≡ true → o ≡ none
is_none-eq none h = refl
is_none-eq (some s) h = ground arith

parse_units-append :
    (before units : List (String × ℕ)) (front t : String)
    → passed t before ≡ true
    → all_chars is_digit front ≡ true
    → parse_units (before ++ units) (front ⧺ t) ≡ parse_units units (front ⧺ t)
parse_units-append [] units front t h digits_only = refl
parse_units-append ((suffix, multiplier) ∷ before) units front t h digits_only =
    parse_units-skip suffix multiplier (before ++ units) front t (ground arith) digits_only
      (is_none-eq (strip_suffix suffix t) (ground arith))
    ∙ parse_units-append before units front t (ground arith) digits_only

is_blank-append : (s t : String) → is_blank s ≡ false → is_blank (s ⧺ t) ≡ false
unfolding ◌⧺◌
is_blank-append String.[] t h = ground arith
is_blank-append (String.◌∷◌ c s) t h = refl

parse_memory-units :
    (n : ℕ) (t : String) → parse_memory (show n ⧺ t) ≡ parse_units memory_units (show n ⧺ t)
unfolding parse_memory
parse_memory-units n t = rw (is_blank-append (show n) t (show_lem n).1) refl

parse_memory-unit :
    (before : List (String × ℕ)) (suffix : String) (multiplier : ℕ) (later : List (String × ℕ))
    → memory_units ≡ (before ++ (suffix, multiplier) ∷ later)
    → passed suffix before ≡ true
    → starts_digit suffix ≡ false
    → strip_suffix suffix suffix ≡ some ""
    → (n : ℕ) → n < u64_limit
    → parse_memory (show n ⧺ suffix) ≡ some ((n * multiplier) % u64_limit)
parse_memory-unit before suffix multiplier later units h letter self n fits =
    parse_memory-units n suffix
    ∙ ap (λ table. parse_units table (show n ⧺ suffix)) units
    ∙ parse_units-append before ((suffix, multiplier) ∷ later) (show n) suffix h (show_lem n).0
    ∙ parse_units-read suffix multiplier later n suffix fits letter self

plain : (n : ℕ) → n < u64_limit → parse_memory (show n) ≡ some n
unfolding memory_units strip_suffix parse_units
plain n fits =
    let bare = append-empty (show n) in
    ap parse_memory (sym bare)
    ∙ parse_memory-units n ""
    ∙ parse_units-append memory_units [] (show n) "" refl (show_lem n).0
    ∙ ap (λ s. parse_units [] s) bare
    ∙ parse_unsigned-show u64_limit n fits

-- A printed 64-bit number with any of the suffixes is read as its product with the suffix's
-- multiplier, reduced modulo 2 ^ 64: it is exact while the product is below 2 ^ 64, and wraps from
-- there on. Without a suffix the number itself is read back.
pub parse_memory-show :
    (n : ℕ)
    → n < u64_limit
    → (parse_memory (show n) ≡ some n)
      × All
          (λ (suffix, multiplier).
            parse_memory (show n ⧺ suffix) ≡ some ((n * multiplier) % u64_limit))
          memory_units
unfolding memory_units strip_suffix
parse_memory-show n fits = (
  plain n fits,
  (
    parse_memory-unit (take 0 memory_units) "Ti" _ _ refl refl refl refl n fits,
    (
      parse_memory-unit (take 1 memory_units) "Gi" _ _ refl refl refl refl n fits,
      (
        parse_memory-unit (take 2 memory_units) "Mi" _ _ refl refl refl refl n fits,
        (
          parse_memory-unit (take 3 memory_units) "Ki" _ _ refl refl refl refl n fits,
          (
            parse_memory-unit (take 4 memory_units) "T" _ _ refl refl refl refl n fits,
            (
              parse_memory-unit (take 5 memory_units) "G" _ _ refl refl refl refl n fits,
              (
                parse_memory-unit (take 6 memory_units) "M" _ _ refl refl refl refl n fits,
                (parse_memory-unit (take 7 memory_units) "K" _ _ refl refl refl refl n fits, tt),
              ),
            ),
          ),
        ),
      ),
    ),
  ),
)
