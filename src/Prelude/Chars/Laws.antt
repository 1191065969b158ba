-- ===== src/Prelude/Chars/Laws.antt =====
-- Trimming and splitting: what they keep.
use servarr_operator.Prelude.{
  ◌≤◌, String, ◌≡◌, refl, sym, ap, ◌∙◌, true, false, ◌&&◌, arith, is_blank, Bool-cases, inl, inr,
}
use Prim.Native.Char.{Char}
use servarr_operator.Prelude.Chars.{
  len_utf8, is_whitespace, trim_start, trim_end, trim, split_whitespace, put_char,
}

pub split-space :
    (c : Char) (s : String)
    → is_whitespace c ≡ true
    → split_whitespace (String.◌∷◌ c s) ≡ split_whitespace s
unfolding split_whitespace
split-space c s e = rw e refl

pub split-word :
    (c : Char) (s : String)
    → is_whitespace c ≡ false
    → split_whitespace (String.◌∷◌ c s) ≡ put_char c s (split_whitespace s)
unfolding split_whitespace
split-word c s e = rw e refl

trim_start-space :
    (c : Char) (s : String) → is_whitespace c ≡ true → trim_start (String.◌∷◌ c s) ≡ trim_start s
unfolding trim_start
trim_start-space c s e = rw e refl

pub trim_start-word :
    (c : Char) (s : String) → is_whitespace c ≡ false → trim_start (String.◌∷◌ c s) ≡ String.◌∷◌ c s
unfolding trim_start
trim_start-word c s e = rw e refl

trim_end-drop :
    (c : Char) (s : String)
    → (is_blank (trim_end s) && is_whitespace c) ≡ true
    → trim_end (String.◌∷◌ c s) ≡ ""
unfolding trim_end
trim_end-drop c s e = rw e refl

pub trim_end-keep :
    (c : Char) (s : String)
    → (is_blank (trim_end s) && is_whitespace c) ≡ false
    → trim_end (String.◌∷◌ c s) ≡ String.◌∷◌ c (trim_end s)
unfolding trim_end
trim_end-keep c s e = rw e refl

split-trim_start : (s : String) → split_whitespace (trim_start s) ≡ split_whitespace s
unfolding trim_start
split-trim_start String.[] = refl
split-trim_start (String.◌∷◌ c s) = elim (Bool-cases (is_whitespace c)) [
  | inl e ↦ rw (trim_start-space c s e, split-space c s e) (split-trim_start s)
  | inr e ↦ rw (trim_start-word c s e) refl
]

is_blank-eq : (s : String) → is_blank s ≡ true → s ≡ ""
is_blank-eq String.[] h = refl
is_blank-eq (String.◌∷◌ c s) h = ground arith

-- What follows a character counts in `put_char` by its head alone.
put_char-trim_end :
    (c : Char) (s : String)
    → split_whitespace (trim_end s) ≡ split_whitespace s
    → put_char c (trim_end s) (split_whitespace s) ≡ put_char c s (split_whitespace s)
unfolding trim_end split_whitespace
put_char-trim_end c String.[] h = refl
put_char-trim_end c (String.◌∷◌ d s) h =
    elim (Bool-cases (is_blank (trim_end s) && is_whitespace d)) [
      | inl e ↦
          let dropped = trim_end-drop d s e in
          let none_left = sym h ∙ ap split_whitespace dropped in rw (none_left, dropped) refl
      | inr e ↦ rw (trim_end-keep d s e) refl
    ]

pub split-trim_end : (s : String) → split_whitespace (trim_end s) ≡ split_whitespace s
unfolding trim_end
split-trim_end String.[] = refl
split-trim_end (String.◌∷◌ c s) = elim (Bool-cases (is_blank (trim_end s) && is_whitespace c)) [
  | inl e ↦
      let blank = is_blank-eq (trim_end s) (ground arith) in
      let space : is_whitespace c ≡ true = ground arith in
      rw (trim_end-drop c s e, split-space c s space)
        (sym (ap split_whitespace blank) ∙ split-trim_end s)
  | inr e ↦ elim (Bool-cases (is_whitespace c)) [
    | inl space ↦
        rw (trim_end-keep c s e, split-space c s space, split-space c (trim_end s) space)
          (split-trim_end s)
    | inr word ↦
        rw
          (
            trim_end-keep c s e,
            split-word c s word,
            split-word c (trim_end s) word,
            split-trim_end s,
          )
          (put_char-trim_end c s (split-trim_end s))
  ]
]

pub split-trim : (s : String) → split_whitespace (trim s) ≡ split_whitespace s
unfolding trim
split-trim s = split-trim_start (trim_end s) ∙ split-trim_end s

trim_start_idem : (s : String) → trim_start (trim_start s) ≡ trim_start s
unfolding trim_start
trim_start_idem String.[] = refl
trim_start_idem (String.◌∷◌ c s) = elim (Bool-cases (is_whitespace c)) [
  | inl e ↦ rw (trim_start-space c s e) (trim_start_idem s)
  | inr e ↦ rw (trim_start-word c s e) (trim_start-word c s e)
]

trim_end_idem : (s : String) → trim_end (trim_end s) ≡ trim_end s
unfolding trim_end
trim_end_idem String.[] = refl
trim_end_idem (String.◌∷◌ c s) = elim (Bool-cases (is_blank (trim_end s) && is_whitespace c)) [
  | inl e ↦ rw (trim_end-drop c s e) refl
  | inr e ↦ rw (trim_end-keep c s e) (
      trim_end-keep c (trim_end s) (rw (trim_end_idem s) e)
      ∙ ap (λ t. String.◌∷◌ c t) (trim_end_idem s))
]

tail_of : String → String
tail_of String.[] = ""
tail_of (String.◌∷◌ c s) = s

trim_end-tail :
    (c : Char) (s : String) → trim_end (String.◌∷◌ c s) ≡ String.◌∷◌ c s → trim_end s ≡ s
unfolding tail_of
trim_end-tail c s h = elim (Bool-cases (is_blank (trim_end s) && is_whitespace c)) [
  | inl e ↦ ground (arith, ap is_blank (sym (trim_end-drop c s e) ∙ h))
  | inr e ↦ ap tail_of (sym (trim_end-keep c s e) ∙ h)
]

trim_end-trim_start : (s : String) → trim_end s ≡ s → trim_end (trim_start s) ≡ trim_start s
unfolding trim_start
trim_end-trim_start String.[] h = h
trim_end-trim_start (String.◌∷◌ c s) h = elim (Bool-cases (is_whitespace c)) [
  | inl e ↦ rw (trim_start-space c s e) (trim_end-trim_start s (trim_end-tail c s h))
  | inr e ↦ rw (trim_start-word c s e) h
]

pub trim_end-trim : (s : String) → trim_end (trim s) ≡ trim s
unfolding trim
trim_end-trim s = trim_end-trim_start (trim_end s) (trim_end_idem s)

pub trim_idem : (s : String) → trim (trim s) ≡ trim s
unfolding trim
trim_idem s = ap trim_start (trim_end-trim s) ∙ trim_start_idem (trim_end s)

-- A character takes one to four bytes.
pub len_utf8-bounds : (c : Char) → (1 ≤ len_utf8 c) × (len_utf8 c ≤ 4)
len_utf8-bounds c = (ground arith, ground arith)
