-- ===== src/Webhook/Schedule/Laws.antt =====
-- The normalized backup schedule.
use servarr_operator.Prelude.{
  String, ◌≡◌, refl, sym, ap, ◌∙◌, Bool, true, false, List, [], ◌∷◌, arith, eqb, length, is_blank,
  ◌⧺◌, Bool-cases, inl, inr, if◌then◌else◌,
}
use Prim.Native.Char.{Char}
use servarr_operator.Prelude.Chars.{
  put_char, is_whitespace, trim, trim_start, trim_end, split_whitespace,
}
use servarr_operator.Prelude.Chars.Laws.{split-trim, trim_end-trim, trim_idem}
use servarr_operator.Webhook.Schedule.{normalize_backup_schedule}

put_char-space :
    (c d : Char) (s : String) (words : List String)
    → is_whitespace d ≡ true
    → put_char c (String.◌∷◌ d s) words ≡ String.◌∷◌ c "" ∷ words
put_char-space c d s [] h = refl
put_char-space c d s (w ∷ words) h = rw h refl

-- The words of a text with `0 ` in front.
split-zero : (s : String) → split_whitespace ("0 " ⧺ s) ≡ "0" ∷ split_whitespace s
unfolding split_whitespace ◌⧺◌ is_whitespace
split-zero s = put_char-space "0" " " s (split_whitespace s) refl

trim-zero : (s : String) → trim_end s ≡ s → is_blank s ≡ false → trim ("0 " ⧺ s) ≡ "0 " ⧺ s
unfolding trim trim_start trim_end ◌⧺◌ is_whitespace
trim-zero s h filled = rw (h, filled) refl

filled_by_words : (s : String) → eqb (length (split_whitespace s)) 5 ≡ true → is_blank s ≡ false
unfolding split_whitespace
filled_by_words String.[] h = ground arith
filled_by_words (String.◌∷◌ c s) h = refl

has_five : String → Bool
has_five s = eqb (length (split_whitespace s)) 5

normalize-five :
    (e : String) → has_five (trim e) ≡ true → normalize_backup_schedule e ≡ "0 " ⧺ trim e
unfolding normalize_backup_schedule has_five
normalize-five e h = rw h refl

normalize-other : (e : String) → has_five (trim e) ≡ false → normalize_backup_schedule e ≡ trim e
unfolding normalize_backup_schedule has_five
normalize-other e h = rw h refl

-- The fields of a normalized schedule are those of the text, with `0` for the seconds in front when
-- there were five of them, and to normalize a second time changes nothing.
pub normalize_backup_schedule_lem :
    (e : String)
    → (split_whitespace (normalize_backup_schedule e) ≡ (
        if eqb (length (split_whitespace e)) 5
        then "0" ∷ split_whitespace e
        else split_whitespace e))
      × (normalize_backup_schedule (normalize_backup_schedule e) ≡ normalize_backup_schedule e)
unfolding has_five
normalize_backup_schedule_lem e = elim (Bool-cases (has_five (trim e))) [
  | inl five ↦
      let there : eqb (length (split_whitespace e)) 5 ≡ true =
        ap (λ words. eqb (length words) 5) (sym (split-trim e)) ∙ five in
      let front = trim-zero (trim e) (trim_end-trim e) (filled_by_words (trim e) five) in
      let six = ap (λ words. eqb (length words) 5) (split-zero (trim e)) in
      rw (normalize-five e five, there)
        (
          split-zero (trim e) ∙ ap (λ words. "0" ∷ words) (split-trim e),
          normalize-other ("0 " ⧺ trim e) (ap has_five front ∙ six ∙ ground (arith, five)) ∙ front,
        )
  | inr other ↦
      let there : eqb (length (split_whitespace e)) 5 ≡ false =
        ap (λ words. eqb (length words) 5) (sym (split-trim e)) ∙ other in
      rw (normalize-other e other, there)
        (split-trim e, normalize-other (trim e) (rw (trim_idem e) other) ∙ trim_idem e)
]
