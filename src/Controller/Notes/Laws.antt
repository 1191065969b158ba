-- ===== src/Controller/Notes/Laws.antt =====
-- The length of a clamped event note.
use servarr_operator.Prelude.{
  ℕ, zero, suc, ◌+◌, ◌-◌, ◌≤◌, String, ◌≡◌, ◌⊎◌, inl, inr, refl, sym, ap, ◌∙◌, Bool, true, false,
  leb, eqb, ltb, ◌⧺◌, arith, Bool-cases, if◌then◌else◌,
}
use servarr_operator.Prelude.Chars.{byte_len, len_utf8}
use servarr_operator.Prelude.Chars.Laws.{len_utf8-bounds}
use Prim.Native.Char.{Char}
use servarr_operator.Controller.Notes.{is_char_boundary, slice_to, boundary_below, clamp_event_note}

inside_small : (a b : ℕ) → ltb a b ≡ true → b ≤ 4 → a ≤ 0 + 3
inside_small a b h small = ground (arith, h, small)

not_below : (a b : ℕ) → ltb a b ≡ false → b ≤ a
not_below a b h = ground (arith, h)

at_most : (a b : ℕ) → leb a b ≡ true → a ≤ b
at_most a b h = ground (arith, h)

long_enough : (n : ℕ) → leb n 1024 ≡ false → 1021 ≤ n
long_enough n h = ground (arith, h)

smaller :
    (b end : ℕ) (note : String)
    → b ≤ suc end
    → is_char_boundary b note ≡ true
    → is_char_boundary (suc end) note ≡ false
    → b ≤ end
smaller b end note small h apart = elim (Bool-cases (eqb b (suc end))) [
  | inl e ↦
      let same : b ≡ suc end = ground (arith, e) in
      let clash = sym h ∙ ap (λ n. is_char_boundary n note) same ∙ apart in ground (arith, clash)
  | inr e ↦ ground (arith, e, small)
]

-- The tests of `is_char_boundary` at a character of the given length.
boundary_tests :
    (end len : ℕ) (later : Bool)
    → (if eqb end 0 then true else if ltb end len then false else later) ≡ true
    → (end ≡ 0) ⊎ ((1 ≤ end) × (len ≤ end) × (later ≡ true))
boundary_tests end len later h = elim (Bool-cases (eqb end 0)) [
  | inl e ↦ inl (ground (arith, e))
  | inr e ↦ inr (ground (arith, e), ground (arith, e, h), ground (arith, e, h))
]

boundary-step :
    (end : ℕ) (c : Char) (s : String)
    → is_char_boundary end (String.◌∷◌ c s) ≡ true
    → (end ≡ 0) ⊎ ((1 ≤ end) × (len_utf8 c ≤ end) × (is_char_boundary (end - len_utf8 c) s ≡ true))
unfolding is_char_boundary
boundary-step end c s h = boundary_tests end (len_utf8 c) _ h

past_tests :
    (end len : ℕ) (later : Bool)
    → 1 ≤ len
    → len ≤ end
    → later ≡ true
    → (if eqb end 0 then true else if ltb end len then false else later) ≡ true
past_tests end len later positive small h = ground (arith, positive, small, h)

boundary-past :
    (b : ℕ) (c : Char) (s : String)
    → is_char_boundary b s ≡ true
    → is_char_boundary (b + len_utf8 c) (String.◌∷◌ c s) ≡ true
unfolding is_char_boundary
boundary-past b c s h =
    let back : b + len_utf8 c - len_utf8 c ≡ b = omega arith in
    past_tests (b + len_utf8 c) (len_utf8 c) _ (len_utf8-bounds c).0 (omega arith)
      (ap (λ n. is_char_boundary n s) back ∙ h)

boundary-zero : (s : String) → is_char_boundary 0 s ≡ true
unfolding is_char_boundary
boundary-zero String.[] = refl
boundary-zero (String.◌∷◌ c s) = refl

slice_to-zero : (s : String) → slice_to 0 s ≡ ""
unfolding slice_to
slice_to-zero String.[] = refl
slice_to-zero (String.◌∷◌ c s) = refl

slice_to-past :
    (end : ℕ) (c : Char) (s : String)
    → 1 ≤ end
    → slice_to end (String.◌∷◌ c s) ≡ String.◌∷◌ c (slice_to (end - len_utf8 c) s)
unfolding slice_to
slice_to-past end c s h = ground (arith, h)

-- A slice up to a boundary has as many bytes as asked.
byte_len-slice :
    (end : ℕ) (s : String) → is_char_boundary end s ≡ true → byte_len (slice_to end s) ≡ end
unfolding is_char_boundary slice_to
byte_len-slice end String.[] h = ground (arith, h)
byte_len-slice end (String.◌∷◌ c s) h = elim (boundary-step end c s h) [
  | inl zero_end ↦ rw zero_end refl
  | inr (positive, fits, later) ↦
      let rest = byte_len-slice (end - len_utf8 c) s later in
      rw (slice_to-past end c s positive) (omega (arith, rest, fits))
]

-- A slice is a front of its text.
slice_to-front : (end : ℕ) (s : String) → (rest : String) × (slice_to end s ⧺ rest ≡ s)
unfolding slice_to ◌⧺◌
slice_to-front end String.[] = ("", refl)
slice_to-front end (String.◌∷◌ c s) = elim (Bool-cases (eqb end 0)) [
  | inl e ↦ rw e (String.◌∷◌ c s, refl)
  | inr e ↦
      let (rest, same) = slice_to-front (end - len_utf8 c) s in
      rw e (rest, ap (λ (t : String). String.◌∷◌ c t) same)
]

-- From any position of a text a boundary is at most three bytes back.
boundary-near :
    (end : ℕ) (s : String)
    → end ≤ byte_len s
    → (b : ℕ) × (b ≤ end) × (end ≤ b + 3) × (is_char_boundary b s ≡ true)
boundary-near end String.[] h = (0, omega arith, omega (arith, h), boundary-zero "")
boundary-near end (String.◌∷◌ c s) h = elim (Bool-cases (ltb end (len_utf8 c))) [
  | inl inside ↦
      let short = (len_utf8-bounds c).1 in
      let small : end ≤ 0 + 3 = inside_small end (len_utf8 c) inside short in
      (0, omega arith, small, boundary-zero (String.◌∷◌ c s))
  | inr past ↦
      let reached = not_below end (len_utf8 c) past in
      let (b, below, near, there) =
        boundary-near (end - len_utf8 c) s (omega (arith, h, reached)) in
      (
        b + len_utf8 c,
        omega (arith, below, reached),
        omega (arith, near, reached),
        boundary-past b c s there,
      )
]

-- The loop stops at the last boundary that is not past its start.
boundary_below_lem :
    (end : ℕ) (note : String)
    → (boundary_below end note ≤ end)
      × (is_char_boundary (boundary_below end note) note ≡ true)
      × ((b : ℕ) → b ≤ end → is_char_boundary b note ≡ true → b ≤ boundary_below end note)
unfolding boundary_below
boundary_below_lem zero note = (omega arith, boundary-zero note, λ b small h. small)
boundary_below_lem (suc end) note = elim (Bool-cases (is_char_boundary (suc end) note)) [
  | inl e ↦ rw e (omega arith, e, λ b small h. small)
  | inr e ↦
      let (below, there, last) = boundary_below_lem end note in
      rw e (omega (arith, below), there, λ b small h. last b (smaller b end note small h e) h)
]

byte_len-append : (s t : String) → byte_len (s ⧺ t) ≡ byte_len s + byte_len t
unfolding ◌⧺◌
byte_len-append String.[] t = omega arith
byte_len-append (String.◌∷◌ c s) t = let rest = byte_len-append s t in omega (arith, rest)

clamp-short : (note : String) → byte_len note ≤ 1024 → clamp_event_note note ≡ note
unfolding clamp_event_note
clamp-short note h = ground (arith, h)

clamp-long :
    (note : String)
    → leb (byte_len note) 1024 ≡ false
    → clamp_event_note note ≡ slice_to (boundary_below 1021 note) note ⧺ "..."
unfolding clamp_event_note
clamp-long note h = rw h refl

-- What a note of more than 1024 bytes becomes.
abbrev pub IsCut : String → String → Type 0
IsCut note clamped =
    (front : String) × (rest : String) × (front ⧺ rest ≡ note)
    × (clamped ≡ front ⧺ "...")
    × (1018 ≤ byte_len front)

-- A clamped event note has at most 1024 bytes of UTF-8. A note of at most 1024 bytes is kept; of a
-- longer one whole characters at its front, 1018 bytes or more, are kept with three dots behind
-- them.
pub clamp_event_note_lem :
    (note : String)
    → (byte_len (clamp_event_note note) ≤ 1024)
      × (((byte_len note ≤ 1024) × (clamp_event_note note ≡ note))
          ⊎ IsCut note (clamp_event_note note))
clamp_event_note_lem note = elim (Bool-cases (leb (byte_len note) 1024)) [
  | inl short ↦
      let small = at_most (byte_len note) 1024 short in
      let kept = clamp-short note small in rw kept (small, inl (small, refl))
  | inr long ↦
      let (below, there, last) = boundary_below_lem 1021 note in
      let (b, b_below, near, b_there) =
        boundary-near 1021 note (long_enough (byte_len note) long) in
      let reached = last b b_below b_there in
      let (rest, whole) = slice_to-front (boundary_below 1021 note) note in
      let size = byte_len-slice (boundary_below 1021 note) note there in
      let front = slice_to (boundary_below 1021 note) note in
      let total = byte_len-append front "..." in
      rw (clamp-long note long) (
        omega (arith, total, size, below),
        inr (front, rest, whole, refl, omega (arith, size, reached, near)),
      )
]
