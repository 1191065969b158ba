-- ===== src/Controller/Notes.antt =====
-- `clamp_event_note` of crates/servarr-operator/src/controller.rs.
pub mod Laws
use servarr_operator.Prelude.{
  ℕ, zero, suc, ◌-◌, String, ◌≡◌, refl, Bool, true, false, leb, eqb, ltb, ◌⧺◌, if◌then◌else◌,
}
use servarr_operator.Prelude.Chars.{byte_len, len_utf8}
use Prim.Native.Char.{Char}

abbrev pub max_event_note_bytes : ℕ
max_event_note_bytes = 1024

-- `str::is_char_boundary`
unfoldable pub is_char_boundary : ℕ → String → Bool
is_char_boundary end String.[] = eqb end 0
is_char_boundary end (String.◌∷◌ c s) =
    let later = is_char_boundary (end - len_utf8 c) s in
    if eqb end 0 then true else if ltb end (len_utf8 c) then false else later

-- `&s[..end]`, where `end` is a boundary.
unfoldable pub slice_to : ℕ → String → String
slice_to end String.[] = ""
slice_to end (String.◌∷◌ c s) =
    let later = slice_to (end - len_utf8 c) s in if eqb end 0 then "" else String.◌∷◌ c later

-- The loop that moves `end` down to a boundary.
unfoldable pub boundary_below : ℕ → String → ℕ
unfolding is_char_boundary
boundary_below zero note = 0
boundary_below (suc end) note =
    let below = boundary_below end note in
    if is_char_boundary (suc end) note then suc end else below

unfoldable pub clamp_event_note : String → String
unfolding boundary_below slice_to ◌⧺◌
clamp_event_note note =
    let cut = slice_to (boundary_below (max_event_note_bytes - 3) note) note ⧺ "..." in
    if leb (byte_len note) max_event_note_bytes then note else cut
