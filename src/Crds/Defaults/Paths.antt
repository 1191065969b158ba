-- ===== src/Crds/Defaults/Paths.antt =====
-- `normalize_mount_path` and the `..` check of crates/servarr-crds/src/v1alpha1/defaults.rs.
use Prim.Native.Char.{Char, code}
use servarr_operator.Prelude.{
  String, Bool, ◌||◌, ◌≡◌, refl, Option, none, some, List, [], ◌∷◌, ◌==◌, eqb, is_blank, any,
  strip_prefix, begins_with, ◌⧺◌, if◌then◌else◌,
}

-- A character in front of the first segment.
abbrev pub onto_first : Char → List String → List String
onto_first c [] = String.◌∷◌ c "" ∷ []
onto_first c (seg ∷ segs) = String.◌∷◌ c seg ∷ segs

-- `str::split('/')`
unfoldable pub split_slash : String → List String
split_slash String.[] = "" ∷ []
split_slash (String.◌∷◌ c s) =
    let rest = split_slash s in if eqb (code c) b'/' then "" ∷ rest else onto_first c rest

-- `segments.join("/")`
unfoldable pub join_slash : List String → String
join_slash [] = ""
join_slash (seg ∷ []) = seg
join_slash (seg ∷ next ∷ segs) = seg ⧺ "/" ⧺ join_slash (next ∷ segs)

-- `Vec::pop`, the vector's end at the list's head.
abbrev pop : List String → List String
pop [] = []
pop (seg ∷ segs) = segs

-- The loop over the segments; the vector `segments` is kept in reverse.
unfoldable pub resolve_segments : List String → List String → List String
resolve_segments segments [] = segments
resolve_segments segments (seg ∷ segs) =
    resolve_segments
      (if is_blank seg || seg == "."
        then segments
        else if seg == ".."
        then pop segments
        else seg ∷ segments)
      segs

abbrev reverse_onto : List String → List String → List String
reverse_onto [] out = out
reverse_onto (x ∷ xs) out = reverse_onto xs (x ∷ out)

-- `SYMLINK_ALIASES`
abbrev pub symlink_aliases : List (String × String)
symlink_aliases = ("/var/run", "/run") ∷ ("/var/lock", "/run/lock") ∷ []

-- The alias replaced, if it ends on a segment boundary.
abbrev replace_alias : Option String → String → Option String
replace_alias none target = none
replace_alias (some rest) target =
    if is_blank rest || begins_with b'/' rest then some (target ⧺ rest) else none

-- The first alias that applies.
unfoldable pub resolve_aliases : List (String × String) → String → String
resolve_aliases [] normalized = normalized
resolve_aliases ((alias, target) ∷ more) normalized =
    let later = resolve_aliases more normalized in
    elim (replace_alias (strip_prefix alias normalized) target) [ some path ↦ path | none ↦ later ]

unfoldable pub resolve_symlink_alias : String → String
unfolding resolve_aliases strip_prefix ◌⧺◌
resolve_symlink_alias normalized = resolve_aliases symlink_aliases normalized

unfoldable pub normalize_mount_path : String → String
unfolding split_slash join_slash resolve_segments resolve_symlink_alias
normalize_mount_path path =
    resolve_symlink_alias
      ("/" ⧺ join_slash (reverse_onto (resolve_segments [] (split_slash path)) []))

-- The test of `validate_no_parent_segment`.
unfoldable pub has_parent_segment : String → Bool
unfolding split_slash
has_parent_segment path = any (λ segment. segment == "..") (split_slash path)

normalize_tests :
    (normalize_mount_path "/downloads//" ≡ "/downloads")
    × (normalize_mount_path "/watch/foo/../../watch" ≡ "/watch")
    × (normalize_mount_path "/var/run/secrets/./admin" ≡ "/run/secrets/admin")
    × (normalize_mount_path "/var/running" ≡ "/var/running")
    × (normalize_mount_path "/var/lock/" ≡ "/run/lock")
    × (normalize_mount_path "../.." ≡ "/")
unfolding normalize_mount_path
normalize_tests = (refl, refl, refl, refl, refl, refl)
