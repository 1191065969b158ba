-- ===== src/Prelude/Texts.antt =====
-- Text as Rust's `str` methods read it.
use Prim.Native.Nat.{ℕ}
use Prim.Native.Char.{code}
use Prim.Native.String.{String}
use mathlib.Core.Bool.{Bool, true, false, ◌||◌}
use mathlib.Core.Option.{Option, none, some}
use mathlib.Core.List.{List, [], ◌∷◌}
use text.Mathlib.Text.{◌==◌}
use servarr_operator.Prelude.Tests.{eqb, if◌then◌else◌}

-- `str::is_empty`
abbrev pub is_blank : String → Bool
is_blank String.[] = true
is_blank (String.◌∷◌ c s) = false

-- Concatenation, as `format!` makes it.
infixr 66 ◌⧺◌
unfoldable pub ◌⧺◌ : String → String → String
◌⧺◌ String.[] t = t
◌⧺◌ (String.◌∷◌ c s) t = String.◌∷◌ c (s ⧺ t)

-- `str::strip_prefix`
unfoldable pub strip_prefix : String → String → Option String
strip_prefix String.[] s = some s
strip_prefix (String.◌∷◌ p pre) String.[] = none
strip_prefix (String.◌∷◌ p pre) (String.◌∷◌ c s) =
    let rest = strip_prefix pre s in if eqb (code p) (code c) then rest else none

-- Whether a text begins with the character of the given code.
abbrev pub begins_with : ℕ → String → Bool
begins_with k String.[] = false
begins_with k (String.◌∷◌ c s) = eqb (code c) k

-- `[&str]::contains`
unfoldable pub contains : String → List String → Bool
contains a [] = false
contains a (x ∷ xs) = x == a || contains a xs
