-- ===== src/Prelude/IndexMap.antt =====
-- An insertion-ordered map with text keys, as `indexmap::IndexMap` and, where the order of
-- keys is never read, `BTreeMap` and `HashMap`: an association list.
use mathlib.Core.Path.{◌≡◌, refl}
use mathlib.Core.Bool.{false, ◌||◌}
use mathlib.Core.Option.{Option, none, some}
use mathlib.Core.List.{List, [], ◌∷◌}
use Prim.Native.String.{String}
use native.Mathlib.Omega.{arith}
use text.Mathlib.Text.{◌==◌}
use text.Mathlib.TextEquality.{eq_iff}
use mathlib.Core.Logic.{inl, inr}
use servarr_operator.Prelude.Results.{Distinct}
use servarr_operator.Prelude.Tests.{if◌then◌else◌, Bool-cases}
use servarr_operator.Prelude.Texts.{contains}

abbrev pub IndexMap {ℓ} : Type ℓ → Type ℓ
IndexMap V = List (String × V)

module _ {ℓ} {V : Type ℓ} where
  abbrev pub keys : IndexMap V → List String
  keys [] = []
  keys ((key, value) ∷ rest) = key ∷ keys rest

  -- A key that is present keeps its place and takes the new value.
  unfoldable pub insert : String → V → IndexMap V → IndexMap V
  insert key new [] = (key, new) ∷ []
  insert key new ((first, old) ∷ rest) =
      let later = insert key new rest in
      if first == key then (first, new) ∷ rest else (first, old) ∷ later

  unfoldable pub lookup : String → IndexMap V → Option V
  lookup key [] = none
  lookup key ((first, value) ∷ rest) =
      let later = lookup key rest in if first == key then some value else later

  pub lookup-insert :
      (key asked : String) (new : V) (entries : IndexMap V)
      → lookup asked (insert key new entries)
        ≡ (if key == asked then some new else lookup asked entries)
  unfolding insert lookup
  lookup-insert key asked new [] = refl
  lookup-insert key asked new ((first, old) ∷ rest) = ground (
    arith,
    lookup-insert key asked new rest,
    eq_iff first key,
    eq_iff first asked,
    eq_iff key asked,
  )

  pub contains-insert :
      (k j : String) (v : V) (m : IndexMap V)
      → contains j (keys (insert k v m)) ≡ (k == j || contains j (keys m))
  unfolding contains insert
  contains-insert k j v [] = refl
  contains-insert k j v ((i, w) ∷ m) =
      ground (arith, eq_iff k j, eq_iff i k, eq_iff i j, contains-insert k j v m)

  pub lookup_absent :
      (k : String) (m : IndexMap V) → contains k (keys m) ≡ false → lookup k m ≡ none
  unfolding contains lookup
  lookup_absent k [] h = refl
  lookup_absent k ((i, w) ∷ m) h = ground (arith, lookup_absent k m)

  pub Distinct-insert :
      (k : String) (v : V) (m : IndexMap V) → Distinct (keys m) → Distinct (keys (insert k v m))
  unfolding insert
  Distinct-insert k v [] h = (unfold contains in refl, tt)
  Distinct-insert k v ((j, w) ∷ m) h = elim (Bool-cases (j == k)) [
    | inl e ↦ rw e h
    | inr e ↦ rw e (
      ground (arith, contains-insert k j v m, eq_iff k j, eq_iff j k, h.0, e),
      Distinct-insert k v m h.1,
    )
  ]
