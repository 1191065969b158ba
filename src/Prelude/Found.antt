-- ===== src/Prelude/Found.antt =====
-- What a loop that stops at a repeated key finds: two items of the list with that key.
use servarr_operator.Prelude.Tests.{Option-cases, Bool-cases}
use servarr_operator.Prelude.Lists.{All}
use servarr_operator.Prelude.IndexMap.{IndexMap, lookup, insert}
use servarr_operator.Prelude.Repeats.{find_repeat}
use mathlib.Core.Path.{◌≡◌, refl, sym, ap, ◌∙◌, subst}
use mathlib.Core.Logic.{inl, inr}
use mathlib.Core.Option.{Option, some, some-injective}
use mathlib.Core.List.{List, [], ◌∷◌}
use Prim.Native.String.{String}
use native.Mathlib.Omega.{arith}
use text.Mathlib.Text.{◌==◌}
use text.Mathlib.TextEquality.{eq_iff}

module _ {ℓ κ} {A : Type ℓ} (key : A → String) (P : A → Type κ) where
  -- Each item stands under its key, and has the property.
  abbrev Seen : IndexMap A → Type κ
  Seen [] = Unit
  Seen ((k, a) ∷ m) = (k ≡ key a) × P a × Seen m

  insert-Seen : (e : A) (m : IndexMap A) → P e → Seen m → Seen (insert (key e) e m)
  unfolding insert
  insert-Seen e [] p h = (refl, p, tt)
  insert-Seen e ((k, a) ∷ m) p h = elim (Bool-cases (k == key e)) [
    | inl same ↦ rw same ((eq_iff k (key e)).0 same, p, h.2)
    | inr other ↦ rw other (h.0, h.1, insert-Seen e m p h.2)
  ]

  lookup-Seen :
      (k : String) (a : A) (m : IndexMap A) → Seen m → lookup k m ≡ some a → (k ≡ key a) × P a
  unfolding lookup
  lookup-Seen k a [] h found = ground arith
  lookup-Seen k a ((j, b) ∷ m) h found = elim (Bool-cases (j == k)) [
    | inl same ↦
        let e : b ≡ a = ground (arith, found, same) in
        (sym ((eq_iff j k).0 same) ∙ h.0 ∙ ap key e, subst P e h.1)
    | inr other ↦ lookup-Seen k a m h.2 (ground (arith, found, other))
  ]

  pub find_repeat-Seen :
      (prior e : A) (seen : IndexMap A) (es : List A)
      → Seen seen
      → All P es
      → find_repeat key seen es ≡ some (prior, e)
      → (key e ≡ key prior) × P prior × P e
  unfolding find_repeat
  find_repeat-Seen prior e seen [] h all found = ground arith
  find_repeat-Seen prior e seen (d ∷ es) h all found = elim (Option-cases (lookup (key d) seen)) [
    | inl fresh ↦
        find_repeat-Seen prior e (insert (key d) d seen) es (insert-Seen d seen all.0 h) all.1
          (rw (fresh, find_repeat) at found)
    | inr (old, hit) ↦
        let same : ◌≡◌ {A = Option (A × A)} (some (old, d)) (some (prior, e)) =
          rw (hit, find_repeat) at found in
        let pair = some-injective _ _ same in
        let one : old ≡ prior = ap (λ (q : A × A). q.0) pair in
        let two : d ≡ e = ap (λ (q : A × A). q.1) pair in
        let was = lookup-Seen (key d) old seen h hit in
        (ap key (sym two) ∙ was.0 ∙ ap key one, subst P one was.1, subst P two all.0)
  ]
