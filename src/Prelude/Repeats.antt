-- ===== src/Prelude/Repeats.antt =====
-- Loops that stop at the first item whose key was seen: `if let Some(prior) = seen.insert(..)`.
use servarr_operator.Prelude.Tests.{Option-cases}
use servarr_operator.Prelude.Texts.{contains}
use servarr_operator.Prelude.Results.{Distinct}
use servarr_operator.Prelude.IndexMap.{
  IndexMap, lookup, insert, keys, contains-insert, lookup_absent,
}
use mathlib.Core.Path.{◌≡◌, refl}
use mathlib.Core.Logic.{◌↔◌, inl, inr}
use mathlib.Core.Bool.{false}
use mathlib.Core.Option.{Option, none, some}
use mathlib.Core.List.{List, [], ◌∷◌, map}
use Prim.Native.String.{String}
use native.Mathlib.Omega.{arith}
use text.Mathlib.TextEquality.{eq_iff}

-- No text of the first list stands in the second one.
abbrev Apart : List String → List String → Type 0
Apart [] ys = Unit
Apart (x ∷ xs) ys = (contains x ys ≡ false) × Apart xs ys

Apart-nil : (xs : List String) → Apart xs []
unfolding contains
Apart-nil [] = tt
Apart-nil (x ∷ xs) = (refl, Apart-nil xs)

module _ {ℓ} {V : Type ℓ} where
  absent_of_lookup : (k : String) (m : IndexMap V) → lookup k m ≡ none → contains k (keys m) ≡ false
  unfolding lookup contains
  absent_of_lookup k [] h = refl
  absent_of_lookup k ((j, w) ∷ m) h = ground (arith, absent_of_lookup k m)

  Apart-insert :
      (k : String) (v : V) (m : IndexMap V) (xs : List String)
      → contains k xs ≡ false
      → Apart xs (keys m)
      → Apart xs (keys (insert k v m))
  unfolding contains
  Apart-insert k v m [] d h = tt
  Apart-insert k v m (x ∷ xs) d h = (
    ground (arith, contains-insert k x v m, eq_iff k x, eq_iff x k, h.0),
    Apart-insert k v m xs (ground arith) h.1,
  )

  insert-Apart :
      (k : String) (v : V) (m : IndexMap V) (xs : List String)
      → Apart xs (keys (insert k v m))
      → (contains k xs ≡ false) × Apart xs (keys m)
  unfolding contains
  insert-Apart k v m [] h = (refl, tt)
  insert-Apart k v m (x ∷ xs) h =
      let (later, apart) = insert-Apart k v m xs h.1 in
      (
        ground (arith, contains-insert k x v m, eq_iff k x, eq_iff x k, h.0, later),
        (ground (arith, contains-insert k x v m, h.0), apart),
      )

module _ {ℓ} {A : Type ℓ} where
  -- The first item whose key an earlier item has, with that earlier item.
  unfoldable pub find_repeat : (A → String) → IndexMap A → List A → Option (A × A)
  find_repeat key seen [] = none
  find_repeat key seen (e ∷ es) =
      let rest = find_repeat key (insert (key e) e seen) es in
      elim (lookup (key e) seen) [ some prior ↦ some (prior, e) | none ↦ rest ]

  none_of_Distinct :
      (key : A → String) (seen : IndexMap A) (es : List A)
      → Distinct (map key es)
      → Apart (map key es) (keys seen)
      → find_repeat key seen es ≡ none
  unfolding find_repeat
  none_of_Distinct key seen [] d a = refl
  none_of_Distinct key seen (e ∷ es) d a =
      rw (lookup_absent (key e) seen a.0, find_repeat)
        (none_of_Distinct key (insert (key e) e seen) es d.1
          (Apart-insert (key e) e seen (map key es) d.0 a.1))

  Distinct-find_repeat :
      (key : A → String) (seen : IndexMap A) (es : List A)
      → find_repeat key seen es ≡ none
      → Distinct (map key es) × Apart (map key es) (keys seen)
  unfolding find_repeat
  Distinct-find_repeat key seen [] h = (tt, tt)
  Distinct-find_repeat key seen (e ∷ es) h = elim (Option-cases (lookup (key e) seen)) [
    | inl fresh ↦
        let (d, a) =
          Distinct-find_repeat key (insert (key e) e seen) es (rw (fresh, find_repeat) at h) in
        let (later, apart) = insert-Apart (key e) e seen (map key es) a in
        ((later, d), (absent_of_lookup (key e) seen fresh, apart))
    | inr (prior, old) ↦ ground arith
  ]

  -- The loop finds nothing exactly if the keys are pairwise different.
  pub find_repeat_iff :
      (key : A → String) (es : List A) → (find_repeat key [] es ≡ none) ↔ Distinct (map key es)
  find_repeat_iff key es = (
    λ h. (Distinct-find_repeat key [] es h).0,
    λ d. none_of_Distinct key [] es d (Apart-nil (map key es)),
  )
