-- ===== src/Crds/Defaults/Collisions/Sides.antt =====
-- The two sides of the collision checks of crates/servarr-crds/src/v1alpha1/defaults.rs: what the
-- user mounts, and what the operator reserves.
use servarr_operator.Prelude.{
  String, ◌≡◌, ◌↔◌, ◌∙◌, Bool, true, Option, none, some, List, [], ◌∷◌, ◌++◌, map, arith, All,
  Distinct, contains, contains-append, ok, err, eq_refl, refl, sym, if◌then◌else◌,
}
use servarr_operator.Prelude.Repeats.{find_repeat}
use servarr_operator.Prelude.Found.{find_repeat-Seen}
use servarr_operator.Crds.Defaults.Collisions.{PersistenceError, Checked, conclude}

ok_ne_err : {e : PersistenceError} → ◌≡◌ {A = Checked} (ok tt) (err e) → ⊥
ok_ne_err h = cc

err_injective : {a b : PersistenceError} → ◌≡◌ {A = Checked} (err a) (err b) → a ≡ b
err_injective h = cc

-- The texts of one list stand in another.
abbrev pub Within : List String → List String → Type 0
Within ks all_keys = (k : String) → contains k ks ≡ true → contains k all_keys ≡ true

pub Within-left : (xs ys : List String) → Within xs (xs ++ ys)
Within-left xs ys k h = contains-append k xs ys ∙ ground (arith, h)

pub Within-right : (xs ys : List String) → Within ys (xs ++ ys)
Within-right xs ys k h = contains-append k xs ys ∙ ground (arith, h)

contains_first : (k : String) (ks : List String) → contains k (k ∷ ks) ≡ true
unfolding contains
contains_first k ks = ground (arith, eq_refl k)

contains_later :
    (k j : String) (ks : List String) → contains k ks ≡ true → contains k (j ∷ ks) ≡ true
unfolding contains
contains_later k j ks h = ground arith

-- A right answer of a check: it accepts pairwise different keys, and reports a justified error on
-- others.
abbrev pub IsAnswer : List String → (PersistenceError → Type 0) → Checked → Type 0
IsAnswer keys IsBlamed (ok u) = Distinct keys
IsAnswer keys IsBlamed (err e) = (¬ Distinct keys) × IsBlamed e

module _ {A : Type 0} (key : A → String) (is_operator : A → Bool)
    (users operators : List String) where
  -- An entry has a key of its side.
  abbrev pub IsSided : A → Type 0
  IsSided e = contains (key e) (if is_operator e then operators else users) ≡ true

  pub side-IsSided :
      (es : List A) (side : Bool)
      → All (λ e. is_operator e ≡ side) es
      → Within (map key es) (if side then operators else users)
      → All IsSided es
  side-IsSided [] side same within = tt
  side-IsSided (e ∷ es) side same within = (
    rw same.0 (within (key e) (contains_first (key e) (map key es))),
    side-IsSided es side same.1 (λ k h. within k (contains_later k (key e) (map key es) h)),
  )

  module _ (report : A → A → PersistenceError) (IsBlamed : PersistenceError → Type 0)
      (blame : (prior e : A)
        → key e ≡ key prior
        → IsSided prior
        → IsSided e
        → IsBlamed (report prior e)) where
    conclude-IsAnswer :
        (keys : List String) (o : Option (A × A))
        → ((conclude report o ≡ ok tt) ↔ Distinct keys)
        → ((prior e : A) → o ≡ some (prior, e) → IsBlamed (report prior e))
        → IsAnswer keys IsBlamed (conclude report o)
    conclude-IsAnswer keys none accepts blamed = accepts.0 refl
    conclude-IsAnswer keys (some (prior, e)) accepts blamed =
        (λ d. ok_ne_err (sym (accepts.1 d)), blamed prior e refl)

    -- The loop answers right on entries that have keys of their sides.
    pub find_repeat-IsAnswer :
        (keys : List String) (es : List A)
        → ((conclude report (find_repeat key [] es) ≡ ok tt) ↔ Distinct keys)
        → All IsSided es
        → IsAnswer keys IsBlamed (conclude report (find_repeat key [] es))
    find_repeat-IsAnswer keys es accepts sided =
        conclude-IsAnswer keys (find_repeat key [] es) accepts (λ prior e found.
          let (same, p, q) = find_repeat-Seen key IsSided prior e [] es tt sided found in
          blame prior e same p q)
