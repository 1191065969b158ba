-- ===== src/Crds/Condition/Laws.antt =====
-- `set_condition` keeps one condition for each type.
use servarr_operator.Prelude.{
  String, ◌≡◌, ◌∙◌, refl, true, false, Option, none, some, List, [], ◌∷◌, ◌++◌, ◌==◌, eq_iff, arith,
  map, contains, Distinct, Distinct-concat, Bool-cases, inl, inr, if◌then◌else◌,
}
use servarr_operator.Crds.Condition.{
  Condition, ServarrAppStatus, overwrite, has_type, put_condition, set_condition,
}

abbrev pub type_of : Condition → String
type_of c = c.condition_type

-- The first condition of a type, as readers look it up.
unfoldable pub find_condition : String → List Condition → Option Condition
find_condition t [] = none
find_condition t (c ∷ cs) = if c.condition_type == t then some c else find_condition t cs

find_condition-overwrite :
    (t : String) (cond : Condition) (cs : List Condition)
    → has_type cond.condition_type cs ≡ true
    → find_condition t (overwrite cond cs)
      ≡ (if cond.condition_type == t then some cond else find_condition t cs)
unfolding find_condition overwrite
find_condition-overwrite t cond [] h = cc
find_condition-overwrite t cond (c ∷ cs) h = ground (
  arith,
  find_condition-overwrite t cond cs,
  eq_iff c.condition_type cond.condition_type,
  eq_iff c.condition_type t,
  eq_iff cond.condition_type t,
)

find_condition-append :
    (t : String) (cond : Condition) (cs : List Condition)
    → has_type cond.condition_type cs ≡ false
    → find_condition t (cs ++ cond ∷ [])
      ≡ (if cond.condition_type == t then some cond else find_condition t cs)
unfolding find_condition
find_condition-append t cond [] h = refl
find_condition-append t cond (c ∷ cs) h = ground (
  arith,
  find_condition-append t cond cs,
  eq_iff c.condition_type cond.condition_type,
  eq_iff c.condition_type t,
  eq_iff cond.condition_type t,
)

types-overwrite :
    (cond : Condition) (cs : List Condition) → map type_of (overwrite cond cs) ≡ map type_of cs
unfolding overwrite
types-overwrite cond [] = refl
types-overwrite cond (c ∷ cs) =
    ground (arith, types-overwrite cond cs, eq_iff c.condition_type cond.condition_type)

contains-types : (t : String) (cs : List Condition) → contains t (map type_of cs) ≡ has_type t cs
unfolding contains
contains-types t [] = refl
contains-types t (c ∷ cs) = ground (arith, contains-types t cs)

map-types_append :
    (cond : Condition) (cs : List Condition)
    → map type_of (cs ++ cond ∷ []) ≡ map type_of cs ++ cond.condition_type ∷ []
map-types_append cond [] = refl
map-types_append cond (c ∷ cs) = cc (map-types_append cond cs)

pub put_condition-Distinct :
    (cond : Condition) (cs : List Condition)
    → Distinct (map type_of cs)
    → Distinct (map type_of (put_condition cond cs))
unfolding put_condition
put_condition-Distinct cond cs d = elim (Bool-cases (has_type cond.condition_type cs)) [
  | inl old ↦ rw (old, types-overwrite) d
  | inr new ↦
      rw (new, map-types_append)
        (Distinct-concat (map type_of cs) cond.condition_type d
          (contains-types cond.condition_type cs ∙ new))
]

pub find-put_condition :
    (t : String) (cond : Condition) (cs : List Condition)
    → find_condition t (put_condition cond cs)
      ≡ (if cond.condition_type == t then some cond else find_condition t cs)
unfolding put_condition
find-put_condition t cond cs = elim (Bool-cases (has_type cond.condition_type cs)) [
  | inl old ↦ rw old (find_condition-overwrite t cond cs old)
  | inr new ↦ rw new (find_condition-append t cond cs new)
]

-- On a status with one condition of each type, `set_condition` keeps that, leaves its condition
-- under its type and every other type's condition as it was, and changes no other field.
pub set_condition_lem :
    (cond : Condition) (self : ServarrAppStatus) (t : String)
    → Distinct (map type_of self.conditions)
    → Distinct (map type_of (set_condition cond self).conditions)
      × (find_condition t (set_condition cond self).conditions
          ≡ (if cond.condition_type == t then some cond else find_condition t self.conditions))
      × (record (set_condition cond self) { conditions = self.conditions } ≡ self)
unfolding set_condition
set_condition_lem cond self t d =
    (put_condition-Distinct cond self.conditions d, find-put_condition t cond self.conditions, refl)
