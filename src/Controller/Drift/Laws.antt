-- ===== src/Controller/Drift/Laws.antt =====
-- The paths of a drift against the test for a drift.
use servarr_operator.Prelude.{
  ℕ, suc, String, ◌≡◌, ◌↔◌, refl, sym, ap, ◌∙◌, Bool, true, false, ◌&&◌, Option, none, some, List,
  [], ◌∷◌, ◌++◌, is_empty, eqb, arith, if◌then◌else◌,
}
use servarr_operator.Crds.Types.Workload.{
  Value, array, object, Members, no_members, member, Elements, no_elements, element, get_member,
}
use servarr_operator.Controller.Drift.{
  count_elements, same_leaf, absent, is_zero_value, member_path, element_path, json_diff_paths,
  diff_members, diff_elements, json_is_subset, subset_members, subset_elements,
}

is_empty-append : {A : Type 0} (xs ys : List A) → is_empty (xs ++ ys) ≡ (is_empty xs && is_empty ys)
is_empty-append [] ys = refl
is_empty-append (x ∷ xs) ys = refl

is_empty-eq : {A : Type 0} (xs : List A) → is_empty xs ≡ true → xs ≡ []
is_empty-eq [] h = refl
is_empty-eq (x ∷ xs) h = ground arith

unless_empty : {A : Type 0} (b : Bool) (x : A) → is_empty (if b then [] else x ∷ []) ≡ b
unless_empty true x = refl
unless_empty false x = refl

when_empty :
    {A : Type 0} (b c : Bool) (xs : List A) (x : A)
    → is_empty xs ≡ c
    → is_empty (if b then xs else x ∷ []) ≡ (b && c)
when_empty true c xs x h = h
when_empty false c xs x h = refl

both_empty :
    {A : Type 0} {b c : Bool} (xs ys : List A)
    → is_empty xs ≡ b
    → is_empty ys ≡ c
    → is_empty (xs ++ ys) ≡ (b && c)
both_empty xs ys h k = is_empty-append xs ys ∙ (rw (h, k) refl)

module _ (is_zero_number : String → Bool) (same_number : String → String → Bool) where
  no_diff_found :
      (dv : Value) (found : Option Value) (path : String)
      → ((av : Value)
          → is_empty (json_diff_paths is_zero_number same_number dv av path)
            ≡ json_is_subset is_zero_number same_number dv av)
      → is_empty (elim found [
        | some av ↦ json_diff_paths is_zero_number same_number dv av path
        | none ↦ absent is_zero_number same_number dv path
      ])
        ≡ elim found [
          | some av ↦ json_is_subset is_zero_number same_number dv av
          | none ↦ is_zero_value is_zero_number same_number dv
        ]
  no_diff_found dv (some av) path one = one av
  no_diff_found dv none path one = unless_empty (is_zero_value is_zero_number same_number dv) _

  mutual
    unfolding json_diff_paths diff_members diff_elements json_is_subset subset_members
        subset_elements

    no_diff :
        (desired actual : Value) (path : String)
        → is_empty (json_diff_paths is_zero_number same_number desired actual path)
          ≡ json_is_subset is_zero_number same_number desired actual
    no_diff (object d) (object a) path = no_diff_members d a path
    no_diff (array d) (array a) path =
        when_empty (eqb (count_elements d) (count_elements a)) _ _ _ (no_diff_elements d a path 0)
    no_diff desired actual path =
        unless_empty (same_leaf is_zero_number same_number desired actual) _

    no_diff_members :
        (d a : Members) (path : String)
        → is_empty (diff_members is_zero_number same_number d a path)
          ≡ subset_members is_zero_number same_number d a
    no_diff_members no_members a path = refl
    no_diff_members (member k dv ds) a path =
        both_empty _ _
          (no_diff_found dv (get_member k a) (member_path path k)
            (λ av. no_diff dv av (member_path path k)))
          (no_diff_members ds a path)

    no_diff_elements :
        (d a : Elements) (path : String) (i : ℕ)
        → is_empty (diff_elements is_zero_number same_number d a path i)
          ≡ subset_elements is_zero_number same_number d a
    no_diff_elements no_elements a path i = refl
    no_diff_elements (element dv ds) no_elements path i = refl
    no_diff_elements (element dv ds) (element av rest) path i =
        both_empty _ _ (no_diff dv av (element_path path i)) (no_diff_elements ds rest path (suc i))

  -- The differences are listed exactly when the desired object is not a subset of the actual one:
  -- the list is empty if and only if the test for a drift passes.
  pub json_diff_paths_iff :
      (desired actual : Value) (path : String)
      → (json_diff_paths is_zero_number same_number desired actual path ≡ [])
        ↔ (json_is_subset is_zero_number same_number desired actual ≡ true)
  json_diff_paths_iff desired actual path =
      let same = no_diff desired actual path in
      (λ h. sym same ∙ ap is_empty h, λ h. is_empty-eq _ (same ∙ h))
