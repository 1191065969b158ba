-- ===== src/Controller/Drift.antt =====
-- The drift between a desired and an actual object: `is_zero_value`, `json_diff_paths` and
-- `json_is_subset` of crates/servarr-operator/src/controller.rs.
pub mod Laws
use servarr_operator.Prelude.{
  ℕ, suc, ◌+◌, String, Bool, true, false, ◌&&◌, Option, none, some, List, [], ◌∷◌, ◌++◌, ◌==◌, ◌⧺◌,
  is_blank, eqb, if◌then◌else◌, ◌≡◌, refl,
}
use servarr_operator.Prelude.Decimal.{show}
use servarr_operator.Crds.Types.Workload.{
  Value, null, bool, number, string, array, object, Members, no_members, member, Elements,
  no_elements, element, get_member,
}

-- The texts of the differences, by their path.
pub data Difference : Type 0 where
  missing_in_actual : String → Difference
  array_length : String → ℕ → ℕ → Difference
  value_differs : String → Value → Value → Difference

abbrev pub count_elements : Elements → ℕ
count_elements no_elements = 0
count_elements (element v vs) = suc (count_elements vs)

abbrev same_bool : Bool → Bool → Bool
same_bool true b = b
same_bool false true = false
same_bool false false = true

-- `{path}.{k}` and `{path}[{i}]`
abbrev member_path : String → String → String
member_path path k = if is_blank path then k else path ⧺ ("." ⧺ k)

abbrev element_path : String → ℕ → String
element_path path i = path ⧺ ("[" ⧺ (show i ⧺ "]"))

-- On the decimal texts of numbers: whether one is 0, and whether two are the same number.
module _ (is_zero_number : String → Bool) (same_number : String → String → Bool) where
  unfoldable pub is_zero_value : Value → Bool
  is_zero_value null = true
  is_zero_value (bool true) = false
  is_zero_value (bool false) = true
  is_zero_value (number n) = is_zero_number n
  is_zero_value (string s) = is_blank s
  is_zero_value (array vs) = false
  is_zero_value (object ms) = false

  -- `desired == actual` on two values that are neither both arrays nor both objects.
  unfoldable pub same_leaf : Value → Value → Bool
  same_leaf null null = true
  same_leaf (bool a) (bool b) = same_bool a b
  same_leaf (number a) (number b) = same_number a b
  same_leaf (string a) (string b) = a == b
  same_leaf _ _ = false

  abbrev pub leaf_difference : Value → Value → String → List Difference
  leaf_difference desired actual path =
      if same_leaf desired actual then [] else value_differs path desired actual ∷ []

  -- A key of the desired object that the actual one does not have.
  abbrev pub absent : Value → String → List Difference
  absent dv path = if is_zero_value dv then [] else missing_in_actual path ∷ []

  unfoldable mutual
    pub json_diff_paths : Value → Value → String → List Difference
    json_diff_paths (object d) (object a) path = diff_members d a path
    json_diff_paths (array d) (array a) path =
        let zipped = diff_elements d a path 0 in
        if eqb (count_elements d) (count_elements a)
        then zipped
        else array_length path (count_elements d) (count_elements a) ∷ []
    json_diff_paths desired actual path = leaf_difference desired actual path

    pub diff_members : Members → Members → String → List Difference
    diff_members no_members a path = []
    diff_members (member k dv ds) a path =
        elim (get_member k a) [
          | some av ↦ json_diff_paths dv av (member_path path k)
          | none ↦ absent dv (member_path path k)
        ]
        ++ diff_members ds a path

    pub diff_elements : Elements → Elements → String → ℕ → List Difference
    diff_elements no_elements a path i = []
    diff_elements (element dv ds) no_elements path i = []
    diff_elements (element dv ds) (element av rest) path i =
        json_diff_paths dv av (element_path path i) ++ diff_elements ds rest path (suc i)

  unfoldable mutual
    pub json_is_subset : Value → Value → Bool
    json_is_subset (object d) (object a) = subset_members d a
    json_is_subset (array d) (array a) =
        eqb (count_elements d) (count_elements a) && subset_elements d a
    json_is_subset desired actual = same_leaf desired actual

    pub subset_members : Members → Members → Bool
    subset_members no_members a = true
    subset_members (member k dv ds) a =
        elim (get_member k a) [ some av ↦ json_is_subset dv av | none ↦ is_zero_value dv ]
        && subset_members ds a

    pub subset_elements : Elements → Elements → Bool
    subset_elements no_elements a = true
    subset_elements (element dv ds) no_elements = true
    subset_elements (element dv ds) (element av rest) =
        json_is_subset dv av && subset_elements ds rest
