-- ===== src/Testing.antt =====
-- agent/src/testing/vyniltest.rs and vyniltestset.rs: what an assertion of a package test compares.
-- How a JSON value is printed, by the crate `serde_json`, is a parameter.
pub mod Subset
mod Tests
use vynil.Prelude.{
  ℕ, suc, String, Bool, true, false, not, Option, none, some, List, [], ◌∷◌, ◌++◌, ◌&&◌, ◌||◌,
  nat_eq, ltb, leb, length, keep, map, is_empty, ◌==◌, if◌then◌else◌,
}
use vynil.Prelude.Decimal.{show}
use vynil.Prelude.Json.{
  Json, null, bool, number, string, array, object, Items, nil, cons, Fields, end, field,
  lookup_field,
}
use vynil.Prelude.Text.{concat}
use vynil.Mock.{is_map, kind_of, meta_text, text_eq}

bool_eq : Bool → Bool → Bool
bool_eq true b = b
bool_eq false b = not b

-- Equality of two values that are not both arrays or both objects.
unfoldable pub scalar_eq : Json → Json → Bool
unfolding bool_eq
scalar_eq null null = true
scalar_eq (bool a) (bool b) = bool_eq a b
scalar_eq (number a) (number b) = nat_eq a b
scalar_eq (string a) (string b) = a == b
scalar_eq a b = false

unfoldable pub any_item : (Json → Bool) → Items → Bool
any_item test nil = false
any_item test (cons a items) = test a || any_item test items

unfoldable pub when_some : (Json → Bool) → Option Json → Bool
when_some test none = false
when_some test (some a) = test a

unfoldable mutual
  pub json_subset_match : Json → Json → Bool
  json_subset_match (object exp) (object act) = match_fields exp act
  json_subset_match (array exp) (array act) = match_items exp act
  json_subset_match exp act = scalar_eq exp act

  pub match_fields : Fields → Fields → Bool
  match_fields end act = true
  match_fields (field k v exp) act =
      when_some (λ a. json_subset_match v a) (lookup_field k act) && match_fields exp act

  pub match_items : Items → Items → Bool
  match_items nil act = true
  match_items (cons e exp) act = any_item (λ a. json_subset_match e a) act && match_items exp act

module _ (print_json : Json → String) where
  unfoldable pub field_path : String → String → String
  unfolding concat
  field_path path k = concat ((if path == "" then "" else path) ∷ "." ∷ k ∷ [])

  -- Elements without a match, with their places.
  unfoldable pub unmatched : String → ℕ → Items → Items → List String
  unfolding any_item json_subset_match concat show
  unmatched path i nil act = []
  unmatched path i (cons e exp) act =
      let rest = unmatched path (suc i) exp act in
      if any_item (λ a. json_subset_match e a) act
      then rest
      else concat (path ∷ "[" ∷ show i ∷ "]: no match found for " ∷ print_json e ∷ []) ∷ rest

  unfoldable pub missing : String → Json → List String
  unfolding concat
  missing path v = concat (path ∷ ": expected " ∷ print_json v ∷ ", got <missing>" ∷ []) ∷ []

  unfoldable pub scalar_diff : String → Json → Json → List String
  unfolding scalar_eq concat
  scalar_diff path exp act =
      if scalar_eq exp act
      then []
      else concat (path ∷ ": expected " ∷ print_json exp ∷ ", got " ∷ print_json act ∷ []) ∷ []

  unfoldable pub or_missing : List String → (Json → List String) → Option Json → List String
  or_missing absent diff none = absent
  or_missing absent diff (some a) = diff a

  unfoldable mutual
    unfolding unmatched missing scalar_diff or_missing field_path

    pub json_subset_diff : Json → Json → String → List String
    json_subset_diff (object exp) (object act) path = diff_fields exp act path
    json_subset_diff (array exp) (array act) path = unmatched path 0 exp act
    json_subset_diff exp act path = scalar_diff path exp act

    pub diff_fields : Fields → Fields → String → List String
    diff_fields end act path = []
    diff_fields (field k v exp) act path =
        or_missing (missing (field_path path k) v) (λ a. json_subset_diff v a (field_path path k))
          (lookup_field k act)
        ++ diff_fields exp act path

pub record VynilAssertSelector : Type 0 where
  pub kind : Option String
  pub name : Option String
  pub namespace : Option String

pub data VynilAssertMatch : Type 0 where
  exact at_least at_most : (count : ℕ) → VynilAssertMatch
  all_match any_match none_match : VynilAssertMatch

asked_for : Option String → Option String → Bool
asked_for none actual = true
asked_for (some s) actual = text_eq actual (some s)

-- An object whose metadata are no map matches a selector without a name and a namespace only.
unfoldable pub matches_selector : Json → VynilAssertSelector → Bool
unfolding asked_for is_map kind_of meta_text
matches_selector d selector =
    is_map d
    && asked_for selector.kind (kind_of d)
    && asked_for selector.name (meta_text "name" d)
    && asked_for selector.namespace (meta_text "namespace" d)

-- An assertion with a value, by the number of selected objects and of those that match.
unfoldable pub passes_value : VynilAssertMatch → ℕ → ℕ → Bool
passes_value all_match matching total = nat_eq matching total
passes_value any_match matching total = ltb 0 matching
passes_value (exact n) matching total = nat_eq matching n && nat_eq total n
passes_value (at_least n) matching total = leb n matching
passes_value (at_most n) matching total = leb matching n
passes_value none_match matching total = nat_eq matching 0

unfoldable pub passes_total : VynilAssertMatch → ℕ → Bool
passes_total all_match total = ltb 0 total
passes_total any_match total = ltb 0 total
passes_total (exact n) total = nat_eq total n
passes_total (at_least n) total = leb n total
passes_total (at_most n) total = leb total n
passes_total none_match total = nat_eq total 0

unfoldable pub may_select_nothing : VynilAssertMatch → Bool
may_select_nothing (at_most n) = true
may_select_nothing none_match = true
may_select_nothing matcher = false

pub record VynilAssert : Type 0 where
  pub name : String
  pub selector : VynilAssertSelector
  pub matcher : VynilAssertMatch
  pub value : Option Json

passes_selected : VynilAssertMatch → Option Json → List Json → Bool
unfolding passes_total passes_value json_subset_match
passes_selected matcher none selected = passes_total matcher (length selected)
passes_selected matcher (some value) selected =
    passes_value matcher (length (keep (λ d. json_subset_match value d) selected)) (length selected)

-- Whether an assertion passes on the objects that the package generates; its message is left.
unfoldable pub passed : VynilAssert → List Json → Bool
unfolding matches_selector may_select_nothing passes_selected
passed a generated =
    let selected = keep (λ d. matches_selector d a.selector) generated in
    if is_empty selected && not (may_select_nothing a.matcher)
    then false
    else passes_selected a.matcher a.value selected

-- The verdicts of `run_asserts`, by the names of the assertions.
unfoldable pub run_asserts : Option (List VynilAssert) → List Json → List (String × Bool)
unfolding passed
run_asserts none generated = []
run_asserts (some asserts) generated = map (λ a. (a.name, passed a generated)) asserts
