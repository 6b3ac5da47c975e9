-- ===== src/Testing/Subset.antt =====
-- When the differences of a value are none (agent/src/testing/vyniltest.rs).
use vynil.Prelude.{
  ℕ, suc, String, Bool, false, Option, none, some, List, ◌≡◌, refl, is_empty, is_empty-append, inl,
  inr, Bool-cases,
}
use vynil.Prelude.Json.{
  Json, null, bool, number, string, array, object, Items, nil, cons, Fields, end, field,
  lookup_field,
}
use vynil.Testing.{
  scalar_eq, any_item, when_some, json_subset_match, match_fields, match_items, unmatched, missing,
  scalar_diff, or_missing, field_path, json_subset_diff, diff_fields,
}

module _ (print_json : Json → String) where
  is_empty-or_missing :
      (absent : List String) (diff : Json → List String) (test : Json → Bool)
      → is_empty absent ≡ false
      → ((a : Json) → is_empty (diff a) ≡ test a)
      → (o : Option Json) → is_empty (or_missing print_json absent diff o) ≡ when_some test o
  unfolding or_missing when_some
  is_empty-or_missing absent diff test lost same none = lost
  is_empty-or_missing absent diff test lost same (some a) = same a

  is_empty-scalar_diff :
      (path : String) (exp act : Json)
      → is_empty (scalar_diff print_json path exp act) ≡ scalar_eq exp act
  unfolding scalar_diff
  is_empty-scalar_diff path exp act = elim (Bool-cases (scalar_eq exp act)) [
    | inl same ↦ rw same refl
    | inr other ↦ rw other refl
  ]

  is_empty-unmatched :
      (path : String) (i : ℕ) (exp act : Items)
      → is_empty (unmatched print_json path i exp act) ≡ match_items exp act
  unfolding unmatched match_items
  is_empty-unmatched path i nil act = refl
  is_empty-unmatched path i (cons e exp) act =
      elim (Bool-cases (any_item (λ a. json_subset_match e a) act)) [
        | inl there ↦ rw there (is_empty-unmatched path (suc i) exp act)
        | inr lost ↦ rw lost refl
      ]

  mutual
    unfolding json_subset_diff json_subset_match missing

    is_empty-json_subset_diff :
        (exp act : Json) (path : String)
        → is_empty (json_subset_diff print_json exp act path) ≡ json_subset_match exp act
    is_empty-json_subset_diff null act path = is_empty-scalar_diff path null act
    is_empty-json_subset_diff (bool b) act path = is_empty-scalar_diff path (bool b) act
    is_empty-json_subset_diff (number n) act path = is_empty-scalar_diff path (number n) act
    is_empty-json_subset_diff (string s) act path = is_empty-scalar_diff path (string s) act
    is_empty-json_subset_diff (array exp) (array act) path = is_empty-unmatched path 0 exp act
    is_empty-json_subset_diff (array exp) null path = refl
    is_empty-json_subset_diff (array exp) (bool b) path = refl
    is_empty-json_subset_diff (array exp) (number n) path = refl
    is_empty-json_subset_diff (array exp) (string s) path = refl
    is_empty-json_subset_diff (array exp) (object act) path = refl
    is_empty-json_subset_diff (object exp) (object act) path = is_empty-diff_fields exp act path
    is_empty-json_subset_diff (object exp) null path = refl
    is_empty-json_subset_diff (object exp) (bool b) path = refl
    is_empty-json_subset_diff (object exp) (number n) path = refl
    is_empty-json_subset_diff (object exp) (string s) path = refl
    is_empty-json_subset_diff (object exp) (array act) path = refl

    is_empty-diff_fields :
        (exp act : Fields) (path : String)
        → is_empty (diff_fields print_json exp act path) ≡ match_fields exp act
    is_empty-diff_fields end act path = refl
    is_empty-diff_fields (field k v exp) act path =
        let at = field_path print_json path k in
        rw
          (
            is_empty-append,
            is_empty-or_missing (missing print_json at v) (λ a. json_subset_diff print_json v a at)
                (λ a. json_subset_match v a) refl (λ a. is_empty-json_subset_diff v a at)
                (lookup_field k act),
            is_empty-diff_fields exp act path,
          )
          refl

  -- For any two values and any path, there are no differences to report exactly if the actual value
  -- has the expected one as a subset.
  pub json_subset_diff-json_subset_match :
      (exp act : Json) (path : String)
      → is_empty (json_subset_diff print_json exp act path) ≡ json_subset_match exp act
  json_subset_diff-json_subset_match = is_empty-json_subset_diff
