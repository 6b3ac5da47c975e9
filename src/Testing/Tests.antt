-- ===== src/Testing/Tests.antt =====
-- Runs of the assertions of package tests.
use vynil.Prelude.{String, true, false, Option, none, some, List, [], ◌∷◌, ◌≡◌, refl, is_empty}
use vynil.Prelude.Json.{Json, number, string, array, object, nil, cons, end, field, lookup_field}
use vynil.Mock.{text_eq}
use vynil.Testing.{
  when_some, scalar_eq, json_subset_match, json_subset_diff, VynilAssertSelector, VynilAssert,
  VynilAssertMatch, exact, at_least, none_match, passed, run_asserts,
}
use vynil.Testing.Subset.{json_subset_diff-json_subset_match}

-- Printing that tells texts apart only, as far as the runs need it.
abbrev some_print : Json → String
some_print (string s) = s
some_print value = "value"

abbrev expected_value : Json
expected_value = object (
    field "kind" (string "Pod")
      (field "ports" (array (cons (number 80) nil)) (field "node" (string "a") end)))

abbrev actual_value : Json
actual_value = object (
    field "ports" (array (cons (number 443) (cons (number 80) nil)))
      (field "kind" (string "Job") (field "name" (string "web") end)))

json_subset_diff-json_subset_match_example :
    is_empty (json_subset_diff some_print expected_value actual_value "")
    ≡ json_subset_match expected_value actual_value
json_subset_diff-json_subset_match_example =
    json_subset_diff-json_subset_match some_print expected_value actual_value ""

differences :
    json_subset_diff some_print expected_value actual_value ""
    ≡ ".kind: expected Pod, got Job" ∷ ".node: expected a, got <missing>" ∷ []
unfolding json_subset_diff lookup_field
differences = refl

abbrev any_job : VynilAssertSelector
any_job = record { kind = some "Job"; name = none; namespace = none }

abbrev asserted : VynilAssertMatch → Option Json → VynilAssert
asserted matcher value = record {
  name = "jobs";
  selector = any_job;
  matcher = matcher;
  value = value;
}

-- Two objects are selected, and one of them has the value.
abbrev two_jobs : List Json
two_jobs = actual_value ∷ object (field "kind" (string "Job") end) ∷ []

abbrev named_web : Json
named_web = object (field "name" (string "web") end)

-- One object that matches is not exactly one, if another is selected.
one_of_two :
    (passed (asserted (exact 1) (some named_web)) two_jobs ≡ false)
    × (passed (asserted (at_least 1) (some named_web)) two_jobs ≡ true)
unfolding passed text_eq when_some scalar_eq
one_of_two = (refl, refl)

-- At least none is refused where nothing is selected.
run_without_objects : run_asserts (some (asserted (at_least 0) none ∷ [])) [] ≡ ("jobs", false) ∷ []
unfolding run_asserts
run_without_objects = refl

pass_without_objects : passed (asserted none_match none) [] ≡ true
unfolding passed
pass_without_objects = refl
