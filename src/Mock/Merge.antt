-- ===== src/Mock/Merge.antt =====
-- What a merged object holds (core/src/k8s_mock.rs, `deep_merge_dynamic`).
use vynil.Prelude.{
  String, true, not, Option, none, some, ◌≡◌, refl, ◌==◌, eq_iff, eq_refl, sym, is_some, arith, inl,
  inr, Bool-cases,
}
use vynil.Prelude.Json.{
  Json, Fields, end, field, lookup_field, put_field, has_unique_keys, lookup_field-put_field,
}
use vynil.Mock.{deep_merge_dynamic, merge_fields, or_unit}

-- The value under a key of a merged map, of the two values there were.
abbrev pub merged_at : Option Json → Option Json → Option Json
merged_at base none = base
merged_at base (some value) = some (deep_merge_dynamic (or_unit base) value)

none_of : (o : Option Json) → not (is_some o) ≡ true → o ≡ none
none_of none h = refl
none_of (some value) h = cc

pub lookup_field-merge_fields :
    (key : String) (base patch : Fields)
    → has_unique_keys patch ≡ true
    → lookup_field key (merge_fields base patch)
      ≡ merged_at (lookup_field key base) (lookup_field key patch)
unfolding deep_merge_dynamic has_unique_keys lookup_field
lookup_field-merge_fields key base end unique = refl
lookup_field-merge_fields key base (field name value patch) unique =
    let here = deep_merge_dynamic (or_unit (lookup_field name base)) value in
    let later =
      lookup_field-merge_fields key (put_field name here base) patch (ground (arith, unique)) in
    elim (Bool-cases (name == key)) [
      | inl same ↦
          let e = (eq_iff name key).0 same in
          let gone : lookup_field name patch ≡ none =
            none_of (lookup_field name patch) (ground (arith, unique)) in
          rw (later, lookup_field-put_field, sym e, eq_refl, gone) refl
      | inr other ↦ rw (later, lookup_field-put_field, other) refl
    ]
