-- ===== src/Mock/Named.antt =====
-- Objects with a kind, a name and a namespace, and which entries a write of one goes to
-- (core/src/k8s_mock.rs, `upsert_in_list`).
use vynil.Prelude.{
  String, Bool, true, false, Option, none, some, List, [], ◌∷◌, ◌≡◌, refl, subst, ap, ◌&&◌, ◌==◌,
  eq_iff, eq_refl, find, arith, inl, inr, Bool-cases,
}
use vynil.Prelude.Json
use vynil.Prelude.Json.{
  Json, object, array, string, number, bool, null, Fields, lookup_field, has_unique_keys, as_string,
}
use vynil.Mock.{
  is_map, deep_merge_dynamic, merge_fields, map_or_none, get_in, meta_text, kind_of, text_eq,
  is_target, merge_entry, upsert_entry,
}
use vynil.Mock.Merge.{lookup_field-merge_fields}

pub record IsNamed (obj : Json) (kind ns name : String) : Type 0 where
  pub fields : Fields
  pub meta : Fields
  pub is_object : obj ≡ object fields
  pub unique : has_unique_keys fields ≡ true
  pub has_kind : lookup_field "kind" fields ≡ some (string kind)
  pub has_meta : lookup_field "metadata" fields ≡ some (object meta)
  pub meta_unique : has_unique_keys meta ≡ true
  pub has_name : lookup_field "name" meta ≡ some (string name)
  pub has_namespace : lookup_field "namespace" meta ≡ some (string ns)

-- What a write looks at.
pub record HasKey (m : Json) (kind ns name : String) : Type 0 where
  pub is_there : is_map m ≡ true
  pub kind_is : kind_of m ≡ some kind
  pub name_is : meta_text "name" m ≡ some name
  pub namespace_is : meta_text "namespace" m ≡ some ns

merge-string : (base : Json) (s : String) → deep_merge_dynamic base (string s) ≡ string s
unfolding deep_merge_dynamic
merge-string null s = refl
merge-string (bool b) s = refl
merge-string (number n) s = refl
merge-string (string t) s = refl
merge-string (array items) s = refl
merge-string (object fields) s = refl

-- A text under a key of a patch is under the key of what it is merged to.
merge-meta :
    (key s : String) (base : Json) (meta : Fields)
    → has_unique_keys meta ≡ true
    → lookup_field key meta ≡ some (string s)
    → as_string (get_in key (map_or_none (some (deep_merge_dynamic base (object meta))))) ≡ some s
unfolding deep_merge_dynamic map_or_none get_in Json.get as_string
merge-meta key s null meta unique there = rw there refl
merge-meta key s (bool b) meta unique there = rw there refl
merge-meta key s (number n) meta unique there = rw there refl
merge-meta key s (string t) meta unique there = rw there refl
merge-meta key s (array items) meta unique there = rw there refl
merge-meta key s (object base) meta unique there =
    rw (lookup_field-merge_fields key base meta unique, there, merge-string) refl

-- The test of a key: what both the loops and the searches come to.
unfoldable pub has_key : String → String → String → Json → Bool
unfolding text_eq kind_of meta_text
has_key kind ns name m =
    text_eq (kind_of m) (some kind)
    && text_eq (meta_text "name" m) (some name)
    && text_eq (meta_text "namespace" m) (some ns)

pub text_eq-some : (o : Option String) (s : String) → text_eq o (some s) ≡ true → o ≡ some s
unfolding text_eq
text_eq-some none s h = cc
text_eq-some (some t) s h = ap some ((eq_iff t s).0 h)

pub HasKey-has_key :
    (m : Json) (kind ns name : String) → HasKey m kind ns name → has_key kind ns name m ≡ true
unfolding has_key text_eq
HasKey-has_key m kind ns name key =
    rw (key.kind_is, key.name_is, key.namespace_is, eq_refl kind, eq_refl name, eq_refl ns) refl

-- A value that has one key has no other.
pub has_key-differs :
    (m : Json) (kind ns name kind' ns' name' : String)
    → has_key kind ns name m ≡ true
    → (kind == kind' && ns == ns' && name == name') ≡ false
    → has_key kind' ns' name' m ≡ false
unfolding has_key text_eq
has_key-differs m kind ns name kind' ns' name' key differ =
    let kind_is = text_eq-some (kind_of m) kind (ground (arith, key)) in
    let name_is = text_eq-some (meta_text "name" m) name (ground (arith, key)) in
    let namespace_is = text_eq-some (meta_text "namespace" m) ns (ground (arith, key)) in
    rw (kind_is, name_is, namespace_is) (ground (arith, differ))

-- A value with a kind is a map.
map_of_kind :
    (kind : String) (m : Json)
    → (is_map m && text_eq (kind_of m) (some kind)) ≡ text_eq (kind_of m) (some kind)
unfolding is_map kind_of Json.get as_string text_eq
map_of_kind kind null = refl
map_of_kind kind (bool b) = refl
map_of_kind kind (number n) = refl
map_of_kind kind (string t) = refl
map_of_kind kind (array items) = refl
map_of_kind kind (object fields) = refl

module _ (obj : Json) (kind ns name : String) (named : IsNamed obj kind ns name) where
  pub obj-HasKey : HasKey obj kind ns name
  unfolding is_map kind_of meta_text map_or_none get_in Json.get as_string
  obj-HasKey = record {
    is_there = rw named.is_object refl;
    kind_is = rw (named.is_object, named.has_kind) refl;
    name_is = rw (named.is_object, named.has_meta, named.has_name) refl;
    namespace_is = rw (named.is_object, named.has_meta, named.has_namespace) refl;
  }

  fields_merged : (base : Fields) → HasKey (object (merge_fields base named.fields)) kind ns name
  unfolding is_map kind_of meta_text Json.get
  fields_merged base = record {
    is_there = refl;
    kind_is =
        rw
          (
            lookup_field-merge_fields "kind" base named.fields named.unique,
            named.has_kind,
            merge-string,
          )
          refl;
    name_is =
        rw (lookup_field-merge_fields "metadata" base named.fields named.unique, named.has_meta)
          (merge-meta "name" name _ named.meta named.meta_unique named.has_name);
    namespace_is =
        rw (lookup_field-merge_fields "metadata" base named.fields named.unique, named.has_meta)
          (merge-meta "namespace" ns _ named.meta named.meta_unique named.has_namespace);
  }

  fields-HasKey :
      (base : Json) → HasKey (deep_merge_dynamic base (object named.fields)) kind ns name
  unfolding deep_merge_dynamic
  fields-HasKey null = subst (λ m. HasKey m kind ns name) named.is_object obj-HasKey
  fields-HasKey (bool b) = subst (λ m. HasKey m kind ns name) named.is_object obj-HasKey
  fields-HasKey (number n) = subst (λ m. HasKey m kind ns name) named.is_object obj-HasKey
  fields-HasKey (string t) = subst (λ m. HasKey m kind ns name) named.is_object obj-HasKey
  fields-HasKey (array items) = subst (λ m. HasKey m kind ns name) named.is_object obj-HasKey
  fields-HasKey (object base) = fields_merged base

  -- An entry keeps the key of what is merged into it.
  pub merged-HasKey : (base : Json) → HasKey (deep_merge_dynamic base obj) kind ns name
  merged-HasKey base = rw named.is_object (fields-HasKey base)

  pub is_target-has_key : (m : Json) → is_target kind obj m ≡ has_key kind ns name m
  unfolding is_target has_key
  is_target-has_key m =
      let key = obj-HasKey in
      rw (key.name_is, key.namespace_is) (ground (arith, map_of_kind kind m))

  pub obj-is_map : is_map obj ≡ true
  obj-is_map = obj-HasKey.is_there

  -- A search for the key after a write finds what the write has left.
  pub find-upsert_entry :
      (list : List Json)
      → find (has_key kind ns name) (upsert_entry list kind obj)
        ≡ some (merge_entry obj (find (has_key kind ns name) list))
  unfolding upsert_entry merge_entry find
  find-upsert_entry [] = rw (HasKey-has_key obj kind ns name obj-HasKey) refl
  find-upsert_entry (entry ∷ list) = elim (Bool-cases (has_key kind ns name entry)) [
    | inl target ↦
        rw
          (
            is_target-has_key,
            target,
            HasKey-has_key (deep_merge_dynamic entry obj) kind ns name (merged-HasKey entry),
          )
          refl
    | inr other ↦ rw (is_target-has_key, other, other, find-upsert_entry list) refl
  ]

  -- A search for another key finds what it found before.
  module _ (kind' ns' name' : String)
      (differ : (kind == kind' && ns == ns' && name == name') ≡ false) where
    pub find-upsert_entry_other :
        (list : List Json)
        → find (has_key kind' ns' name') (upsert_entry list kind obj)
          ≡ find (has_key kind' ns' name') list
    unfolding upsert_entry find
    find-upsert_entry_other [] =
        rw
          (has_key-differs obj kind ns name kind' ns' name'
            (HasKey-has_key obj kind ns name obj-HasKey) differ)
          refl
    find-upsert_entry_other (entry ∷ list) = elim (Bool-cases (has_key kind ns name entry)) [
      | inl target ↦
          let key = HasKey-has_key _ kind ns name (merged-HasKey entry) in
          rw
            (
              is_target-has_key,
              target,
              has_key-differs _ kind ns name kind' ns' name' key differ,
              has_key-differs entry kind ns name kind' ns' name' target differ,
            )
            refl
      | inr other ↦ rw (is_target-has_key, other, find-upsert_entry_other list) refl
    ]
