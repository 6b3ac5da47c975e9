-- ===== src/Mock.antt =====
-- core/src/k8s_mock.rs: the store that stands for the cluster when a package is tested. A value of the
-- script engine is a JSON value, its unit is `null`, and its maps hold each key once. The two lists
-- behind locks, of the objects there are and of those that were written, are the state; a call takes
-- its locks one after the other, and each of its steps ends before the next begins.
pub mod Merge
pub mod Named
pub mod RoundTrip
pub mod Apply
pub mod Instances
pub mod Persist
pub mod Workloads
mod Tests
use vynil.Prelude.{
  String, Bool, true, false, not, Option, none, some, List, [], ◌∷◌, ◌++◌, ◌&&◌, find, keep,
  is_some, ◌==◌, if◌then◌else◌,
}
use vynil.Prelude.Json.{
  Json, null, string, object, array, Items, nil, cons, Fields, end, field, lookup_field, put_field,
  as_string,
}
use vynil.Prelude.Json

unfoldable pub is_map : Json → Bool
is_map (object fields) = true
is_map value = false

abbrev pub or_unit : Option Json → Json
or_unit none = null
or_unit (some value) = value

-- `deep_merge_dynamic`: maps are merged key by key, and any other value of the patch wins; so does a
-- value under a key that is not there, as over a unit.
unfoldable mutual
  pub deep_merge_dynamic : Json → Json → Json
  deep_merge_dynamic (object base) (object patch) = object (merge_fields base patch)
  deep_merge_dynamic base patch = patch

  pub merge_fields : Fields → Fields → Fields
  merge_fields merged end = merged
  merge_fields merged (field key value patch) =
      merge_fields
        (put_field key (deep_merge_dynamic (or_unit (lookup_field key merged)) value) merged) patch

unfoldable pub map_or_none : Option Json → Option Json
map_or_none (some (object fields)) = some (object fields)
map_or_none value = none

unfoldable pub get_in : String → Option Json → Option Json
unfolding Json.get
get_in key none = none
get_in key (some value) = Json.get key value

-- The text under a key of the metadata, if that is a map.
unfoldable pub meta_text : String → Json → Option String
unfolding map_or_none get_in Json.get as_string
meta_text key value = as_string (get_in key (map_or_none (Json.get "metadata" value)))

unfoldable pub kind_of : Json → Option String
unfolding Json.get as_string
kind_of value = as_string (Json.get "kind" value)

unfoldable pub text_eq : Option String → Option String → Bool
text_eq none none = true
text_eq (some s) (some t) = s == t
text_eq a b = false

-- The entry that a write of the object goes to: of the kind, with the same name and namespace.
unfoldable pub is_target : String → Json → Json → Bool
unfolding is_map kind_of meta_text text_eq
is_target kind obj entry =
    is_map entry
    && text_eq (kind_of entry) (some kind)
    && text_eq (meta_text "name" entry) (meta_text "name" obj)
    && text_eq (meta_text "namespace" entry) (meta_text "namespace" obj)

unfoldable pub merge_entry : Json → Option Json → Json
unfolding deep_merge_dynamic
merge_entry obj none = obj
merge_entry obj (some entry) = deep_merge_dynamic entry obj

unfoldable pub merge_with_existing : List Json → String → Json → Json
unfolding merge_entry is_target find
merge_with_existing list kind obj =
    if not (is_map obj) then obj else merge_entry obj (find (is_target kind obj) list)

-- The loop of `upsert_in_list`.
unfoldable pub upsert_entry : List Json → String → Json → List Json
unfolding deep_merge_dynamic is_target
upsert_entry [] kind obj = obj ∷ []
upsert_entry (entry ∷ list) kind obj =
    let rest = upsert_entry list kind obj in
    if is_target kind obj entry then deep_merge_dynamic entry obj ∷ list else entry ∷ rest

unfoldable pub upsert_in_list : List Json → String → Json → List Json
unfolding upsert_entry
upsert_in_list list kind obj =
    if not (is_map obj) then list ++ obj ∷ [] else upsert_entry list kind obj

pub record Store : Type 0 where
  pub mocks : List Json
  pub created : List Json

-- `K8sGenericMock`, with the objects of its kind and namespace as they were when it was made.
pub record K8sGenericMock : Type 0 where
  pub kind : String
  pub ns : Option String
  pub my_mocks : List Json

unfoldable pub in_namespace : Option String → Json → Bool
in_namespace none m = true
in_namespace (some ns) m = text_eq (meta_text "namespace" m) (some ns)

unfoldable pub new : Store → String → Option String → K8sGenericMock
unfolding in_namespace text_eq kind_of
new store name ns = record {
  kind = name;
  ns = ns;
  my_mocks = keep (in_namespace ns) (keep (λ m. text_eq (kind_of m) (some name)) store.mocks);
}

unfoldable pub items_of : List Json → Items
items_of [] = nil
items_of (m ∷ l) = cons m (items_of l)

unfoldable pub rhai_list : K8sGenericMock → Json
unfolding items_of
rhai_list mock = object (field "items" (array (items_of mock.my_mocks)) end)

unfoldable pub find_by_name_in : List Json → String → Option Json
unfolding find text_eq meta_text
find_by_name_in items name = find (λ m. text_eq (meta_text "name" m) (some name)) items

unfoldable pub is_live : K8sGenericMock → String → Json → Bool
unfolding text_eq kind_of meta_text in_namespace
is_live mock name m =
    text_eq (kind_of m) (some mock.kind)
    && text_eq (meta_text "name" m) (some name)
    && in_namespace mock.ns m

unfoldable pub find_by_name_in_live : K8sGenericMock → Store → String → Option Json
unfolding is_live find
find_by_name_in_live mock store name = find (is_live mock name) store.mocks

unfoldable pub or_else : Option Json → Option Json → Option Json
or_else none second = second
or_else (some m) second = some m

-- `none` is the error that nothing was found.
unfoldable pub rhai_get : K8sGenericMock → Store → String → Option Json
unfolding or_else find_by_name_in find_by_name_in_live
rhai_get mock store name =
    or_else (find_by_name_in mock.my_mocks name) (find_by_name_in_live mock store name)

unfoldable pub with_meta_namespace : Option String → Fields → Option Json → Json
with_meta_namespace (some ns) fields (some (object meta)) =
    if is_some (lookup_field "namespace" meta)
    then object fields
    else object (put_field "metadata" (object (put_field "namespace" (string ns) meta)) fields)
with_meta_namespace ns fields meta = object fields

-- The namespace of the handle, for an object whose metadata have none.
unfoldable pub with_namespace : Option String → Json → Json
unfolding with_meta_namespace
with_namespace ns (object fields) = with_meta_namespace ns fields (lookup_field "metadata" fields)
with_namespace ns value = value

unfoldable pub with_kind : String → Json → Json
with_kind kind (object fields) =
    if is_some (lookup_field "kind" fields)
    then object fields
    else object (put_field "kind" (string kind) fields)
with_kind kind value = value

-- The two lists after a write of an object.
unfoldable pub write : K8sGenericMock → Store → Json → Store
unfolding upsert_in_list merge_with_existing
write mock store obj = record {
  mocks = upsert_in_list store.mocks mock.kind obj;
  created = upsert_in_list store.created mock.kind (merge_with_existing store.mocks mock.kind obj);
}

unfoldable pub rhai_apply : K8sGenericMock → Store → Json → Json × Store
unfolding with_namespace with_kind write
rhai_apply mock store given =
    let obj = with_kind mock.kind (with_namespace mock.ns given) in (obj, write mock store obj)

unfoldable pub rhai_replace : K8sGenericMock → Store → Json → Json × Store
unfolding with_kind write
rhai_replace mock store given = let obj = with_kind mock.kind given in (obj, write mock store obj)

unfoldable pub rhai_create : K8sGenericMock → Store → Json → Json × Store
unfolding with_kind write
rhai_create mock store given = let obj = with_kind mock.kind given in (obj, write mock store obj)

-- A patch is not written to the list of what was created.
unfoldable pub rhai_patch : K8sGenericMock → Store → Json → Json × Store
unfolding with_kind upsert_in_list
rhai_patch mock store given =
    let obj = with_kind mock.kind given in
    (obj, record store { mocks = upsert_in_list store.mocks mock.kind obj })

-- A deletion says that all went well.
unfoldable pub rhai_delete : K8sGenericMock → Store → String → Store
rhai_delete mock store name = store
