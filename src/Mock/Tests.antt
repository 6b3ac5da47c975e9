-- ===== src/Mock/Tests.antt =====
-- Runs of the store that stands for the cluster.
use vynil.Prelude.{List, find, some, [], ◌∷◌, ◌≡◌, refl}
use vynil.Prelude.Json
use vynil.Prelude.Json.{
  Json, array, nil, cons, object, string, number, Fields, end, field, put_field, has_unique_keys,
}
use vynil.Mock.{
  is_map, kind_of, meta_text, Store, K8sGenericMock, new, rhai_get, rhai_apply, merge_with_existing,
}
use vynil.Mock.Named.{IsNamed, HasKey, has_key}
use vynil.Mock.Instances.{K8sInstanceMock, set_tfstate, get_tfstate, find_instance_mock}
use vynil.Mock.Workloads.{find_workload_mock, list_instance_mocks}
use vynil.Mock.Persist.{has_status, set_tfstate-find_instance_mock}
use vynil.Mock.Apply.{rhai_apply-rhai_get, rhai_apply-other, rhai_apply-IsNamed}

abbrev some_meta : Fields
some_meta = field "name" (string "web") end

abbrev some_fields : Fields
some_fields = field "metadata" (object some_meta) (field "replicas" (number 3) end)

-- A store with one object, that a script of the same handle will change.
abbrev some_store : Store
some_store = record {
  mocks =
      object (
        field "kind" (string "Deployment") (
          field "metadata"
            (object (field "name" (string "web") (field "namespace" (string "team") end)))
            (field "image" (string "nginx") end)))
      ∷ [];
  created = [];
}

abbrev some_mock : K8sGenericMock
some_mock = record { kind = "Deployment"; ns = some "team"; my_mocks = [] }

applied-IsNamed :
    IsNamed (rhai_apply some_mock some_store (object some_fields)).0 "Deployment" "team" "web"
unfolding has_unique_keys
applied-IsNamed =
    rhai_apply-IsNamed some_mock some_store some_fields some_meta "team" "web" refl refl refl refl
      refl refl refl

rhai_apply-rhai_get_example :
    (let (obj, after) = rhai_apply some_mock some_store (object some_fields) in
      rhai_get (new after "Deployment" (some "team")) after "web"
      ≡ some (merge_with_existing some_store.mocks "Deployment" obj))
rhai_apply-rhai_get_example =
    rhai_apply-rhai_get some_mock some_store (object some_fields) "team" "web" applied-IsNamed

rhai_apply-other_example :
    (let after = (rhai_apply some_mock some_store (object some_fields)).1 in
      rhai_get (new after "Service" (some "team")) after "web"
      ≡ rhai_get (new some_store "Service" (some "team")) some_store "web")
rhai_apply-other_example =
    rhai_apply-other some_mock some_store (object some_fields) "team" "web" applied-IsNamed
      "Service" "team" "web" refl

merged :
    rhai_get
      (new (rhai_apply some_mock some_store (object some_fields)).1 "Deployment" (some "team"))
      (rhai_apply some_mock some_store (object some_fields)).1
      "web"
    ≡ some (
        object (
          field "kind" (string "Deployment") (
            field "metadata"
              (object (field "name" (string "web") (field "namespace" (string "team") end)))
              (field "image" (string "nginx") (field "replicas" (number 3) end)))))
unfolding rhai_get new rhai_apply put_field
merged = refl

abbrev some_instance : K8sInstanceMock
some_instance = record {
  obj = object (
      field "kind" (string "TenantInstance") (
        field "metadata"
          (object (field "name" (string "site") (field "namespace" (string "team") end))) end));
}

-- The object of the store test, and the instance as it was before.
abbrev some_mocks : List Json
some_mocks = object some_fields ∷ some_instance.obj ∷ []

some_instance-HasKey : HasKey some_instance.obj "TenantInstance" "team" "site"
unfolding is_map kind_of meta_text
some_instance-HasKey = record {
  is_there = refl;
  kind_is = refl;
  name_is = refl;
  namespace_is = refl;
}

set_tfstate-find_instance_mock_example :
    (find_instance_mock (set_tfstate some_instance some_mocks "{}").1 "TenantInstance" "team" "site"
      ≡ some (set_tfstate some_instance some_mocks "{}").0)
    × (get_tfstate (set_tfstate some_instance some_mocks "{}").0 ≡ "{}")
unfolding has_status Json.get find has_key
set_tfstate-find_instance_mock_example =
    set_tfstate-find_instance_mock some_instance some_mocks "TenantInstance" "team" "site" "{}"
      some_instance.obj some_instance-HasKey refl refl

workload_found :
    find_workload_mock some_store.mocks "Deployment" "team" "web"
    ≡ some (record {
      obj = object (
          field "kind" (string "Deployment") (
            field "metadata"
              (object (field "name" (string "web") (field "namespace" (string "team") end)))
              (field "image" (string "nginx") end)));
    })
unfolding find_workload_mock
workload_found = refl

instances_listed :
    list_instance_mocks some_mocks "TenantInstance" "team"
    ≡ object (field "items" (array (cons (object (field "obj" some_instance.obj end)) nil)) end)
unfolding list_instance_mocks
instances_listed = refl
