-- ===== src/Mock/Apply.antt =====
-- What `rhai_apply` fills in, and what is read after it (core/src/k8s_mock.rs).
use vynil.Prelude.{String, true, false, none, some, ◌≡◌, refl, ◌&&◌, ◌==◌}
use vynil.Prelude.Json.{
  Json, object, string, Fields, lookup_field, put_field, has_unique_keys, lookup_field-put_field,
  has_unique_keys-put_field,
}
use vynil.Mock.{
  merge_with_existing, Store, K8sGenericMock, new, rhai_get, with_namespace, with_kind, rhai_apply,
}
use vynil.Mock.Named.{IsNamed}
use vynil.Mock.RoundTrip.{rhai_get-write, rhai_get-write_other}

module _ (mock : K8sGenericMock) (store : Store) (given : Json) (ns name : String)
    (named : IsNamed (rhai_apply mock store given).0 mock.kind ns name) where
  -- If the applied object has the kind of the handle, a name and a namespace, and keys that are
  -- unique, then a handle made for them afterwards reads under the name the object merged into the
  -- one that the store had, or the object itself where it had none.
  pub rhai_apply-rhai_get :
      (let (obj, after) = rhai_apply mock store given in
        rhai_get (new after mock.kind (some ns)) after name
        ≡ some (merge_with_existing store.mocks mock.kind obj))
  unfolding rhai_apply
  rhai_apply-rhai_get = rhai_get-write mock store _ ns name named

  -- If the applied object has the kind of the handle, a name and a namespace, and keys that are
  -- unique, then for every other kind, namespace or name a handle made afterwards reads what one
  -- made before would.
  pub rhai_apply-other :
      (kind' ns' name' : String)
      → (mock.kind == kind' && ns == ns' && name == name') ≡ false
      → (let after = (rhai_apply mock store given).1 in
          rhai_get (new after kind' (some ns')) after name'
          ≡ rhai_get (new store kind' (some ns')) store name')
  unfolding rhai_apply
  rhai_apply-other kind' ns' name' differ =
      rhai_get-write_other mock store _ ns name named kind' ns' name' differ

module _ (mock : K8sGenericMock) (store : Store) (fields meta : Fields) (ns name : String) where
  -- If an object has metadata with a name and no namespace, no kind, and unique keys, and the handle
  -- has a namespace, then what is applied has the kind and the namespace of the handle and the name.
  pub rhai_apply-IsNamed :
      mock.ns ≡ some ns
      → has_unique_keys fields ≡ true
      → has_unique_keys meta ≡ true
      → lookup_field "kind" fields ≡ none
      → lookup_field "metadata" fields ≡ some (object meta)
      → lookup_field "namespace" meta ≡ none
      → lookup_field "name" meta ≡ some (string name)
      → IsNamed (rhai_apply mock store (object fields)).0 mock.kind ns name
  unfolding rhai_apply with_namespace with_kind
  rhai_apply-IsNamed here unique meta_unique no_kind has_meta no_namespace has_name = record {
    fields = put_field "kind" (string mock.kind) filled;
    meta = placed;
    is_object = rw (here, has_meta, no_namespace, lookup_field-put_field, no_kind) refl;
    unique =
        has_unique_keys-put_field "kind" _ filled
          (has_unique_keys-put_field "metadata" _ fields unique);
    has_kind = rw lookup_field-put_field refl;
    has_meta = rw (lookup_field-put_field, lookup_field-put_field) refl;
    meta_unique = has_unique_keys-put_field "namespace" _ meta meta_unique;
    has_name = rw (lookup_field-put_field, has_name) refl;
    has_namespace = rw lookup_field-put_field refl;
  }
    where
      placed : Fields
      placed = put_field "namespace" (string ns) meta

      filled : Fields
      filled = put_field "metadata" (object placed) fields
