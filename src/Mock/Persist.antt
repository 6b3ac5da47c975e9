-- ===== src/Mock/Persist.antt =====
-- What is read of an instance after its status was written (common/src/k8smock.rs).
use vynil.Prelude.{
  String, Bool, true, Option, none, some, List, [], ◌∷◌, ◌≡◌, refl, ap, find, eq_refl, inl, inr,
  Bool-cases,
}
use vynil.Prelude.Json
use vynil.Prelude.Json.{
  Json, null, bool, number, array, object, string, Fields, end, field, lookup_field, put_field,
  lookup_field-put_field, as_string,
}
use vynil.Mock.{kind_of, meta_text, is_map}
use vynil.Mock.Named.{has_key, HasKey, HasKey-has_key}
use vynil.Mock.Instances.{
  K8sInstanceMock, get_sub, put_in_status, with_status_field, replace_entry, persist, set_tfstate,
  get_tfstate, find_instance_mock,
}

find-replace_entry :
    (same : Json → Bool) (obj found : Json) (mocks : List Json)
    → same obj ≡ true
    → find same mocks ≡ some found
    → find same (replace_entry same obj mocks) ≡ some obj
unfolding find replace_entry
find-replace_entry same obj found [] own there = cc
find-replace_entry same obj found (entry ∷ mocks) own there = elim (Bool-cases (same entry)) [
  | inl here ↦ rw (here, own) refl
  | inr other ↦ rw (other, other) (find-replace_entry same obj found mocks own (rw other at there))
]

-- A field of the status leaves the key.
HasKey-with_status_field :
    (obj val : Json) (key kind ns name : String)
    → HasKey obj kind ns name
    → HasKey (with_status_field key val obj) kind ns name
unfolding with_status_field is_map kind_of meta_text Json.get
HasKey-with_status_field null val key kind ns name k = k
HasKey-with_status_field (bool b) val key kind ns name k = k
HasKey-with_status_field (number n) val key kind ns name k = k
HasKey-with_status_field (string s) val key kind ns name k = k
HasKey-with_status_field (array l) val key kind ns name k = k
HasKey-with_status_field (object top) val key kind ns name k = record {
  is_there = refl;
  kind_is = rw lookup_field-put_field k.kind_is;
  name_is = rw lookup_field-put_field k.name_is;
  namespace_is = rw lookup_field-put_field k.namespace_is;
}

persist-HasKey :
    (obj : Json) (kind ns name : String) (mocks : List Json)
    → HasKey obj kind ns name
    → persist obj mocks ≡ replace_entry (has_key kind ns name) obj mocks
unfolding persist
persist-HasKey obj kind ns name mocks k = rw (k.kind_is, k.name_is, k.namespace_is) refl

-- A status that can hold a field: none yet, or a map.
unfoldable pub has_status : Json → Bool
has_status obj = elim (Json.get "status" obj) [ none ↦ true | some status ↦ is_map status ]

status_of_put :
    (key : String) (val : Json) (status : Option Json)
    → (elim status [ none ↦ true | some st ↦ is_map st ]) ≡ true
    → Json.get key (put_in_status key val status) ≡ some val
unfolding put_in_status is_map Json.get
status_of_put key val none h = rw eq_refl refl
status_of_put key val (some null) h = cc
status_of_put key val (some (bool b)) h = cc
status_of_put key val (some (number n)) h = cc
status_of_put key val (some (string s)) h = cc
status_of_put key val (some (array l)) h = cc
status_of_put key val (some (object fields)) h = rw (lookup_field-put_field, eq_refl) refl

written :
    (obj : Json) (s : String)
    → is_map obj ≡ true
    → has_status obj ≡ true
    → get_tfstate (record { obj = with_status_field "tfstate" (string s) obj }) ≡ s
unfolding is_map has_status with_status_field get_tfstate get_sub Json.get as_string
written null s there holds = cc
written (bool b) s there holds = cc
written (number n) s there holds = cc
written (string t) s there holds = cc
written (array l) s there holds = cc
written (object top) s there holds = rw lookup_field-put_field (
    ap (λ o. elim (as_string o) [ none ↦ "" | some t ↦ t ])
      (status_of_put "tfstate" (string s) (lookup_field "status" top) holds))

module _ (inst : K8sInstanceMock) (mocks : List Json) (kind ns name : String) where
  -- For an instance with a kind, a name and a namespace, whose status is a map or missing, and of
  -- which the store has an entry: after `set_tfstate` the store answers for its key the very handle
  -- that was returned, and reading the state of that handle gives the text that was set.
  pub set_tfstate-find_instance_mock :
      (s : String) (found : Json)
      → HasKey inst.obj kind ns name
      → has_status inst.obj ≡ true
      → find (has_key kind ns name) mocks ≡ some found
      → (find_instance_mock (set_tfstate inst mocks s).1 kind ns name
          ≡ some (set_tfstate inst mocks s).0)
        × (get_tfstate (set_tfstate inst mocks s).0 ≡ s)
  unfolding set_tfstate find_instance_mock
  set_tfstate-find_instance_mock s found k holds there =
      let k' = HasKey-with_status_field inst.obj (string s) "tfstate" kind ns name k in
      let stored =
        find-replace_entry (has_key kind ns name) (with_status_field "tfstate" (string s) inst.obj)
          found mocks (HasKey-has_key _ kind ns name k') there in
      (
        rw (k.is_there, persist-HasKey _ kind ns name mocks k', find_instance_mock, stored) refl,
        rw k.is_there (written inst.obj s k.is_there holds),
      )
