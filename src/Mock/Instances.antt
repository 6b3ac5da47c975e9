-- ===== src/Mock/Instances.antt =====
-- common/src/k8smock.rs: instances and jukeboxes of the store of the package tests.
use vynil.Prelude.{String, Bool, Option, none, some, List, [], ◌∷◌, ◌&&◌, find, if◌then◌else◌}
use vynil.Prelude.Json
use vynil.Prelude.Json.{
  Json, null, string, object, Fields, end, field, lookup_field, put_field, as_string,
}
use vynil.Mock.{kind_of, meta_text, is_map, text_eq, or_unit}
use vynil.Mock.Named.{has_key}

-- A handle on an instance; the store is an argument of what writes to it.
pub record K8sInstanceMock : Type 0 where
  pub obj : Json

-- A key of the object, or the unit.
unfoldable pub get_sub : Json → String → Json
unfolding Json.get
get_sub obj key = or_unit (Json.get key obj)

-- The status with the field; a status that is no map stays as it is.
unfoldable pub put_in_status : String → Json → Option Json → Json
put_in_status key val none = object (field key val end)
put_in_status key val (some (object status)) = object (put_field key val status)
put_in_status key val (some status) = status

unfoldable pub with_status_field : String → Json → Json → Json
unfolding put_in_status
with_status_field key val (object top) =
    object (put_field "status" (put_in_status key val (lookup_field "status" top)) top)
with_status_field key val obj = obj

-- The first entry of the key is replaced.
unfoldable pub replace_entry : (Json → Bool) → Json → List Json → List Json
replace_entry same obj [] = []
replace_entry same obj (entry ∷ mocks) =
    let rest = replace_entry same obj mocks in if same entry then obj ∷ mocks else entry ∷ rest

persist_as : Option String → Option String → Option String → Json → List Json → List Json
unfolding replace_entry has_key
persist_as (some kind) (some name) (some ns) obj mocks =
    replace_entry (has_key kind ns name) obj mocks
persist_as kind name ns obj mocks = mocks

-- An object without a kind, a name or a namespace is not written.
unfoldable pub persist : Json → List Json → List Json
unfolding persist_as kind_of meta_text
persist obj mocks =
    persist_as (kind_of obj) (meta_text "name" obj) (meta_text "namespace" obj) obj mocks

-- `set_status_field`, behind every setter that writes.
unfoldable pub set_status_field :
    K8sInstanceMock → List Json → String → Json → K8sInstanceMock × List Json
unfolding with_status_field persist is_map
set_status_field inst mocks key val =
    if is_map inst.obj
    then (let obj = with_status_field key val inst.obj in (record { obj = obj }, persist obj mocks))
    else (inst, mocks)

text_in : String → Json → String
unfolding Json.get as_string
text_in key status = elim (as_string (Json.get key status)) [ none ↦ "" | some s ↦ s ]

unfoldable pub get_tfstate : K8sInstanceMock → String
unfolding text_in get_sub
get_tfstate inst = text_in "tfstate" (get_sub inst.obj "status")

unfoldable pub get_rhaistate : K8sInstanceMock → String
unfolding text_in get_sub
get_rhaistate inst = text_in "rhaistate" (get_sub inst.obj "status")

module _ (inst : K8sInstanceMock) (mocks : List Json) where
  unfoldable pub set_status_ready : String → K8sInstanceMock × List Json
  unfolding set_status_field
  set_status_ready tag = set_status_field inst mocks "tag" (string tag)

  unfoldable pub set_tfstate : String → K8sInstanceMock × List Json
  unfolding set_status_field
  set_tfstate tfstate = set_status_field inst mocks "tfstate" (string tfstate)

  unfoldable pub set_rhaistate : String → K8sInstanceMock × List Json
  unfolding set_status_field
  set_rhaistate rhaistate = set_status_field inst mocks "rhaistate" (string rhaistate)

  -- The setters of children and of services, by the field that they write.
  unfoldable pub set_status_list : String → Json → K8sInstanceMock × List Json
  unfolding set_status_field
  set_status_list category list = set_status_field inst mocks category list

unfoldable pub find_instance_mock : List Json → String → String → String → Option K8sInstanceMock
unfolding find has_key
find_instance_mock mocks kind namespace name = elim (find (has_key kind namespace name) mocks) [
  | none ↦ none
  | some m ↦ some (record { obj = m })
]

is_jukebox : String → Json → Bool
unfolding text_eq kind_of meta_text
is_jukebox name m = text_eq (kind_of m) (some "JukeBox") && text_eq (meta_text "name" m) (some name)

unfoldable pub find_jukebox_mock : List Json → String → Option Json
unfolding is_jukebox find
find_jukebox_mock mocks name = find (is_jukebox name) mocks

-- The setters of a jukebox change the handle only.
unfoldable pub set_packages : Json → Json → Json
unfolding with_status_field
set_packages obj packages = with_status_field "packages" packages obj
