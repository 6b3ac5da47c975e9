-- ===== src/Mock/Workloads.antt =====
-- core/src/k8s_mock.rs and common/src/k8smock.rs: workloads, objects and raw requests of the store of
-- the package tests, and its lists of instances and jukeboxes. What waits for a state returns at once
-- with success and changes nothing.
use vynil.Prelude.{String, Bool, Option, none, some, List, ◌&&◌, find, keep, map}
use vynil.Prelude.Json
use vynil.Prelude.Json.{Json, object, array, end, field}
use vynil.Mock.{
  Store, K8sGenericMock, kind_of, meta_text, map_or_none, text_eq, or_unit, items_of, rhai_get,
}
use vynil.Mock.Named.{has_key}

pub record K8sObjectMock : Type 0 where
  pub obj : Json
  pub kind : String

-- The metadata of an object; `none` is the error that names the kind.
unfoldable pub get_metadata : K8sObjectMock → Option Json
unfolding map_or_none Json.get
get_metadata mock = map_or_none (Json.get "metadata" mock.obj)

unfoldable pub rhai_get_obj : K8sGenericMock → Store → String → Option K8sObjectMock
unfolding rhai_get
rhai_get_obj mock store name = elim (rhai_get mock store name) [
  | none ↦ none
  | some m ↦ some (record { obj = m; kind = mock.kind })
]

-- Whatever is asked for, a raw request answers an empty map.
unfoldable pub rhai_get_url : String → Json
rhai_get_url url = object end

pub record K8sWorkloadMock : Type 0 where
  pub obj : Json

-- A key of a workload, or the unit: its metadata, its spec and its status.
unfoldable pub get_sub : K8sWorkloadMock → String → Json
unfolding or_unit Json.get
get_sub mock key = or_unit (Json.get key mock.obj)

unfoldable pub find_workload_mock : List Json → String → String → String → Option K8sWorkloadMock
unfolding find has_key
find_workload_mock mocks kind namespace name = elim (find (has_key kind namespace name) mocks) [
  | none ↦ none
  | some m ↦ some (record { obj = m })
]

-- An object that is listed, as the record that has it.
as_obj : Json → Json
as_obj m = object (field "obj" m end)

listed : List Json → Json
unfolding items_of as_obj
listed found = object (field "items" (array (items_of (map as_obj found))) end)

in_kind_and_namespace : String → String → Json → Bool
unfolding text_eq kind_of meta_text
in_kind_and_namespace kind namespace m =
    text_eq (kind_of m) (some kind) && text_eq (meta_text "namespace" m) (some namespace)

unfoldable pub list_instance_mocks : List Json → String → String → Json
unfolding listed in_kind_and_namespace
list_instance_mocks mocks kind namespace =
    listed (keep (in_kind_and_namespace kind namespace) mocks)

unfoldable pub list_jukebox_mocks : List Json → Json
unfolding listed text_eq kind_of
list_jukebox_mocks mocks = listed (keep (λ m. text_eq (kind_of m) (some "JukeBox")) mocks)
