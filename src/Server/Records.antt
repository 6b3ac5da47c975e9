-- ===== src/Server/Records.antt =====
-- server/src/collect/packages.rs and collect/vynilconfig.rs: what is the same for every caller.
use vynil.Prelude.{
  String, Bool, false, Option, none, some, List, [], ◌∷◌, ◌++◌, is_empty, if◌then◌else◌,
}
use vynil.Prelude.Dict.{Dict}
use vynil.Instance.{ready, ApplicationCondition, InstanceStatus}
use vynil.Instance.Conditions.Lists.{type_eq}
use vynil.Server.{yaml_error}
use vynil.Server.World.{
  World, Listed, list_instances, get_config_map, Diag, pure, ask, get, require, ◌>>=◌,
}
use vynil.Server.Anonymize.{ScrubStats, no_stats, scrub}

pub record PackageState : Type 0 where
  pub kind : String
  pub namespace : String
  pub name : String
  pub package_name : String
  pub tag : Option String
  pub ready : Bool

-- The first condition `Ready` decides.
unfoldable pub is_ready : List ApplicationCondition → Bool
unfolding type_eq
is_ready [] = false
is_ready (condition ∷ conditions) =
    let rest = is_ready conditions in
    if type_eq condition.condition_type ready then condition.status else rest

unfoldable pub state_of :
    String → Listed → Option String → Option String → Option InstanceStatus → List PackageState
unfolding is_ready
state_of kind item (some namespace) (some name) (some status) =
    record {
      kind = kind;
      namespace = namespace;
      name = name;
      package_name = item.instance_of.package_name;
      tag = status.tag;
      ready = is_ready status.conditions;
    }
    ∷ []
state_of kind item namespace name status = []

-- `filter_map`: an object without a namespace, a name or a status is left out.
unfoldable pub package_states : String → List Listed → List PackageState
unfolding state_of
package_states kind [] = []
package_states kind (item ∷ items) =
    state_of kind item item.namespace item.name item.instance_of.status ++ package_states kind items

config_data : Option (Dict String) → Dict String
config_data none = []
config_data (some entries) = entries

module _ (w : World) where
  unfoldable pub get_packages : Diag (List PackageState)
  unfolding package_states
  get_packages = do
    services ← get (list_instances "serviceinstances") w.instances
    systems ← get (list_instances "systeminstances") w.instances
    pure (package_states "ServiceInstance" services ++ package_states "SystemInstance" systems)

  unfoldable pub present_config :
      String → String → Option (Option (Dict String)) → Diag (String × ScrubStats)
  unfolding scrub config_data
  present_config vynil_namespace namespace none = pure ("---", no_stats)
  present_config vynil_namespace namespace (some entries) =
      if is_empty (config_data entries) then pure ("---", no_stats) else (do
        yaml ← require yaml_error (w.config_yaml (config_data entries))
        scrub w yaml namespace vynil_namespace)

  unfoldable pub get_vynil_config : String → String → Diag (String × ScrubStats)
  unfolding present_config
  get_vynil_config vynil_namespace namespace = do
    answer ← ask (get_config_map vynil_namespace "vynil") w.config_map
    present_config vynil_namespace namespace answer
