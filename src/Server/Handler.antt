-- ===== src/Server/Handler.antt =====
-- server/src/server.rs: the handler of a request for an item of an instance.
use vynil.Prelude.{
  ℕ, code, String, Bool, true, false, not, Option, none, some, List, ◌&&◌, ◌||◌, leb, nat_eq, ◌==◌,
  if◌then◌else◌,
}
use vynil.Prelude.Text.{contains}
use vynil.Server.{
  Config, valid_kinds, valid_items, invalid_name_format, unknown_kind, unknown_item,
  instance_not_found,
}
use vynil.Server.World.{World, Diag, pure, fail, ◌>>=◌, ◌>>◌}
use vynil.Server.Anonymize.{ScrubStats}
use vynil.Server.Access.{HeaderMap, extract_identity, check_item_access, is_instance_scoped_item}
use vynil.Server.Records.{PackageState, get_packages, get_vynil_config}
use vynil.Server.Instances.{get_instance_state, check_instance_exists}
use vynil.Server.Children.{ChildWithState, get_children}
use vynil.Server.Logs.{get_agent_log, get_child_logs, get_operator_log}
use vynil.Server.ClusterInfo.{ClusterInfo, get_cluster_info}

is_alnum : ℕ → Bool
is_alnum c = (leb b'a' c && leb c b'z') || (leb b'0' c && leb c b'9')

-- The rest of a name: it ends with a letter or a digit.
dns_rest : String → Bool
unfolding is_alnum
dns_rest String.[] = true
dns_rest (String.◌∷◌ c String.[]) = is_alnum (code c)
dns_rest (String.◌∷◌ c (String.◌∷◌ d s)) =
    (is_alnum (code c) || nat_eq (code c) b'-' || nat_eq (code c) b'.') && dns_rest (String.◌∷◌ d s)

-- `^[a-z0-9]([-a-z0-9.]*[a-z0-9])?$`.
unfoldable pub validate_dns1123 : String → Bool
unfolding dns_rest
validate_dns1123 String.[] = false
validate_dns1123 (String.◌∷◌ c s) = is_alnum (code c) && dns_rest s

pub record Request : Type 0 where
  pub headers : HeaderMap
  pub ns : String
  pub kind : String
  pub name : String
  pub item : String

pub data Body : Type 0 where
  cluster_info : ClusterInfo → Body
  packages : List PackageState → Body
  yaml : String → Body
  children : List ChildWithState → Body
  text : String → Body

-- The statistics are the header `X-Diag-Redactions`, where it is set.
pub record Response : Type 0 where
  pub body : Body
  pub redactions : Option ScrubStats

-- An answer with its statistics.
unfoldable pub with_stats {ℓ} : {A : Type ℓ} → (A → Body) → Diag (A × ScrubStats) → Diag Response
with_stats make collect = do
  collected ← collect
  pure (record { body = make collected.0; redactions = some collected.1 })

unfoldable pub without_stats {ℓ} : {A : Type ℓ} → (A → Body) → Diag A → Diag Response
without_stats make collect = do
  collected ← collect
  pure (record { body = make collected; redactions = none })

module _ (w : World) (config : Config) where
  -- The `match` on the item.
  unfoldable pub dispatch : String → String → String → String → Diag Response
  unfolding with_stats without_stats get_cluster_info get_vynil_config get_packages
      get_instance_state get_children get_agent_log get_child_logs get_operator_log
  dispatch item kind ns name =
      if item == "clusterinfo"
      then without_stats cluster_info (get_cluster_info w config.vynil_namespace)
      else if item == "vynilconfig"
      then with_stats yaml (get_vynil_config w config.vynil_namespace ns)
      else if item == "packages"
      then without_stats packages (get_packages w)
      else if item == "state"
      then with_stats yaml (get_instance_state w kind ns name config.vynil_namespace)
      else if item == "children"
      then with_stats children (get_children w kind ns name config.vynil_namespace)
      else if item == "agentlog"
      then with_stats text (get_agent_log w kind ns name config.vynil_namespace)
      else if item == "childlogs"
      then with_stats text (
          get_child_logs w kind ns name config.log_since_hours config.log_cap_bytes
            config.vynil_namespace)
      else if item == "operatorlog"
      then with_stats text (get_operator_log w kind ns name config.vynil_namespace)
      else fail unknown_item

  -- The existence of an instance is asked for only where the item is about one.
  unfoldable pub when_exists : String → String → String → String → Diag Response
  unfolding dispatch check_instance_exists is_instance_scoped_item
  when_exists item kind ns name =
      if is_instance_scoped_item item
      then (do
        exists ← check_instance_exists w kind ns name
        if not exists then fail instance_not_found else dispatch item kind ns name)
      else dispatch item kind ns name

  -- After the checks of the path.
  unfoldable pub serve : Request → Diag Response
  unfolding when_exists extract_identity check_item_access
  serve request = do
    identity ← extract_identity w request.headers config.trust_request_header
    check_item_access w identity request.kind request.ns request.name request.item
        config.enable_packages
    when_exists request.item request.kind request.ns request.name

  unfoldable pub instance_handler : Request → Diag Response
  unfolding serve validate_dns1123 contains
  instance_handler request =
      if not (validate_dns1123 request.ns) || not (validate_dns1123 request.name)
      then fail invalid_name_format
      else if not (contains valid_kinds request.kind)
      then fail unknown_kind
      else if not (contains valid_items request.item)
      then fail unknown_item
      else serve request
