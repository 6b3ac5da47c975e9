-- ===== src/Server/Answers.antt =====
-- What of the cluster is in an answer of the server (server/src/server.rs, `instance_handler`).
use vynil.Prelude.{
  String, Bool, true, Option, none, some, List, [], ◌∷◌, ◌≡◌, refl, ◌||◌, All, all, ◌++◌, ◌==◌,
  arith,
}
use vynil.Instance.{InstanceStatus}
use vynil.Server.{Config}
use vynil.Server.World.{World, Listed, Diag, ok}
use vynil.Server.World.Yields.{
  Yields-fail, Yields-if_known, Yields, Yields-pure, Yields-bind_with, Yields-bind, yield_rules,
}
use vynil.Server.Anonymize.{ScrubStats}
use vynil.Server.Records.{PackageState, state_of, package_states, get_packages}
use vynil.Server.Children.{ChildWithState}
use vynil.Server.ClusterInfo.{ClusterInfo}
use vynil.Server.Handler.{
  Request, Response, Body, cluster_info, packages, yaml, children, text, with_stats, without_stats,
  dispatch, when_exists, serve, instance_handler,
}
use vynil.Server.Scrubbed.{
  IsScrubbed, IsSafeChild, get_instance_state-Yields, get_agent_log-Yields, get_child_logs-Yields,
  get_operator_log-Yields, get_vynil_config-Yields, get_children-Yields,
}

is_platform : PackageState → Bool
is_platform p = p.kind == "ServiceInstance" || p.kind == "SystemInstance"

all-append :
    (l m : List PackageState)
    → all is_platform l ≡ true
    → all is_platform m ≡ true
    → all is_platform (l ++ m) ≡ true
all-append [] m hl hm = hm
all-append (p ∷ l) m hl hm = ground (arith, hl, hm, all-append l m)

state_of-is_platform :
    (kind : String) (item : Listed) (namespace name : Option String) (st : Option InstanceStatus)
    → (kind == "ServiceInstance" || kind == "SystemInstance") ≡ true
    → all is_platform (state_of kind item namespace name st) ≡ true
unfolding state_of is_platform
state_of-is_platform kind item (some ns) (some name) (some st) known = ground (arith, known)
state_of-is_platform kind item (some ns) (some name) none known = refl
state_of-is_platform kind item (some ns) none st known = refl
state_of-is_platform kind item none name st known = refl

package_states-is_platform :
    (kind : String) (items : List Listed)
    → (kind == "ServiceInstance" || kind == "SystemInstance") ≡ true
    → all is_platform (package_states kind items) ≡ true
unfolding package_states
package_states-is_platform kind [] known = refl
package_states-is_platform kind (item ∷ items) known =
    all-append _ _ (state_of-is_platform kind item _ _ _ known)
      (package_states-is_platform kind items known)

get_packages-Yields : (w : World) → Yields (λ l. all is_platform l ≡ true) (get_packages w)
unfolding get_packages
get_packages-Yields w = Yields-bind _ _ (λ services. Yields-bind _ _ (λ systems. Yields-pure _ (
    all-append _ _ (package_states-is_platform "ServiceInstance" services refl)
      (package_states-is_platform "SystemInstance" systems refl))))

-- What the body of an answer to a request for an item may hold: a text or a state that is scrubbed,
-- with the statistics of it, or what is the same for every caller.
pub IsSafeBody : World → Config → Request → Body → Option ScrubStats → Type 0
IsSafeBody w config request (cluster_info info) redactions = (request.item == "clusterinfo") ≡ true
IsSafeBody w config request (packages l) redactions =
    ((request.item == "packages") ≡ true) × (all is_platform l ≡ true)
IsSafeBody w config request (yaml t) (some stats) =
    IsScrubbed w config.vynil_namespace request.ns (t, stats)
IsSafeBody w config request (text t) (some stats) =
    IsScrubbed w config.vynil_namespace request.ns (t, stats)
IsSafeBody w config request (children l) (some stats) =
    All (IsSafeChild w config.vynil_namespace request.ns) l
IsSafeBody w config request body none = ⊥

abbrev pub IsSafe : World → Config → Request → Response → Type 0
IsSafe w config request response = IsSafeBody w config request response.body response.redactions

module _ (w : World) (config : Config) (request : Request) where
  yaml-Yields :
      (m : Diag (String × ScrubStats))
      → Yields (IsScrubbed w config.vynil_namespace request.ns) m
      → Yields (IsSafe w config request) (with_stats yaml m)
  unfolding with_stats IsSafeBody
  yaml-Yields m safe = Yields-bind_with m _ safe (λ r s. Yields-pure _ s)

  text-Yields :
      (m : Diag (String × ScrubStats))
      → Yields (IsScrubbed w config.vynil_namespace request.ns) m
      → Yields (IsSafe w config request) (with_stats text m)
  unfolding with_stats IsSafeBody
  text-Yields m safe = Yields-bind_with m _ safe (λ r s. Yields-pure _ s)

  children-Yields :
      (m : Diag (List ChildWithState × ScrubStats))
      → Yields (λ r. All (IsSafeChild w config.vynil_namespace request.ns) r.0) m
      → Yields (IsSafe w config request) (with_stats children m)
  unfolding with_stats IsSafeBody
  children-Yields m safe = Yields-bind_with m _ safe (λ r s. Yields-pure _ s)

  cluster_info-Yields :
      (m : Diag ClusterInfo)
      → (request.item == "clusterinfo") ≡ true
      → Yields (IsSafe w config request) (without_stats cluster_info m)
  unfolding without_stats IsSafeBody
  cluster_info-Yields m asked = Yields-bind m _ (λ r. Yields-pure _ asked)

  packages-Yields :
      (request.item == "packages") ≡ true
      → Yields (IsSafe w config request) (without_stats packages (get_packages w))
  unfolding without_stats IsSafeBody
  packages-Yields asked =
      Yields-bind_with (get_packages w) _ (get_packages-Yields w)
        (λ l safe. Yields-pure (record { body = packages l; redactions = none }) (asked, safe))

  dispatch-Yields :
      Yields
        (IsSafe w config request)
        (dispatch w config request.item request.kind request.ns request.name)
  unfolding dispatch
  dispatch-Yields =
      search
        (
          Yields-if_known, Yields-fail, cluster_info-Yields, packages-Yields, yaml-Yields,
          text-Yields, children-Yields, get_vynil_config-Yields, get_instance_state-Yields,
          get_children-Yields, get_agent_log-Yields, get_child_logs-Yields, get_operator_log-Yields,
        )
        depth 24

  when_exists-Yields :
      Yields
        (IsSafe w config request)
        (when_exists w config request.item request.kind request.ns request.name)
  unfolding when_exists
  when_exists-Yields = search (yield_rules, dispatch-Yields) depth 12

  handler-Yields : Yields (IsSafe w config request) (instance_handler w config request)
  unfolding instance_handler serve
  handler-Yields = search (yield_rules, when_exists-Yields) depth 14

  -- If the handler answers with a text, the text with its statistics comes out of the scrubbing with
  -- the secrets of the request's namespace, or the text is empty, `---`, or the line that no log
  -- matched; each state of a child comes out of the scrubbing or is none; information on the cluster
  -- and the list of packages answer only requests for these items; and that list is of service and
  -- system instances.
  pub instance_handler-IsSafe :
      (response : Response)
      → (instance_handler w config request []).0 ≡ ok response
      → IsSafe w config request response
  instance_handler-IsSafe response returned = handler-Yields.at [] response returned
