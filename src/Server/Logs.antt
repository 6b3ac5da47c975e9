-- ===== src/Server/Logs.antt =====
-- server/src/collect/logs.rs: the logs of an instance's jobs, of its children and of the operator.
use Prim.Native.String
use Prim.Native.String.{len, slice}
use vynil.Prelude.{
  ℕ, ◌*◌, ◌%◌, ◌^◌, String, Bool, true, false, Option, none, some, List, [], ◌∷◌, map, ◌&&◌, any,
  keep, is_empty, ◌==◌, if◌then◌else◌,
}
use vynil.Prelude.Dict.{Dict, lookup}
use vynil.Prelude.Text.{concat, join, contains}
use vynil.Instance.{Children}
use vynil.Server.{valid_kinds, unknown_kind, serialization_error}
use vynil.Server.World.{
  World, Pod, Call, get_instance, get_object, list_jobs, list_pods, get_pod, get_logs, Diag, pure,
  fail, ask, get, require, ◌>>=◌,
}
use vynil.Server.Anonymize.{ScrubStats, no_stats, scrub}
use vynil.Server.Children.{namespace_of, all_children_from_status}
use vynil.Server.LogText.{
  install_job_selector, instance_object_ref, filter_operator_lines, cap, headed, section, name_of,
}

is_owned_by : String → Pod → Bool
is_owned_by job_name pod = elim pod.owners [
  | none ↦ false
  | some owners ↦ any (λ owner. owner.0 == "Job" && owner.1 == job_name) owners
]

is_operator_label : Option String → Bool
is_operator_label none = false
is_operator_label (some value) = value == "vynil"

is_operator_pod : Pod → Bool
unfolding is_operator_label lookup
is_operator_pod pod = elim pod.labels [
  | none ↦ false
  | some labels ↦ is_operator_label (lookup "app.kubernetes.io/name" labels)
]

label_selector : Dict String → String
unfolding join concat
label_selector labels = join "," (map (λ label. concat (label.0 ∷ "=" ∷ label.1 ∷ [])) labels)

-- The kinds of children that have pods.
abbrev pub workload_kinds : List String
workload_kinds = "Deployment" ∷ "StatefulSet" ∷ "DaemonSet" ∷ "ReplicaSet" ∷ []

unfoldable pub no_matched_line : String → String → String
unfolding concat
no_matched_line namespace name = concat (
    "# no operator log lines matched instance " ∷ namespace ∷ "/" ∷ name
    ∷ " in the retained window\n" ∷ [])

module _ (w : World) where
  or_no_log : Option String → String
  or_no_log none = ""
  or_no_log (some logs) = logs

  -- A log that cannot be read is empty.
  unfoldable pub read_logs : Call → Diag String
  unfolding or_no_log
  read_logs c = do answer ← ask c w.logs; pure (or_no_log answer)

  unfoldable pub get_pod_logs : String → String → Option String → Diag String
  unfolding read_logs
  get_pod_logs namespace pod_name container =
      read_logs (get_logs namespace pod_name container false none)

  unfoldable pub get_job_pods : String → String → Diag (List Pod)
  unfolding is_owned_by
  get_job_pods namespace job_name = do
    pods ← get (list_pods namespace none) w.pods
    pure (keep (is_owned_by job_name) pods)

  -- The loop over pods, each with its heading.
  unfoldable pub pod_logs : String → List Pod → Diag String
  unfolding get_pod_logs section concat
  pod_logs namespace [] = pure ""
  pod_logs namespace (pod ∷ pods) = do
    logs ← get_pod_logs namespace (name_of pod.name) none
    rest ← pod_logs namespace pods
    pure (String.◌++◌ (section ("pod/" ∷ name_of pod.name ∷ []) logs) rest)

  job_logs : String → List (Option String) → Diag String
  unfolding get_job_pods pod_logs
  job_logs namespace [] = pure ""
  job_logs namespace (job ∷ jobs) = do
    pods ← get_job_pods namespace (name_of job)
    logs ← pod_logs namespace pods
    rest ← job_logs namespace jobs
    pure (String.◌++◌ logs rest)

  -- Nothing to show, or what is shown, scrubbed.
  unfoldable pub scrub_logs : String → String → String → String → Diag (String × ScrubStats)
  unfolding scrub
  scrub_logs if_none logs namespace vynil_namespace =
      if logs == "" then pure (if_none, no_stats) else scrub w logs namespace vynil_namespace

  unfoldable pub get_agent_log : String → String → String → String → Diag (String × ScrubStats)
  unfolding install_job_selector job_logs scrub_logs
  get_agent_log kind namespace name vynil_namespace = do
    selector ← require unknown_kind (install_job_selector kind name namespace)
    jobs ← get (list_jobs vynil_namespace selector) w.jobs
    logs ← job_logs vynil_namespace jobs
    scrub_logs "" logs namespace vynil_namespace

  unfoldable pub get_instance_children : String → String → String → Diag (List Children)
  unfolding all_children_from_status contains
  get_instance_children kind namespace name =
      if contains valid_kinds kind
      then (do
        inst ← get (get_instance kind namespace name) w.instance
        json ← require serialization_error (w.instance_json inst)
        pure (all_children_from_status w json))
      else fail unknown_kind

  -- The labels of the workload, if it is there, has a specification, and matches by labels.
  workload_labels : Option (Option (Option (Dict String))) → Dict String
  workload_labels (some (some (some labels))) = labels
  workload_labels answer = []

  pods_with : String → Dict String → Diag (List Pod)
  unfolding label_selector
  pods_with namespace labels =
      if is_empty labels
      then pure []
      else get (list_pods namespace (some (label_selector labels))) w.pods

  unfoldable pub get_child_pods : String → Children → Diag (List Pod)
  unfolding workload_labels pods_with contains
  get_child_pods namespace child =
      if contains workload_kinds child.kind
      then (do
        answer ← ask (get_object child.kind namespace child.name) w.match_labels
        pods_with namespace (workload_labels answer))
      else pure []

  -- The loop over the containers: the log of the running one, then of the one that ended before.
  unfoldable pub container_logs : String → String → ℕ → ℕ → List String → Diag String
  unfolding read_logs headed cap concat
  container_logs namespace pod_name since max [] = pure ""
  container_logs namespace pod_name since max (container ∷ containers) = do
    now ← read_logs (get_logs namespace pod_name (some container) false (some since))
    prev ← read_logs (get_logs namespace pod_name (some container) true (some since))
    rest ← container_logs namespace pod_name since max containers
    pure (
        concat (
          (if now == "" then "" else headed ("container/" ∷ container ∷ []) (cap now max))
          ∷ (if prev == ""
              then ""
              else headed ("container/" ∷ container ∷ " (previous)" ∷ []) (cap prev max))
          ∷ rest
          ∷ []))

  -- The hours as seconds wrap around at 2 ^ 64; the number is sent as a signed one of the same bits.
  unfoldable pub get_pod_logs_with_options : String → String → ℕ → ℕ → Diag String
  unfolding container_logs
  get_pod_logs_with_options namespace pod_name log_since_hours log_cap_bytes = do
    pod ← get (get_pod namespace pod_name) w.pod
    elim pod.containers [
      | none ↦ pure ""
      | some containers ↦
          container_logs namespace pod_name (log_since_hours * 3600 % 2 ^ 64) log_cap_bytes
            containers
    ]

  child_pod_logs : Children → String → ℕ → ℕ → List Pod → Diag String
  unfolding get_pod_logs_with_options section
  child_pod_logs child namespace hours max [] = pure ""
  child_pod_logs child namespace hours max (pod ∷ pods) = do
    logs ← get_pod_logs_with_options namespace (name_of pod.name) hours max
    rest ← child_pod_logs child namespace hours max pods
    pure (
        String.◌++◌
          (section ("pod/" ∷ name_of pod.name ∷ " (" ∷ child.kind ∷ "/" ∷ child.name ∷ ")" ∷ [])
            logs)
          rest)

  children_logs : String → ℕ → ℕ → List Children → Diag String
  unfolding child_pod_logs get_child_pods namespace_of
  children_logs namespace hours max [] = pure ""
  children_logs namespace hours max (child ∷ children) = do
    pods ← get_child_pods (namespace_of child namespace) child
    logs ← child_pod_logs child (namespace_of child namespace) hours max pods
    rest ← children_logs namespace hours max children
    pure (String.◌++◌ logs rest)

  unfoldable pub get_child_logs :
      String → String → String → ℕ → ℕ → String → Diag (String × ScrubStats)
  unfolding get_instance_children children_logs scrub_logs
  get_child_logs kind namespace instance_name hours max vynil_namespace = do
    children ← get_instance_children kind namespace instance_name
    logs ← children_logs namespace hours max children
    scrub_logs "" logs namespace vynil_namespace

  -- The loop over the operator's pods, of which only the lines of one instance are kept.
  unfoldable pub operator_logs : String → String → List Pod → Diag String
  unfolding is_operator_pod get_pod_logs filter_operator_lines section
  operator_logs namespace object_ref [] = pure ""
  operator_logs namespace object_ref (pod ∷ pods) = do
    logs ← if is_operator_pod pod then get_pod_logs namespace (name_of pod.name) none else pure ""
    rest ← operator_logs namespace object_ref pods
    pure (
        String.◌++◌
          (section ("pod/" ∷ name_of pod.name ∷ []) (filter_operator_lines logs object_ref)) rest)

  unfoldable pub get_operator_log : String → String → String → String → Diag (String × ScrubStats)
  unfolding instance_object_ref operator_logs scrub_logs no_matched_line
  get_operator_log kind namespace name vynil_namespace = do
    object_ref ← require unknown_kind (instance_object_ref kind name namespace)
    pods ← get (list_pods vynil_namespace none) w.pods
    logs ← operator_logs vynil_namespace object_ref pods
    scrub_logs (no_matched_line namespace name) logs namespace vynil_namespace
