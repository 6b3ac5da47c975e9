-- ===== src/Status.antt =====
-- The status updates of an instance: the methods that common/src/instance_macros.rs and
-- common/src/instancesystem.rs generate. Each reads the instance that it is called on, writes the
-- conditions with one patch, publishes one event, and returns what the API returned.
pub mod Updates
pub mod Counts
pub mod Methods
pub mod Unique
pub mod Tidy
pub mod Repeats
pub mod Notes
use vynil.Prelude.{
  ℕ, String, Bool, true, false, Option, none, some, List, [], ◌∷◌, ◌++◌, any, if◌then◌else◌,
}
use vynil.Prelude.Text.{concat, truncate}
use vynil.Result.{Result, ok, err, kube_error}
use vynil.Instance.{
  ApplicationCondition, ConditionsType, ready, installed, agent_started, init_from, Instance,
  StatusField, EventNote, no_note, text, applied,
}
use vynil.Instance.Conditions.{
  new, ready_ko, installed_ko, missing_package, missing_box, missing_requirement, agent_started_ok,
  init_version_ko, version_not_found,
}
use vynil.Instance.Conditions.Lists.{type_eq, have_condition, get_conditions_excluding}
use vynil.Kube.{
  Cluster, Kube, Published, sent, api_error, other_error, patch_status, publish_event, pure, lift,
  call, ◌>>=◌, ◌>>◌,
}

-- `metadata.generation.unwrap_or(1)`.
unfoldable pub generation_of : Instance → ℕ
generation_of inst = elim inst.generation [ none ↦ 1 | some g ↦ g ]

publish_result : Published → Result (Unit {0})
publish_result sent = ok tt
publish_result api_error = ok tt
publish_result other_error = err kube_error

-- `if !conditions.any(|c| c.condition_type == Ready) { conditions.push(ready_ko) }`.
unfoldable pub with_ready :
    ApplicationCondition → List ApplicationCondition → List ApplicationCondition
with_ready ko conditions =
    if any (λ c. type_eq c.condition_type ready) conditions
    then conditions
    else conditions ++ ko ∷ []

module _ (c : Cluster) (inst : Instance) where
  -- `Utc::now()`.
  unfoldable pub clock : Kube ℕ
  clock h = (ok (c.now h), h)

  -- An error that the API answers is only logged.
  unfoldable pub send_event : Bool → String → EventNote → String → Kube (Unit {0})
  unfolding publish_result
  send_event warning reason note action =
      call (publish_event warning reason note action) (λ h. publish_result (c.published h))

  unfoldable pub patch : List ApplicationCondition → List StatusField → Kube Instance
  patch conditions fields = call (patch_status inst.name conditions fields) c.patched

  -- The body of the setters that first look whether the condition is there.
  unfoldable pub set_condition :
      ApplicationCondition → List ConditionsType → Kube (Unit {0}) → Kube Instance
  unfolding patch
  set_condition cond types event = if have_condition inst cond then pure inst else (do
    result ← patch (get_conditions_excluding inst types ++ cond ∷ []) []
    event
    pure result)

  unfoldable pub set_agent_started : Kube Instance
  unfolding clock set_condition generation_of
  set_agent_started = do
    now ← clock
    set_condition (agent_started_ok now (generation_of inst)) (agent_started ∷ [])
        (send_event false "AgentStarted" no_note "AgentStart")

  unfoldable pub set_missing_box : String → Kube Instance
  unfolding clock set_condition generation_of
  set_missing_box jukebox = do
    now ← clock
    set_condition (missing_box now jukebox (generation_of inst)) (agent_started ∷ []) (
        send_event true "MissingJukebox"
          (text (concat ("JukeBox " ∷ jukebox ∷ " doesnt exist" ∷ []))) "AgentStart")

  unfoldable pub set_missing_package : String → String → Kube Instance
  unfolding clock set_condition generation_of
  set_missing_package category package_name = do
    now ← clock
    set_condition (missing_package now category package_name (generation_of inst))
        (agent_started ∷ [])
        (send_event true "MissingPackage"
          (text (concat ("Package " ∷ category ∷ "/" ∷ package_name ∷ " doesnt exist" ∷ [])))
          "AgentStart")

  -- The event of a failure, its note cut at 1023 bytes.
  unfoldable pub send_reason : String → String → String → Kube (Unit {0})
  unfolding send_event
  send_reason event reason action = do
    note ← lift (truncate 1023 reason)
    send_event true event (text note) action

  unfoldable pub set_missing_requirement : String → Kube Instance
  unfolding clock set_condition generation_of send_reason
  set_missing_requirement reason = do
    now ← clock
    set_condition (missing_requirement now reason (generation_of inst)) (agent_started ∷ [])
        (send_reason "MissingRequirement" reason "AgentStart")

  unfoldable pub set_missing_init_version : String → Kube Instance
  unfolding clock set_condition generation_of
  set_missing_init_version version = do
    now ← clock
    set_condition (init_version_ko now version (generation_of inst)) (init_from ∷ [])
        (send_event true "InitVersionNotFound" (text (version_not_found version)) "InitFrom")

  -- The body of the setters that record a success: the condition replaces those of `types`.
  unfoldable pub set_applied :
      (ℕ → ℕ → List ApplicationCondition)
      → List ConditionsType
      → List StatusField
      → String
      → EventNote
      → String
      → Kube Instance
  unfolding clock patch generation_of
  set_applied success types fields event note action = do
    now ← clock
    result ← patch (get_conditions_excluding inst types ++ success now (generation_of inst)) fields
    send_event false event note action
    pure result

  -- The body of the setters that record the failure of a stage.
  unfoldable pub set_failed :
      (ℕ → String → ℕ → ApplicationCondition)
      → ConditionsType
      → List StatusField
      → String
      → String
      → String
      → Kube Instance
  unfolding clock patch generation_of send_reason with_ready
  set_failed ko stage fields event reason action = do
    now ← clock
    let generation = generation_of inst
    let kept = get_conditions_excluding inst (agent_started ∷ stage ∷ installed ∷ [])
    let failures = ko now reason generation ∷ installed_ko now reason generation ∷ []
    result ← patch (with_ready (ready_ko now generation) (kept ++ failures)) fields
    send_reason event reason action
    pure result
