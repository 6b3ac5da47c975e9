-- ===== src/Server/Scrubbed.antt =====
-- Which texts and states the collectors of the server give back (server/src/collect).
use vynil.Prelude.{ℕ, String, Option, none, some, List, [], ◌∷◌, ◌≡◌, refl, All, ◌==◌}
use vynil.Prelude.Dict.{Dict}
use vynil.Prelude.Json.{Json}
use vynil.Instance.{Children}
use vynil.Server.World.{World, History, ok}
use vynil.Server.World.Yields.{Yields-if, Yields, Yields-pure, Yields-bind_with, yield_rules}
use vynil.Server.Anonymize.{ScrubStats, scrub, scrub_json}
use vynil.Server.Records.{get_vynil_config, present_config}
use vynil.Server.Instances.{get_instance_state, state_document}
use vynil.Server.Children.{
  ChildWithState, namespace_of, scrub_state, get_child_state, child_states, get_children,
}
use vynil.Server.Logs.{scrub_logs, get_agent_log, get_child_logs, get_operator_log, no_matched_line}

module _ (w : World) (vynil_namespace namespace : String) where
  -- A text that is empty, fixed, or comes out of the scrubbing with the secrets of the namespace.
  pub data IsScrubbed (answer : String × ScrubStats) : Type 0 where
    fixed : answer.0 ≡ "" → IsScrubbed answer
    no_document : answer.0 ≡ "---" → IsScrubbed answer
    no_line : (name : String) → answer.0 ≡ no_matched_line namespace name → IsScrubbed answer
    scrubbed :
        (source : String) (h : History)
        → (scrub w source namespace vynil_namespace h).0 ≡ ok answer
        → IsScrubbed answer

  -- No state, or one that comes out of the scrubbing with the secrets of the child's namespace.
  pub data IsScrubbedState (child : Children) (answer : Option Json × ScrubStats) : Type 0 where
    absent : answer.0 ≡ none → IsScrubbedState child answer
    scrubbed_state :
        (source value : Json) (h : History)
        → answer.0 ≡ some value
        → (scrub_json w source (namespace_of child namespace) vynil_namespace h).0
          ≡ ok (value, answer.1)
        → IsScrubbedState child answer

  abbrev pub IsSafeChild : ChildWithState → Type 0
  IsSafeChild c = (stats : ScrubStats) × IsScrubbedState c.child (c.state, stats)

  scrub-Yields : (source : String) → Yields IsScrubbed (scrub w source namespace vynil_namespace)
  scrub-Yields source = record { at = λ h answer returned. scrubbed source h returned }

  scrub_logs-Yields :
      (source : String) → Yields IsScrubbed (scrub_logs w "" source namespace vynil_namespace)
  unfolding scrub_logs
  scrub_logs-Yields source = search (yield_rules, scrub-Yields, fixed)

  scrub_logs_marked-Yields :
      (name source : String)
      → Yields IsScrubbed
          (scrub_logs w (no_matched_line namespace name) source namespace vynil_namespace)
  unfolding scrub_logs
  scrub_logs_marked-Yields name source =
      Yields-if (source == "") _ _ (Yields-pure _ (no_line name refl)) (scrub-Yields source)

  pub get_instance_state-Yields :
      (kind name : String)
      → Yields IsScrubbed (get_instance_state w kind namespace name vynil_namespace)
  unfolding get_instance_state state_document
  get_instance_state-Yields kind name = search (yield_rules, scrub-Yields) depth 12

  pub get_agent_log-Yields :
      (kind name : String) → Yields IsScrubbed (get_agent_log w kind namespace name vynil_namespace)
  unfolding get_agent_log
  get_agent_log-Yields kind name = search (yield_rules, scrub_logs-Yields) depth 12

  pub get_child_logs-Yields :
      (kind name : String) (hours max : ℕ)
      → Yields IsScrubbed (get_child_logs w kind namespace name hours max vynil_namespace)
  unfolding get_child_logs
  get_child_logs-Yields kind name hours max = search (yield_rules, scrub_logs-Yields) depth 12

  pub get_operator_log-Yields :
      (kind name : String)
      → Yields IsScrubbed (get_operator_log w kind namespace name vynil_namespace)
  unfolding get_operator_log
  get_operator_log-Yields kind name = search (yield_rules, scrub_logs_marked-Yields) depth 12

  present_config-Yields :
      (entries : Option (Option (Dict String)))
      → Yields IsScrubbed (present_config w vynil_namespace namespace entries)
  unfolding present_config
  present_config-Yields none = search (yield_rules, no_document)
  present_config-Yields (some entries) = search (yield_rules, no_document, scrub-Yields) depth 12

  pub get_vynil_config-Yields : Yields IsScrubbed (get_vynil_config w vynil_namespace namespace)
  unfolding get_vynil_config
  get_vynil_config-Yields = search (yield_rules, present_config-Yields) depth 12

  scrub_state-Yields :
      (child : Children) (answer : Option Json)
      → Yields
          (IsScrubbedState child)
          (scrub_state w (namespace_of child namespace) vynil_namespace answer)
  unfolding scrub_state
  scrub_state-Yields child none = search (yield_rules, absent)
  scrub_state-Yields child (some source) =
      Yields-bind_with
        {Q = λ r.
          (h : History) × ((scrub_json w source (namespace_of child namespace) vynil_namespace h).0
            ≡ ok r)}
        _ _ (record { at = λ h r returned. (h, returned) })
        (λ r from. Yields-pure _ (scrubbed_state source r.0 from.0 refl from.1))

  get_child_state-Yields :
      (child : Children)
      → Yields (IsScrubbedState child) (get_child_state w child namespace vynil_namespace)
  unfolding get_child_state
  get_child_state-Yields child = search (yield_rules, scrub_state-Yields, absent) depth 12

  child_states-Yields :
      (l : List Children)
      → Yields (λ r. All IsSafeChild r.0) (child_states w l namespace vynil_namespace)
  unfolding child_states
  child_states-Yields [] = Yields-pure _ tt
  child_states-Yields (child ∷ l) = Yields-bind_with _ _ (get_child_state-Yields child) (λ one safe.
      Yields-bind_with _ _ (child_states-Yields l)
        (λ rest all_safe. Yields-pure _ ((one.1, safe), all_safe)))

  pub get_children-Yields :
      (kind name : String)
      → Yields (λ r. All IsSafeChild r.0) (get_children w kind namespace name vynil_namespace)
  unfolding get_children
  get_children-Yields kind name = search (yield_rules, child_states-Yields) depth 12
