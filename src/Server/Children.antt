-- ===== src/Server/Children.antt =====
-- server/src/collect/children.rs: the objects of an instance, with their state.
use vynil.Prelude.{◌+◌, String, Option, none, some, List, [], ◌∷◌, ◌++◌, if◌then◌else◌}
use vynil.Prelude.Json
use vynil.Prelude.Json.{Json, object, array_items}
use vynil.Prelude.Text.{contains}
use vynil.Instance.{Children}
use vynil.Server.{valid_kinds, unknown_kind}
use vynil.Server.World.{World, get_instance, get_object, Diag, pure, fail, ask, get, ◌>>=◌}
use vynil.Server.Anonymize.{ScrubStats, no_stats, scrub_json}

pub record ChildWithState : Type 0 where
  pub child : Children
  pub state : Option Json

abbrev pub child_categories : List String
child_categories =
    "befores" ∷ "vitals" ∷ "scalables" ∷ "others" ∷ "posts" ∷ "systems" ∷ "services" ∷ []

-- The kinds whose objects are read.
abbrev pub read_kinds : List String
read_kinds = "Deployment" ∷ "StatefulSet" ∷ "DaemonSet" ∷ "Service" ∷ "ConfigMap" ∷ []

unfoldable pub namespace_of : Children → String → String
namespace_of child namespace = elim child.namespace [ none ↦ namespace | some own ↦ own ]

module _ (w : World) where
  opt_list : Option Children → List Children
  opt_list none = []
  opt_list (some child) = child ∷ []

  -- Items that have not the shape of a child are skipped.
  unfoldable pub extract_children_from_json : List Json → List Children
  unfolding opt_list
  extract_children_from_json [] = []
  extract_children_from_json (value ∷ values) =
      opt_list (w.as_child value) ++ extract_children_from_json values

  in_categories : List String → Json → List Children
  unfolding extract_children_from_json Json.get array_items
  in_categories [] status = []
  in_categories (category ∷ categories) status =
      extract_children_from_json (array_items (Json.get category status))
      ++ in_categories categories status

  in_status : Option Json → List Children
  unfolding in_categories
  in_status none = []
  in_status (some status) = in_categories child_categories status

  unfoldable pub all_children_from_status : Json → List Children
  unfolding in_status Json.get
  all_children_from_status instance_json = in_status (Json.get "status" instance_json)

  unfoldable pub extract_children_from_instance : Option Json → List Children
  unfolding all_children_from_status
  extract_children_from_instance none = []
  extract_children_from_instance (some json) = all_children_from_status json

  unfoldable pub scrub_state : String → String → Option Json → Diag (Option Json × ScrubStats)
  unfolding scrub_json
  scrub_state namespace vynil_namespace none = pure (none, no_stats)
  scrub_state namespace vynil_namespace (some json) = do
    scrubbed ← scrub_json w json namespace vynil_namespace
    pure (some scrubbed.0, scrubbed.1)

  unfoldable pub get_child_state : Children → String → String → Diag (Option Json × ScrubStats)
  unfolding scrub_state namespace_of contains
  get_child_state child instance_namespace vynil_namespace =
      let namespace = namespace_of child instance_namespace in
      if contains read_kinds child.kind
      then (do
        answer ← ask (get_object child.kind namespace child.name) w.object
        scrub_state namespace vynil_namespace answer)
      else pure (none, no_stats)

  -- The loop over the children, with the sum of the statistics.
  unfoldable pub child_states :
      List Children → String → String → Diag (List ChildWithState × ScrubStats)
  unfolding get_child_state
  child_states [] namespace vynil_namespace = pure ([], no_stats)
  child_states (child ∷ children) namespace vynil_namespace = do
    one ← get_child_state child namespace vynil_namespace
    rest ← child_states children namespace vynil_namespace
    pure (
      record { child = child; state = one.0 } ∷ rest.0,
      record {
        distinct = one.1.distinct + rest.1.distinct;
        occurrences = one.1.occurrences + rest.1.occurrences;
      },
    )

  unfoldable pub get_children :
      String → String → String → String → Diag (List ChildWithState × ScrubStats)
  unfolding child_states extract_children_from_instance contains
  get_children kind namespace name vynil_namespace =
      if contains valid_kinds kind
      then (do
        inst ← get (get_instance kind namespace name) w.instance
        child_states (extract_children_from_instance (w.instance_json inst)) namespace
            vynil_namespace)
      else fail unknown_kind
