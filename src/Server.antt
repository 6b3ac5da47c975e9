-- ===== src/Server.antt =====
-- server/src: the errors of the diagnostic server (error.rs), its configuration (config.rs), and
-- the kinds and items that it knows (server.rs).
pub mod World
pub mod Anonymize
pub mod Access
pub mod Records
pub mod Instances
pub mod Children
pub mod LogText
pub mod Logs
pub mod ClusterInfo
pub mod Handler
pub mod Guards
pub mod Clean
pub mod Scrubbed
pub mod Answers
mod Tests
pub mod Cap
pub mod Private
use vynil.Prelude.{ℕ, String, Bool, List, [], ◌∷◌}

-- The texts inside of an error are dropped.
pub data DiagError : Type 0 where
  authorization_denied instance_not_found invalid_name_format unknown_kind unknown_item : DiagError
  authentication_required packages_disabled internal_error : DiagError
  kube_error serialization_error yaml_error : DiagError

unfoldable pub code : DiagError → String
code authorization_denied = "DIAG-001"
code instance_not_found = "DIAG-002"
code invalid_name_format = "DIAG-003"
code unknown_kind = "DIAG-004"
code unknown_item = "DIAG-005"
code authentication_required = "DIAG-006"
code packages_disabled = "DIAG-007"
code internal_error = "DIAG-500"
code kube_error = "DIAG-500"
code serialization_error = "DIAG-500"
code yaml_error = "DIAG-500"

unfoldable pub status_code : DiagError → ℕ
status_code authorization_denied = 403
status_code instance_not_found = 404
status_code invalid_name_format = 400
status_code unknown_kind = 404
status_code unknown_item = 404
status_code authentication_required = 401
status_code packages_disabled = 404
status_code internal_error = 500
status_code kube_error = 500
status_code serialization_error = 500
status_code yaml_error = 500

-- What the handler reads of the configuration.
pub record Config : Type 0 where
  pub trust_request_header : Bool
  pub vynil_namespace : String
  pub log_since_hours : ℕ
  pub log_cap_bytes : ℕ
  pub enable_packages : Bool

abbrev pub valid_kinds : List String
valid_kinds = "tenantinstances" ∷ "serviceinstances" ∷ "systeminstances" ∷ []

abbrev pub valid_items : List String
valid_items =
    "clusterinfo" ∷ "vynilconfig" ∷ "packages" ∷ "state" ∷ "children" ∷ "agentlog" ∷ "childlogs"
    ∷ "operatorlog" ∷ []
