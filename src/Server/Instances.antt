-- ===== src/Server/Instances.antt =====
-- server/src/collect/state.rs, and the test of existence in server/src/server.rs.
use vynil.Prelude.{String, Bool, false, Option, none, some, is_some, if◌then◌else◌}
use vynil.Prelude.Text.{contains}
use vynil.Instance.{Instance, InstanceStatus}
use vynil.Server.{valid_kinds, unknown_kind, serialization_error, yaml_error}
use vynil.Server.World.{World, get_instance, Diag, pure, fail, ask, get, require, ◌>>=◌}
use vynil.Server.Anonymize.{ScrubStats, scrub}

strip_status : Option InstanceStatus → Option InstanceStatus
strip_status none = none
strip_status (some status) = some (record status { tfstate = none; rhaistate = none })

-- The states of the tools, which hold secrets, are dropped.
unfoldable pub strip : Instance → Instance
unfolding strip_status
strip inst = record inst { status = strip_status inst.status }

module _ (w : World) where
  -- `get_tenant_instance`, `get_service_instance` and `get_system_instance`.
  unfoldable pub get_stripped : String → String → String → Diag Instance
  unfolding strip
  get_stripped kind namespace name =
      if contains valid_kinds kind
      then (do inst ← get (get_instance kind namespace name) w.instance; pure (strip inst))
      else fail unknown_kind

  -- The document of an instance that was read.
  unfoldable pub state_document : String → String → Instance → Diag (String × ScrubStats)
  unfolding scrub
  state_document namespace vynil_namespace inst = do
    json ← require serialization_error (w.instance_json inst)
    yaml ← require yaml_error (w.yaml json)
    scrub w yaml namespace vynil_namespace

  unfoldable pub get_instance_state : String → String → String → String → Diag (String × ScrubStats)
  unfolding get_stripped state_document
  get_instance_state kind namespace name vynil_namespace =
      get_stripped kind namespace name >>= state_document namespace vynil_namespace

  -- An error of the API counts as an instance that is not there.
  unfoldable pub check_instance_exists : String → String → String → Diag Bool
  unfolding contains
  check_instance_exists kind namespace name =
      if contains valid_kinds kind
      then (do answer ← ask (get_instance kind namespace name) w.instance; pure (is_some answer))
      else pure false
