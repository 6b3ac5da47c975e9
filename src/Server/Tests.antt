-- ===== src/Server/Tests.antt =====
-- Runs of the diagnostic server.
use vynil.Prelude.{◌+◌, ◌≤◌, true, false, none, some, [], ◌∷◌, ◌≡◌, refl, all, any}
use vynil.Prelude.Json.{null}
use vynil.Examples.{fresh_instance}
use vynil.Server.{Config}
use vynil.Server.World.{World, Texts, ◌>>=◌, ok}
use vynil.Server.Anonymize.{scrub_secrets, no_stats}
use vynil.Server.LogText.{cap, floor_boundary, truncation_mark}
use vynil.Server.Handler.{yaml, Request, Response, instance_handler}
use vynil.Server.Guards.{reads_cluster, Admitted, instance_handler-Admitted}
use vynil.Server.Cap.{len-cap}
use Prim.Native.String.{len}
use text.Mathlib.Text.{is_char_boundary}
use vynil.Server.Clean.{is_gone, scrub_secrets-is_gone}
use vynil.Server.Answers.{IsSafe, instance_handler-IsSafe}
use vynil.Server.Private.{
  claims, with_states, instance_handler-claims, get_instance_state-with_states,
}
use vynil.Server.Instances.{get_instance_state}

abbrev some_texts : Texts
some_texts = record {
  from_utf8 = λ bytes. none;
  encoded = λ bytes. "";
  decoded = λ s. none;
  in_set_order = λ l. l;
  apply_patterns = λ s. s;
}

-- A cluster that knows the token, allows the access, and holds one secret.
abbrev some_world : World
some_world = record {
  token_review = λ h. some (
      some (record {
        authenticated = some true;
        user = some (record { username = some "alice"; groups = none });
      }));
  access_review = λ h. some (some true);
  instance = λ h. some fresh_instance;
  instances = λ h. some [];
  secrets = λ h. some (record { bytes = none; string_data = some ("Sup3rL0ng" ∷ []) } ∷ []);
  jobs = λ h. some [];
  pods = λ h. some [];
  pod = λ h. none;
  logs = λ h. none;
  object = λ h. none;
  match_labels = λ h. none;
  config_map = λ h. none;
  nodes = λ h. some [];
  api_groups = λ h. none;
  apiserver_version = λ h. some "v1.30.0";
  deployments = λ h. none;
  storage_classes = λ h. some [];
  ingress_classes = λ h. some [];
  texts = some_texts;
  instance_json = λ inst. some null;
  config_yaml = λ entries. none;
  yaml = λ json. some "password: Sup3rL0ng";
  json_text = λ json. none;
  json_value = λ s. none;
  as_child = λ json. none;
}

abbrev some_config : Config
some_config = record {
  trust_request_header = false;
  vynil_namespace = "vynil-system";
  log_since_hours = 5;
  log_cap_bytes = 2097152;
  enable_packages = true;
}

abbrev state_request : Request
state_request = record {
  headers = record {
    remote_user = none;
    remote_groups = [];
    authorization = some (some "Bearer t0ken");
  };
  ns = "team";
  kind = "tenantinstances";
  name = "app";
  item = "state";
}

reads : any reads_cluster (instance_handler some_world some_config state_request []).1 ≡ true
unfolding instance_handler ◌>>=◌
reads = refl

instance_handler-Admitted_example : Admitted some_world some_config state_request
instance_handler-Admitted_example =
    instance_handler-Admitted some_world some_config state_request reads

abbrev state_response : Response
state_response = record {
  body = yaml "password: <anonymized>";
  redactions = some (record { distinct = 1; occurrences = 1 });
}

answers : (instance_handler some_world some_config state_request []).0 ≡ ok state_response
unfolding instance_handler ◌>>=◌
answers = refl

instance_handler-IsSafe_example : IsSafe some_world some_config state_request state_response
instance_handler-IsSafe_example =
    instance_handler-IsSafe some_world some_config state_request state_response answers

scrub_secrets-is_gone_example :
    all
      (is_gone (scrub_secrets "a Sup3rL0ng b" ("Sup3rL0ng" ∷ "L0ngWord" ∷ []) no_stats).0)
      ("Sup3rL0ng" ∷ "L0ngWord" ∷ [])
    ≡ true
scrub_secrets-is_gone_example =
    scrub_secrets-is_gone "a Sup3rL0ng b" ("Sup3rL0ng" ∷ "L0ngWord" ∷ []) no_stats

-- Anyone may say to be the administrator.
abbrev forged : Request
forged = claims (some (some "admin")) (some "system:masters" ∷ []) state_request

instance_handler-claims_example :
    instance_handler some_world some_config forged
    ≡ instance_handler some_world some_config state_request
instance_handler-claims_example =
    instance_handler-claims some_world some_config (some (some "admin"))
      (some "system:masters" ∷ []) state_request refl

get_instance_state-with_states_example :
    get_instance_state
      (with_states (some "key: hidden") none some_world)
      "tenantinstances"
      "team"
      "app"
      "vynil-system"
      []
    ≡ get_instance_state some_world "tenantinstances" "team" "app" "vynil-system" []
get_instance_state-with_states_example =
    get_instance_state-with_states some_world (some "key: hidden") none "tenantinstances" "team"
      "app" "vynil-system" []

len-cap_example :
    (is_char_boundary "aéé" (floor_boundary "aéé" 2) ≡ true)
    × (len (cap "aéé" 2) ≤ 2 + len truncation_mark)
len-cap_example = len-cap "aéé" 2

capped : cap "aéé" 2 ≡ "a\n... [truncated]"
unfolding cap
capped = refl
