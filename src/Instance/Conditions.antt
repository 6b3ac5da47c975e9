-- ===== src/Instance/Conditions.antt =====
-- The conditions of an instance's status: the constructors that common/src/instance_macros.rs and
-- instancesystem.rs generate. The first number is the time.
pub mod Lists
use vynil.Prelude.{ℕ, String, Bool, true, false, some, [], ◌∷◌}
use vynil.Prelude.Text.{concat}
use vynil.Instance.{
  ApplicationCondition, ConditionsType, ready, installed, agent_started, tofu_installed,
  before_applied, vital_applied, scalable_applied, init_from, schedule_backup, other_applied,
  rhai_applied, post_applied, crd_applied, system_applied,
}

unfoldable pub new : ℕ → String → Bool → ConditionsType → ℕ → ApplicationCondition
new now message status condition_type generation = record {
  last_transition_time = some now;
  message = message;
  condition_type = condition_type;
  status = status;
  generation = generation;
}

unfoldable pub missing_package : ℕ → (category name : String) → ℕ → ApplicationCondition
unfolding new
missing_package now category name generation =
    new now (concat ("Package " ∷ category ∷ "/" ∷ name ∷ " is missing" ∷ [])) false agent_started
      generation

unfoldable pub missing_box : ℕ → String → ℕ → ApplicationCondition
unfolding new
missing_box now name generation =
    new now (concat ("JukeBox " ∷ name ∷ " is missing" ∷ [])) false agent_started generation

abbrev pub version_not_found : String → String
version_not_found version =
    concat
      ("[E_INIT_VERSION_NOT_FOUND] Version " ∷ version ∷ " introuvable dans le registre OCI" ∷ [])

unfoldable pub init_version_ko : ℕ → String → ℕ → ApplicationCondition
unfolding new
init_version_ko now version generation =
    new now (version_not_found version) false init_from generation

unfoldable pub ready_ok : ℕ → ℕ → ApplicationCondition
unfolding new
ready_ok now generation = new now "Installed succesfully" true ready generation

unfoldable pub ready_ko : ℕ → ℕ → ApplicationCondition
unfolding new
ready_ko now generation = new now "No successful install" false ready generation

unfoldable pub installed_ok : ℕ → ℕ → ApplicationCondition
unfolding new
installed_ok now generation = new now "Installed succesfully" true installed generation

unfoldable pub installed_ko : ℕ → String → ℕ → ApplicationCondition
unfolding new
installed_ko now message generation = new now message false installed generation

unfoldable pub agent_started_ok : ℕ → ℕ → ApplicationCondition
unfolding new
agent_started_ok now generation = new now "Agent started" true agent_started generation

unfoldable pub missing_requirement : ℕ → String → ℕ → ApplicationCondition
unfolding new
missing_requirement now message generation = new now message false agent_started generation

unfoldable pub tofu_ok : ℕ → ℕ → ApplicationCondition
unfolding new
tofu_ok now generation = new now "Tofu layer applied succesfully" true tofu_installed generation

unfoldable pub tofu_ko : ℕ → String → ℕ → ApplicationCondition
unfolding new
tofu_ko now message generation = new now message false tofu_installed generation

unfoldable pub rhai_ok : ℕ → ℕ → ApplicationCondition
unfolding new
rhai_ok now generation = new now "Custom rhai script succeed" true rhai_applied generation

unfoldable pub rhai_ko : ℕ → String → ℕ → ApplicationCondition
unfolding new
rhai_ko now message generation = new now message false rhai_applied generation

unfoldable pub before_ok : ℕ → ℕ → ApplicationCondition
unfolding new
before_ok now generation =
    new now "befores templates applied succesfully" true before_applied generation

unfoldable pub before_ko : ℕ → String → ℕ → ApplicationCondition
unfolding new
before_ko now message generation = new now message false before_applied generation

unfoldable pub vital_ok : ℕ → ℕ → ApplicationCondition
unfolding new
vital_ok now generation =
    new now "vitals templates applied succesfully" true vital_applied generation

unfoldable pub vital_ko : ℕ → String → ℕ → ApplicationCondition
unfolding new
vital_ko now message generation = new now message false vital_applied generation

unfoldable pub scalable_ok : ℕ → ℕ → ApplicationCondition
unfolding new
scalable_ok now generation =
    new now "Scalables templates applied succesfully" true scalable_applied generation

unfoldable pub scalable_ko : ℕ → String → ℕ → ApplicationCondition
unfolding new
scalable_ko now message generation = new now message false scalable_applied generation

unfoldable pub other_ok : ℕ → ℕ → ApplicationCondition
unfolding new
other_ok now generation = new now "Templates applied succesfully" true other_applied generation

unfoldable pub other_ko : ℕ → String → ℕ → ApplicationCondition
unfolding new
other_ko now message generation = new now message false other_applied generation

unfoldable pub post_ok : ℕ → ℕ → ApplicationCondition
unfolding new
post_ok now generation = new now "Templates applied succesfully" true post_applied generation

unfoldable pub post_ko : ℕ → String → ℕ → ApplicationCondition
unfolding new
post_ko now message generation = new now message false post_applied generation

unfoldable pub init_ko : ℕ → String → ℕ → ApplicationCondition
unfolding new
init_ko now message generation = new now message false init_from generation

unfoldable pub schedule_ko : ℕ → String → ℕ → ApplicationCondition
unfolding new
schedule_ko now message generation = new now message false schedule_backup generation

unfoldable pub crd_ok : ℕ → ℕ → ApplicationCondition
unfolding new
crd_ok now generation = new now "CRD(s) applied succesfully" true crd_applied generation

unfoldable pub crd_ko : ℕ → String → ℕ → ApplicationCondition
unfolding new
crd_ko now message generation = new now message false crd_applied generation

unfoldable pub system_ok : ℕ → ℕ → ApplicationCondition
unfolding new
system_ok now generation = new now "Templates applied succesfully" true system_applied generation

unfoldable pub system_ko : ℕ → String → ℕ → ApplicationCondition
unfolding new
system_ko now message generation = new now message false system_applied generation
