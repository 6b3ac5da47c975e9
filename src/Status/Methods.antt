-- ===== src/Status/Methods.antt =====
-- The status updates of common/src/instance_macros.rs and instancesystem.rs together.
use vynil.Prelude.{String, List}
use vynil.Instance.{Children, Instance}
use vynil.Kube.{Cluster, Kube}
use vynil.Status.{
  set_agent_started, set_missing_box, set_missing_package, set_missing_requirement,
  set_missing_init_version,
}
use vynil.Status.Updates.{
  set_tfstate, set_status_tofu_failed, set_rhaistate, set_status_rhai_failed, set_status_ready,
  set_status_ready_system, set_status_befores, set_status_vitals, set_status_scalables,
  set_status_others, set_status_posts, set_status_systems, set_status_before_failed,
  set_status_vital_failed, set_status_scalable_failed, set_status_other_failed,
  set_status_post_failed, set_status_init_failed, set_status_schedule_backup_failed,
  set_status_crd_failed, set_status_system_failed, set_status_crds,
}

-- The status updates, as data.
pub data Update : Type 0 where
  agent_started : Update
  missing_box : String → Update
  missing_package : String → String → Update
  missing_requirement : String → Update
  missing_init_version : String → Update
  tfstate : String → Update
  tofu_failed : String → String → Update
  rhaistate : String → Update
  rhai_failed : String → String → Update
  ready : String → Update
  ready_system : String → Update
  befores : List Children → Update
  vitals : List Children → Update
  scalables : List Children → Update
  others : List Children → Update
  posts : List Children → Update
  systems : List Children → Update
  before_failed : String → Update
  vital_failed : String → Update
  scalable_failed : String → Update
  other_failed : String → Update
  post_failed : String → Update
  init_failed : String → Update
  schedule_backup_failed : String → Update
  crd_failed : String → Update
  system_failed : String → Update
  crds : List String → Update

-- The method that an update stands for.
unfoldable pub run : Cluster → Instance → Update → Kube Instance
unfolding set_agent_started set_missing_box set_missing_package set_missing_requirement
    set_missing_init_version set_tfstate set_status_tofu_failed set_rhaistate set_status_rhai_failed
    set_status_ready set_status_ready_system set_status_befores set_status_vitals
    set_status_scalables set_status_others set_status_posts set_status_systems
    set_status_before_failed set_status_vital_failed set_status_scalable_failed
    set_status_other_failed set_status_post_failed set_status_init_failed
    set_status_schedule_backup_failed set_status_crd_failed set_status_system_failed set_status_crds
run c inst agent_started = set_agent_started c inst
run c inst (missing_box a) = set_missing_box c inst a
run c inst (missing_package a b) = set_missing_package c inst a b
run c inst (missing_requirement a) = set_missing_requirement c inst a
run c inst (missing_init_version a) = set_missing_init_version c inst a
run c inst (tfstate a) = set_tfstate c inst a
run c inst (tofu_failed a b) = set_status_tofu_failed c inst a b
run c inst (rhaistate a) = set_rhaistate c inst a
run c inst (rhai_failed a b) = set_status_rhai_failed c inst a b
run c inst (ready a) = set_status_ready c inst a
run c inst (ready_system a) = set_status_ready_system c inst a
run c inst (befores a) = set_status_befores c inst a
run c inst (vitals a) = set_status_vitals c inst a
run c inst (scalables a) = set_status_scalables c inst a
run c inst (others a) = set_status_others c inst a
run c inst (posts a) = set_status_posts c inst a
run c inst (systems a) = set_status_systems c inst a
run c inst (before_failed a) = set_status_before_failed c inst a
run c inst (vital_failed a) = set_status_vital_failed c inst a
run c inst (scalable_failed a) = set_status_scalable_failed c inst a
run c inst (other_failed a) = set_status_other_failed c inst a
run c inst (post_failed a) = set_status_post_failed c inst a
run c inst (init_failed a) = set_status_init_failed c inst a
run c inst (schedule_backup_failed a) = set_status_schedule_backup_failed c inst a
run c inst (crd_failed a) = set_status_crd_failed c inst a
run c inst (system_failed a) = set_status_system_failed c inst a
run c inst (crds a) = set_status_crds c inst a
