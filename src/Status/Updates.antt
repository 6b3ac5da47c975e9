-- ===== src/Status/Updates.antt =====
-- The setters with which the agent reports the stages of an installation
-- (common/src/instance_macros.rs, common/src/instancesystem.rs).
use vynil.Prelude.{String, none, some, List, [], ◌∷◌, length}
use vynil.Instance.{
  ready, installed, agent_started, tofu_installed, before_applied, vital_applied, scalable_applied,
  init_from, schedule_backup, other_applied, rhai_applied, post_applied, crd_applied,
  system_applied, Children, Instance, StatusField, no_note, applied,
}
use vynil.Instance.Conditions.{
  ready_ok, installed_ok, tofu_ok, tofu_ko, rhai_ok, rhai_ko, before_ok, before_ko, vital_ok,
  vital_ko, scalable_ok, scalable_ko, other_ok, other_ko, post_ok, post_ko, init_ko, schedule_ko,
  crd_ok, crd_ko, system_ok, system_ko,
}
use vynil.Kube.{Cluster, Kube, lift, ◌>>=◌}
use vynil.Status.{set_applied, set_failed}

-- The digest of an instance's options.
unfoldable pub get_options_digest : Cluster → Instance → String
get_options_digest c inst = elim inst.options [ none ↦ c.digest "" | some text ↦ c.digest text ]

module _ (c : Cluster) (inst : Instance) where
  unfoldable pub set_tfstate : String → Kube Instance
  unfolding set_applied
  set_tfstate tfstate = do
    encoded ← lift (c.encoded tfstate)
    set_applied c inst (λ now generation. tofu_ok now generation ∷ []) (tofu_installed ∷ [])
        (StatusField.tfstate encoded ∷ []) "TofuApplySucceed" no_note "TofuApply"

  unfoldable pub set_status_tofu_failed : String → String → Kube Instance
  unfolding set_failed
  set_status_tofu_failed tfstate reason = do
    encoded ← lift (c.encoded tfstate)
    set_failed c inst tofu_ko tofu_installed (StatusField.tfstate encoded ∷ []) "TofuApplyFailed"
        reason "TofuApply"

  unfoldable pub set_rhaistate : String → Kube Instance
  unfolding set_applied
  set_rhaistate rhaistate = do
    encoded ← lift (c.encoded rhaistate)
    set_applied c inst (λ now generation. rhai_ok now generation ∷ []) (rhai_applied ∷ [])
        (StatusField.rhaistate encoded ∷ []) "RhaiApplySucceed" no_note "RhaiApply"

  unfoldable pub set_status_rhai_failed : String → String → Kube Instance
  unfolding set_failed
  set_status_rhai_failed rhaistate reason = do
    encoded ← lift (c.encoded rhaistate)
    set_failed c inst rhai_ko rhai_applied (StatusField.rhaistate encoded ∷ []) "RhaiApplyFailed"
        reason "RhaiApply"

  -- `set_status_ready` of tenant and service instances.
  unfoldable pub set_status_ready : String → Kube Instance
  unfolding set_applied get_options_digest
  set_status_ready tag =
      set_applied c inst
        (λ now generation. ready_ok now generation ∷ installed_ok now generation ∷ [])
        (agent_started ∷ before_applied ∷ ready ∷ installed ∷ init_from ∷ schedule_backup ∷ [])
        (StatusField.tag tag ∷ StatusField.digest (get_options_digest c inst) ∷ []) "InstallSucceed"
        no_note "Install"

  -- `set_status_ready` of system instances.
  unfoldable pub set_status_ready_system : String → Kube Instance
  unfolding set_applied get_options_digest
  set_status_ready_system tag =
      set_applied c inst
        (λ now generation. ready_ok now generation ∷ installed_ok now generation ∷ [])
        (agent_started ∷ ready ∷ installed ∷ [])
        (StatusField.tag tag ∷ StatusField.digest (get_options_digest c inst) ∷ []) "InstallSucceed"
        no_note "Install"

  unfoldable pub set_status_befores : List Children → Kube Instance
  unfolding set_applied
  set_status_befores list =
      set_applied c inst (λ now generation. before_ok now generation ∷ []) (before_applied ∷ [])
        (StatusField.children "befores" list ∷ []) "BeforeApplySucceed"
        (applied (length list) "Objects") "BeforeApply"

  unfoldable pub set_status_vitals : List Children → Kube Instance
  unfolding set_applied
  set_status_vitals list =
      set_applied c inst (λ now generation. vital_ok now generation ∷ []) (vital_applied ∷ [])
        (StatusField.children "vitals" list ∷ []) "VitalApplySucceed"
        (applied (length list) "Objects") "VitalApply"

  unfoldable pub set_status_scalables : List Children → Kube Instance
  unfolding set_applied
  set_status_scalables list =
      set_applied c inst (λ now generation. scalable_ok now generation ∷ []) (scalable_applied ∷ [])
        (StatusField.children "scalables" list ∷ []) "ScalableApplySucceed"
        (applied (length list) "Objects") "ScalableApply"

  unfoldable pub set_status_others : List Children → Kube Instance
  unfolding set_applied
  set_status_others list =
      set_applied c inst (λ now generation. other_ok now generation ∷ []) (other_applied ∷ [])
        (StatusField.children "others" list ∷ []) "OtherApplySucceed"
        (applied (length list) "Objects") "OtherApply"

  unfoldable pub set_status_posts : List Children → Kube Instance
  unfolding set_applied
  set_status_posts list =
      set_applied c inst (λ now generation. post_ok now generation ∷ []) (post_applied ∷ [])
        (StatusField.children "posts" list ∷ []) "PostApplySucceed"
        (applied (length list) "Objects") "PostApply"

  unfoldable pub set_status_systems : List Children → Kube Instance
  unfolding set_applied
  set_status_systems list =
      set_applied c inst (λ now generation. system_ok now generation ∷ []) (system_applied ∷ [])
        (StatusField.children "systems" list ∷ []) "SystemApplySucceed"
        (applied (length list) "Objects") "SystemApply"

  unfoldable pub set_status_before_failed : String → Kube Instance
  unfolding set_failed
  set_status_before_failed reason =
      set_failed c inst before_ko before_applied [] "BeforeApplyFailed" reason "BeforeApply"

  unfoldable pub set_status_vital_failed : String → Kube Instance
  unfolding set_failed
  set_status_vital_failed reason =
      set_failed c inst vital_ko vital_applied [] "VitalApplyFailed" reason "VitalApply"

  unfoldable pub set_status_scalable_failed : String → Kube Instance
  unfolding set_failed
  set_status_scalable_failed reason =
      set_failed c inst scalable_ko scalable_applied [] "ScalableApplyFailed" reason "ScalableApply"

  unfoldable pub set_status_other_failed : String → Kube Instance
  unfolding set_failed
  set_status_other_failed reason =
      set_failed c inst other_ko other_applied [] "OtherApplyFailed" reason "OtherApply"

  unfoldable pub set_status_post_failed : String → Kube Instance
  unfolding set_failed
  set_status_post_failed reason =
      set_failed c inst post_ko post_applied [] "OtherApplyFailed" reason "OtherApply"

  unfoldable pub set_status_init_failed : String → Kube Instance
  unfolding set_failed
  set_status_init_failed reason =
      set_failed c inst init_ko init_from [] "InitFromFail" reason "InitFrom"

  unfoldable pub set_status_schedule_backup_failed : String → Kube Instance
  unfolding set_failed
  set_status_schedule_backup_failed reason =
      set_failed c inst schedule_ko schedule_backup [] "ScheduleBackupFailed" reason
        "ScheduleBackup"

  unfoldable pub set_status_crd_failed : String → Kube Instance
  unfolding set_failed
  set_status_crd_failed reason =
      set_failed c inst crd_ko crd_applied [] "CRDApplyFailed" reason "CRDApply"

  unfoldable pub set_status_system_failed : String → Kube Instance
  unfolding set_failed
  set_status_system_failed reason =
      set_failed c inst system_ko system_applied [] "SystemApplyFailed" reason "SystemApply"

  unfoldable pub set_status_crds : List String → Kube Instance
  unfolding set_applied
  set_status_crds list =
      set_applied c inst (λ now generation. crd_ok now generation ∷ []) (crd_applied ∷ [])
        (StatusField.crds list ∷ []) "CRDApplySucceed"
        (applied (length list) "CustomResourceDefinition") "CRDApply"
