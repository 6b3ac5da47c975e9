-- ===== src/Operator/Quiet.antt =====
-- The parts of a reconciliation (operator/src/instance_common.rs) that write no job.
use vynil.Prelude.{
  ℕ, String, Bool, true, false, Option, none, some, List, [], ◌∷◌, ◌≡◌, refl, ◌++◌, All,
}
use vynil.Kube.{
  Cluster, Call, History, Kube, pure, call, ◌>>=◌, ◌>>◌, apply_job, create_job, delete_job, get_crd,
  render,
}
use vynil.Kube.Keeps.{
  Keeps, Keeps-if, Keeps-bind, Keeps-pure, Keeps-fail, Keeps-lift, Keeps-attempt, Keeps-call-All,
}
use vynil.Result.{Result}
use vynil.Package.{
  VynilPackageRecommandation, VynilPackage, VynilPackageType, tenant, system, service,
  VynilPackageRequirement, custom_resource_definition, cluster_version, vynil_version,
}
use vynil.Instance.{
  init_from_version, Instance, EventNote, ApplicationCondition, ConditionsType, StatusField,
}
use vynil.Instance.Conditions.Lists.{have_condition, get_conditions_excluding}
use vynil.Status.{
  patch, clock, send_event, send_reason, set_condition, set_missing_requirement, set_missing_box,
  set_missing_package, set_missing_init_version,
}
use vynil.Requirements.{check_cluster_version, check_system, check_tenant, check_service}
use vynil.Prelude.Text.{contains}
use vynil.Operator.Recommend.{base_loop, push_if, build_base_recommendations, build_recommendations}
use vynil.Operator.Reconcile.{
  resolve_init_version, registry_auth, record_missing_version, verify_version, requested_version,
  value_entries, TemplateContext, check, check_requirements,
}

-- All calls but a rendering and those that write a job: apply, create and delete.
abbrev pub is_quiet : Call → Bool
is_quiet (render template ctx) = false
is_quiet (apply_job name def) = false
is_quiet (create_job def) = false
is_quiet (delete_job name) = false
is_quiet c = true

-- These parts keep whatever holds of each quiet call.
module _ (c : Cluster) (Q : Call → Type 0) (q : (x : Call) → is_quiet x ≡ true → Q x) where
  Keeps-quiet {ℓ} :
      {A : Type ℓ} (x : Call) (answer : History → Result A)
      → is_quiet x ≡ true
      → Keeps (All Q) (call x answer)
  Keeps-quiet x answer is_so = Keeps-call-All Q x answer (q x is_so)

  ruleset quiet =
      (Keeps-pure, Keeps-fail, Keeps-lift, Keeps-attempt, Keeps-if, Keeps-bind, Keeps-quiet, refl)

  check_vynil_version-quiet :
      (inst : Instance) (v : String) → Keeps (All Q) (check_system c inst (vynil_version v))
  unfolding check_system
  check_vynil_version-quiet inst v = search quiet

  check_cluster_version-quiet :
      (major minor : ℕ) → Keeps (All Q) (check_cluster_version c major minor)
  unfolding check_cluster_version
  check_cluster_version-quiet major minor = search quiet

  check_system-quiet :
      (inst : Instance) (req : VynilPackageRequirement) → Keeps (All Q) (check_system c inst req)
  unfolding check_system
  check_system-quiet inst (cluster_version major minor) = check_cluster_version-quiet major minor
  check_system-quiet inst (custom_resource_definition crd) = search quiet
  check_system-quiet inst _ = search quiet

  check_tenant-quiet :
      (inst : Instance) (req : VynilPackageRequirement) → Keeps (All Q) (check_tenant c inst req)
  unfolding check_tenant
  check_tenant-quiet inst (cluster_version major minor) = check_cluster_version-quiet major minor
  check_tenant-quiet inst (custom_resource_definition crd) = search quiet
  check_tenant-quiet inst _ = search quiet

  check_service-quiet :
      (inst : Instance) (req : VynilPackageRequirement) → Keeps (All Q) (check_service c inst req)
  unfolding check_service
  check_service-quiet inst (cluster_version major minor) = check_cluster_version-quiet major minor
  check_service-quiet inst (custom_resource_definition crd) = search quiet
  check_service-quiet inst _ = search quiet

  pub check-quiet :
      (kind : VynilPackageType) (inst : Instance) (req : VynilPackageRequirement)
      → Keeps (All Q) (check c kind inst req)
  unfolding check
  check-quiet tenant inst req = check_tenant-quiet inst req
  check-quiet system inst req = check_system-quiet inst req
  check-quiet service inst req = check_service-quiet inst req

  module _ (inst : Instance) where
    event-quiet :
        (warning : Bool) (reason : String) (note : EventNote) (action : String)
        → Keeps (All Q) (send_event c inst warning reason note action)
    unfolding send_event
    event-quiet warning reason note action = search quiet

    reason-quiet :
        (event reason action : String) → Keeps (All Q) (send_reason c inst event reason action)
    unfolding send_reason
    reason-quiet event reason action = search (quiet, event-quiet)

    patch-quiet :
        (conditions : List ApplicationCondition) (fields : List StatusField)
        → Keeps (All Q) (patch c inst conditions fields)
    unfolding patch
    patch-quiet conditions fields = search quiet

    clock-quiet : Keeps (All Q) (clock c inst)
    unfolding clock
    clock-quiet = record { at = λ h p. p }

    set_condition-quiet :
        (cond : ApplicationCondition) (types : List ConditionsType) (event : Kube (Unit {0}))
        → Keeps (All Q) event
        → Keeps (All Q) (set_condition c inst cond types event)
    unfolding set_condition
    set_condition-quiet cond types event k =
        Keeps-if (have_condition inst cond) (pure inst)
          (do
            result ← patch c inst (get_conditions_excluding inst types ++ cond ∷ []) []
            event
            pure result)
          (λ _. Keeps-pure inst)
          (λ _.
            Keeps-bind _ _ (patch-quiet _ []) (λ result. Keeps-bind _ _ k (λ _. Keeps-pure result)))

    ruleset status_rules = (quiet, clock-quiet, set_condition-quiet, event-quiet, reason-quiet)

    pub set_missing_box-quiet : (jukebox : String) → Keeps (All Q) (set_missing_box c inst jukebox)
    unfolding set_missing_box
    set_missing_box-quiet jukebox = search status_rules

    pub set_missing_package-quiet :
        (category name : String) → Keeps (All Q) (set_missing_package c inst category name)
    unfolding set_missing_package
    set_missing_package-quiet category name = search status_rules

    set_missing_requirement-quiet :
        (reason : String) → Keeps (All Q) (set_missing_requirement c inst reason)
    unfolding set_missing_requirement
    set_missing_requirement-quiet reason = search status_rules

    set_missing_init_version-quiet :
        (version : String) → Keeps (All Q) (set_missing_init_version c inst version)
    unfolding set_missing_init_version
    set_missing_init_version-quiet version = search status_rules

    pub check_requirements-quiet :
        (reqs : List VynilPackageRequirement) → Keeps (All Q) (check_requirements c inst reqs)
    unfolding check_requirements
    check_requirements-quiet [] = search quiet
    check_requirements-quiet (req ∷ reqs) =
        Keeps-bind _ _ (check-quiet inst.kind inst req) (λ checked.
          Keeps-if checked.0 (check_requirements c inst reqs) _ (λ _. check_requirements-quiet reqs)
            (λ _. Keeps-bind _ _ (set_missing_requirement-quiet checked.1) (λ _. search quiet)))

    record_missing_version-quiet :
        (kind : VynilPackageType) (version : String)
        → Keeps (All Q) (record_missing_version c inst kind version)
    unfolding record_missing_version
    record_missing_version-quiet system version = Keeps-pure inst
    record_missing_version-quiet tenant version = set_missing_init_version-quiet version
    record_missing_version-quiet service version = set_missing_init_version-quiet version

    registry_auth-quiet :
        (secret : Option String) (pck : VynilPackage) → Keeps (All Q) (registry_auth c secret pck)
    unfolding registry_auth
    registry_auth-quiet none pck = search quiet
    registry_auth-quiet (some secret) pck = search quiet

    verify_version-quiet :
        (pck : VynilPackage) (pull_secret : Option String) (requested : String)
        → Keeps (All Q) (verify_version c inst pck pull_secret requested)
    unfolding verify_version
    verify_version-quiet pck pull_secret requested =
        search (quiet, registry_auth-quiet, record_missing_version-quiet)

    requested_version-quiet :
        (pck : VynilPackage) (cached : List VynilPackage) (pull_secret requested : Option String)
        → Keeps (All Q) (requested_version c inst pck cached pull_secret requested)
    unfolding requested_version
    requested_version-quiet pck cached pull_secret none = Keeps-pure none
    requested_version-quiet pck cached pull_secret (some requested) =
        search (quiet, verify_version-quiet)

    pub resolve_init_version-quiet :
        (pck : VynilPackage) (cached : List VynilPackage) (pull_secret : Option String)
        → Keeps (All Q) (resolve_init_version c inst pck cached pull_secret)
    unfolding resolve_init_version
    resolve_init_version-quiet pck cached pull_secret =
        requested_version-quiet pck cached pull_secret (init_from_version inst)

  base_loop-quiet :
      (current : List String) (recos : List VynilPackageRecommandation)
      (crds services : List String)
      → Keeps (All Q) (base_loop c current recos crds services)
  unfolding base_loop
  base_loop-quiet current [] crds services = search quiet
  base_loop-quiet current (VynilPackageRecommandation.custom_resource_definition crd ∷ recos) crds
        services =
      Keeps-bind _ _ (Keeps-quiet (get_crd crd) c.crd refl)
        (λ found. base_loop-quiet current recos (push_if found crd crds) services)
  base_loop-quiet current (VynilPackageRecommandation.system_service svc ∷ recos) crds services =
      base_loop-quiet current recos crds (push_if (contains current svc) svc services)
  base_loop-quiet current (VynilPackageRecommandation.tenant_service svc ∷ recos) crds services =
      base_loop-quiet current recos crds services

  build_base-quiet :
      (recos : Option (List VynilPackageRecommandation))
      → Keeps (All Q) (build_base_recommendations c recos)
  unfolding build_base_recommendations
  build_base-quiet none = search quiet
  build_base-quiet (some recos) = search (quiet, base_loop-quiet)

  pub build_recommendations-quiet :
      (kind : VynilPackageType) (inst : Instance) (recos : Option (List VynilPackageRecommandation))
      → Keeps (All Q) (build_recommendations c kind inst recos)
  unfolding build_recommendations
  build_recommendations-quiet tenant inst recos = search (quiet, build_base-quiet)
  build_recommendations-quiet system inst recos = search (quiet, build_base-quiet)
  build_recommendations-quiet service inst recos = search (quiet, build_base-quiet)

  pub value_entries-quiet :
      (inst : Instance) (script : Option String) (ctx : TemplateContext)
      → Keeps (All Q) (value_entries c inst script ctx)
  unfolding value_entries
  value_entries-quiet inst none ctx = search quiet
  value_entries-quiet inst (some script) ctx = search quiet
