-- ===== src/Operator/Reconcile.antt =====
-- operator/src/instance_common.rs: `resolve_init_version` and `do_reconcile`, with the
-- `check_requirements` of operator/src/instancetenant.rs, instanceservice.rs and instancesystem.rs.
-- The renderer and the YAML reader are one call, `render`, with the context that it is given.
use vynil.Prelude.{
  ◌*◌, String, Bool, true, false, Option, none, some, List, [], ◌∷◌, is_some, any, ◌==◌, ◌&&◌,
  if◌then◌else◌,
}
use vynil.Prelude.Dict.{Dict, lookup, insert}
use vynil.Prelude.Json.{Json, bool, string}
use vynil.Prelude.Text.{concat, join}
use vynil.Result.{Result, ok, missing_init_version}
use vynil.Package.{VynilPackage, VynilPackageType, tenant, system, service, VynilPackageRequirement}
use vynil.Instance.{Instance, type_name, current_tag, init_from_version}
use vynil.Kube.{
  Cluster, Kube, Job, RegistryAuth, anonymous, touch, resolve_registry_auth, verify_tag,
  eval_map_string, remove_annotation, get_job, render, pure, fail, lift, call, attempt, ◌>>=◌, ◌>>◌,
}
use vynil.Status.{
  set_missing_box, set_missing_package, set_missing_requirement, set_missing_init_version,
}
use vynil.Status.Updates.{get_options_digest}
use vynil.Requirements.{Checked, check_system, check_tenant, check_service}
use vynil.Operator.{Action, requeue}
use vynil.Operator.Jobs.{delete_job_and_wait, upsert_job}
use vynil.Operator.Recommend.{RecoContext, build_recommendations}
use vynil.Operator.Select.{Cache, JukeCacheItem, is_named, select_package}

-- The context of a template, a JSON object.
abbrev pub TemplateContext : Type 0
TemplateContext = Dict Json

abbrev pub quarter : Action
quarter = requeue (15 * 60)

-- `{type}--{namespace}--{name}`.
unfoldable pub job_name : Instance → String
job_name inst = concat (type_name inst.kind ∷ "--" ∷ inst.namespace ∷ "--" ∷ inst.name ∷ [])

unfoldable pub is_suspended : Instance → Bool
is_suspended inst = elim (lookup "vynil.solidite.fr/suspend" inst.annotations) [
  | none ↦ false
  | some v ↦ v == "true"
]

-- What both operations put in the context first.
unfoldable pub base_entries : Cluster → Instance → String → TemplateContext → TemplateContext
unfolding job_name get_options_digest
base_entries c inst action ctx = insert "oci_mount" (bool false) (
    insert "digest" (string (get_options_digest c inst)) (
      insert "job_name" (string (job_name inst)) (
        insert "package_action" (string action) (
          insert "package_type" (string (type_name inst.kind))
            (insert "namespace" (string inst.namespace) (insert "name" (string inst.name) ctx))))))

unfoldable pub secret_entries : Option String → TemplateContext → TemplateContext
secret_entries (some ps) ctx =
    insert "pull_secret" (string ps) (insert "use_secret" (bool true) ctx)
secret_entries none ctx = insert "use_secret" (bool false) ctx

unfoldable pub image_entries : String → VynilPackage → TemplateContext → TemplateContext
image_entries tag pck ctx =
    insert "registry" (string pck.registry)
      (insert "image" (string pck.image) (insert "tag" (string tag) ctx))

unfoldable pub reco_entries : RecoContext → TemplateContext → TemplateContext
reco_entries recos ctx = insert "rec_tenant_services" (string (join "," recos.tenant_services)) (
    insert "rec_system_services" (string (join "," recos.system_services))
      (insert "rec_crds" (string (join "," recos.crds)) ctx))

module _ (c : Cluster) where
  -- `check_system`, `check_tenant` or `check_service`, by the kind of the instance.
  unfoldable pub check : VynilPackageType → Instance → VynilPackageRequirement → Kube Checked
  check system inst req = check_system c inst req
  check tenant inst req = check_tenant c inst req
  check service inst req = check_service c inst req

  -- The value script of a package, which sees the instance, evaluated into the context.
  unfoldable pub value_entries : Instance → Option String → TemplateContext → Kube TemplateContext
  value_entries inst (some value_script) ctx = do
    script ← lift (c.unquoted value_script)
    val ← call (eval_map_string inst script) c.map_string
    pure (insert "ctrl_values" (string (c.debug_text val)) ctx)
  value_entries inst none ctx = pure (insert "ctrl_values" (string "\"{}\"") ctx)

  unfoldable pub registry_auth : Option String → VynilPackage → Kube RegistryAuth
  registry_auth (some secret) pck = call (resolve_registry_auth secret pck.registry) c.registry_auth
  registry_auth none pck = pure anonymous

  module _ (inst : Instance) where
    -- The first requirement that fails is recorded, and says when to try again.
    unfoldable pub check_requirements : List VynilPackageRequirement → Kube (Option Action)
    unfolding check
    check_requirements [] = pure none
    check_requirements (req ∷ reqs) = do
      checked ← check inst.kind inst req
      let rest = check_requirements reqs
      let failed = do set_missing_requirement c inst checked.1; pure (some (requeue checked.2))
      if checked.0 then rest else failed

    -- System instances do nothing here.
    unfoldable pub record_missing_version : VynilPackageType → String → Kube Instance
    record_missing_version system version = pure inst
    record_missing_version kind version = set_missing_init_version c inst version

    unfoldable pub verify_version : VynilPackage → Option String → String → Kube (Option String)
    unfolding registry_auth record_missing_version
    verify_version pck pull_secret requested = do
      auth ← registry_auth pull_secret pck
      exists ← call (verify_tag pck.registry pck.image requested auth) c.tag_exists
      if exists then pure (some requested) else (do
        record_missing_version inst.kind requested
        fail (missing_init_version requested))

    unfoldable pub requested_version :
        VynilPackage → List VynilPackage → Option String → Option String → Kube (Option String)
    unfolding verify_version
    requested_version pck cached pull_secret none = pure none
    requested_version pck cached pull_secret (some requested) =
        if current_tag inst == ""
        then (if any (λ p. is_named inst p && p.tag == requested) cached
            then pure (some requested)
            else verify_version pck pull_secret requested)
        else pure none

    -- The version of `initFrom`, where one is asked for and nothing is installed yet.
    unfoldable pub resolve_init_version :
        VynilPackage → List VynilPackage → Option String → Kube (Option String)
    unfolding requested_version
    resolve_init_version pck cached pull_secret =
        requested_version pck cached pull_secret (init_from_version inst)

    unfoldable pub found_job : Result (Option Job) → Bool
    found_job (ok j) = is_some j
    found_job r = false

    -- `matches!(job, Ok(Some(_)))`, then the deletion.
    unfoldable pub delete_if_there : Kube (Unit {0})
    unfolding found_job
    delete_if_there = do
      job ← attempt (call (get_job (job_name inst)) c.job)
      if found_job job then delete_job_and_wait c (job_name inst) else pure tt

    unfoldable pub force_reinstall : Kube (Unit {0})
    unfolding delete_if_there
    force_reinstall =
        if is_some (lookup "vynil.solidite.fr/force-reinstall" inst.annotations)
        then (do
          call (remove_annotation inst.name "vynil.solidite.fr/force-reinstall") c.written
          delete_if_there)
        else pure tt

    unfoldable pub tag_or : String → Option String → String
    tag_or tag none = tag
    tag_or tag (some v) = v

    -- From the requirements of the chosen package to its job.
    unfoldable pub run_install : VynilPackage → TemplateContext → Kube Action
    unfolding force_reinstall
    run_install pck ctx = do
      recos ← build_recommendations c inst.kind inst pck.recommandations
      full ← value_entries inst pck.value_script (reco_entries recos ctx)
      force_reinstall
      job_def ← call (render "{{> package.yaml }}" full) c.rendered
      upsert_job c (job_name inst) job_def
      pure quarter

    unfoldable pub or_install : VynilPackage → TemplateContext → Option Action → Kube Action
    unfolding run_install
    or_install pck ctx (some action) = pure action
    or_install pck ctx none = run_install pck ctx

    unfoldable pub install : JukeCacheItem → VynilPackage → TemplateContext → Kube Action
    unfolding or_install tag_or
    install item pck ctx = do
      version ← resolve_init_version pck item.packages item.pull_secret
      blocked ← check_requirements pck.requirements
      or_install pck
          (image_entries (tag_or pck.tag version) pck (secret_entries item.pull_secret ctx)) blocked

    unfoldable pub with_package :
        JukeCacheItem → TemplateContext → Option VynilPackage → Kube Action
    unfolding install
    with_package item ctx none = do
      set_missing_package c inst inst.category inst.package_name
      pure quarter
    with_package item ctx (some pck) = install item pck ctx

    unfoldable pub with_box : TemplateContext → Option JukeCacheItem → Kube Action
    unfolding with_package
    with_box ctx none = do set_missing_box c inst inst.jukebox; pure quarter
    with_box ctx (some item) = with_package item ctx (select_package c inst item)

    -- `cache` is the package cache as it is when the lock is held.
    unfoldable pub do_reconcile : TemplateContext → Cache → Kube Action
    unfolding with_box
    do_reconcile base_context cache = do
      touch
      if is_suspended inst
          then pure quarter
          else with_box (base_entries c inst "install" base_context) (lookup inst.jukebox cache)
