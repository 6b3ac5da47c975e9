-- ===== src/Requirements.antt =====
-- common/src/vynilpackage.rs: the checks of a package's requirements for each kind of instance. A
-- check returns whether the requirement is met, the message if it is not, and after how many seconds
-- to try again.
pub mod Outcome
pub mod Agree
use vynil.Prelude.{
  ℕ, ◌*◌, String, Bool, true, Option, none, some, List, [], ◌∷◌, ◌&&◌, ◌||◌, any, ltb, leb, nat_eq,
  ◌==◌,
}
use vynil.Prelude.Decimal.{parse_u64, show}
use vynil.Prelude.Json.{Json}
use vynil.Prelude.Text.{concat, contains}
use vynil.Result
use vynil.Result.{Result, ok, err, parse_int}
use vynil.Semver.{parse, ge}
use vynil.Package
use vynil.Package.{
  VynilPackageRequirement, StorageCapability, rwx, rox, custom_resource_definition, system_service,
  tenant_service, system_package, tenant_package, prefly, cluster_version, storage_capability,
  minimum_previous_version, vynil_version, cpu, memory, disk,
}
use vynil.Instance.{Instance}
use vynil.Kube.{
  Cluster, Kube, get_crd, get_api_version, list_services, list_system_instances,
  list_tenant_instances, get_tenant_namespaces, get_tenant_services, eval_truth, pure, lift, call,
  ◌>>=◌,
}

abbrev pub Checked : Type 0
Checked = Bool × String × ℕ

abbrev minutes : ℕ → ℕ
minutes n = n * 60

capability_name : StorageCapability → String
capability_name rwx = "RWX"
capability_name rox = "ROX"

-- `.parse().map_err(Error::ParseInt)`.
unfoldable pub or_parse_int : Option ℕ → Result ℕ
or_parse_int none = err parse_int
or_parse_int (some n) = ok n

is_package : String → String → Instance → Bool
is_package category name i = i.category == category && i.package_name == name

module _ (c : Cluster) where
  check_vynil_version : String → Kube Checked
  check_vynil_version v = do
    requested ← lift (parse c.semver v)
    current ← lift (parse c.semver c.version)
    pure (
      ge c.semver current requested,
      concat (
          "Requested vynil version " ∷ v ∷ " is over current version " ∷ c.version
          ∷ ". Please upgrade vynil first" ∷ []),
      minutes 15,
    )

  -- `serde_json::to_string(..).parse::<u64>()`.
  unfoldable pub read_version : Json → Result ℕ
  unfolding or_parse_int
  read_version j = Result.◌>>=◌ (c.json_text j) (λ text. or_parse_int (parse_u64 text))

  version_answer : (major minor maj min : ℕ) → Checked
  version_answer major minor maj min = (
    ltb major maj || nat_eq maj major && leb minor min,
    concat (
        "Requested api-server version "
        ∷ show major
        ∷ "."
        ∷ show minor
        ∷ " is over current version "
        ∷ show maj
        ∷ "."
        ∷ show min
        ∷ ". Please upgrade your cluster first"
        ∷ []),
    minutes 15,
  )

  unfoldable pub check_cluster_version : ℕ → ℕ → Kube Checked
  unfolding read_version version_answer
  check_cluster_version major minor = do
    ver ← call get_api_version c.api_version
    maj ← lift (read_version ver.0)
    min ← lift (read_version ver.1)
    pure (version_answer major minor maj min)

  check_crd : String → Kube Checked
  check_crd crd = do
    found ← call (get_crd crd) c.crd
    pure (found, concat ("CRD " ∷ crd ∷ " is not installed" ∷ []), minutes 5)

  -- The script sees the instance.
  check_prefly : Instance → String → String → Kube Checked
  check_prefly inst script name = do
    holds ← call (eval_truth inst script) c.truth
    pure (holds, concat ("Requirement " ∷ name ∷ " failed" ∷ []), minutes 5)

  check_system_package : String → String → Kube Checked
  unfolding is_package
  check_system_package category name = do
    items ← call list_system_instances c.system_instances
    pure (
      any (is_package category name) items,
      concat ("System package " ∷ category ∷ "/" ∷ name ∷ " is not installed" ∷ []),
      minutes 15,
    )

  check_system_service : String → Kube Checked
  check_system_service svc = do
    names ← call list_services c.services
    pure (
      contains names svc,
      concat ("System Service " ∷ svc ∷ " is not available" ∷ []),
      minutes 15,
    )

  check_storage : StorageCapability → Kube Checked
  unfolding capability_name
  check_storage capa = pure (
    true,
    concat ("Storage capability " ∷ capability_name capa ∷ " isn't available" ∷ []),
    minutes 15,
  )

  missing_tenant_package : String → String → String
  missing_tenant_package category name =
      concat ("Tenant package " ∷ category ∷ "/" ∷ name ∷ " is not installed" ∷ [])

  check_tenant_package : Instance → String → String → Kube Checked
  unfolding is_package missing_tenant_package
  check_tenant_package inst category name = do
    allowed ← call (get_tenant_namespaces inst) c.tenant_namespaces
    items ← call list_tenant_instances c.tenant_instances
    pure (
      any (λ i. is_package category name i && contains allowed i.namespace) items,
      missing_tenant_package category name,
      minutes 15,
    )

  check_tenant_service : Instance → String → Kube Checked
  check_tenant_service inst svc = do
    names ← call (get_tenant_services inst) c.tenant_services
    pure (
      contains names svc,
      concat ("Tenant service " ∷ svc ∷ " is not installed" ∷ []),
      minutes 15,
    )

  unfoldable pub check_system : Instance → VynilPackageRequirement → Kube Checked
  unfolding check_vynil_version check_cluster_version check_crd check_prefly check_system_package
      check_system_service check_storage missing_tenant_package
  check_system inst (vynil_version v) = check_vynil_version v
  check_system inst (cluster_version major minor) = check_cluster_version major minor
  check_system inst (custom_resource_definition crd) = check_crd crd
  check_system inst (prefly script name) = check_prefly inst script name
  check_system inst (system_package category name) = check_system_package category name
  check_system inst (tenant_package category name) =
      pure (true, missing_tenant_package category name, minutes 15)
  check_system inst (storage_capability capa) = check_storage capa
  check_system inst (minimum_previous_version v) = pure (true, "", minutes 15)
  check_system inst (system_service svc) = check_system_service svc
  check_system inst _ = pure (true, "", minutes 15)

  unfoldable pub check_tenant : Instance → VynilPackageRequirement → Kube Checked
  unfolding check_vynil_version check_cluster_version check_crd check_prefly check_system_package
      check_system_service check_storage check_tenant_package check_tenant_service
  check_tenant inst (vynil_version v) = check_vynil_version v
  check_tenant inst (cluster_version major minor) = check_cluster_version major minor
  check_tenant inst (custom_resource_definition crd) = check_crd crd
  check_tenant inst (prefly script name) = check_prefly inst script name
  check_tenant inst (system_package category name) = check_system_package category name
  check_tenant inst (tenant_package category name) = check_tenant_package inst category name
  check_tenant inst (tenant_service svc) = check_tenant_service inst svc
  check_tenant inst (storage_capability capa) = check_storage capa
  check_tenant inst (minimum_previous_version v) = pure (true, "", minutes 15)
  check_tenant inst (system_service svc) = check_system_service svc
  check_tenant inst _ = pure (true, "", minutes 15)

  unfoldable pub check_service : Instance → VynilPackageRequirement → Kube Checked
  unfolding check_vynil_version check_cluster_version check_crd check_prefly check_system_package
      check_system_service check_storage
  check_service inst (vynil_version v) = check_vynil_version v
  check_service inst (cluster_version major minor) = check_cluster_version major minor
  check_service inst (custom_resource_definition crd) = check_crd crd
  check_service inst (prefly script name) = check_prefly inst script name
  check_service inst (system_package category name) = check_system_package category name
  check_service inst (storage_capability capa) = check_storage capa
  check_service inst (minimum_previous_version v) = pure (true, "", minutes 15)
  check_service inst (system_service svc) = check_system_service svc
  check_service inst _ = pure (true, "", minutes 15)
