-- ===== src/Requirements/Agree.antt =====
-- The checks of a requirement agree (common/src/vynilpackage.rs): the three kinds of instances, and
-- the check of a version with the selection by version.
use vynil.Prelude.{String, Bool, true, false, some, ◌≡◌, refl, sym, ap, ◌∙◌}
use vynil.Result.{ok, ok-injective}
use vynil.Semver.{parse}
use vynil.Package.{
  VynilPackage, VynilPackageType, tenant, system, service, VynilPackageRequirement, tenant_package,
  tenant_service, prefly, vynil_version, get_vynil_version, is_vynil_version_ok,
}
use vynil.Package.Versions.{is_vynil_version_ok-ge}
use vynil.Instance.{Instance}
use vynil.Kube.{Cluster, History, lift, pure}
use vynil.Kube.Keeps.{Returns-bind}
use vynil.Requirements.{Checked, check_system, check_tenant, check_service}
use vynil.Operator.Reconcile.{check}

-- All requirements but those on a tenant's own packages and services, and the scripts, which read the
-- instance.
unfoldable pub is_shared : VynilPackageRequirement → Bool
is_shared (tenant_package category name) = false
is_shared (tenant_service svc) = false
is_shared (prefly script name) = false
is_shared req = true

module _ (c : Cluster) where
  tenant-system :
      (i j : Instance) (req : VynilPackageRequirement)
      → is_shared req ≡ true
      → check_tenant c i req ≡ check_system c j req
  unfolding is_shared check_tenant check_system
  tenant-system i j (tenant_package category name) shared = cc
  tenant-system i j (tenant_service svc) shared = cc
  tenant-system i j (prefly script name) shared = cc
  tenant-system i j _ shared = refl

  service-system :
      (i j : Instance) (req : VynilPackageRequirement)
      → is_shared req ≡ true
      → check_service c i req ≡ check_system c j req
  unfolding is_shared check_service check_system
  service-system i j (tenant_package category name) shared = cc
  service-system i j (tenant_service svc) shared = cc
  service-system i j (prefly script name) shared = cc
  service-system i j _ shared = refl

  system-system :
      (i j : Instance) (req : VynilPackageRequirement)
      → is_shared req ≡ true
      → check_system c i req ≡ check_system c j req
  unfolding is_shared check_system
  system-system i j (prefly script name) shared = cc
  system-system i j _ shared = refl

  as_system :
      (kind : VynilPackageType) (i j : Instance) (req : VynilPackageRequirement)
      → is_shared req ≡ true
      → check c kind i req ≡ check_system c j req
  unfolding check
  as_system tenant i j req shared = tenant-system i j req shared
  as_system system i j req shared = system-system i j req shared
  as_system service i j req shared = service-system i j req shared

  -- A requirement that is no script and not on a tenant's packages or services is checked alike for
  -- any two instances of any two kinds: the same calls, and the same answer, message and delay.
  pub check-same :
      (a b : VynilPackageType) (i j : Instance) (req : VynilPackageRequirement)
      → is_shared req ≡ true
      → check c a i req ≡ check c b j req
  check-same a b i j req shared = as_system a i i req shared ∙ sym (as_system b j i req shared)

  -- Where a package's check of the operator's version answers at all, it answers as the test by
  -- which packages are selected.
  pub check_vynil_version-is_vynil_version_ok :
      (p : VynilPackage) (inst : Instance) (v : String) (h : History) (checked : Checked)
      → get_vynil_version p ≡ some v
      → (check c system inst (vynil_version v) h).0 ≡ ok checked
      → checked.0 ≡ is_vynil_version_ok c.semver c.version p
  unfolding check check_system lift pure
  check_vynil_version-is_vynil_version_ok p inst v h checked asked returned =
      let (requested, requested_read, later) =
        Returns-bind (lift (parse c.semver v)) _ h checked returned in
      let (current, current_read, last) =
        Returns-bind (lift (parse c.semver c.version)) _ _ checked later in
      ap (λ t. t.0) (sym (ok-injective last))
      ∙ sym (
          is_vynil_version_ok-ge c.semver p c.version v current requested asked current_read
            requested_read)
