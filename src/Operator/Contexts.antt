-- ===== src/Operator/Contexts.antt =====
-- The entries of the context of a template (operator/src/instance_common.rs,
-- `do_reconcile` and `do_cleanup`).
use vynil.Prelude.{String, Option, none, some, ◌≡◌}
use vynil.Prelude.Dict.{lookup, insert, lookup-insert}
use vynil.Prelude.Json.{Json, string}
use vynil.Package.{VynilPackage}
use vynil.Instance.{Instance, type_name}
use vynil.Kube.{Cluster}
use vynil.Status.Updates.{get_options_digest}
use vynil.Operator.Reconcile.{
  TemplateContext, job_name, base_entries, secret_entries, image_entries,
}

-- The context names the instance, the operation, the package and the tag.
pub record IsFor (c : Cluster) (inst : Instance) (action : String) (pck : VynilPackage) (t : String)
    (ctx : TemplateContext) : Type 0 where
  pub name : lookup "name" ctx ≡ some (string inst.name)
  pub namespace : lookup "namespace" ctx ≡ some (string inst.namespace)
  pub package_type : lookup "package_type" ctx ≡ some (string (type_name inst.kind))
  pub package_action : lookup "package_action" ctx ≡ some (string action)
  pub job_name : lookup "job_name" ctx ≡ some (string (job_name inst))
  pub digest : lookup "digest" ctx ≡ some (string (get_options_digest c inst))
  pub registry : lookup "registry" ctx ≡ some (string pck.registry)
  pub image : lookup "image" ctx ≡ some (string pck.image)
  pub tag : lookup "tag" ctx ≡ some (string t)

module _ (c : Cluster) (inst : Instance) (action : String) (pck : VynilPackage) (tag : String) where
  pub full-IsFor :
      (base : TemplateContext) (secret : Option String) (values tenants systems crds : Json)
      → IsFor c inst action pck tag (
          insert "ctrl_values" values (
            insert "rec_tenant_services" tenants (
              insert "rec_system_services" systems (
                insert "rec_crds" crds (
                  image_entries tag pck
                    (secret_entries secret (base_entries c inst action base)))))))
  unfolding image_entries secret_entries base_entries
  full-IsFor base none values tenants systems crds = record {
    name = simp (lookup-insert);
    namespace = simp (lookup-insert);
    package_type = simp (lookup-insert);
    package_action = simp (lookup-insert);
    job_name = simp (lookup-insert);
    digest = simp (lookup-insert);
    registry = simp (lookup-insert);
    image = simp (lookup-insert);
    tag = simp (lookup-insert);
  }
  full-IsFor base (some s) values tenants systems crds = record {
    name = simp (lookup-insert);
    namespace = simp (lookup-insert);
    package_type = simp (lookup-insert);
    package_action = simp (lookup-insert);
    job_name = simp (lookup-insert);
    digest = simp (lookup-insert);
    registry = simp (lookup-insert);
    image = simp (lookup-insert);
    tag = simp (lookup-insert);
  }
