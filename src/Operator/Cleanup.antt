-- ===== src/Operator/Cleanup.antt =====
-- operator/src/instance_common.rs, `do_cleanup`: what the finalizer runs when an instance is
-- deleted.
use vynil.Prelude.{String, Option, none, some, if◌then◌else◌}
use vynil.Prelude.Dict.{lookup, insert}
use vynil.Prelude.Json.{string}
use vynil.Result.{other}
use vynil.Package.{VynilPackage}
use vynil.Instance.{Instance, have_child}
use vynil.Kube.{
  Cluster, Kube, touch, create_job, wait_job_completed, delete_job, render, pure, fail, lift, call,
  attempt, ◌>>=◌, ◌>>◌,
}
use vynil.Operator.{Action, await_change}
use vynil.Operator.Select.{Cache, JukeCacheItem, select_package}
use vynil.Operator.Reconcile.{
  TemplateContext, job_name, base_entries, secret_entries, image_entries, value_entries,
  delete_if_there,
}

abbrev pub orphan_message : String
orphan_message = "This install have child but the package cannot be found"

-- No recommendations are needed for a cleanup.
unfoldable pub no_recos : TemplateContext → TemplateContext
no_recos ctx =
    insert "rec_tenant_services" (string "")
      (insert "rec_system_services" (string "") (insert "rec_crds" (string "") ctx))

module _ (c : Cluster) (inst : Instance) where
  -- The delete job is created, waited for and deleted; only this last deletion may fail.
  unfoldable pub run_delete : VynilPackage → TemplateContext → Kube Action
  unfolding no_recos
  run_delete pck ctx = do
    full ← value_entries c inst pck.value_script (no_recos (image_entries pck.tag pck ctx))
    delete_if_there c inst
    job_def ← call (render "{{> package.yaml }}" full) c.rendered
    lift (c.as_job job_def)
    call (create_job job_def) c.written
    call (wait_job_completed (job_name inst)) c.waited
    attempt (call (delete_job (job_name inst)) c.deleted)
    pure await_change

  unfoldable pub cleanup_package :
      JukeCacheItem → TemplateContext → Option VynilPackage → Kube Action
  unfolding run_delete
  cleanup_package item ctx none =
      if have_child inst then fail (other orphan_message) else pure await_change
  cleanup_package item ctx (some pck) = run_delete pck (secret_entries item.pull_secret ctx)

  unfoldable pub cleanup_box : TemplateContext → Option JukeCacheItem → Kube Action
  unfolding cleanup_package
  cleanup_box ctx none = pure await_change
  cleanup_box ctx (some item) = cleanup_package item ctx (select_package c inst item)

  unfoldable pub do_cleanup : TemplateContext → Cache → Kube Action
  unfolding cleanup_box
  do_cleanup base_context cache = do
    touch
    cleanup_box (base_entries c inst "delete" base_context) (lookup inst.jukebox cache)
