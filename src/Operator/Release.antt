-- ===== src/Operator/Release.antt =====
-- When the finalizer of an instance is released (operator/src/instance_common.rs, `do_cleanup`).
use vynil.Prelude.{Bool, true, false, Option, none, some, ◌∷◌, ◌≡◌, refl, if◌then◌else◌}
use vynil.Prelude.Dict.{lookup}
use vynil.Prelude.Json.{Json}
use vynil.Result.{Result, ok, err, other}
use vynil.Kube.{
  Cluster, History, create_job, wait_job_completed, touch, render, pure, fail, lift, call,
}
use vynil.Kube.Keeps.{Returns-bind}
use vynil.Package.{VynilPackage}
use vynil.Instance.{Instance, have_child}
use vynil.Operator.{Action, await_change}
use vynil.Operator.Select.{Cache, JukeCacheItem, select_package}
use vynil.Operator.Reconcile.{
  TemplateContext, job_name, image_entries, value_entries, delete_if_there,
}
use vynil.Operator.Cleanup.{
  no_recos, orphan_message, run_delete, cleanup_package, cleanup_box, do_cleanup,
}

module _ (c : Cluster) (inst : Instance) where
  -- The API has accepted a delete job and then, next, has said that it completed.
  Deleted : Type 0
  Deleted =
      (job_def : Json) × (h : History) × (c.as_job job_def ≡ ok tt)
      × (c.written (create_job job_def ∷ h) ≡ ok tt)
      × (c.waited (wait_job_completed (job_name inst) ∷ create_job job_def ∷ h) ≡ ok tt)

  -- The choice of a package from an optional jukebox.
  unfoldable pub chosen_from : Option JukeCacheItem → Option VynilPackage
  chosen_from none = none
  chosen_from (some item) = select_package c inst item

  -- Why a cleanup may let the instance go.
  Cleaned : Option VynilPackage → Type 0
  Cleaned none = have_child inst ≡ false
  Cleaned (some pck) = Deleted

  pub Released : Option JukeCacheItem → Type 0
  Released none = Unit
  Released (some item) = Cleaned (select_package c inst item)

  run_delete-Deleted :
      (pck : VynilPackage) (ctx : TemplateContext) (h : History) (action : Action)
      → (run_delete c inst pck ctx h).0 ≡ ok action
      → Deleted
  unfolding run_delete Deleted call lift
  run_delete-Deleted pck ctx h action returned =
      let (full, _, r1) =
        Returns-bind
          (value_entries c inst pck.value_script (no_recos (image_entries pck.tag pck ctx))) _ h
          action returned in
      let (_, _, r2) = Returns-bind (delete_if_there c inst) _ _ action r1 in
      let (job_def, _, r3) =
        Returns-bind (call (render "{{> package.yaml }}" full) c.rendered) _ _ action r2 in
      let (_, is_job, r4) = Returns-bind (lift (c.as_job job_def)) _ _ action r3 in
      let (_, created, r5) = Returns-bind (call (create_job job_def) c.written) _ _ action r4 in
      let (_, completed, _) =
        Returns-bind (call (wait_job_completed (job_name inst)) c.waited) _ _ action r5 in
      (job_def, _, is_job, created, completed)

  no_orphan :
      (child : Bool) (h : History) (action : Action)
      → ((if child then fail (other orphan_message) else pure await_change) h).0 ≡ ok action
      → child ≡ false
  unfolding fail
  no_orphan true h action returned = cc
  no_orphan false h action returned = refl

  package-Released :
      (item : JukeCacheItem) (chosen : Option VynilPackage) (ctx : TemplateContext) (h : History)
      (action : Action)
      → (cleanup_package c inst item ctx chosen h).0 ≡ ok action
      → Cleaned chosen
  unfolding cleanup_package Cleaned
  package-Released item none ctx h action returned = no_orphan (have_child inst) h action returned
  package-Released item (some pck) ctx h action returned =
      run_delete-Deleted pck _ h action returned

  box-Released :
      (ctx : TemplateContext) (box : Option JukeCacheItem) (h : History) (action : Action)
      → (cleanup_box c inst ctx box h).0 ≡ ok action
      → Released box
  unfolding cleanup_box Released
  box-Released ctx none h action returned = tt
  box-Released ctx (some item) h action returned =
      package-Released item (select_package c inst item) ctx h action returned

  -- A cleanup that returns, which releases the finalizer of the instance, found the jukebox out of
  -- the cache, or found no package for an instance without children, or else has created a delete
  -- job and has seen it complete.
  pub do_cleanup-Released :
      (base_context : TemplateContext) (cache : Cache) (h : History) (action : Action)
      → (do_cleanup c inst base_context cache h).0 ≡ ok action
      → Released (lookup inst.jukebox cache)
  unfolding do_cleanup
  do_cleanup-Released base_context cache h action returned =
      let (_, _, later) = Returns-bind touch _ h action returned in
      box-Released _ (lookup inst.jukebox cache) _ action later

  -- The answer of a cleanup that finds no package.
  pub orphan_result : Bool → Result Action
  orphan_result child = if child then err (other orphan_message) else ok await_change
