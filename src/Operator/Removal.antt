-- ===== src/Operator/Removal.antt =====
-- What the delete job of an instance is rendered with (operator/src/instance_common.rs,
-- `do_cleanup`).
use vynil.Prelude.{Option, none, some, [], ◌≡◌, refl, All, subst, sym}
use vynil.Prelude.Dict.{lookup}
use vynil.Result.{ok}
use vynil.Package.{VynilPackage}
use vynil.Instance.{Instance, have_child}
use vynil.Kube.{
  Cluster, touch, touch_diagnostics, create_job, wait_job_completed, delete_job, render, pure, lift,
  call, attempt, ◌>>=◌, ◌>>◌,
}
use vynil.Kube.Keeps.{
  Keeps, Keeps-attempt, Keeps-bind, Keeps-bind_returned, Keeps-call-All, Keeps-fail, Keeps-if,
  Keeps-lift, Keeps-pure,
}
use vynil.Operator.{await_change}
use vynil.Operator.Select.{Cache, JukeCacheItem, select_package}
use vynil.Operator.Reconcile.{
  TemplateContext, job_name, base_entries, secret_entries, delete_if_there,
}
use vynil.Operator.Cleanup.{no_recos, run_delete, cleanup_package, cleanup_box, do_cleanup}
use vynil.Operator.Quiet.{value_entries-quiet}
use vynil.Operator.Contexts.{IsFor, full-IsFor}
use vynil.Operator.Renders.{
  RendersWith, is_render, quiet-RendersWith, Keeps-other, delete_if_there-Rendering,
}
use vynil.Operator.Tag.{value_entries-insert}

module _ (c : Cluster) (inst : Instance) (cache : Cache) where
  -- The context is for the deletion of the package that the cache gives.
  pub IsRemoval : TemplateContext → Type 0
  IsRemoval ctx =
      (item : JukeCacheItem) × (pck : VynilPackage) × (lookup inst.jukebox cache ≡ some item)
      × (select_package c inst item ≡ some pck)
      × IsFor c inst "delete" pck pck.tag ctx

  rendered-Removing :
      (full : TemplateContext)
      → IsRemoval full
      → Keeps (All (RendersWith IsRemoval)) (do
        delete_if_there c inst
        job_def ← call (render "{{> package.yaml }}" full) c.rendered
        lift (c.as_job job_def)
        call (create_job job_def) c.written
        call (wait_job_completed (job_name inst)) c.waited
        attempt (call (delete_job (job_name inst)) c.deleted)
        pure await_change)
  unfolding is_render
  rendered-Removing full removal = Keeps-bind _ _ (delete_if_there-Rendering IsRemoval c inst) (λ _.
      Keeps-bind _ _
        (Keeps-call-All (RendersWith IsRemoval) (render "{{> package.yaml }}" full) c.rendered
          removal)
        (λ job_def.
          search (Keeps-pure, Keeps-lift, Keeps-attempt, Keeps-bind, Keeps-other) depth 12))

  run_delete-Removing :
      (item : JukeCacheItem) (pck : VynilPackage) (base : TemplateContext)
      → lookup inst.jukebox cache ≡ some item
      → select_package c inst item ≡ some pck
      → Keeps (All (RendersWith IsRemoval)) (
          run_delete c inst pck
            (secret_entries item.pull_secret (base_entries c inst "delete" base)))
  unfolding run_delete IsRemoval no_recos
  run_delete-Removing item pck base found chosen =
      Keeps-bind_returned _ _
        (value_entries-quiet c (RendersWith IsRemoval) (quiet-RendersWith IsRemoval) inst
          pck.value_script _)
        (λ h full returned.
          let (values, same) = value_entries-insert c inst pck.value_script _ h full returned in
          rendered-Removing full (
            subst IsRemoval (sym same) (
              item,
              pck,
              found,
              chosen,
              full-IsFor c inst "delete" pck pck.tag base item.pull_secret values _ _ _,
            )))

  package-Removing :
      (item : JukeCacheItem) (chosen : Option VynilPackage) (base : TemplateContext)
      → lookup inst.jukebox cache ≡ some item
      → select_package c inst item ≡ chosen
      → Keeps
          (All (RendersWith IsRemoval))
          (cleanup_package c inst item (base_entries c inst "delete" base) chosen)
  unfolding cleanup_package
  package-Removing item none base found chosen =
      Keeps-if (have_child inst) _ _ (λ _. Keeps-fail _) (λ _. Keeps-pure await_change)
  package-Removing item (some pck) base found chosen =
      run_delete-Removing item pck base found chosen

  box-Removing :
      (box : Option JukeCacheItem) (base : TemplateContext)
      → lookup inst.jukebox cache ≡ box
      → Keeps
          (All (RendersWith IsRemoval))
          (cleanup_box c inst (base_entries c inst "delete" base) box)
  unfolding cleanup_box
  box-Removing none base found = Keeps-pure await_change
  box-Removing (some item) base found =
      package-Removing item (select_package c inst item) base found refl

  cleanup-Removing :
      (base : TemplateContext) → Keeps (All (RendersWith IsRemoval)) (do_cleanup c inst base cache)
  unfolding do_cleanup touch is_render
  cleanup-Removing base =
      Keeps-bind _ _ (Keeps-other IsRemoval touch_diagnostics (λ h. ok tt) refl)
        (λ _. box-Removing (lookup inst.jukebox cache) base refl)

  -- Whatever the API answers, from no earlier calls, each template that a cleanup renders has a
  -- context that names the
  -- instance, its job, the digest of its options and the operation `delete`, and the registry, image
  -- and tag of the package that the cache gives for the instance.
  pub do_cleanup-IsRemoval :
      (base : TemplateContext) → All (RendersWith IsRemoval) (do_cleanup c inst base cache []).1
  do_cleanup-IsRemoval base = (cleanup-Removing base).at [] tt
