-- ===== src/Operator/Renders.antt =====
-- The parts of the operations on instances (operator/src/instance_common.rs) that render no template.
use vynil.Prelude.{String, Bool, true, false, ◌≡◌, refl, All}
use vynil.Prelude.Json.{Json}
use vynil.Instance.{Instance}
use vynil.Result.{Result, ok, err, panic}
use vynil.Kube.{Cluster, Call, History, call, render}
use vynil.Kube.Keeps.{
  Keeps, Keeps-if, Keeps-bind, Keeps-pure, Keeps-fail, Keeps-lift, Keeps-attempt, Keeps-call-All,
}
use vynil.Operator.Quiet.{is_quiet}
use vynil.Operator.Jobs.{
  wait_deleted, after_delete, recreate, after_apply, upsert_job, delete_job_and_wait,
}
use vynil.Operator.Reconcile.{TemplateContext, delete_if_there, force_reinstall}

-- Each template that was rendered had a context with the property `P`.
abbrev pub RendersWith : (TemplateContext → Type 0) → Call → Type 0
RendersWith P (render template ctx) = P ctx
RendersWith P x = Unit

unfoldable pub is_render : Call → Bool
is_render (render template ctx) = true
is_render x = false

module _ (P : TemplateContext → Type 0) where
  not_render : (x : Call) → is_render x ≡ false → RendersWith P x
  unfolding is_render
  not_render (render template ctx) other = cc
  not_render _ other = tt

  pub quiet-RendersWith : (x : Call) → is_quiet x ≡ true → RendersWith P x
  quiet-RendersWith (render template ctx) quiet = cc
  quiet-RendersWith _ quiet = tt

  pub Keeps-other {ℓ} :
      {A : Type ℓ} (x : Call) (answer : History → Result A)
      → is_render x ≡ false
      → Keeps (All (RendersWith P)) (call x answer)
  Keeps-other x answer other = Keeps-call-All (RendersWith P) x answer (not_render x other)

  ruleset calls =
      (Keeps-pure, Keeps-fail, Keeps-lift, Keeps-attempt, Keeps-if, Keeps-bind, Keeps-other, refl)

  module _ (c : Cluster) where
    wait_deleted-Rendering :
        (name : String) (left : Bool) → Keeps (All (RendersWith P)) (wait_deleted c name left)
    unfolding wait_deleted is_render
    wait_deleted-Rendering name true = search calls
    wait_deleted-Rendering name false = search calls

    after_delete-Rendering :
        (name : String) (answer : Result Bool)
        → Keeps (All (RendersWith P)) (after_delete c name answer)
    unfolding after_delete
    after_delete-Rendering name (ok left) = wait_deleted-Rendering name left
    after_delete-Rendering name (err e) = search calls
    after_delete-Rendering name panic = search calls

    recreate-Rendering :
        (name : String) (def : Json) → Keeps (All (RendersWith P)) (recreate c name def)
    unfolding recreate is_render
    recreate-Rendering name def = search (calls, wait_deleted-Rendering)

    after_apply-Rendering :
        (name : String) (def : Json) (answer : Result (Unit {0}))
        → Keeps (All (RendersWith P)) (after_apply c name def answer)
    unfolding after_apply
    after_apply-Rendering name def (ok _) = search calls
    after_apply-Rendering name def (err e) = recreate-Rendering name def
    after_apply-Rendering name def panic = search calls

    pub upsert_job-Rendering :
        (name : String) (def : Json) → Keeps (All (RendersWith P)) (upsert_job c name def)
    unfolding upsert_job is_render
    upsert_job-Rendering name def = search (calls, after_apply-Rendering)

    pub delete_if_there-Rendering :
        (inst : Instance) → Keeps (All (RendersWith P)) (delete_if_there c inst)
    unfolding delete_if_there delete_job_and_wait is_render
    delete_if_there-Rendering inst = search (calls, after_delete-Rendering)

    pub force_reinstall-Rendering :
        (inst : Instance) → Keeps (All (RendersWith P)) (force_reinstall c inst)
    unfolding force_reinstall is_render
    force_reinstall-Rendering inst = search (calls, delete_if_there-Rendering)
