-- ===== src/Operator/Scan.antt =====
-- operator/src/jukebox.rs: the reconciliation and the cleanup of a jukebox.
use vynil.Prelude.{
  String, Bool, true, false, not, Option, none, some, [], ◌∷◌, ◌||◌, ◌&&◌, any, is_some, ◌==◌,
  if◌then◌else◌,
}
use vynil.Prelude.Dict.{lookup, insert}
use vynil.Prelude.Json.{string}
use vynil.Prelude.Text.{concat}
use vynil.Result.{Result, ok}
use vynil.JukeBox.{JukeBox}
use vynil.Kube.{
  Cluster, Kube, Job, touch, get_job, render, apply_cron_job, delete_cron_job, get_cron_job,
  delete_job, remove_annotation, pure, call, attempt, ◌>>=◌, ◌>>◌,
}
use vynil.Operator.{Action, requeue, await_change}
use vynil.Operator.Select.{Cache}
use vynil.Operator.Reconcile.{TemplateContext, quarter}
use vynil.Operator.Jobs.{delete_job_and_wait, upsert_job}
use vynil.Operator.Caching.{cache_entry_differs, upsert_cache_entry, remove_jukebox_cache}

unfoldable pub scan_name : JukeBox → String
scan_name box = concat ("scan-" ∷ box.name ∷ [])

is_end : String × String → Bool
is_end c = c.0 == "True" && (c.1 == "Complete" || c.1 == "Failed")

unfoldable pub is_job_terminal : Job → Bool
unfolding is_end
is_job_terminal job = elim job.conditions [
  | none ↦ false
  | some none ↦ false
  | some (some conditions) ↦ any is_end conditions
]

unfoldable pub should_create_scan_job : Bool → Option String → Bool
should_create_scan_job job_is_terminal force_scan = not job_is_terminal || is_some force_scan

unfoldable pub inject_package_filter : TemplateContext → String → TemplateContext
inject_package_filter context filter_value =
    if not (filter_value == "true") && not (filter_value == "")
    then insert "package_filter" (string filter_value) context
    else context

unfoldable pub scan_context : JukeBox → TemplateContext → TemplateContext
unfolding scan_name
scan_context box ctx =
    insert "schedule" (string box.schedule)
      (insert "job_name" (string (scan_name box)) (insert "name" (string box.name) ctx))

module _ (c : Cluster) (box : JukeBox) where
  unfoldable pub force_scan : Option String
  force_scan = lookup "vynil.solidite.fr/force-scan" box.annotations

  -- The direct job: applied, or deleted and created if the apply is rejected.
  unfoldable pub create_scan_job : TemplateContext → Kube (Unit {0})
  unfolding scan_name
  create_scan_job context = do
    job_def ← call (render "{{> scan.yaml }}" context) c.rendered
    upsert_job c (scan_name box) job_def

  -- Without the annotation, and with it.
  unfoldable pub run_scan : Bool → TemplateContext → Option String → Kube (Unit {0})
  unfolding create_scan_job
  run_scan job_is_terminal context none = create_scan_job context
  run_scan job_is_terminal context (some filter_value) = do
    if job_is_terminal then delete_job_and_wait c (scan_name box) else pure tt
    create_scan_job (inject_package_filter context filter_value)
    call (remove_annotation box.name "vynil.solidite.fr/force-scan") c.written

  unfoldable pub maintain : Bool → TemplateContext → Kube Action
  unfolding force_scan run_scan
  maintain job_is_terminal context = do
    cj_def ← call (render "{{> cronscan.yaml }}" context) c.rendered
    call (apply_cron_job (scan_name box) cj_def) c.written
    if should_create_scan_job job_is_terminal force_scan
        then run_scan job_is_terminal context force_scan
        else pure tt
    pure quarter

  -- Whether the scan job was found at its end; a job that runs or goes away is waited for.
  unfoldable pub after_job : TemplateContext → Result (Option Job) → Kube Action
  unfolding maintain
  after_job context (ok (some job)) =
      if job.deleting
      then pure (requeue 60)
      else (if not (is_job_terminal job) then pure (requeue 60) else maintain true context)
  after_job context r = maintain false context

  -- The first step of a reconciliation: the cache follows the status.
  unfoldable pub follow : Cache → Cache
  follow cache = if cache_entry_differs cache box then upsert_cache_entry cache box else cache

  -- The cache that is left, and the calls.
  unfoldable pub reconcile : TemplateContext → Cache → Cache × Kube Action
  unfolding follow after_job scan_context
  reconcile base_context cache = (
    follow cache,
    do
      touch
      job ← attempt (call (get_job (scan_name box)) c.job)
      after_job (scan_context box base_context) job,
  )

  is_there : Result Bool → Bool
  is_there (ok found) = found
  is_there r = false

  is_job_there : Result (Option Job) → Bool
  is_job_there (ok found) = is_some found
  is_job_there r = false

  -- A deletion that fails is only logged.
  or_log : Kube Bool → Kube (Unit {0})
  or_log deletion = do answer ← attempt deletion; pure tt

  -- `get_metadata_opt` of the cron job and of the job; deletions that fail are only logged.
  unfoldable pub cleanup : Cache → Cache × Kube Action
  unfolding is_there is_job_there scan_name or_log
  cleanup cache = (
    remove_jukebox_cache box.name cache,
    do
      touch
      cron ← attempt (call (get_cron_job (scan_name box)) c.cron_job)
      if is_there cron then or_log (call (delete_cron_job (scan_name box)) c.deleted) else pure tt
      job ← attempt (call (get_job (scan_name box)) c.job)
      if is_job_there job then or_log (call (delete_job (scan_name box)) c.deleted) else pure tt
      pure await_change,
  )
