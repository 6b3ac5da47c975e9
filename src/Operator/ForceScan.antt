-- ===== src/Operator/ForceScan.antt =====
-- When a jukebox is scanned (operator/src/jukebox.rs, `reconcile`).
use vynil.Prelude.{
  String, Bool, true, false, not, Option, none, some, ◌∷◌, ap, sym, ◌∙◌, ◌≡◌, refl, any, ◌⊎◌, inl,
  inr, is_some, if◌then◌else◌,
}
use vynil.Prelude.Json.{Json}
use vynil.Result.{Result, ok, err, panic}
use vynil.JukeBox.{JukeBox}
use vynil.Kube
use vynil.Kube.{
  Cluster, Call, History, Kube, Job, touch, touch_diagnostics, get_job, render, apply_cron_job,
  apply_job, create_job, delete_job, remove_annotation, pure, lift, call, attempt, ◌>>=◌, ◌>>◌,
}
use vynil.Kube.Keeps.{
  Keeps, IsFree, Keeps-call, Keeps-attempt, Reaches-bind, then-pure, Returns-bind, Returns-attempt,
  keeps_rules,
}
use vynil.Operator.{requeue}
use vynil.Operator.Select.{Cache}
use vynil.Operator.Reconcile.{TemplateContext, quarter}
use vynil.Operator.Jobs.{
  wait_deleted, after_delete, delete_job_and_wait, recreate, after_apply, upsert_job,
}
use vynil.Operator.Safety.{NoJob}
use vynil.Operator.Scan.{
  scan_name, is_job_terminal, should_create_scan_job, inject_package_filter, scan_context,
  force_scan, create_scan_job, run_scan, maintain, after_job, reconcile,
}

-- The removal of an annotation.
abbrev pub removes : Call → Bool
removes (remove_annotation name key) = true
removes x = false

ruleset quiet = (keeps_rules, refl)

module _ (c : Cluster) (box : JukeBox) where
  -- The API has accepted a scan job, as an apply or as a creation.
  pub Scanned : Type 0
  Scanned =
      (job_def : Json) × (h : History) × ((c.written (apply_job (scan_name box) job_def ∷ h)
          ≡ ok tt)
        ⊎ (c.written (create_job job_def ∷ h) ≡ ok tt))

  after_apply-Scanned :
      (job_def : Json) (h h' : History) (answer : Result Unit)
      → (c.written (apply_job (scan_name box) job_def ∷ h) ≡ answer) × ¬ (answer ≡ panic)
      → (after_apply c (scan_name box) job_def answer h').0 ≡ ok tt
      → Scanned
  unfolding after_apply recreate Scanned call
  after_apply-Scanned job_def h h' (ok _) answered returned = (job_def, h, inl answered.0)
  after_apply-Scanned job_def h h' (err e) answered returned =
      let (left, _, r1) =
        Returns-bind (call (delete_job (scan_name box)) c.deleted) _ h' tt returned in
      let (_, _, r2) = Returns-bind (wait_deleted c (scan_name box) left) _ _ tt r1 in
      let (_, _, r3) = Returns-bind (lift (c.as_job job_def)) _ _ tt r2 in (job_def, _, inr r3)
  after_apply-Scanned job_def h h' panic answered returned = elim (answered.1 refl) [ ]

  create-Scanned :
      (ctx : TemplateContext) (h : History) → (create_scan_job c box ctx h).0 ≡ ok tt → Scanned
  unfolding create_scan_job upsert_job call
  create-Scanned ctx h returned =
      let (job_def, _, later) =
        Returns-bind (call (render "{{> scan.yaml }}" ctx) c.rendered) _ h tt returned in
      let (answer, answered, last) =
        Returns-bind (attempt (call (apply_job (scan_name box) job_def) c.written)) _ _ tt later in
      after_apply-Scanned job_def _ _ answer
        (Returns-attempt (call (apply_job (scan_name box) job_def) c.written) _ answer answered)
        last

  -- The parts that come before the end of a scan remove no annotation.
  wait_deleted-quiet :
      (name : String) (left : Bool) → Keeps (IsFree removes) (wait_deleted c name left)
  unfolding wait_deleted
  wait_deleted-quiet name true = search quiet
  wait_deleted-quiet name false = search quiet

  after_delete-quiet :
      (name : String) (answer : Result Bool) → Keeps (IsFree removes) (after_delete c name answer)
  unfolding after_delete
  after_delete-quiet name (ok left) = wait_deleted-quiet name left
  after_delete-quiet name (err e) = search quiet
  after_delete-quiet name panic = search quiet

  after_apply-quiet :
      (name : String) (def : Json) (answer : Result Unit)
      → Keeps (IsFree removes) (after_apply c name def answer)
  unfolding after_apply recreate
  after_apply-quiet name def (ok _) = search quiet
  after_apply-quiet name def (err e) = search (quiet, wait_deleted-quiet)
  after_apply-quiet name def panic = search quiet

  create-quiet : (ctx : TemplateContext) → Keeps (IsFree removes) (create_scan_job c box ctx)
  unfolding create_scan_job upsert_job
  create-quiet ctx = search (quiet, after_apply-quiet)

  delete-quiet :
      (job_is_terminal : Bool)
      → Keeps
          (IsFree removes)
          (if job_is_terminal then delete_job_and_wait c (scan_name box) else pure tt)
  unfolding delete_job_and_wait
  delete-quiet job_is_terminal = search (quiet, after_delete-quiet)

  run_scan-Scanned :
      (job_is_terminal : Bool) (ctx : TemplateContext) (filter : Option String) (h : History)
      → IsFree removes h
      → any removes (run_scan c box job_is_terminal ctx filter h).1 ≡ true
      → is_some filter ≡ true × Scanned
  unfolding run_scan
  run_scan-Scanned job_is_terminal ctx none h free removed =
      let none_removed : any removes (create_scan_job c box ctx h).1 ≡ false =
        (create-quiet ctx).at h free in
      cc
  run_scan-Scanned job_is_terminal ctx (some filter_value) h free removed =
      let (_, _, f1, r1) =
        Reaches-bind removes
          (if job_is_terminal then delete_job_and_wait c (scan_name box) else pure tt) _ h
          (delete-quiet job_is_terminal) free removed in
      let (_, scanned, f2, r2) =
        Reaches-bind removes (create_scan_job c box (inject_package_filter ctx filter_value)) _ _
          (create-quiet (inject_package_filter ctx filter_value)) f1 r1 in
      (refl, create-Scanned _ _ scanned)

  if_scan-Scanned :
      (should job_is_terminal : Bool) (ctx : TemplateContext) (h : History)
      → IsFree removes h
      → any removes
          ((if should then run_scan c box job_is_terminal ctx (force_scan c box) else pure tt) h).1
        ≡ true
      → is_some (force_scan c box) ≡ true × Scanned
  unfolding pure
  if_scan-Scanned true job_is_terminal ctx h free removed =
      run_scan-Scanned job_is_terminal ctx (force_scan c box) h free removed
  if_scan-Scanned false job_is_terminal ctx h free removed = cc

  maintain-Scanned :
      (job_is_terminal : Bool) (ctx : TemplateContext) (h : History)
      → IsFree removes h
      → any removes (maintain c box job_is_terminal ctx h).1 ≡ true
      → is_some (force_scan c box) ≡ true × Scanned
  unfolding maintain
  maintain-Scanned job_is_terminal ctx h free removed =
      let (cj_def, _, f1, r1) =
        Reaches-bind removes (call (render "{{> cronscan.yaml }}" ctx) c.rendered) _ h
          (Keeps-call removes (render "{{> cronscan.yaml }}" ctx) c.rendered refl) free removed in
      let (_, _, f2, r2) =
        Reaches-bind removes (call (apply_cron_job (scan_name box) cj_def) c.written) _ _
          (Keeps-call removes (apply_cron_job (scan_name box) cj_def) c.written refl) f1 r1 in
      if_scan-Scanned (should_create_scan_job job_is_terminal (force_scan c box)) job_is_terminal
        ctx _ f2
        (ap (any removes) (
            sym (
              then-pure
                (if should_create_scan_job job_is_terminal (force_scan c box)
                  then run_scan c box job_is_terminal ctx (force_scan c box)
                  else pure tt)
                quarter _))
          ∙ r2)

  found-Scanned :
      (deleting terminal : Bool) (ctx : TemplateContext) (h : History)
      → IsFree removes h
      → any removes
          ((if deleting
              then pure (requeue 60)
              else (if not terminal then pure (requeue 60) else maintain c box true ctx))
            h).1
        ≡ true
      → is_some (force_scan c box) ≡ true × Scanned
  unfolding pure
  found-Scanned true terminal ctx h free removed = cc
  found-Scanned false false ctx h free removed = cc
  found-Scanned false true ctx h free removed = maintain-Scanned true ctx h free removed

  after_job-Scanned :
      (ctx : TemplateContext) (job : Result (Option Job)) (h : History)
      → IsFree removes h
      → any removes (after_job c box ctx job h).1 ≡ true
      → is_some (force_scan c box) ≡ true × Scanned
  unfolding after_job
  after_job-Scanned ctx (ok (some job)) h free removed =
      found-Scanned job.deleting (is_job_terminal job) ctx h free removed
  after_job-Scanned ctx (ok none) h free removed = maintain-Scanned false ctx h free removed
  after_job-Scanned ctx (err e) h free removed = maintain-Scanned false ctx h free removed
  after_job-Scanned ctx panic h free removed = maintain-Scanned false ctx h free removed

  -- A reconciliation of a jukebox that has removed an annotation was asked to scan by the
  -- annotation `force-scan`, and the API has accepted the scan job, as an apply or as a creation.
  pub reconcile-Scanned :
      (base : TemplateContext) (cache : Cache) (h : History)
      → IsFree removes h
      → any removes ((reconcile c box base cache).1 h).1 ≡ true
      → is_some (force_scan c box) ≡ true × Scanned
  unfolding reconcile touch
  reconcile-Scanned base cache h free removed =
      let (_, _, f1, r1) =
        Reaches-bind removes touch _ h (Keeps-call removes touch_diagnostics (λ h. ok tt) refl) free
          removed in
      let (job, _, f2, r2) =
        Reaches-bind removes (attempt (call (get_job (scan_name box)) c.job)) _ _
          (Keeps-attempt _ (Keeps-call removes (get_job (scan_name box)) c.job refl)) f1 r1 in
      after_job-Scanned (scan_context box base) job _ f2 r2

  untouched :
      (deleting terminal : Bool) (ctx : TemplateContext)
      → is_some (force_scan c box) ≡ false
      → Keeps NoJob (
          if deleting
          then pure (requeue 60)
          else (if not terminal then pure (requeue 60) else maintain c box true ctx))
  unfolding maintain should_create_scan_job
  untouched true terminal ctx unasked = search quiet
  untouched false false ctx unasked = search quiet
  untouched false true ctx unasked = rw (unasked) (search quiet)

  -- Without the annotation `force-scan`, a reconciliation that finds the scan job, at its end or
  -- not, writes no job.
  pub reconcile-NoJob :
      (base : TemplateContext) (cache : Cache) (h : History) (job : Job)
      → c.job (get_job (scan_name box) ∷ touch_diagnostics ∷ h) ≡ ok (some job)
      → is_some (force_scan c box) ≡ false
      → NoJob h
      → NoJob ((reconcile c box base cache).1 h).1
  unfolding reconcile touch call attempt after_job Kube.◌>>=◌
  reconcile-NoJob base cache h job found unasked free =
      rw (found)
        ((untouched job.deleting (is_job_terminal job) (scan_context box base) unasked).at _ free)
