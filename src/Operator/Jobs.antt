-- ===== src/Operator/Jobs.antt =====
-- operator/src/instance_common.rs: `delete_job_and_wait` and `upsert_job`.
use vynil.Prelude.{String, Bool, true, false}
use vynil.Prelude.Json.{Json}
use vynil.Result.{Result, ok, err, panic}
use vynil.Kube.{
  Cluster, Kube, delete_job, wait_job_deleted, apply_job, create_job, pure, lift, call, attempt,
  ◌>>=◌, ◌>>◌,
}

module _ (c : Cluster) where
  -- `await_condition(.., is_deleted(uid))` under a timeout, where the deletion is still under way.
  unfoldable pub wait_deleted : String → Bool → Kube (Unit {0})
  wait_deleted name true = call (wait_job_deleted name) c.waited
  wait_deleted name false = pure tt

  unfoldable pub after_delete : String → Result Bool → Kube (Unit {0})
  unfolding wait_deleted
  after_delete name (ok left) = wait_deleted name left
  after_delete name (err e) = pure tt
  after_delete name panic = pure tt

  -- A deletion that fails is only logged.
  unfoldable pub delete_job_and_wait : String → Kube (Unit {0})
  unfolding after_delete
  delete_job_and_wait name = do
    answer ← attempt (call (delete_job name) c.deleted)
    after_delete name answer

  unfoldable pub recreate : String → Json → Kube (Unit {0})
  unfolding wait_deleted
  recreate name def = do
    left ← call (delete_job name) c.deleted
    wait_deleted name left
    lift (c.as_job def)
    call (create_job def) c.written

  unfoldable pub after_apply : String → Json → Result (Unit {0}) → Kube (Unit {0})
  unfolding recreate
  after_apply name def (ok _) = pure tt
  after_apply name def (err e) = recreate name def
  after_apply name def panic = pure tt

  -- A server-side apply, or a deletion and a creation if the apply is rejected.
  unfoldable pub upsert_job : String → Json → Kube (Unit {0})
  unfolding after_apply
  upsert_job name def = do
    answer ← attempt (call (apply_job name def) c.written)
    after_apply name def answer
