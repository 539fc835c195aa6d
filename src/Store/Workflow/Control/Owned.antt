-- ===== src/Store/Workflow/Control/Owned.antt =====
-- Cancel stops the attempts of the job that it stops.
use agent_chun_su.Base.{ℕ, refl, arith, Option-cases, inl, inr}
use agent_chun_su.Table.{find_by}
use agent_chun_su.Table.Laws.{Keyed-update_where}
use agent_chun_su.Store.Model.{Db, Env, job_key}
use agent_chun_su.Store.Jobs.{job_is}
use agent_chun_su.Store.Jobs.Running.{Owned, update-Owned}
use agent_chun_su.Store.Jobs.Keys.{Kept}
use agent_chun_su.Store.Workflow.Control.{
  cancel, cancel_txn, set_cancelled, attempt_of_job, end_cancelled,
}

pub cancel-Owned : (env : Env) (job : ℕ) (db : Db) → Owned db → Owned (cancel env job db).0
unfolding cancel cancel_txn
cancel-Owned env job db h = elim (Option-cases (find_by job_key job db.jobs)) [
  | inl e ↦ ground arith
  | inr (j, e) ↦ ground (
    arith,
    update-Owned db.jobs (job_is job) (set_cancelled env) (attempt_of_job job) (end_cancelled env)
        (λ j. refl) (λ r. refl) (λ r run. ground arith) (λ j r e k run own. ground arith)
        db.attempts h,
  )
]

pub cancel-Kept : (env : Env) (job : ℕ) (db : Db) → Kept db → Kept (cancel env job db).0
unfolding cancel cancel_txn
cancel-Kept env job db h = elim (Option-cases (find_by job_key job db.jobs)) [
  | inl e ↦ ground arith
  | inr (j, e) ↦
      ground
        (arith, Keyed-update_where job_key (job_is job) (set_cancelled env) (λ k. refl) db.jobs h)
]
