-- ===== src/Store/Workflow/Control.antt =====
-- What an owner or the controller does to a staged job: PauseJob, ResumeJob, SupersedeJobRevision,
-- RecoverInterruptedSteps and cancelStagedTx of internal/store/workflow.go, and Cancel of
-- lifecycle.go.
pub mod Quiet
pub mod Owned
use agent_chun_su.Base.{
  ℕ, ◌+◌, Bool, true, false, List, [], ◌∷◌, ◌++◌, none, some, ◌==◌, ◌&&◌, ◌||◌, ltb, leb, not,
  if◌then◌else◌,
}
use agent_chun_su.Table.{find_by, select, count_where, exists, update_where, length}
use agent_chun_su.Store.Status.{
  JobStatus, StepState, Delivery, is_running, is_staged, is_final, is_running_step, can_cancel,
  can_supersede, same_delivery,
}
use agent_chun_su.Store.Model.{
  Job, Attempt, WorkflowJob, Step, StepAttempt, ResultEvent, Db, Env, Result, ok, err, no_rows,
  stale_step, step_blocked, message, no_data, job_key, step_key,
}
use agent_chun_su.Store.Txn.{◌>>=◌, ◌>>◌, refuse_if, or_fail, exec}
use agent_chun_su.Store.Rows.{add_event}
use agent_chun_su.Store.Jobs.{recovery_required}

-- `EXISTS(SELECT 1 FROM jobs WHERE id=? AND status='staged')`.
abbrev pub staged_exists : ℕ → Db → Bool
staged_exists job db = exists (λ (j : Job). j.id == job && is_staged j.status) db.jobs

set_paused_txn : Env → ℕ → Bool → Db → Result (Db × Unit {0})
set_paused_txn env job paused db = do
  let hit = λ (w : WorkflowJob). w.job_id == job && staged_exists job db
  refuse_if (not (count_where hit db.workflows == 1)) step_blocked
  ok (
    record db {
      workflows =
          update_where hit (λ w. record w { paused = paused; updated_at = env.now }) db.workflows;
    },
    tt,
  )

unfoldable pub pause_job : Env → ℕ → Db → Db × Result (Unit {0})
unfolding set_paused_txn
pause_job env job db = exec db (set_paused_txn env job true db)

unfoldable resume_job : Env → ℕ → Db → Db × Result (Unit {0})
unfolding set_paused_txn
resume_job env job db = exec db (set_paused_txn env job false db)

abbrev superseded_by : ℕ → Step → Bool
superseded_by job r = r.job_id == job && can_supersede r.state

abbrev pub revision_row : ℕ → ℕ → Db → WorkflowJob → Bool
revision_row job expected db w =
    w.job_id == job && (w.request_revision == expected && staged_exists job db)

abbrev supersede_rows : Env → ℕ → ℕ → ℕ → Db → Db
supersede_rows env job expected next db = record db {
  workflows =
      update_where (revision_row job expected db)
        (λ w. record w { request_revision = next; updated_at = env.now }) db.workflows;
  steps =
      update_where (superseded_by job)
        (λ r. record r { state = StepState.superseded; updated_at = env.now }) db.steps;
}

abbrev pub running_of : ℕ → Step → Bool
running_of job s = s.job_id == job && is_running_step s.state

abbrev pub sending_of : ℕ → ResultEvent → Bool
sending_of job e = e.job_id == job && same_delivery e.delivery_status Delivery.sending

supersede_txn : Env → ℕ → ℕ → ℕ → Db → Result (Db × Unit {0})
supersede_txn env job expected next db = do
  refuse_if (leb next expected) (message "revision must increase")
  refuse_if (ltb 0 (count_where (running_of job) db.steps)) step_blocked
  refuse_if (ltb 0 (count_where (sending_of job) db.results)) step_blocked
  refuse_if (not (count_where (revision_row job expected db) db.workflows == 1)) stale_step
  ok (supersede_rows env job expected next db, tt)

unfoldable pub supersede_job_revision : Env → ℕ → ℕ → ℕ → Db → Db × Result (Unit {0})
unfolding supersede_txn
supersede_job_revision env job expected next db = exec db (supersede_txn env job expected next db)

-- The loop of RecoverInterruptedSteps over the rows that its query returned.
recover_step : Env → Step → Db → Db
recover_step env s db =
    add_event env.now s.job_id s.current_attempt_id "step.interrupted" no_data (record db {
      step_attempts =
          update_where (λ a. a.id == s.current_attempt_id && is_running_step a.status)
            (λ a. record a {
              status = StepState.interrupted;
              ended_at = env.now;
              diagnostic = recovery_required;
            })
            db.step_attempts;
      steps =
          update_where (λ r. r.id == s.id && is_running_step r.state)
            (λ r. record r {
              state = StepState.waiting_input;
              diagnostic = recovery_required;
              updated_at = env.now;
            })
            db.steps;
    })

recover_loop : Env → List Step → Db → Db
unfolding recover_step
recover_loop env [] db = db
recover_loop env (s ∷ ss) db = recover_loop env ss (recover_step env s db)

unfoldable pub recover_interrupted_steps : Env → Db → Db × ℕ
unfolding recover_loop
recover_interrupted_steps env db =
    let items = select (λ s. is_running_step s.state) db.steps in
    (recover_loop env items db, length items)

-- cancelStagedTx. The second statement reads the steps of the job.
abbrev pub step_of_job : ℕ → List Step → StepAttempt → Bool
step_of_job job steps a = exists (λ (s : Step). s.id == a.step_id && s.job_id == job) steps

abbrev cancel_staged : Env → ℕ → Db → Db
cancel_staged env job db = record db {
  steps =
      update_where (λ r. r.job_id == job && can_cancel r.state)
        (λ r. record r { state = StepState.cancelled; updated_at = env.now }) db.steps;
  step_attempts =
      update_where (λ a. step_of_job job db.steps a && is_running_step a.status)
        (λ a. record a {
          status = StepState.cancelled;
          ended_at = env.now;
          diagnostic = "cancelled by user";
        })
        db.step_attempts;
}

abbrev pub set_cancelled : Env → Job → Job
set_cancelled env r = record r {
  status = JobStatus.cancelled;
  updated_at = env.now;
  diagnostic = "cancelled by user";
}

abbrev pub attempt_of_job : ℕ → Attempt → Bool
attempt_of_job job a = a.job_id == job && is_running a.status

abbrev pub end_cancelled : Env → Attempt → Attempt
end_cancelled env a = record a {
  status = JobStatus.cancelled;
  ended_at = env.now;
  diagnostic = "cancelled by user";
}

abbrev cancel_job : Env → ℕ → Db → Db
cancel_job env job db = record db {
  jobs = update_where (λ r. r.id == job) (set_cancelled env) db.jobs;
  attempts = update_where (attempt_of_job job) (end_cancelled env) db.attempts;
}

abbrev cancel_rows : Env → Job → ℕ → Db → Db
cancel_rows env j job db =
    add_event env.now job j.current_attempt "job.cancelled" no_data
      (cancel_staged env job (cancel_job env job db))

cancel_txn : Env → ℕ → Db → Result (Db × Unit {0})
cancel_txn env job db = do
  j ← or_fail (find_by job_key job db.jobs) no_rows
  refuse_if (is_final j.status) (message "job is already in a final state")
  ok (cancel_rows env j job db, tt)

unfoldable pub cancel : Env → ℕ → Db → Db × Result (Unit {0})
unfolding cancel_txn
cancel env job db = exec db (cancel_txn env job db)
