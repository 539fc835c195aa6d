-- ===== src/Store/Workflow/Complete.antt =====
-- CompleteStep and RetryStep of internal/store/workflow.go.
pub mod Once
use agent_chun_su.Base.{
  ℕ, Bool, true, false, List, [], ◌∷◌, ◌++◌, none, some, ◌==◌, ◌&&◌, ◌||◌, not, if◌then◌else◌,
}
use agent_chun_su.Table.{find_by, find_where, count_where, update_where}
use agent_chun_su.Store.Status.{
  StepState, is_staged, is_running_step, is_completed_step, can_complete, can_retry, same_state,
}
use agent_chun_su.Store.Model.{
  Step, StepAttempt, Artifact, File, Db, Env, Result, ok, err, no_rows, stale_step, step_blocked,
  message, step_result, job_key, step_key,
}
use agent_chun_su.Store.Txn.{◌>>=◌, ◌>>◌, refuse_if, or_fail, exec}
use agent_chun_su.Store.Rows.{add_event}
use agent_chun_su.Store.Disk.{read_artifact}

-- The checks of an output: it is of this job and attempt, and its file is intact.
check_output : Env → List File → ℕ → ℕ → ℕ → Db → Result (Unit {0})
check_output env disk output job attempt db =
    if output == 0
    then ok tt
    else (or_fail (find_where (λ (a : Artifact). a.id == output && a.job_id == job) db.artifacts)
          no_rows
        >>= λ a.
            refuse_if (not (a.attempt_id == attempt))
              (message "artifact belongs to another attempt")
            >> (read_artifact env a a.bytes disk >>= λ _. ok tt))

-- `id=? AND state='running' AND current_attempt_id=?`.
abbrev pub runs_step : ℕ → ℕ → Step → Bool
runs_step id attempt r = r.id == id && (is_running_step r.state && r.current_attempt_id == attempt)

-- `id=? AND step_id=? AND status='running'`.
abbrev pub runs_step_attempt : ℕ → ℕ → StepAttempt → Bool
runs_step_attempt id attempt r = r.id == attempt && (r.step_id == id && is_running_step r.status)

abbrev step_output : StepState → ℕ → ℕ
step_output status output = if is_completed_step status then output else 0

abbrev pub set_finished : Env → StepState → ℕ → Step → Step
set_finished env status output r = record r {
  state = status;
  output_artifact_id = step_output status output;
  updated_at = env.now;
}

abbrev pub close_step_attempt : Env → StepState → ℕ → StepAttempt → StepAttempt
close_step_attempt env status output r = record r {
  status = status;
  ended_at = env.now;
  output_artifact_id = output;
}

-- The statements of a completion.
complete_rows : Env → Step → ℕ → ℕ → StepState → Db → Result (Db × Step)
complete_rows env s attempt output status db = do
  refuse_if (not (count_where (runs_step s.id attempt) db.steps == 1)) stale_step
  refuse_if (not (count_where (runs_step_attempt s.id attempt) db.step_attempts == 1)) stale_step
  let db1 = record db {
    steps = update_where (runs_step s.id attempt) (set_finished env status output) db.steps;
    step_attempts =
        update_where (runs_step_attempt s.id attempt) (close_step_attempt env status output)
          db.step_attempts;
  }
  ok (
    add_event env.now s.job_id attempt "step.finished" (step_result status output) db1,
    set_finished env status output s,
  )

complete_step_txn : Env → List File → ℕ → ℕ → ℕ → StepState → Db → Result (Db × Step)
unfolding check_output complete_rows
complete_step_txn env disk id attempt output status db = do
  refuse_if (not (can_complete status)) (message "invalid step completion status")
  s ← or_fail (find_by step_key id db.steps) no_rows
  j ← or_fail (find_by job_key s.job_id db.jobs) no_rows
  refuse_if
      (not (is_staged j.status)
        || (not (is_running_step s.state) || not (s.current_attempt_id == attempt)))
      stale_step
  refuse_if (is_completed_step status && output == 0)
      (message "validated completion requires an artifact")
  check_output env disk output s.job_id attempt db
  complete_rows env s attempt output status db

unfoldable pub complete_step : Env → List File → ℕ → ℕ → ℕ → StepState → Db → Db × Result Step
unfolding complete_step_txn
complete_step env disk id attempt output status db =
    exec db (complete_step_txn env disk id attempt output status db)

-- `id=? AND current_attempt_id=? AND state=?`.
abbrev retryable : ℕ → ℕ → StepState → Step → Bool
retryable id attempt state r =
    r.id == id && (r.current_attempt_id == attempt && same_state r.state state)

retry_step_txn : Env → ℕ → ℕ → Db → Result (Db × Unit {0})
retry_step_txn env id expected db = do
  s ← or_fail (find_by step_key id db.steps) no_rows
  refuse_if (not (s.current_attempt_id == expected) || expected == 0) stale_step
  refuse_if (not (can_retry s.state)) stale_step
  j ← or_fail (find_by job_key s.job_id db.jobs) no_rows
  refuse_if (not (is_staged j.status)) step_blocked
  refuse_if (not (count_where (retryable id expected s.state) db.steps == 1)) stale_step
  ok (
    record db {
      steps =
          update_where (retryable id expected s.state)
            (λ r. record r { state = StepState.retry_wait; not_before = 0; updated_at = env.now })
            db.steps;
    },
    tt,
  )

unfoldable pub retry_step : Env → ℕ → ℕ → Db → Db × Result (Unit {0})
unfolding retry_step_txn
retry_step env id expected db = exec db (retry_step_txn env id expected db)
