-- ===== src/Store/Workflow/Claim.antt =====
-- ClaimStep and SaveStepArtifact of internal/store/workflow.go: an executor takes a ready step, and
-- registers its outputs while it holds it.
pub mod Found
pub mod Exclusive
pub mod Held
use agent_chun_su.Base.{
  ℕ, ◌+◌, Bool, true, false, List, [], ◌∷◌, ◌++◌, String, none, some, ◌==◌, ◌&&◌, ◌||◌, ltb, str_eq,
  not, if◌then◌else◌,
}
use agent_chun_su.Table.{find_by, count_where, update_where, length}
use agent_chun_su.Store.Status.{StepState, is_staged, is_ready, is_running_step}
use agent_chun_su.Store.Model.{
  Step, StepAttempt, Artifact, Content, FilePath, PinnedArtifactRef, Db, Home, Env, Result, ok, err,
  no_rows, stale_step, step_blocked, message, no_data, artifact_file, job_key, step_key,
  step_attempt_key,
}
use agent_chun_su.Store.Txn.{◌>>=◌, ◌>>◌, refuse_if, or_fail, exec}
use agent_chun_su.Store.Rows.{insert_step_attempt, insert_artifact, add_event}
use agent_chun_su.Store.Disk.{write_file}
use agent_chun_su.Store.Workflow.{workflow_of, step_list, resolved_inputs, pin_inputs}

abbrev pub new_step_attempt : Env → Step → ℕ → List PinnedArtifactRef → StepAttempt
new_step_attempt env s count refs = record {
  id = env.fresh 0;
  step_id = s.id;
  ordinal = count + 1;
  status = StepState.running;
  started_at = env.now;
  ended_at = 0;
  inputs = refs;
  output_artifact_id = 0;
  executor_model = s.executor_model;
  executor_effort = s.executor_effort;
  executor_identity = s.executor_identity;
  instruction_version = s.instruction_version;
  diagnostic = "";
}

-- `id=? AND state='ready' AND current_attempt_id=?`.
abbrev pub claimable : ℕ → ℕ → Step → Bool
claimable id expected r = r.id == id && (is_ready r.state && r.current_attempt_id == expected)

abbrev pub set_claimed : Env → StepAttempt → Step → Step
set_claimed env a r = record r {
  state = StepState.running;
  current_attempt_id = a.id;
  input_artifacts = a.inputs;
  updated_at = env.now;
}

-- The statements of a claim.
claim_rows : Env → Step → ℕ → StepAttempt → Db → Result (Db × StepAttempt)
claim_rows env s expected a db = do
  db1 ← insert_step_attempt a db
  refuse_if (not (count_where (claimable s.id expected) db1.steps == 1)) stale_step
  let db2 = record db1 {
    steps = update_where (claimable s.id expected) (set_claimed env a) db1.steps;
  }
  ok (add_event env.now s.job_id a.id "step.started" no_data db2, a)

abbrev step_attempts_of : ℕ → Db → ℕ
step_attempts_of id db = count_where (λ (a : StepAttempt). a.step_id == id) db.step_attempts

claim_step_txn : Env → ℕ → ℕ → Db → Result (Db × StepAttempt)
unfolding claim_rows
claim_step_txn env id expected db = do
  s ← or_fail (find_by step_key id db.steps) no_rows
  wj ← workflow_of s.job_id db
  refuse_if (wj.0.paused || not (is_staged wj.1.status)) step_blocked
  refuse_if (not (is_ready s.state) || not (s.current_attempt_id == expected)) stale_step
  refs ← or_fail (resolved_inputs (step_list s.job_id db.steps) s) step_blocked
  pins ← pin_inputs db s.job_id refs
  claim_rows env s expected (new_step_attempt env s (step_attempts_of id db) pins) db

unfoldable pub claim_step : Env → ℕ → ℕ → Db → Db × Result StepAttempt
unfolding claim_step_txn
claim_step env id expected db = exec db (claim_step_txn env id expected db)

-- The join of SaveStepArtifact: the step runs under this attempt, which runs, in a staged job.
step_is_held : Step → ℕ → Db → Bool
step_is_held s attempt db =
    s.current_attempt_id == attempt
    && (is_running_step s.state
        && (elim (find_by step_attempt_key s.current_attempt_id db.step_attempts) [
          | none ↦ false
          | some a ↦ is_running_step a.status
        ]
            && elim (find_by job_key s.job_id db.jobs) [
              | none ↦ false
              | some j ↦ is_staged j.status
            ]))

-- `SELECT s.job_id ...`: the job of a step that the attempt holds.
held_job : ℕ → ℕ → Db → Result ℕ
unfolding step_is_held
held_job id attempt db = do
  s ← or_fail (find_by step_key id db.steps) stale_step
  refuse_if (not (step_is_held s attempt db)) stale_step
  ok s.job_id

-- `strings.HasSuffix(kind, "_markdown")` is an argument, `markdown`.
abbrev pub step_artifact : Env → ℕ → ℕ → String → Bool → List ℕ → Artifact
step_artifact env job attempt kind markdown content = record {
  id = env.fresh 0;
  job_id = job;
  attempt_id = attempt;
  kind = kind;
  path = artifact_file job (env.fresh 0) markdown;
  digest = env.digest content;
  bytes = length content;
  created_at = env.now;
  content_state = Content.available;
}

-- `INSERT INTO artifacts ... SELECT ... WHERE EXISTS(...)`, which makes the test of the join again.
register_artifact : ℕ → ℕ → Artifact → Db → Result (Db × Artifact)
unfolding held_job
register_artifact id attempt a db = do
  job ← held_job id attempt db
  refuse_if (not (job == a.job_id)) stale_step
  db' ← insert_artifact a db
  ok (db', a)

-- The checks before the file is written.
prepared_artifact : Env → ℕ → ℕ → String → Bool → List ℕ → ℕ → Db → Result Artifact
unfolding held_job
prepared_artifact env id attempt kind markdown content limit db = do
  refuse_if (id == 0 || (attempt == 0 || str_eq kind "")) (message "invalid step artifact identity")
  refuse_if (limit == 0 || ltb limit (length content)) (message "artifact exceeds configured limit")
  job ← held_job id attempt db
  ok (step_artifact env job attempt kind markdown content)

-- `meanwhile` is what other writers do between the two statements, while the file is written.
unfoldable pub save_step_artifact :
    Env → (Db → Db) → ℕ → ℕ → String → Bool → List ℕ → ℕ → Home → Home × Result Artifact
unfolding prepared_artifact register_artifact
save_step_artifact env meanwhile id attempt kind markdown content limit h =
    elim (prepared_artifact env id attempt kind markdown content limit h.db) [
      | err e ↦ (h, err e)
      | ok a ↦ elim (write_file a.path content h.disk) [
        | err e ↦ (h, err e)
        | ok disk ↦
            let db = meanwhile h.db in
            let done = exec db (register_artifact id attempt a db) in
            (record { db = done.0; disk = disk }, done.1)
      ]
    ]
