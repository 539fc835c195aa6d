-- ===== src/Store/Workflow/Control/Quiet.antt =====
-- What stands still after a job was cancelled, superseded or recovered.
use agent_chun_su.Base.{
  ℕ, ◌≡◌, ◌<◌, ◌≢◌, refl, true, false, List, [], ◌∷◌, arith, ◌==◌, Bool-cases, Option-cases, inl,
  inr, not, ◌⊎◌, ◌&&◌,
}
use agent_chun_su.Table.{find_by, select, count_where, exists, All}
use agent_chun_su.Table.Laws.{
  All-or, All-update_where, All-pure, All-map, count_where-zero, count_where-none,
  select-update_where, length-select, exists-update_where,
}
use agent_chun_su.Store.Status.{
  JobStatus, StepState, is_running, is_running_step, can_cancel, can_supersede,
}
use agent_chun_su.Store.Model.{
  Job, Attempt, WorkflowJob, Step, StepAttempt, Db, Env, ok, job_key, ResultEvent, workflow_key,
}
use agent_chun_su.Store.Workflow.Control.{
  cancel, cancel_txn, cancel_rows, staged_exists, supersede_rows, running_of, sending_of,
  step_of_job, supersede_txn, supersede_job_revision, revision_row, recover_step, recover_loop,
  recover_interrupted_steps,
}
use agent_chun_su.Store.Txn.{Result-cases}
use agent_chun_su.Store.Workflow.Settled.{Lasts, untouched, written}

-- Nothing of the job is at work or still to be done.
pub record IsQuiet (job : ℕ) (old db : Db) : Type 0 where
  pub is_cancelled : All (λ (j : Job). (j.id ≢ job) ⊎ (j.status ≡ JobStatus.cancelled)) db.jobs
  pub no_attempt :
      All (λ (a : Attempt). (a.job_id ≢ job) ⊎ (is_running a.status ≡ false)) db.attempts
  pub no_step : All (λ (s : Step). (s.job_id ≢ job) ⊎ (can_cancel s.state ≡ false)) db.steps
  pub no_step_attempt :
      All
        (λ (a : StepAttempt). (step_of_job job old.steps a && is_running_step a.status) ≡ false)
        db.step_attempts
  pub others :
      select (λ (s : Step). not (s.job_id == job)) db.steps
      ≡ select (λ (s : Step). not (s.job_id == job)) old.steps

cancel_rows-IsQuiet :
    (env : Env) (j : Job) (job : ℕ) (db : Db) → IsQuiet job db (cancel_rows env j job db)
cancel_rows-IsQuiet env j job db = record {
  is_cancelled =
      All-or job_key job (λ j. j.status ≡ JobStatus.cancelled) (cancel_rows env j job db).jobs
        (All-update_where (λ a. Unit {0}) _ _ _ (λ a u own. ground arith) db.jobs
          (All-pure _ (λ a. tt) db.jobs));
  no_attempt =
      All-or (λ a. a.job_id) job (λ a. is_running a.status ≡ false)
        (cancel_rows env j job db).attempts
        (All-update_where (λ a. Unit {0}) _ _ _ (λ a u own. ground arith) db.attempts
          (All-pure _ (λ a. tt) db.attempts));
  no_step =
      All-or (λ s. s.job_id) job (λ s. can_cancel s.state ≡ false) (cancel_rows env j job db).steps
        (All-update_where (λ a. Unit {0}) _ _ _ (λ s u own. ground arith) db.steps
          (All-pure _ (λ a. tt) db.steps));
  no_step_attempt =
      All-update_where (λ a. Unit {0}) _ _ _ (λ a u. ground arith) db.step_attempts
        (All-pure _ (λ a. tt) db.step_attempts);
  others = select-update_where _ _ _ (λ s. refl) (λ s h. ground arith) db.steps;
}

-- A cancelled job has no attempt and no step attempt at work, and every step of it is completed,
-- superseded or cancelled; the steps of other jobs are as they were.
pub cancel-IsQuiet :
    (env : Env) (job : ℕ) (db db' : Db) → cancel env job db ≡ (db', ok tt) → IsQuiet job db db'
unfolding cancel cancel_txn
cancel-IsQuiet env job db db' h = elim (Option-cases (find_by job_key job db.jobs)) [
  | inl e ↦ absurd (ground arith)
  | inr (j, e) ↦
      (let rows : db' ≡ cancel_rows env j job db = ground arith in
        rw rows (cancel_rows-IsQuiet env j job db))
]

-- The rows of the query are all that run.
Listed : List Step → Step → Type 0
Listed items r = is_running_step r.state ≡ true → exists (λ (s : Step). s.id == r.id) items ≡ true

recover_step-Listed :
    (env : Env) (s : Step) (ss : List Step) (db : Db)
    → All (Listed (s ∷ ss)) db.steps
    → All (Listed ss) (recover_step env s db).steps
unfolding recover_step Listed exists
recover_step-Listed env s ss db = All-update_where _ _ _ _ (λ r h run. ground (arith)) db.steps

recover_loop-stopped :
    (env : Env) (items : List Step) (db : Db)
    → All (Listed items) db.steps
    → All (λ (r : Step). is_running_step r.state ≡ false) (recover_loop env items db).steps
unfolding recover_loop Listed exists
recover_loop-stopped env [] db h = All-map _ _ (λ r k. ground arith) db.steps h
recover_loop-stopped env (s ∷ ss) db h =
    recover_loop-stopped env ss (recover_step env s db) (recover_step-Listed env s ss db h)

Listed-select : (rows : List Step) → All (Listed (select (λ s. is_running_step s.state) rows)) rows
unfolding select exists Listed
Listed-select [] = tt
Listed-select (x ∷ xs) =
    ((λ run. ground arith), All-map _ _ (λ r h run. ground (arith, h run)) xs (Listed-select xs))

-- After a recovery no step runs, in any job, and the result is the number of steps that ran.
recover_interrupted_steps-stopped :
    (env : Env) (db : Db)
    → All (λ (r : Step). is_running_step r.state ≡ false) (recover_interrupted_steps env db).0.steps
      × ((recover_interrupted_steps env db).1
          ≡ count_where (λ (r : Step). is_running_step r.state) db.steps)
unfolding recover_interrupted_steps
recover_interrupted_steps-stopped env db = (
  recover_loop-stopped env (select (λ s. is_running_step s.state) db.steps) db
      (Listed-select db.steps),
  length-select _ db.steps,
)

-- What a change of the request's revision leaves.
pub record IsRevised (job expected next : ℕ) (old db : Db) : Type 0 where
  pub increases : expected < next
  pub none_ran : All (λ (s : Step). running_of job s ≡ false) old.steps
  pub none_sent : All (λ (e : ResultEvent). sending_of job e ≡ false) old.results
  pub retired : All (λ (s : Step). (s.job_id ≢ job) ⊎ (can_supersede s.state ≡ false)) db.steps
  pub current :
      exists (λ (w : WorkflowJob). w.job_id == job && w.request_revision == next) db.workflows
      ≡ true
  pub revised :
      All (λ (w : WorkflowJob). (w.job_id ≢ job) ⊎ (w.request_revision ≢ expected)) db.workflows

supersede_rows-retired :
    (env : Env) (job expected next : ℕ) (db : Db)
    → All
        (λ (s : Step). s.job_id ≡ job → can_supersede s.state ≡ false)
        (supersede_rows env job expected next db).steps
supersede_rows-retired env job expected next db =
    All-update_where (λ a. Unit {0}) _ _ _ (λ s u own. ground arith) db.steps
      (All-pure _ (λ a. tt) db.steps)

supersede_rows-revised :
    (env : Env) (job expected next : ℕ) (db : Db)
    → expected < next
    → count_where (revision_row job expected db) db.workflows ≡ 1
    → All
        (λ (w : WorkflowJob). w.job_id ≡ job → w.request_revision ≢ expected)
        (supersede_rows env job expected next db).workflows
supersede_rows-revised env job expected next db up one = elim (Bool-cases (staged_exists job db)) [
  | inl there ↦
      All-update_where (λ a. Unit {0}) _ _ _ (λ w u own. ground arith) db.workflows
        (All-pure _ (λ a. tt) db.workflows)
  | inr gone ↦ absurd (
      omega
        (arith, count_where-none (revision_row job expected db) (λ w. ground arith) db.workflows))
]

supersede_rows-current :
    (env : Env) (job expected next : ℕ) (db : Db)
    → count_where (revision_row job expected db) db.workflows ≡ 1
    → exists
        (λ (w : WorkflowJob). w.job_id == job && w.request_revision == next)
        (supersede_rows env job expected next db).workflows
      ≡ true
supersede_rows-current env job expected next db one =
    exists-update_where _ (revision_row job expected db) _ (λ w own. ground arith) db.workflows one

-- A change of the revision increases it, and is made only while no step of the job runs and no result
-- of it is being sent. Afterwards each step of the job is superseded or cancelled, and a
-- workflow row of the job has the new revision, and none has the old one.
pub supersede_job_revision-IsRevised :
    (env : Env) (job expected next : ℕ) (db db' : Db)
    → supersede_job_revision env job expected next db ≡ (db', ok tt)
    → IsRevised job expected next db db'
unfolding supersede_job_revision supersede_txn
supersede_job_revision-IsRevised env job expected next db db' h =
    let rows : db' ≡ supersede_rows env job expected next db = ground arith in
    let up : expected < next = ground arith in
    let one : count_where (revision_row job expected db) db.workflows ≡ 1 = ground arith in
    rw rows (record {
      increases = up;
      none_ran = count_where-zero _ _ (λ s e. e) db.steps (ground arith);
      none_sent = count_where-zero _ _ (λ s e. e) db.results (ground arith);
      retired =
          All-or (λ s. s.job_id) job (λ s. can_supersede s.state ≡ false)
            (supersede_rows env job expected next db).steps
            (supersede_rows-retired env job expected next db);
      current = supersede_rows-current env job expected next db one;
      revised =
          All-or workflow_key job (λ w. w.request_revision ≢ expected)
            (supersede_rows env job expected next db).workflows
            (supersede_rows-revised env job expected next db up one);
    })

-- Cancel and SupersedeJobRevision leave settled steps settled.
pub cancel-Lasts : (env : Env) (job : ℕ) (db : Db) → Lasts db (cancel env job db).0
unfolding cancel cancel_txn
cancel-Lasts env job db = elim (Result-cases (cancel_txn env job db)) [
  | inr (e, bad) ↦ untouched (ground arith)
  | inl ((db', u), good) ↦
      written (λ r. r.job_id == job && can_cancel r.state)
        (λ r. record r { state = StepState.cancelled; updated_at = env.now }) (ground arith)
        (λ r. refl) (λ r h. ground arith)
]

pub supersede_job_revision-Lasts :
    (env : Env) (job expected next : ℕ) (db : Db)
    → Lasts db (supersede_job_revision env job expected next db).0
unfolding supersede_job_revision supersede_txn
supersede_job_revision-Lasts env job expected next db =
    elim (Result-cases (supersede_txn env job expected next db)) [
      | inr (e, bad) ↦ untouched (ground arith)
      | inl ((db', u), good) ↦
          written (λ r. r.job_id == job && can_supersede r.state)
            (λ r. record r { state = StepState.superseded; updated_at = env.now }) (ground arith)
            (λ r. refl) (λ r h. ground arith)
    ]
