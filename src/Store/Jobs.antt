-- ===== src/Store/Jobs.antt =====
-- internal/store/store.go (Submit), lifecycle.go (StartAttempt, FinishAttempt) and publication.go:
-- the queue of jobs and the attempts at them.
pub mod Recovery
pub mod Running
pub mod Recovered
pub mod Keys
pub mod Submitted
use agent_chun_su.Base.{
  ℕ, ◌+◌, Bool, true, false, List, [], ◌∷◌, String, Option, none, some, ◌==◌, ◌&&◌, ◌||◌, ltb, leb,
  str_eq, not, if◌then◌else◌,
}
use agent_chun_su.Table.{find_by, count_where, update_where, length}
use agent_chun_su.Store.Status.{
  JobStatus, is_running, can_start, can_finish, attempt_status, is_waiting_input,
}
use agent_chun_su.Store.Model.{
  Job, Attempt, Artifact, Content, Db, Home, File, Env, Result, ok, err, no_rows, stale_step,
  attempt_budget, message, input_file, no_data, attempt_result, publication, job_key,
}
use agent_chun_su.Store.Txn.{◌>>=◌, ◌>>◌, refuse_if, or_fail, exec, exec_result}
use agent_chun_su.Store.Rows.{insert_job, insert_attempt, insert_artifact, add_event}
use agent_chun_su.Store.Disk.{write_file}

abbrev pub recovery_required : String
recovery_required = "interrupted attempt requires recovery review"

abbrev publication_required : String
publication_required = "local report publication failed; use publish to retry presentation"

abbrev pub budget_exhausted : String
budget_exhausted = "attempt budget exhausted; review the limit or submit a separate experiment"

-- What Submit and SubmitStaged write of a new job, before its own columns.
abbrev pub new_job : Env → String → JobStatus → String → Job
new_job env group status request = record {
  id = env.fresh 0;
  workgroup = group;
  input_ref = input_file (env.fresh 0);
  status = status;
  current_attempt = 0;
  created_at = env.now;
  updated_at = env.now;
  not_before = 0;
  diagnostic = "";
  request = request;
}

abbrev pub input_artifact : Env → Job → List ℕ → Artifact
input_artifact env j input = record {
  id = env.fresh 1;
  job_id = j.id;
  attempt_id = 0;
  kind = "input";
  path = j.input_ref;
  digest = env.digest input;
  bytes = length input;
  created_at = env.now;
  content_state = Content.available;
}

-- `request` is `none` where json.Marshal fails.
submitted_job : Env → String → List ℕ → Option String → ℕ → Result Job
submitted_job env group input request limit = do
  refuse_if (str_eq group "") (message "workgroup is required")
  refuse_if (limit == 0 || ltb limit (length input)) (message "input exceeds configured limit")
  text ← or_fail request (message "request cannot be written as JSON")
  ok (new_job env group JobStatus.queued text)

submit_rows : Env → Job → List ℕ → Db → Result (Db × Job)
submit_rows env j input db = do
  db1 ← insert_job env j db
  db2 ← insert_artifact (input_artifact env j input) db1
  ok (add_event env.now j.id 0 "job.queued" no_data db2, j)

-- The file is written before the transaction, and stays where the rows are refused.
unfoldable pub with_file {ℓ} :
    {A : Type ℓ} → Home → Job → List ℕ → (Db → Result (Db × A)) → Home × Result A
with_file h j input rows = elim (write_file j.input_ref input h.disk) [
  | err e ↦ (h, err e)
  | ok disk ↦ (record { db = (exec h.db (rows h.db)).0; disk = disk }, (exec h.db (rows h.db)).1)
]

unfoldable pub submit : Env → String → List ℕ → Option String → ℕ → Home → Home × Result Job
unfolding submitted_job submit_rows with_file
submit env group input request limit h = elim (submitted_job env group input request limit) [
  | err e ↦ (h, err e)
  | ok j ↦ with_file h j input (submit_rows env j input)
]

abbrev pub job_is : ℕ → Job → Bool
job_is id r = r.id == id

abbrev pub set_waiting : Env → String → Job → Job
set_waiting env diagnostic r = record r {
  status = JobStatus.waiting_input;
  updated_at = env.now;
  diagnostic = diagnostic;
}

-- The statements of a job whose attempts are used up. They are committed.
abbrev exhaust : Env → Job → Db → Db
exhaust env j db =
    add_event env.now j.id j.current_attempt "job.budget_exhausted" no_data
      (record db { jobs = update_where (job_is j.id) (set_waiting env budget_exhausted) db.jobs })

abbrev pub new_attempt : Env → ℕ → String → ℕ → Attempt
new_attempt env job executor count = record {
  id = env.fresh 0;
  job_id = job;
  ordinal = count + 1;
  status = JobStatus.running;
  started_at = env.now;
  ended_at = 0;
  executor = executor;
  diagnostic = "";
}

abbrev set_running : Env → ℕ → ℕ → Job → Job
set_running env job attempt r = record r {
  status = JobStatus.running;
  current_attempt = attempt;
  updated_at = env.now;
  diagnostic = "";
}

-- The statements of a new attempt.
begin_attempt : Env → Attempt → Db → Result (Db × Result Attempt)
begin_attempt env a db = do
  db1 ← insert_attempt a db
  let db2 = record db1 {
    jobs = update_where (job_is a.job_id) (set_running env a.job_id a.id) db1.jobs;
  }
  ok (add_event env.now a.job_id a.id "attempt.started" no_data db2, ok a)

abbrev pub attempts_of : ℕ → Db → ℕ
attempts_of job db = count_where (λ (a : Attempt). a.job_id == job) db.attempts

start_attempt_txn : Env → ℕ → String → ℕ → Db → Result (Db × Result Attempt)
unfolding begin_attempt
start_attempt_txn env job executor max_attempts db = do
  j ← or_fail (find_by job_key job db.jobs) no_rows
  refuse_if (not (can_start j.status)) (message "job is not eligible to run")
  refuse_if (ltb env.now j.not_before) (message "job is not yet eligible to retry")
  let count = attempts_of job db
  if leb max_attempts count
      then ok (exhaust env j db, err attempt_budget)
      else begin_attempt env (new_attempt env job executor count) db

pub start_attempt : Env → ℕ → String → ℕ → Db → Db × Result Attempt
unfolding start_attempt_txn
start_attempt env job executor max_attempts db =
    exec_result db (start_attempt_txn env job executor max_attempts db)

-- `id=? AND current_attempt=? AND status='running'`.
abbrev runs_attempt : ℕ → ℕ → Job → Bool
runs_attempt job attempt r = r.id == job && (r.current_attempt == attempt && is_running r.status)

abbrev pub running_attempt : ℕ → Attempt → Bool
running_attempt id r = r.id == id && is_running r.status

abbrev pub close_attempt : ℕ → JobStatus → String → Attempt → Attempt
close_attempt now status diagnostic r = record r {
  status = status;
  ended_at = now;
  diagnostic = diagnostic;
}

abbrev set_finished : Env → JobStatus → String → ℕ → Job → Job
set_finished env status diagnostic not_before r = record r {
  status = status;
  updated_at = env.now;
  diagnostic = diagnostic;
  not_before = not_before;
}

-- The three statements of FinishAttempt.
abbrev finish_rows : Env → Attempt → JobStatus → String → ℕ → Db → Db
finish_rows env a status diagnostic not_before db =
    add_event env.now a.job_id a.id "attempt.finished" (attempt_result status diagnostic)
      (record db {
        jobs =
            update_where (runs_attempt a.job_id a.id)
              (set_finished env status diagnostic not_before) db.jobs;
        attempts =
            update_where (running_attempt a.id)
              (close_attempt env.now (attempt_status status) diagnostic) db.attempts;
      })

finish_attempt_txn : Env → Attempt → JobStatus → String → ℕ → Db → Result (Db × Unit {0})
finish_attempt_txn env a status diagnostic not_before db = do
  refuse_if (not (can_finish status)) (message "invalid completion status")
  refuse_if (not (count_where (runs_attempt a.job_id a.id) db.jobs == 1))
      (message "stale attempt cannot update this job")
  ok (finish_rows env a status diagnostic not_before db, tt)

pub finish_attempt : Env → Attempt → JobStatus → String → ℕ → Db → Db × Result (Unit {0})
unfolding finish_attempt_txn
finish_attempt env a status diagnostic not_before db =
    exec db (finish_attempt_txn env a status diagnostic not_before db)

abbrev set_published : Env → JobStatus → Job → Job
set_published env status r = record r { status = status; updated_at = env.now; diagnostic = "" }

-- CompletePublication.
abbrev can_publish : JobStatus → Bool
can_publish JobStatus.completed = true
can_publish JobStatus.partial = true
can_publish JobStatus.waiting_input = true
can_publish _ = false

complete_publication_txn : Env → ℕ → ℕ → JobStatus → ℕ → Db → Result (Db × Unit {0})
complete_publication_txn env job attempt status artifact db = do
  refuse_if (not (can_publish status)) (message "invalid publication completion state")
  j ← or_fail (find_by job_key job db.jobs) no_rows
  refuse_if
      (not (j.current_attempt == attempt)
        || (not (is_waiting_input j.status)
            || not (
                str_eq j.diagnostic publication_required || str_eq j.diagnostic recovery_required)))
      (message "job is not waiting for publication recovery")
  let db1 = record db { jobs = update_where (job_is job) (set_published env status) db.jobs }
  ok (add_event env.now job attempt "report.publication_recovered" (publication artifact) db1, tt)

pub complete_publication : Env → ℕ → ℕ → JobStatus → ℕ → Db → Db × Result (Unit {0})
unfolding complete_publication_txn
complete_publication env job attempt status artifact db =
    exec db (complete_publication_txn env job attempt status artifact db)
