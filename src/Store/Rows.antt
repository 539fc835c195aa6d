-- ===== src/Store/Rows.antt =====
-- The INSERT statements of internal/store, with the primary keys and the UNIQUE constraints of
-- internal/store/migrations, and the two statements that most operations share.
use agent_chun_su.Base.{
  ℕ, Bool, true, false, [], ◌∷◌, ◌++◌, String, ◌==◌, ◌&&◌, ◌||◌, str_eq, not, if◌then◌else◌,
}
use agent_chun_su.Table.{exists}
use agent_chun_su.Store.Model.{
  Job, Attempt, Artifact, FilePath, Event, Payload, WorkflowJob, Step, StepAttempt, EventKey,
  ResultEvent, Db, Env, Result, ok, err, input_file, artifact_file, constraint,
}

abbrev pub same_path : FilePath → FilePath → Bool
same_path (input_file j) (input_file k) = j == k
same_path (artifact_file j a true) (artifact_file k b true) = j == k && a == b
same_path (artifact_file j a false) (artifact_file k b false) = j == k && a == b
same_path _ _ = false

-- The unique index on the acquisition of a request spares NULL.
same_acquisition : Env → String → String → Bool
same_acquisition env r q =
    not (env.acquisition_of r == 0) && env.acquisition_of r == env.acquisition_of q

unfoldable pub job_clash : Env → Job → Job → Bool
unfolding same_acquisition
job_clash env j r = r.id == j.id || same_acquisition env j.request r.request

unfoldable pub insert_job : Env → Job → Db → Result Db
unfolding job_clash
insert_job env j db =
    if exists (job_clash env j) db.jobs
    then err constraint
    else ok (record db { jobs = db.jobs ++ (j ∷ []) })

unfoldable pub insert_attempt : Attempt → Db → Result Db
insert_attempt a db =
    if exists (λ r. r.id == a.id || (r.job_id == a.job_id && r.ordinal == a.ordinal)) db.attempts
    then err constraint
    else ok (record db { attempts = db.attempts ++ (a ∷ []) })

unfoldable pub insert_artifact : Artifact → Db → Result Db
insert_artifact a db =
    if exists (λ r. r.id == a.id || same_path r.path a.path) db.artifacts
    then err constraint
    else ok (record db { artifacts = db.artifacts ++ (a ∷ []) })

unfoldable pub insert_workflow : WorkflowJob → Db → Result Db
insert_workflow w db =
    if exists (λ r. r.job_id == w.job_id) db.workflows
    then err constraint
    else ok (record db { workflows = db.workflows ++ (w ∷ []) })

step_clash : Step → Step → Bool
step_clash s r =
    r.id == s.id || (r.job_id == s.job_id && (str_eq r.key s.key || r.ordinal == s.ordinal))

unfoldable pub insert_step_row : Step → Db → Result Db
unfolding step_clash
insert_step_row s db =
    if exists (step_clash s) db.steps
    then err constraint
    else ok (record db { steps = db.steps ++ (s ∷ []) })

unfoldable pub insert_step_attempt : StepAttempt → Db → Result Db
insert_step_attempt a db =
    if exists (λ r. r.id == a.id || (r.step_id == a.step_id && r.ordinal == a.ordinal))
      db.step_attempts
    then err constraint
    else ok (record db { step_attempts = db.step_attempts ++ (a ∷ []) })

abbrev pub same_key : EventKey → EventKey → Bool
same_key k l =
    k.job == l.job && (k.step == l.step && (k.revision == l.revision && k.artifact == l.artifact))

unfoldable pub insert_result : ResultEvent → Db → Result Db
insert_result e db =
    if exists (λ r. r.id == e.id || same_key r.event_key e.event_key) db.results
    then err constraint
    else ok (record db { results = db.results ++ (e ∷ []) })

-- INSERT INTO events. `attempt_id` is 0 where the statement leaves it to its default.
abbrev pub add_event : ℕ → ℕ → ℕ → String → Payload → Db → Db
add_event now job attempt kind payload db = record db { events = db.events ++ (event ∷ []) }
  where
    event : Event
    event = record {
      job_id = job;
      attempt_id = attempt;
      kind = kind;
      created_at = now;
      payload = payload;
    }
