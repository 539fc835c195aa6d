-- ===== src/Retention.antt =====
-- internal/retention/retention.go: the removal of a finished job's content, by a plan that the owner
-- reviews (Create), and an operation that can be repeated after a crash (Apply).
pub mod Plans
pub mod Inventory
pub mod Steps
pub mod Resumed
pub mod Purged
pub mod Admission
pub mod Applied
pub mod Created
pub mod Guarded
use agent_chun_su.Retention.Plans.{
  Limits, Operation, OperationRow, Plan, PlanCodec, Progress, Vault, operation_key, read,
}
use agent_chun_su.Base.{
  ℕ, Bool, true, false, List, String, none, some, ◌==◌, ◌&&◌, ◌||◌, ltb, leb, map, not,
  if◌then◌else◌,
}
use agent_chun_su.Table.{find_by, update_where}
use agent_chun_su.Store.Status.{JobStatus, is_retiring, same_status}
use agent_chun_su.Store.Model.{
  Job, Attempt, Artifact, Content, Event, Db, Env, Result, ok, err, no_rows, message, job_key,
  purge, no_data,
}
use agent_chun_su.Store.Txn.{◌>>=◌, ◌>>◌, refuse_if}
use agent_chun_su.Store.Rows.{add_event}
use agent_chun_su.Store.Queries.{sort_by}
use agent_chun_su.Store.Resume.{Fields, Codec, get, put, request_map, end}
use agent_chun_su.Retention.Inventory.{inventory, same_entries, removed}

-- The three UPDATE statements of the first transaction.
abbrev pub set_retiring : ℕ → Job → Job
set_retiring now r = record r {
  status = JobStatus.retiring;
  updated_at = now;
  diagnostic = "explicit retention operation in progress";
}

abbrev pub set_content : Content → Artifact → Artifact
set_content c r = record r { content_state = c }

abbrev pub set_progress : Progress → ℕ → OperationRow → OperationRow
set_progress s now r = record r {
  operation = record (r.operation) { status = s };
  updated_at = now;
}

abbrev pub retiring_rows : ℕ → ℕ → Db → Db
retiring_rows now job db = record db {
  jobs = update_where (λ r. r.id == job) (set_retiring now) db.jobs;
  artifacts = update_where (λ r. r.job_id == job) (set_content Content.retiring) db.artifacts;
}

abbrev pub start_rows : ℕ → Operation → Job → Vault → Vault
start_rows now op j v = record v {
  home = record (v.home) { db = retiring_rows now j.id v.home.db };
  operations =
      update_where (λ r. operation_key r == op.id) (set_progress Progress.applying now)
        v.operations;
}

-- The branch of a planned operation compares the job and the content with the plan, and commits; that
-- of an interrupted one goes on.
unfoldable pub started : Env → Limits → Operation → Plan → Job → Vault → Result Vault
started env lim op p j v = elim op.status [
  | Progress.planned ↦ do
    refuse_if (not (same_status j.status p.job_status) || not (j.updated_at == p.job_updated_at))
        (message "job changed since review; create a new retention plan")
    current ← inventory env j.id lim.max_backup_bytes v.home.disk
    refuse_if (not (current.1 == p.total_bytes) || not (same_entries current.0 p.files))
        (message "run contents changed since review; create a new plan")
    ok (start_rows env.now op j v)
  | Progress.applying ↦ do
    refuse_if (not (is_retiring j.status))
        (message "interrupted retention job has an incompatible state")
    ok v
  | Progress.completed ↦ err (message "unsupported retention state")
]

abbrev keep : String → Fields → Fields → Fields
keep k fs kept = elim (get k fs) [ none ↦ kept | some v ↦ put k v kept ]

-- What is kept of a request.
abbrev pub minimal : Fields → Fields
minimal fs = keep "acquisition_id" fs (keep "connection_id" fs (keep "origin" fs end))

abbrev pub set_purged : ℕ → String → Job → Job
set_purged now request r = record r {
  status = JobStatus.purged;
  updated_at = now;
  diagnostic = "run content explicitly purged; see retention plan";
  request = request;
}

abbrev pub set_silent : Attempt → Attempt
set_silent a = record a { diagnostic = "" }

abbrev pub set_no_data : Event → Event
set_no_data e = record e { payload = no_data }

-- The statements of the second transaction.
abbrev pub purged_rows : ℕ → String → Operation → ℕ → Plan → Db → Db
purged_rows now request op attempt p db =
    add_event now p.job_id attempt "content.purged" (purge op.id op.plan_digest) (record db {
      jobs = update_where (λ r. r.id == p.job_id) (set_purged now request) db.jobs;
      artifacts =
          update_where (λ r. r.job_id == p.job_id) (set_content Content.purged) db.artifacts;
      attempts = update_where (λ r. r.job_id == p.job_id) set_silent db.attempts;
      events = update_where (λ r. r.job_id == p.job_id) set_no_data db.events;
    })

abbrev pub completed_rows : ℕ → String → Operation → ℕ → Plan → Vault → Vault
completed_rows now request op attempt p v = record v {
  home = record (v.home) { db = purged_rows now request op attempt p v.home.db };
  operations =
      update_where (λ r. operation_key r == op.id) (set_progress Progress.completed now)
        v.operations;
}

abbrev pub without_run : ℕ → Vault → Vault
without_run job v = record v { home = record (v.home) { disk = removed job v.home.disk } }

-- From RemoveTree on. What was removed stays so where the request does not decode.
unfoldable pub finish_removal :
    Env → Codec → Operation → Plan → Job → Vault → Vault × Result Operation
finish_removal env c op p j v = elim (request_map (c.unmarshal j.request)) [
  | err e ↦ (without_run p.job_id v, err e)
  | ok fs ↦ (
    completed_rows env.now (c.marshal (minimal fs)) op j.current_attempt p (without_run p.job_id v),
    ok (record op { status = Progress.completed }),
  )
]

abbrev pub is_completed : Progress → Bool
is_completed Progress.completed = true
is_completed _ = false

unfoldable pub apply_plan :
    Env → Codec → Limits → Operation → Plan → Vault → Vault × Result Operation
unfolding started finish_removal
apply_plan env c lim op p v = elim (find_by job_key p.job_id v.home.db.jobs) [
  | none ↦ (v, err no_rows)
  | some j ↦ elim (started env lim op p j v) [
    | err e ↦ (v, err e)
    | ok v1 ↦ finish_removal env c op p j v1
  ]
]

unfoldable pub apply : Env → Codec → PlanCodec → Limits → ℕ → Vault → Vault × Result Operation
unfolding read apply_plan
apply env c pc lim id v = elim (read env pc lim id v) [
  | err e ↦ (v, err e)
  | ok (op, p) ↦ if is_completed op.status then (v, ok op) else apply_plan env c lim op p v
]

-- `ORDER BY created_at,id`.
abbrev planned_before : OperationRow → OperationRow → Bool
planned_before a b =
    ltb a.created_at b.created_at
    || (a.created_at == b.created_at && leb (operation_key a) (operation_key b))

abbrev operation_of : OperationRow → Operation
operation_of r = r.operation

-- Pending: all operations, in the order of their creation.
unfoldable pending : Vault → List Operation
unfolding sort_by
pending v = map operation_of (sort_by planned_before v.operations)
