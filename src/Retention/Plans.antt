-- ===== src/Retention/Plans.antt =====
-- The plans of internal/retention/retention.go: Create and Read.
use agent_chun_su.Base.{
  ℕ, List, [], ◌∷◌, ◌++◌, String, Option, ◌==◌, ◌||◌, ltb, str_eq, not, if◌then◌else◌,
}
use agent_chun_su.Table.{find_by, exists, length}
use agent_chun_su.Store.Status.{JobStatus, can_retire}
use agent_chun_su.Store.Model.{
  Job, FilePath, Home, Env, Result, ok, err, no_rows, constraint, message, job_key,
}
use agent_chun_su.Store.Txn.{◌>>=◌, ◌>>◌, refuse_if, or_fail}
use agent_chun_su.Retention.Inventory.{Entry, inventory}

pub record Plan : Type 0 where
  pub version : ℕ
  pub id : ℕ
  pub job_id : ℕ
  pub job_status : JobStatus
  pub job_updated_at : ℕ
  pub created_at : ℕ
  pub files : List (FilePath × Entry)
  pub total_bytes : ℕ

pub data Progress : Type 0 where
  planned applying completed : Progress

-- The path of a plan stands for its id.
pub record Operation : Type 0 where
  pub id : ℕ
  pub job_id : ℕ
  pub status : Progress
  pub plan_path : ℕ
  pub plan_digest : String

-- A row of the table `retention_operations`.
pub record OperationRow : Type 0 where
  pub operation : Operation
  pub created_at : ℕ
  pub updated_at : ℕ

-- A file below state/retention.
pub record PlanFile : Type 0 where
  pub id : ℕ
  pub content : List ℕ

pub record Vault : Type 0 where
  pub home : Home
  pub operations : List OperationRow
  pub plans : List PlanFile

pub record Limits : Type 0 where
  pub max_backup_bytes : ℕ
  pub max_evidence_bytes : ℕ

-- encoding/json of a plan, and internal/mail's Decode.
pub record PlanCodec : Type 0 where
  pub encode : Plan → List ℕ
  pub decode : List ℕ → Option Plan

abbrev pub operation_key : OperationRow → ℕ
operation_key r = r.operation.id

abbrev pub plan_key : PlanFile → ℕ
plan_key f = f.id

abbrev pub new_plan : Env → Job → List (FilePath × Entry) × ℕ → Plan
new_plan env j found = record {
  version = 1;
  id = env.fresh 0;
  job_id = j.id;
  job_status = j.status;
  job_updated_at = j.updated_at;
  created_at = env.now;
  files = found.0;
  total_bytes = found.1;
}

-- The plan that Create makes, before it is written.
unfoldable pub prepared_plan : Env → PlanCodec → Limits → ℕ → Home → Result Plan
prepared_plan env pc lim job h = do
  j ← or_fail (find_by job_key job h.db.jobs) no_rows
  refuse_if (not (can_retire j.status))
      (message "finish or cancel pending work before planning retention")
  found ← inventory env j.id lim.max_backup_bytes h.disk
  refuse_if (ltb lim.max_evidence_bytes (length (pc.encode (new_plan env j found))))
      (message "retention manifest exceeds byte limit")
  ok (new_plan env j found)

abbrev pub planned_operation : Env → PlanCodec → Plan → OperationRow
planned_operation env pc p = record {
  operation = record {
    id = p.id;
    job_id = p.job_id;
    status = Progress.planned;
    plan_path = p.id;
    plan_digest = env.digest (pc.encode p);
  };
  created_at = env.now;
  updated_at = env.now;
}

abbrev pub with_plan_file : PlanCodec → Plan → Vault → Vault
with_plan_file pc p v = record v {
  plans = v.plans ++ (record { id = p.id; content = pc.encode p } ∷ []);
}

-- The file stays where the INSERT fails.
unfoldable pub create : Env → PlanCodec → Limits → ℕ → Vault → Vault × Result Plan
unfolding prepared_plan
create env pc lim job v = elim (prepared_plan env pc lim job v.home) [
  | err e ↦ (v, err e)
  | ok p ↦
      if exists (λ f. plan_key f == p.id) v.plans
      then (v, err (message "file exists"))
      else (if exists (λ r. operation_key r == p.id) v.operations
          then (with_plan_file pc p v, err constraint)
          else (
            record (with_plan_file pc p v) {
              operations = v.operations ++ (planned_operation env pc p ∷ []);
            },
            ok p,
          ))
]

unfoldable pub read_plan_file : ℕ → ℕ → List PlanFile → Result (List ℕ)
read_plan_file id limit plans = do
  refuse_if (limit == 0) (message "read limit must be positive")
  f ← or_fail (find_by plan_key id plans) (message "file does not exist")
  refuse_if (ltb limit (length f.content)) (message "file exceeds configured byte limit")
  ok f.content

unfoldable pub checked_plan : Env → PlanCodec → Limits → Operation → List PlanFile → Result Plan
unfolding read_plan_file
checked_plan env pc lim op plans = do
  b ← read_plan_file op.plan_path lim.max_evidence_bytes plans
  refuse_if (not (str_eq (env.digest b) op.plan_digest))
      (message "retention plan integrity mismatch")
  p ← or_fail (pc.decode b) (message "invalid JSON")
  refuse_if
      (not (p.version == 1) || not (p.id == op.id) || not (p.job_id == op.job_id) || p.job_id == 0)
      (message "invalid retention plan binding")
  ok p

-- Read: the operation and its plan.
unfoldable pub read : Env → PlanCodec → Limits → ℕ → Vault → Result (Operation × Plan)
unfolding checked_plan
read env pc lim id v = do
  r ← or_fail (find_by operation_key id v.operations) no_rows
  p ← checked_plan env pc lim r.operation v.plans
  ok (r.operation, p)
