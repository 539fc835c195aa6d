-- ===== src/Store/Workflow/Spec.antt =====
-- validateSteps, SubmitStaged, insertStep and AppendSteps of internal/store/workflow.go. A request
-- revision is a natural number, so the test for a negative one falls away.
pub mod Valid
pub mod Appended
use Prim.Native.Char.{code}
use agent_chun_su.Base.{
  ℕ, ◌+◌, Bool, true, false, List, [], ◌∷◌, String, Option, none, some, ◌==◌, ◌&&◌, ◌||◌, ltb,
  str_eq, not, if◌then◌else◌,
}
use agent_chun_su.Table.{exists, length}
use agent_chun_su.Store.Status.{JobStatus, StepState, is_staged, is_running_step}
use agent_chun_su.Store.Model.{
  Job, StepSpec, WorkflowSpec, WorkflowJob, PinnedArtifactRef, Step, Db, Home, Env, Result, ok, err,
  stale_step, step_blocked, message, no_data,
}
use agent_chun_su.Store.Txn.{◌>>=◌, ◌>>◌, refuse_if, or_fail, exec}
use agent_chun_su.Store.Rows.{
  insert_job, insert_artifact, insert_workflow, insert_step_row, add_event,
}
use agent_chun_su.Store.Jobs.{new_job, input_artifact, with_file}
use agent_chun_su.Store.Workflow.{workflow_of, step_list}

abbrev max_workflow_steps : ℕ
max_workflow_steps = 32

-- strings.ContainsAny(v, "\x00/\\").
unfoldable has_separator : String → Bool
has_separator String.[] = false
has_separator (String.◌∷◌ c s) = code c == 0 || (code c == 47 || (code c == 92 || has_separator s))

unfoldable pub valid_step_key : String → Bool
unfolding has_separator
valid_step_key v = not (str_eq v "") && not (has_separator v)

unfoldable pub has_key : String → List String → Bool
has_key k [] = false
has_key k (j ∷ js) = str_eq j k || has_key k js

unfoldable pub all_prior : List String → List String → Bool
unfolding has_key
all_prior prior [] = true
all_prior prior (d ∷ ds) = has_key d prior && all_prior prior ds

abbrev pub gate_ok : String → Bool
gate_ok g = str_eq g "" || (str_eq g "auto" || str_eq g "manual")

-- The body of the loop of validateSteps.
check_step : StepSpec → List String → Result (Unit {0})
unfolding valid_step_key has_key all_prior
check_step s prior = do
  refuse_if
      (not (valid_step_key s.key)
        || (str_eq s.stage ""
            || (str_eq s.expected_output_schema ""
                || (str_eq s.executor_identity "" || str_eq s.instruction_version ""))))
      (message
        "step key, stage, output schema, executor identity and instruction version are required")
  refuse_if (has_key s.key prior) (message "duplicate step key")
  refuse_if (not (all_prior prior s.depends_on)) (message "dependency must be an earlier step")
  refuse_if (not (gate_ok s.gate_policy)) (message "unsupported step gate policy")

check_steps : List StepSpec → List String → Result (Unit {0})
unfolding check_step
check_steps [] prior = ok tt
check_steps (s ∷ ss) prior = do check_step s prior; check_steps ss (s.key ∷ prior)

unfoldable pub validate_steps : List StepSpec → List String → ℕ → Result (Unit {0})
unfolding check_steps
validate_steps steps prior total = do
  refuse_if (length steps == 0 || ltb max_workflow_steps total)
      (message "workflow requires 1-32 steps")
  check_steps steps prior

abbrev new_step : Env → ℕ → ℕ → ℕ → StepSpec → List PinnedArtifactRef → Step
new_step env id job ordinal spec inputs = record {
  id = id;
  job_id = job;
  key = spec.key;
  stage = spec.stage;
  ordinal = ordinal;
  depends_on = spec.depends_on;
  input_artifacts = inputs;
  expected_output_schema = spec.expected_output_schema;
  executor_model = spec.executor_model;
  executor_effort = spec.executor_effort;
  executor_identity = spec.executor_identity;
  instruction_version = spec.instruction_version;
  gate_policy = if str_eq spec.gate_policy "" then "auto" else spec.gate_policy;
  state = StepState.pending;
  current_attempt_id = 0;
  output_artifact_id = 0;
  not_before = 0;
  diagnostic = "";
  created_at = env.now;
  updated_at = env.now;
}

insert_step : Env → ℕ → ℕ → ℕ → StepSpec → List PinnedArtifactRef → Db → Result Db
insert_step env id job ordinal spec inputs db =
    insert_step_row (new_step env id job ordinal spec inputs) db

-- The inputs that SubmitStaged pins at a step: the first step without any gets the job's input.
first_inputs : ℕ → PinnedArtifactRef → StepSpec → List PinnedArtifactRef
first_inputs index input spec =
    if index == 0 && length spec.input_artifacts == 0 then input ∷ [] else spec.input_artifacts

-- The loop of SubmitStaged. The ids 0 and 1 are those of the job and its input.
submit_steps : Env → ℕ → PinnedArtifactRef → ℕ → List StepSpec → Db → Result Db
unfolding insert_step first_inputs
submit_steps env job input index [] db = ok db
submit_steps env job input index (s ∷ ss) db = do
  db' ← insert_step env (env.fresh (index + 2)) job (index + 1) s (first_inputs index input s) db
  submit_steps env job input (index + 1) ss db'

abbrev pub json_value : String → String
json_value v = if str_eq v "" then "null" else v

abbrev metadata_ok : Env → String → Bool
metadata_ok env v = str_eq v "" || env.json_valid v

abbrev new_workflow : Env → ℕ → WorkflowSpec → WorkflowJob
new_workflow env job spec = record {
  job_id = job;
  origin_conversation_id = spec.origin_conversation_id;
  origin_message_id = spec.origin_message_id;
  request_revision = spec.request_revision;
  original_request = json_value spec.original_request;
  completion_criteria = json_value spec.completion_criteria;
  source_scope = json_value spec.source_scope;
  budget = json_value spec.budget;
  destination = json_value spec.destination;
  workflow_version = spec.workflow_version;
  paused = false;
  manual_checkpoint = spec.manual_checkpoint;
  created_at = env.now;
  updated_at = env.now;
}

staged_job : Env → String → List ℕ → Option String → WorkflowSpec → ℕ → Result Job
unfolding validate_steps
staged_job env group input request spec limit = do
  refuse_if
      (str_eq group "" || (spec.origin_conversation_id == 0 || str_eq spec.workflow_version ""))
      (message "workgroup, origin conversation and workflow version are required")
  refuse_if (limit == 0 || ltb limit (length input)) (message "input exceeds configured limit")
  validate_steps spec.steps [] (length spec.steps)
  refuse_if
      (not (
        metadata_ok env spec.original_request
        && (metadata_ok env spec.completion_criteria
            && (metadata_ok env spec.source_scope
                && (metadata_ok env spec.budget && metadata_ok env spec.destination)))))
      (message "invalid workflow metadata JSON")
  text ← or_fail request (message "request cannot be written as JSON")
  ok (new_job env group JobStatus.staged text)

staged_rows : Env → WorkflowSpec → Job → List ℕ → Db → Result (Db × Job)
unfolding submit_steps
staged_rows env spec j input db = do
  let a = input_artifact env j input
  db1 ← insert_job env j db
  db2 ← insert_artifact a db1
  db3 ← insert_workflow (new_workflow env j.id spec) db2
  db4 ← submit_steps env j.id (record { artifact_id = a.id; digest = a.digest }) 0 spec.steps db3
  ok (add_event env.now j.id 0 "workflow.submitted" no_data db4, j)

unfoldable submit_staged :
    Env → String → List ℕ → Option String → WorkflowSpec → ℕ → Home → Home × Result Job
unfolding staged_job staged_rows
submit_staged env group input request spec limit h =
    elim (staged_job env group input request spec limit) [
      | err e ↦ (h, err e)
      | ok j ↦ with_file h j input (staged_rows env spec j input)
    ]

-- The loop of AppendSteps: it hands no inputs on, whatever the specification holds.
append_rows : Env → ℕ → ℕ → ℕ → List StepSpec → Db → Result Db
unfolding insert_step
append_rows env job index ordinal [] db = ok db
append_rows env job index ordinal (s ∷ ss) db = do
  db' ← insert_step env (env.fresh index) job ordinal s [] db
  append_rows env job (index + 1) (ordinal + 1) ss db'

abbrev pub keys : List Step → List String
keys [] = []
keys (s ∷ ss) = s.key ∷ keys ss

append_steps_txn : Env → ℕ → ℕ → List StepSpec → Db → Result (Db × Unit {0})
unfolding append_rows validate_steps
append_steps_txn env job revision specs db = do
  wj ← workflow_of job db
  refuse_if (not (wj.0.request_revision == revision) || not (is_staged wj.1.status)) stale_step
  let current = step_list job db.steps
  refuse_if (exists (λ (s : Step). is_running_step s.state) current) step_blocked
  validate_steps specs (keys current) (length current + length specs)
  db' ← append_rows env job 0 (length current + 1) specs db
  ok (db', tt)

unfoldable pub append_steps : Env → ℕ → ℕ → List StepSpec → Db → Db × Result (Unit {0})
unfolding append_steps_txn
append_steps env job revision specs db = exec db (append_steps_txn env job revision specs db)
