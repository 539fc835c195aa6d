-- ===== src/Scenarios.antt =====
-- A staged job with two steps, its results and a schedule, run through the operations of the modules:
-- each theorem at a concrete input.
pub mod Steps
pub mod Chats
pub mod Rounds
pub mod Outcomes
pub mod Vaults
pub mod Alarms
pub mod Ledgers
pub mod Intakes
use agent_chun_su.Base.{ℕ, Bool, true, false, List, [], ◌∷◌, String, Option, none, some, ◌+◌}
use agent_chun_su.Store.Status.{JobStatus, StepState, Delivery}
use agent_chun_su.Store.Model.{
  Job, Attempt, Artifact, Content, StepSpec, PinnedArtifactRef, WorkflowJob, Step, StepAttempt,
  ResultEvent, EventKey, Db, File, Home, Env, input_file, artifact_file,
}

abbrev pub clock : ℕ → ℕ → Env
clock now first = record {
  now = now;
  fresh = λ n. first + n;
  digest = λ content. digest_of content;
  json_valid = λ v. true;
  acquisition_of = λ v. 0;
}
  where
    digest_of : List ℕ → String
    digest_of [] = "empty"
    digest_of (x ∷ xs) = "full"

abbrev pub job : ℕ → JobStatus → ℕ → Job
job id status attempt = record {
  id = id;
  workgroup = "mail";
  input_ref = input_file id;
  status = status;
  current_attempt = attempt;
  created_at = 1;
  updated_at = 1;
  not_before = 0;
  diagnostic = "";
  request = "{}";
}

abbrev pub attempt : ℕ → ℕ → JobStatus → Attempt
attempt id job status = record {
  id = id;
  job_id = job;
  ordinal = 1;
  status = status;
  started_at = 1;
  ended_at = 0;
  executor = "codex";
  diagnostic = "";
}

abbrev input_of : ℕ → ℕ → Artifact
input_of id job = record {
  id = id;
  job_id = job;
  attempt_id = 0;
  kind = "input";
  path = input_file job;
  digest = "full";
  bytes = 2;
  created_at = 1;
  content_state = Content.available;
}

abbrev pub output_of : ℕ → ℕ → ℕ → Artifact
output_of id job by = record {
  id = id;
  job_id = job;
  attempt_id = by;
  kind = "draft";
  path = artifact_file job id false;
  digest = "full";
  bytes = 1;
  created_at = 2;
  content_state = Content.available;
}

abbrev pub pin : ℕ → PinnedArtifactRef
pin id = record { artifact_id = id; digest = "full" }

abbrev pub workflow : ℕ → ℕ → WorkflowJob
workflow job revision = record {
  job_id = job;
  origin_conversation_id = 70;
  origin_message_id = 71;
  request_revision = revision;
  original_request = "null";
  completion_criteria = "null";
  source_scope = "null";
  budget = "null";
  destination = "null";
  workflow_version = "1";
  paused = false;
  manual_checkpoint = false;
  created_at = 1;
  updated_at = 1;
}

abbrev pub spec : String → List String → StepSpec
spec key depends_on = record {
  key = key;
  stage = "draft";
  depends_on = depends_on;
  input_artifacts = [];
  expected_output_schema = "report";
  executor_model = "";
  executor_effort = "";
  executor_identity = "codex";
  instruction_version = "1";
  gate_policy = "auto";
}

abbrev pub step :
    ℕ → ℕ → String → ℕ → List String → List PinnedArtifactRef → StepState → ℕ → ℕ → Step
step id job key ordinal depends_on inputs state attempt output = record {
  id = id;
  job_id = job;
  key = key;
  stage = "draft";
  ordinal = ordinal;
  depends_on = depends_on;
  input_artifacts = inputs;
  expected_output_schema = "report";
  executor_model = "";
  executor_effort = "";
  executor_identity = "codex";
  instruction_version = "1";
  gate_policy = "auto";
  state = state;
  current_attempt_id = attempt;
  output_artifact_id = output;
  not_before = 0;
  diagnostic = "";
  created_at = 1;
  updated_at = 1;
}

abbrev pub step_attempt : ℕ → ℕ → StepState → StepAttempt
step_attempt id step status = record {
  id = id;
  step_id = step;
  ordinal = 1;
  status = status;
  started_at = 2;
  ended_at = 0;
  inputs = [];
  output_artifact_id = 0;
  executor_model = "";
  executor_effort = "";
  executor_identity = "codex";
  instruction_version = "1";
  diagnostic = "";
}

abbrev pub event : ℕ → ℕ → Delivery → ResultEvent
event id job status = record {
  id = id;
  event_key = record { job = job; step = 11; revision = 1; artifact = 31 };
  job_id = job;
  step_id = 11;
  conversation_id = 70;
  request_revision = 1;
  artifact_id = 31;
  artifact_digest = "full";
  summary = "done";
  source_references = "[]";
  gaps = "[]";
  status = "ready";
  required_decision = "null";
  delivery_status = status;
  created_at = 5;
  updated_at = 5;
}

-- Job 1 with the steps 11 and 12: the second depends on the first.
abbrev pub staged_db : List Step → List StepAttempt → List Artifact → List ResultEvent → Db
staged_db steps step_attempts artifacts results = record {
  jobs = job 1 JobStatus.staged 0 ∷ [];
  attempts = [];
  artifacts = input_of 30 1 ∷ artifacts;
  events = [];
  workflows = workflow 1 1 ∷ [];
  steps = steps;
  step_attempts = step_attempts;
  results = results;
}

abbrev pub first_step : StepState → ℕ → ℕ → Step
first_step state attempt output = step 11 1 "read" 1 [] (pin 30 ∷ []) state attempt output

abbrev pub second_step : StepState → ℕ → ℕ → Step
second_step state attempt output = step 12 1 "write" 2 ("read" ∷ []) [] state attempt output

abbrev pub output_file : File
output_file = record { path = artifact_file 1 31 false; content = 7 ∷ [] }
