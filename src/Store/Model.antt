-- ===== src/Store/Model.antt =====
-- The rows of the database of internal/store, the files beside it, and what its operations take
-- from outside. An id is a number, and 0 stands for the empty text; a time is in milliseconds.
use agent_chun_su.Base.{ℕ, Bool, List, String}
use agent_chun_su.Store.Status.{JobStatus, StepState, Delivery}

-- The paths below the data root: runs/<job>/input.json and runs/<job>/artifacts/<id>, with `.md` for
-- a kind that ends in `_markdown`.
pub data FilePath : Type 0 where
  input_file : ℕ → FilePath
  artifact_file : ℕ → ℕ → Bool → FilePath

pub record Job : Type 0 where
  pub id : ℕ
  pub workgroup : String
  pub input_ref : FilePath
  pub status : JobStatus
  pub current_attempt : ℕ
  pub created_at : ℕ
  pub updated_at : ℕ
  pub not_before : ℕ
  pub diagnostic : String
  pub request : String

pub record Attempt : Type 0 where
  pub id : ℕ
  pub job_id : ℕ
  pub ordinal : ℕ
  pub status : JobStatus
  pub started_at : ℕ
  pub ended_at : ℕ
  pub executor : String
  pub diagnostic : String

pub data Content : Type 0 where
  available retiring purged : Content

pub record Artifact : Type 0 where
  pub id : ℕ
  pub job_id : ℕ
  pub attempt_id : ℕ
  pub kind : String
  pub path : FilePath
  pub digest : String
  pub bytes : ℕ
  pub created_at : ℕ
  pub content_state : Content

-- The texts in the column `data_json` of an event.
pub data Payload : Type 0 where
  no_data : Payload
  attempt_result : JobStatus → String → Payload
  step_result : StepState → ℕ → Payload
  publication : ℕ → Payload
  result_of : ℕ → ℕ → Payload
  resolution_of : ℕ → Bool → Payload
  abandoned_send : ℕ → Payload
  resumption : JobStatus → Bool → Payload
  purge : ℕ → String → Payload

-- The column `sequence` is the place in the table.
pub record Event : Type 0 where
  pub job_id : ℕ
  pub attempt_id : ℕ
  pub kind : String
  pub created_at : ℕ
  pub payload : Payload

pub record PinnedArtifactRef : Type 0 where
  pub artifact_id : ℕ
  pub digest : String

pub record StepSpec : Type 0 where
  pub key : String
  pub stage : String
  pub depends_on : List String
  pub input_artifacts : List PinnedArtifactRef
  pub expected_output_schema : String
  pub executor_model : String
  pub executor_effort : String
  pub executor_identity : String
  pub instruction_version : String
  pub gate_policy : String

-- The metadata is JSON text.
pub record WorkflowSpec : Type 0 where
  pub origin_conversation_id : ℕ
  pub origin_message_id : ℕ
  pub request_revision : ℕ
  pub original_request : String
  pub completion_criteria : String
  pub source_scope : String
  pub budget : String
  pub destination : String
  pub workflow_version : String
  pub manual_checkpoint : Bool
  pub steps : List StepSpec

pub record WorkflowJob : Type 0 where
  pub job_id : ℕ
  pub origin_conversation_id : ℕ
  pub origin_message_id : ℕ
  pub request_revision : ℕ
  pub original_request : String
  pub completion_criteria : String
  pub source_scope : String
  pub budget : String
  pub destination : String
  pub workflow_version : String
  pub paused : Bool
  pub manual_checkpoint : Bool
  pub created_at : ℕ
  pub updated_at : ℕ

pub record Step : Type 0 where
  pub id : ℕ
  pub job_id : ℕ
  pub key : String
  pub stage : String
  pub ordinal : ℕ
  pub depends_on : List String
  pub input_artifacts : List PinnedArtifactRef
  pub expected_output_schema : String
  pub executor_model : String
  pub executor_effort : String
  pub executor_identity : String
  pub instruction_version : String
  pub gate_policy : String
  pub state : StepState
  pub current_attempt_id : ℕ
  pub output_artifact_id : ℕ
  pub not_before : ℕ
  pub diagnostic : String
  pub created_at : ℕ
  pub updated_at : ℕ

pub record StepAttempt : Type 0 where
  pub id : ℕ
  pub step_id : ℕ
  pub ordinal : ℕ
  pub status : StepState
  pub started_at : ℕ
  pub ended_at : ℕ
  pub inputs : List PinnedArtifactRef
  pub output_artifact_id : ℕ
  pub executor_model : String
  pub executor_effort : String
  pub executor_identity : String
  pub instruction_version : String
  pub diagnostic : String

-- The column `event_key` is the text of the job, the step, the revision and the artifact.
pub record EventKey : Type 0 where
  pub job : ℕ
  pub step : ℕ
  pub revision : ℕ
  pub artifact : ℕ

pub record ResultEvent : Type 0 where
  pub id : ℕ
  pub event_key : EventKey
  pub job_id : ℕ
  pub step_id : ℕ
  pub conversation_id : ℕ
  pub request_revision : ℕ
  pub artifact_id : ℕ
  pub artifact_digest : String
  pub summary : String
  pub source_references : String
  pub gaps : String
  pub status : String
  pub required_decision : String
  pub delivery_status : Delivery
  pub created_at : ℕ
  pub updated_at : ℕ

pub record Db : Type 0 where
  pub jobs : List Job
  pub attempts : List Attempt
  pub artifacts : List Artifact
  pub events : List Event
  pub workflows : List WorkflowJob
  pub steps : List Step
  pub step_attempts : List StepAttempt
  pub results : List ResultEvent

pub record File : Type 0 where
  pub path : FilePath
  pub content : List ℕ

-- The data home: the database and the files below its root.
pub record Home : Type 0 where
  pub db : Db
  pub disk : List File

-- What an operation takes from outside: the clock, the ids that files.ID draws, in turn, SHA-256 as
-- files.Digest prints it, encoding/json's test of a text, and SQLite's
-- json_extract(..., '$.acquisition_id'), with 0 for NULL.
pub record Env : Type 0 where
  pub now : ℕ
  pub fresh : ℕ → ℕ
  pub digest : List ℕ → String
  pub json_valid : String → Bool
  pub acquisition_of : String → ℕ

pub data Error : Type 0 where
  no_rows stale_step step_blocked attempt_budget constraint : Error
  message : String → Error

pub data Result {ℓ} (A : Type ℓ) : Type ℓ where
  ok : A → Result A
  err : Error → Result A

-- The primary keys.
abbrev pub job_key : Job → ℕ
job_key j = j.id

abbrev attempt_key : Attempt → ℕ
attempt_key a = a.id

abbrev artifact_key : Artifact → ℕ
artifact_key a = a.id

abbrev pub workflow_key : WorkflowJob → ℕ
workflow_key w = w.job_id

abbrev pub step_key : Step → ℕ
step_key s = s.id

abbrev pub step_attempt_key : StepAttempt → ℕ
step_attempt_key a = a.id

abbrev pub result_key : ResultEvent → ℕ
result_key e = e.id
