-- ===== src/Store/Results/Events.antt =====
-- The events of internal/store/result_events.go: their publication, and the lists of those to be sent.
use Prim.Native.String.{len}
use agent_chun_su.Base.{
  ℕ, Bool, true, false, List, [], ◌∷◌, String, none, some, ◌==◌, ◌&&◌, ◌||◌, ltb, leb, str_eq, not,
  if◌then◌else◌,
}
use agent_chun_su.Table.{find_where, select, exists}
use agent_chun_su.Store.Status.{JobStatus, Delivery, is_completed_step, same_delivery}
use agent_chun_su.Store.Model.{
  Artifact, WorkflowJob, Step, EventKey, ResultEvent, File, Db, Env, Result, ok, no_rows,
  stale_step, message, result_of,
}
use agent_chun_su.Store.Txn.{◌>>=◌, ◌>>◌, refuse_if, or_fail, exec}
use agent_chun_su.Store.Rows.{same_key, insert_result, add_event}
use agent_chun_su.Store.Disk.{read_artifact}
use agent_chun_su.Store.Workflow.{workflow_of}
use agent_chun_su.Store.Workflow.Spec.{json_value}

pub record ResultEventInput : Type 0 where
  pub job_id : ℕ
  pub step_id : ℕ
  pub artifact_id : ℕ
  pub summary : String
  pub source_references : String
  pub gaps : String
  pub status : String
  pub required_decision : String

abbrev max_result_summary_bytes : ℕ
max_result_summary_bytes = 4096

abbrev max_result_metadata_bytes : ℕ
max_result_metadata_bytes = 16384

valid_event_json : Env → String → Bool
valid_event_json env v = str_eq v "" || (env.json_valid v && leb (len v) max_result_metadata_bytes)

valid_input : Env → ResultEventInput → Bool
unfolding valid_event_json
valid_input env i =
    not (i.job_id == 0)
    && (not (i.step_id == 0)
        && (not (i.artifact_id == 0)
            && (not (str_eq i.status "")
                && (leb (len i.summary) max_result_summary_bytes
                    && (valid_event_json env i.source_references
                        && (valid_event_json env i.gaps
                            && valid_event_json env i.required_decision))))))

abbrev is_published : JobStatus → Bool
is_published JobStatus.staged = true
is_published JobStatus.completed = true
is_published _ = false

abbrev pub json_list : String → String
json_list v = if str_eq v "" then "[]" else v

abbrev pub event_key_of : ResultEventInput → WorkflowJob → EventKey
event_key_of i w = record {
  job = i.job_id;
  step = i.step_id;
  revision = w.request_revision;
  artifact = i.artifact_id;
}

-- The event that PublishResultEvent makes and returns, with the texts of its input.
abbrev pub new_event : Env → ResultEventInput → WorkflowJob → Artifact → ResultEvent
new_event env i w a = record {
  id = env.fresh 0;
  event_key = event_key_of i w;
  job_id = i.job_id;
  step_id = i.step_id;
  conversation_id = w.origin_conversation_id;
  request_revision = w.request_revision;
  artifact_id = i.artifact_id;
  artifact_digest = a.digest;
  summary = i.summary;
  source_references = i.source_references;
  gaps = i.gaps;
  status = i.status;
  required_decision = i.required_decision;
  delivery_status = Delivery.available;
  created_at = env.now;
  updated_at = env.now;
}

-- The row of an event, as a later query returns it.
abbrev pub stored_event : ResultEvent → ResultEvent
stored_event e = record e {
  source_references = json_list e.source_references;
  gaps = json_list e.gaps;
  required_decision = json_value e.required_decision;
}

abbrev pub has_event_key : EventKey → ResultEvent → Bool
has_event_key k e = same_key e.event_key k

-- The end of PublishResultEvent: the event with this key, or a new one.
unfoldable pub record_event : Env → ResultEvent → Db → Result (Db × ResultEvent)
record_event env e db = elim (find_where (has_event_key e.event_key) db.results) [
  | some old ↦ ok (db, old)
  | none ↦ do
    db1 ← insert_result (stored_event e) db
    ok (add_event env.now e.job_id 0 "result.available" (result_of e.id e.artifact_id) db1, e)
]

-- The checks of PublishResultEvent: the workflow and the intact artifact of the completed step.
unfoldable pub published_source :
    Env → List File → ResultEventInput → Db → Result (WorkflowJob × Artifact)
unfolding valid_input
published_source env disk i db = do
  refuse_if (not (valid_input env i)) (message "invalid or oversized result event")
  wj ← workflow_of i.job_id db
  refuse_if (not (is_published wj.1.status)) stale_step
  s ←
      or_fail (find_where (λ (s : Step). s.id == i.step_id && s.job_id == i.job_id) db.steps)
        no_rows
  refuse_if (not (is_completed_step s.state) || not (s.output_artifact_id == i.artifact_id))
      stale_step
  a ←
      or_fail
        (find_where (λ (a : Artifact). a.id == i.artifact_id && a.job_id == i.job_id) db.artifacts)
        no_rows
  read_artifact env a a.bytes disk >>= λ _. ok (wj.0, a)

unfoldable pub publish_txn : Env → List File → ResultEventInput → Db → Result (Db × ResultEvent)
unfolding published_source record_event
publish_txn env disk i db = do
  source ← published_source env disk i db
  record_event env (new_event env i source.0 source.1) db

unfoldable pub publish_result_event :
    Env → List File → ResultEventInput → Db → Db × Result ResultEvent
unfolding publish_txn
publish_result_event env disk i db = exec db (publish_txn env disk i db)

-- `EXISTS(SELECT 1 FROM workflow_jobs w WHERE ...)`: the event is of its job's current revision.
abbrev pub is_current : List WorkflowJob → ResultEvent → Bool
is_current workflows e =
    exists (λ (w : WorkflowJob). w.job_id == e.job_id && w.request_revision == e.request_revision)
      workflows

-- `ORDER BY created_at,id`.
insert_event : ResultEvent → List ResultEvent → List ResultEvent
insert_event e [] = e ∷ []
insert_event e (f ∷ fs) =
    let rest = insert_event e fs in
    if ltb e.created_at f.created_at || (e.created_at == f.created_at && leb e.id f.id)
    then e ∷ f ∷ fs
    else f ∷ rest

order_events : List ResultEvent → List ResultEvent
unfolding insert_event
order_events [] = []
order_events (e ∷ es) = insert_event e (order_events es)

-- resultEvents with a delivery status and the current revision only.
abbrev handed_off : ℕ → Delivery → List WorkflowJob → ResultEvent → Bool
handed_off conversation status workflows e =
    e.conversation_id == conversation
    && (same_delivery e.delivery_status status && is_current workflows e)

unfoldable pending_result_events : ℕ → Db → List ResultEvent
unfolding order_events
pending_result_events conversation db =
    order_events (select (handed_off conversation Delivery.available db.workflows) db.results)

unfoldable sending_result_events : ℕ → Db → List ResultEvent
unfolding order_events
sending_result_events conversation db =
    order_events (select (handed_off conversation Delivery.sending db.workflows) db.results)
