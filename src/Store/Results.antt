-- ===== src/Store/Results.antt =====
-- internal/store/result_events.go: the delivery of the results of completed steps to the
-- conversation that asked for them.
pub mod Events
pub mod Transitions
pub mod Publication
pub mod Completion
use agent_chun_su.Store.Results.Events.{is_current}
use Prim.Native.String.{len}
use agent_chun_su.Base.{
  ℕ, ◌+◌, Bool, true, false, List, [], ◌∷◌, ◌++◌, String, Option, none, some, ◌==◌, ◌&&◌, ◌||◌, ltb,
  leb, str_eq, not, if◌then◌else◌,
}
use agent_chun_su.Table.{find_by, find_where, select, count_where, exists, update_where}
use agent_chun_su.Store.Status.{JobStatus, Delivery, is_staged, is_completed_step, same_delivery}
use agent_chun_su.Store.Model.{
  Job, Artifact, WorkflowJob, Step, EventKey, ResultEvent, File, Db, Env, Result, ok, err, no_rows,
  stale_step, message, result_of, resolution_of, abandoned_send, workflow_key, step_key, result_key,
}
use agent_chun_su.Store.Txn.{◌>>=◌, ◌>>◌, refuse_if, or_fail, exec}
use agent_chun_su.Store.Rows.{same_key, insert_result, add_event}
use agent_chun_su.Store.Disk.{read_artifact}
use agent_chun_su.Store.Workflow.{workflow_of}
use agent_chun_su.Store.Workflow.Spec.{json_value}

abbrev pub allowed_delivery_transition : Delivery → Delivery → Bool
allowed_delivery_transition Delivery.available Delivery.sending = true
allowed_delivery_transition Delivery.available Delivery.delivered = true
allowed_delivery_transition Delivery.sending Delivery.delivered = true
allowed_delivery_transition Delivery.sending Delivery.unconfirmed = true
allowed_delivery_transition Delivery.sending Delivery.failed = true
allowed_delivery_transition Delivery.failed Delivery.available = true
allowed_delivery_transition _ _ = false

pub next_result_transition_time : ℕ → ℕ → ℕ
next_result_transition_time now previous = if leb now previous then previous + 1 else now

abbrev pub unfinished : ℕ → Db → Bool
unfinished job db =
    exists (λ (s : Step). s.job_id == job && not (is_completed_step s.state)) db.steps
    || exists
        (λ (e : ResultEvent).
          e.job_id == job && not (same_delivery e.delivery_status Delivery.delivered))
        db.results

pub complete_delivered_job : Env → ℕ → Db → Db
complete_delivered_job env job db = record db {
  jobs =
      update_where (λ j. j.id == job && (is_staged j.status && not (unfinished job db)))
        (λ j. record j { status = JobStatus.completed; updated_at = env.now }) db.jobs;
}

-- `id=? AND delivery_status=? AND updated_at=?`.
abbrev pub delivery_row : ℕ → Delivery → ℕ → ResultEvent → Bool
delivery_row id old stamp r =
    r.id == id && (same_delivery r.delivery_status old && r.updated_at == stamp)

unfoldable pub set_delivery : Env → Delivery → ℕ → ResultEvent → ResultEvent
unfolding next_result_transition_time
set_delivery env status stamp r = record r {
  delivery_status = status;
  updated_at = next_result_transition_time env.now stamp;
}

abbrev pub is_delivered : Delivery → Bool
is_delivered Delivery.delivered = true
is_delivered _ = false

-- The row of the event.
abbrev delivered_rows : Env → ResultEvent → Delivery → Db → Db
delivered_rows env e status db = record db {
  results =
      update_where (delivery_row e.id e.delivery_status e.updated_at)
        (set_delivery env status e.updated_at) db.results;
}

-- The update, and the completion of the job that a delivery may bring.
deliver_rows : Env → ResultEvent → Delivery → Db → Db
unfolding set_delivery complete_delivered_job
deliver_rows env e status db =
    if is_delivered status
    then complete_delivered_job env e.job_id (delivered_rows env e status db)
    else delivered_rows env e status db

mark_txn : Env → ℕ → Delivery → Db → Result (Db × Unit {0})
unfolding deliver_rows
mark_txn env id status db = do
  e ← or_fail (find_by result_key id db.results) no_rows
  w ← or_fail (find_by workflow_key e.job_id db.workflows) no_rows
  if same_delivery e.delivery_status status then ok (db, tt) else do
    refuse_if
        (same_delivery e.delivery_status Delivery.available
          && not (e.request_revision == w.request_revision))
        stale_step
    refuse_if (not (allowed_delivery_transition e.delivery_status status))
        (message "invalid or stale result delivery transition")
    refuse_if (not (count_where (delivery_row e.id e.delivery_status e.updated_at) db.results == 1))
        stale_step
    ok (deliver_rows env e status db, tt)

unfoldable pub mark_result_delivery : Env → ℕ → Delivery → Db → Db × Result (Unit {0})
unfolding mark_txn
mark_result_delivery env id status db = exec db (mark_txn env id status db)

-- The row of `UPDATE result_events ... WHERE ... RETURNING job_id`.
abbrev pub settled_row : ℕ → ℕ → Delivery → ℕ → List WorkflowJob → ResultEvent → Bool
settled_row id conversation from stamp workflows r =
    r.id == id
    && (r.conversation_id == conversation
        && (same_delivery r.delivery_status from
            && (r.updated_at == stamp && is_current workflows r)))

abbrev settle : Env → ℕ → ℕ → Delivery → Delivery → ℕ → Db → Db
settle env id conversation from to stamp db = record db {
  results =
      update_where (settled_row id conversation from stamp db.workflows) (set_delivery env to stamp)
        db.results;
}

abbrev bad_handle : ℕ → ℕ → ℕ → Bool
bad_handle id conversation stamp = id == 0 || (conversation == 0 || stamp == 0)

reconcile_txn : Env → ℕ → ℕ → ℕ → Db → Result (Db × Unit {0})
unfolding set_delivery
reconcile_txn env id conversation stamp db = do
  refuse_if (bad_handle id conversation stamp)
      (message "event, conversation and expected timestamp are required")
  e ←
      or_fail
        (find_where (settled_row id conversation Delivery.sending stamp db.workflows) db.results)
        stale_step
  ok (
    add_event env.now e.job_id 0 "result.abandoned_send" (abandoned_send id)
        (settle env id conversation Delivery.sending Delivery.unconfirmed stamp db),
    tt,
  )

pub reconcile_abandoned_result_send : Env → ℕ → ℕ → ℕ → Db → Db × Result (Unit {0})
unfolding reconcile_txn
reconcile_abandoned_result_send env id conversation stamp db =
    exec db (reconcile_txn env id conversation stamp db)

-- The owner's decision: the send arrived, or the result is sent again.
pub data Resolution : Type 0 where
  sent retry : Resolution

abbrev pub target : Resolution → Delivery
target sent = Delivery.delivered
target retry = Delivery.available

abbrev was_sent : Resolution → Bool
was_sent sent = true
was_sent retry = false

abbrev resolved_rows : Env → ResultEvent → ℕ → ℕ → ℕ → Resolution → Db → Db
resolved_rows env e id conversation stamp resolution db =
    add_event env.now e.job_id 0 "result.resolved" (resolution_of id (was_sent resolution))
      (settle env id conversation Delivery.unconfirmed (target resolution) stamp db)

resolve_rows : Env → ResultEvent → ℕ → ℕ → ℕ → Resolution → Db → Db
unfolding set_delivery complete_delivered_job
resolve_rows env e id conversation stamp resolution db =
    if was_sent resolution
    then complete_delivered_job env e.job_id
        (resolved_rows env e id conversation stamp resolution db)
    else resolved_rows env e id conversation stamp resolution db

resolve_txn : Env → ℕ → ℕ → ℕ → Resolution → Db → Result (Db × Unit {0})
unfolding resolve_rows
resolve_txn env id conversation stamp resolution db = do
  refuse_if (bad_handle id conversation stamp)
      (message "event, conversation and expected timestamp are required")
  e ←
      or_fail
        (find_where (settled_row id conversation Delivery.unconfirmed stamp db.workflows)
          db.results)
        stale_step
  ok (resolve_rows env e id conversation stamp resolution db, tt)

pub resolve_unconfirmed_result : Env → ℕ → ℕ → ℕ → Resolution → Db → Db × Result (Unit {0})
unfolding resolve_txn
resolve_unconfirmed_result env id conversation stamp resolution db =
    exec db (resolve_txn env id conversation stamp resolution db)
