-- ===== src/Store/Results/Transitions.antt =====
-- How the delivery of a result moves, and when a delivery completes the job.
use agent_chun_su.Base.{
  ℕ, ◌≡◌, ◌⊎◌, ◌<◌, refl, Bool, true, List, some, arith, Bool-cases, Option-cases, inl, inr,
}
use agent_chun_su.Table.{find_by, when}
use agent_chun_su.Table.Laws.{Along, Along-update_where, Along-refl}
use agent_chun_su.Store.Status.{Delivery, same_delivery-true}
use agent_chun_su.Store.Model.{WorkflowJob, ResultEvent, Db, Env, result_key, workflow_key}
use agent_chun_su.Store.Results.{
  allowed_delivery_transition, next_result_transition_time, complete_delivered_job, delivery_row,
  set_delivery, deliver_rows, mark_txn, mark_result_delivery, settled_row, reconcile_txn,
  reconcile_abandoned_result_send, Resolution, sent, retry, target, resolve_txn,
  resolve_unconfirmed_result, settle,
}

-- The edges of the delivery's state machine, with the operations that take them.
infix 40 ◌⟶◌
pub data ◌⟶◌ : Delivery → Delivery → Type 0 where
  send : Delivery.available ⟶ Delivery.sending
  hand_over : Delivery.available ⟶ Delivery.delivered
  arrive : Delivery.sending ⟶ Delivery.delivered
  lose : Delivery.sending ⟶ Delivery.unconfirmed
  fail : Delivery.sending ⟶ Delivery.failed
  reopen : Delivery.failed ⟶ Delivery.available
  confirm : Delivery.unconfirmed ⟶ Delivery.delivered
  send_again : Delivery.unconfirmed ⟶ Delivery.available

-- A row is as it was, or its delivery went along an edge and its time grew.
abbrev pub Moves : ResultEvent → ResultEvent → Type 0
Moves e f =
    (e ≡ f)
    ⊎ ((e.id ≡ f.id) × (e.delivery_status ⟶ f.delivery_status) × (e.updated_at < f.updated_at))

next_time_grows : (now previous : ℕ) → previous < next_result_transition_time now previous
unfolding next_result_transition_time
next_time_grows now previous = ground arith

edge : (a b : Delivery) → allowed_delivery_transition a b ≡ true → a ⟶ b
edge a b h = grind (arith, send, hand_over, arrive, lose, fail, reopen)

row-Moves :
    (env : Env) (stamp : ℕ) (from to : Delivery) (p : ResultEvent → Bool)
    → from ⟶ to
    → ((e : ResultEvent) → p e ≡ true → (e.delivery_status ≡ from) × (e.updated_at ≡ stamp))
    → (e : ResultEvent) → Moves e (when p (set_delivery env to stamp) e)
unfolding set_delivery
row-Moves env stamp from to p st reads e = elim (Bool-cases (p e)) [
  | inl hit ↦
      (let at = reads e hit in
        rw hit (inr (refl, rw at.0 st, rw at.1 (next_time_grows env.now stamp))))
  | inr miss ↦ rw miss (inl refl)
]

delivery_row-reads :
    (id stamp : ℕ) (from : Delivery) (e : ResultEvent)
    → delivery_row id from stamp e ≡ true
    → (e.delivery_status ≡ from) × (e.updated_at ≡ stamp)
delivery_row-reads id stamp from e h =
    (same_delivery-true e.delivery_status from (ground arith), ground arith)

settled_row-reads :
    (id conversation stamp : ℕ) (from : Delivery) (workflows : List WorkflowJob) (e : ResultEvent)
    → settled_row id conversation from stamp workflows e ≡ true
    → (e.delivery_status ≡ from) × (e.updated_at ≡ stamp)
settled_row-reads id conversation stamp from workflows e h =
    (same_delivery-true e.delivery_status from (ground arith), ground arith)

deliver_rows-Moves :
    (env : Env) (e : ResultEvent) (status : Delivery) (db : Db)
    → allowed_delivery_transition e.delivery_status status ≡ true
    → Along Moves db.results (deliver_rows env e status db).results
unfolding deliver_rows complete_delivered_job
deliver_rows-Moves env e status db allowed = ground (
  arith,
  Along-update_where Moves (delivery_row e.id e.delivery_status e.updated_at)
      (set_delivery env status e.updated_at)
      (row-Moves env e.updated_at e.delivery_status status
        (delivery_row e.id e.delivery_status e.updated_at) (edge e.delivery_status status allowed)
        (delivery_row-reads e.id e.updated_at e.delivery_status))
      db.results,
)

mark_found :
    (env : Env) (id : ℕ) (status : Delivery) (db : Db) (e : ResultEvent) (w : WorkflowJob)
    → find_by result_key id db.results ≡ some e
    → find_by workflow_key e.job_id db.workflows ≡ some w
    → Along Moves db.results (mark_result_delivery env id status db).0.results
unfolding mark_result_delivery mark_txn
mark_found env id status db e w found wf =
    ground (arith, deliver_rows-Moves env e status db, Along-refl Moves (λ r. inl refl) db.results)

-- MarkResultDelivery moves each result along an edge of the state machine, with a later time, or
-- leaves it.
mark_result_delivery-Moves :
    (env : Env) (id : ℕ) (status : Delivery) (db : Db)
    → Along Moves db.results (mark_result_delivery env id status db).0.results
unfolding mark_result_delivery mark_txn
mark_result_delivery-Moves env id status db =
    elim (Option-cases (find_by result_key id db.results)) [
      | inl e ↦ rw e (Along-refl Moves (λ r. inl refl) db.results)
      | inr (e, found) ↦ elim (Option-cases (find_by workflow_key e.job_id db.workflows)) [
        | inl none_ ↦ rw (found, none_) (Along-refl Moves (λ r. inl refl) db.results)
        | inr (w, wf) ↦ mark_found env id status db e w found wf
      ]
    ]

settle-Moves :
    (env : Env) (id conversation stamp : ℕ) (from to : Delivery) (db : Db)
    → from ⟶ to
    → Along Moves db.results (settle env id conversation from to stamp db).results
settle-Moves env id conversation stamp from to db st =
    Along-update_where Moves (settled_row id conversation from stamp db.workflows)
      (set_delivery env to stamp)
      (row-Moves env stamp from to (settled_row id conversation from stamp db.workflows) st
        (settled_row-reads id conversation stamp from db.workflows))
      db.results

-- ReconcileAbandonedResultSend moves results along edges only.
reconcile_abandoned_result_send-Moves :
    (env : Env) (id conversation stamp : ℕ) (db : Db)
    → Along Moves db.results
        (reconcile_abandoned_result_send env id conversation stamp db).0.results
unfolding reconcile_abandoned_result_send reconcile_txn
reconcile_abandoned_result_send-Moves env id conversation stamp db = ground (
  arith,
  settle-Moves env id conversation stamp Delivery.sending Delivery.unconfirmed db lose,
  Along-refl Moves (λ r. inl refl) db.results,
)

resolution-edge : (r : Resolution) → Delivery.unconfirmed ⟶ target r
resolution-edge sent = confirm
resolution-edge retry = send_again

-- So does ResolveUnconfirmedResult.
resolve_unconfirmed_result-Moves :
    (env : Env) (id conversation stamp : ℕ) (r : Resolution) (db : Db)
    → Along Moves db.results (resolve_unconfirmed_result env id conversation stamp r db).0.results
unfolding resolve_unconfirmed_result resolve_txn complete_delivered_job
resolve_unconfirmed_result-Moves env id conversation stamp r db = ground (
  arith,
  settle-Moves env id conversation stamp Delivery.unconfirmed (target r) db (resolution-edge r),
  Along-refl Moves (λ e. inl refl) db.results,
)

-- One operation on the deliveries.
pub data DeliveryCall : Type 0 where
  marks : ℕ → Delivery → DeliveryCall
  reconciles : ℕ → ℕ → ℕ → DeliveryCall
  resolves : ℕ → ℕ → ℕ → Resolution → DeliveryCall

unfoldable pub call : Env → DeliveryCall → Db → Db
call env (marks id status) db = (mark_result_delivery env id status db).0
call env (reconciles id conversation stamp) db =
    (reconcile_abandoned_result_send env id conversation stamp db).0
call env (resolves id conversation stamp r) db =
    (resolve_unconfirmed_result env id conversation stamp r db).0

-- Whatever an operation on the deliveries is given, it moves each result along an edge of the state
-- machine, to a later time, or leaves it as it is.
pub call-Moves :
    (env : Env) (c : DeliveryCall) (db : Db) → Along Moves db.results (call env c db).results
unfolding call
call-Moves env (marks id status) db = mark_result_delivery-Moves env id status db
call-Moves env (reconciles id conversation stamp) db =
    reconcile_abandoned_result_send-Moves env id conversation stamp db
call-Moves env (resolves id conversation stamp r) db =
    resolve_unconfirmed_result-Moves env id conversation stamp r db

-- MarkResultDelivery leaves the database as it is where the send of the result is unconfirmed,
-- whatever status it is given.
mark-unconfirmed :
    (env : Env) (id : ℕ) (status : Delivery) (db : Db) (e : ResultEvent)
    → find_by result_key id db.results ≡ some e
    → e.delivery_status ≡ Delivery.unconfirmed
    → (mark_result_delivery env id status db).0 ≡ db
unfolding mark_result_delivery mark_txn
mark-unconfirmed env id status db e found unsure =
    elim (Option-cases (find_by workflow_key e.job_id db.workflows)) [
      | inl none_ ↦ ground arith
      | inr (w, wf) ↦ ground arith
    ]
