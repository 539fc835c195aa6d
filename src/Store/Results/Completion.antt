-- ===== src/Store/Results/Completion.antt =====
-- When the delivery of a result completes its job.
use agent_chun_su.Base.{
  ℕ, ◌≡◌, ◌⊎◌, refl, Bool, false, some, arith, ◌==◌, ◌&&◌, Bool-cases, Option-cases, inl, inr, not,
}
use agent_chun_su.Table.{find_by, find_where, when}
use agent_chun_su.Table.Laws.{Along, Along-update_where, Along-refl}
use agent_chun_su.Store.Status.{JobStatus, Delivery, is_staged}
use agent_chun_su.Store.Model.{Job, WorkflowJob, ResultEvent, Db, Env, result_key, workflow_key}
use agent_chun_su.Store.Results.{
  unfinished, complete_delivered_job, is_delivered, delivered_rows, deliver_rows, was_sent,
  settled_row, resolved_rows, resolve_rows, mark_txn, mark_result_delivery, reconcile_txn,
  reconcile_abandoned_result_send, Resolution, resolve_txn, resolve_unconfirmed_result,
}
use agent_chun_su.Store.Results.Transitions.{DeliveryCall, marks, reconciles, resolves, call}

-- A job is as it was, or it was staged and is completed, and then nothing of it is unfinished.
abbrev pub Finishes : Db → Job → Job → Type 0
Finishes db j k =
    (j ≡ k)
    ⊎ ((j.status ≡ JobStatus.staged)
        × (k.status ≡ JobStatus.completed)
        × (unfinished j.id db ≡ false))

complete_delivered_job-Finishes :
    (env : Env) (job : ℕ) (db : Db)
    → Along
        (Finishes (complete_delivered_job env job db))
        db.jobs
        (complete_delivered_job env job db).jobs
unfolding complete_delivered_job
complete_delivered_job-Finishes env job db =
    Along-update_where (Finishes db) hit
      (λ j. record j { status = JobStatus.completed; updated_at = env.now }) step db.jobs
  where
    hit : Job → Bool
    hit j = j.id == job && (is_staged j.status && not (unfinished job db))

    step :
        (j : Job)
        → Finishes db j
            (when hit (λ j. record j { status = JobStatus.completed; updated_at = env.now }) j)
    step j = elim (Bool-cases (hit j)) [
      | inl yes_ ↦
          (let same : j.id ≡ job = ground arith in
            rw (yes_) (inr (ground arith, refl, rw same (ground arith))))
      | inr no_ ↦ rw no_ (inl refl)
    ]

stay : (db : Db) → Along (Finishes db) db.jobs db.jobs
stay db = Along-refl (Finishes db) (λ j. inl refl) db.jobs

deliver_rows-Finishes :
    (env : Env) (e : ResultEvent) (status : Delivery) (db : Db)
    → Along (Finishes (deliver_rows env e status db)) db.jobs (deliver_rows env e status db).jobs
unfolding deliver_rows
deliver_rows-Finishes env e status db = elim (Bool-cases (is_delivered status)) [
  | inl last ↦
      rw last (complete_delivered_job-Finishes env e.job_id (delivered_rows env e status db))
  | inr more ↦ rw more (stay (delivered_rows env e status db))
]

mark_found :
    (env : Env) (id : ℕ) (status : Delivery) (db : Db) (e : ResultEvent) (w : WorkflowJob)
    → find_by result_key id db.results ≡ some e
    → find_by workflow_key e.job_id db.workflows ≡ some w
    → Along
        (Finishes (mark_result_delivery env id status db).0)
        db.jobs
        (mark_result_delivery env id status db).0.jobs
unfolding mark_result_delivery mark_txn
mark_found env id status db e w found wf =
    ground (arith, deliver_rows-Finishes env e status db, stay db)

mark-Finishes :
    (env : Env) (id : ℕ) (status : Delivery) (db : Db)
    → Along
        (Finishes (mark_result_delivery env id status db).0)
        db.jobs
        (mark_result_delivery env id status db).0.jobs
unfolding mark_result_delivery mark_txn
mark-Finishes env id status db = elim (Option-cases (find_by result_key id db.results)) [
  | inl e ↦ rw e (stay db)
  | inr (e, found) ↦ elim (Option-cases (find_by workflow_key e.job_id db.workflows)) [
    | inl none_ ↦ rw (found, none_) (stay db)
    | inr (w, wf) ↦ mark_found env id status db e w found wf
  ]
]

resolve_rows-Finishes :
    (env : Env) (e : ResultEvent) (id conversation stamp : ℕ) (r : Resolution) (db : Db)
    → Along
        (Finishes (resolve_rows env e id conversation stamp r db))
        db.jobs
        (resolve_rows env e id conversation stamp r db).jobs
unfolding resolve_rows
resolve_rows-Finishes env e id conversation stamp r db = elim (Bool-cases (was_sent r)) [
  | inl last ↦ rw last (
      complete_delivered_job-Finishes env e.job_id (resolved_rows env e id conversation stamp r db))
  | inr more ↦ rw more (stay (resolved_rows env e id conversation stamp r db))
]

resolve-Finishes :
    (env : Env) (id conversation stamp : ℕ) (r : Resolution) (db : Db)
    → Along
        (Finishes (resolve_unconfirmed_result env id conversation stamp r db).0)
        db.jobs
        (resolve_unconfirmed_result env id conversation stamp r db).0.jobs
unfolding resolve_unconfirmed_result resolve_txn
resolve-Finishes env id conversation stamp r db =
    elim (Option-cases (
      find_where (settled_row id conversation Delivery.unconfirmed stamp db.workflows)
        db.results)) [
          | inl e ↦ ground (arith, stay db)
          | inr (e, found) ↦
              ground (arith, resolve_rows-Finishes env e id conversation stamp r db, stay db)
        ]

reconcile-Finishes :
    (env : Env) (id conversation stamp : ℕ) (db : Db)
    → Along
        (Finishes (reconcile_abandoned_result_send env id conversation stamp db).0)
        db.jobs
        (reconcile_abandoned_result_send env id conversation stamp db).0.jobs
unfolding reconcile_abandoned_result_send reconcile_txn
reconcile-Finishes env id conversation stamp db = ground (
  arith,
  Along-refl (Finishes (reconcile_abandoned_result_send env id conversation stamp db).0)
      (λ j. inl refl) db.jobs,
)

-- An operation on the deliveries changes a job only from staged to completed, and then every step of
-- the job is completed and every result of it is delivered.
pub call-Finishes :
    (env : Env) (c : DeliveryCall) (db : Db)
    → Along (Finishes (call env c db)) db.jobs (call env c db).jobs
unfolding call
call-Finishes env (marks id status) db = mark-Finishes env id status db
call-Finishes env (reconciles id conversation stamp) db =
    reconcile-Finishes env id conversation stamp db
call-Finishes env (resolves id conversation stamp r) db =
    resolve-Finishes env id conversation stamp r db
