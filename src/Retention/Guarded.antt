-- ===== src/Retention/Guarded.antt =====
-- When Apply removes anything, and that it does so once.
use agent_chun_su.Base.{
  ℕ, ◌≡◌, ◌⊎◌, refl, sym, subst, ◌∙◌, ap, inl, inr, true, false, List, some, arith, ◌==◌,
  Option-cases, Bool-cases,
}
use agent_chun_su.Table.{find_by, update_where}
use agent_chun_su.Table.Laws.{find_by-key, find_by-update_where}
use agent_chun_su.Store.Status.{is_retiring}
use agent_chun_su.Store.Model.{Job, Env, ok, job_key}
use agent_chun_su.Store.Txn.{Result-cases}
use agent_chun_su.Store.Resume.{Codec}
use agent_chun_su.Retention.Plans.{
  Plan, Progress, Operation, OperationRow, Vault, Limits, PlanCodec, operation_key, checked_plan,
  read,
}
use agent_chun_su.Retention.{set_progress, is_completed, started, apply_plan, apply}
use agent_chun_su.Retention.Steps.{at_time, Reviewed, read-row, Reviewed-started}
use agent_chun_su.Retention.Purged.{
  apply-Finished, started-by, started-Untouched, Purged, apply-Purged,
}

-- A plan that is read, of a job that is either being retired already or is as reviewed.
pub record Allowed (env : Env) (pc : PlanCodec) (lim : Limits) (id : ℕ) (v : Vault) : Type 0 where
  pub operation : Operation
  pub plan : Plan
  pub owner : Job
  pub opened : read env pc lim id v ≡ ok (operation, plan)
  pub found : find_by job_key plan.job_id v.home.db.jobs ≡ some owner
  pub grounds :
      ((operation.status ≡ Progress.applying) × (is_retiring owner.status ≡ true))
      ⊎ ((operation.status ≡ Progress.planned) × Reviewed env lim v plan owner)

started-grounds :
    (s : Progress) (env : Env) (lim : Limits) (op : Operation) (p : Plan) (j : Job) (v v1 : Vault)
    → op.status ≡ s
    → started env lim op p j v ≡ ok v1
    → ((op.status ≡ Progress.applying) × (is_retiring j.status ≡ true))
      ⊎ ((op.status ≡ Progress.planned) × Reviewed env lim v p j)
unfolding started
started-grounds Progress.planned env lim op p j v v1 e h =
    inr (e, Reviewed-started env lim op p j v v1 e h)
started-grounds Progress.applying env lim op p j v v1 e h = inl (e, ground arith)
started-grounds Progress.completed env lim op p j v v1 e h = absurd (ground arith)

-- Whatever the vault holds, Apply leaves it as it is, unless it reads a plan for a job that it finds,
-- and either an interrupted Apply has marked both, or the operation is planned and the job's status,
-- its time of change and all files of its run are those that the plan lists.
pub apply-guarded :
    (env : Env) (c : Codec) (pc : PlanCodec) (lim : Limits) (id : ℕ) (v : Vault)
    → ((apply env c pc lim id v).0 ≡ v) ⊎ Allowed env pc lim id v
unfolding apply apply_plan
apply-guarded env c pc lim id v = elim (Result-cases (read env pc lim id v)) [
  | inr (e, bad) ↦ inl (ground arith)
  | inl ((op, p), opened) ↦ elim (Bool-cases (is_completed op.status)) [
    | inl over ↦ inl (ground arith)
    | inr still ↦ elim (Option-cases (find_by job_key p.job_id v.home.db.jobs)) [
      | inl gone ↦ inl (ground arith)
      | inr (j, found) ↦ elim (Result-cases (started env lim op p j v)) [
        | inr (e, bad) ↦ inl (ground arith)
        | inl (v1, good) ↦ inr (record {
          operation = op;
          plan = p;
          owner = j;
          opened = opened;
          found = found;
          grounds = started-grounds op.status env lim op p j v v1 refl good;
        })
      ]
    ]
  ]
]

abbrev over : Operation → Operation
over op = record op { status = Progress.completed }

-- A row after an update of its progress.
find-progress :
    (s : Progress) (now id : ℕ) (rows : List OperationRow) (r : OperationRow)
    → find_by operation_key id rows ≡ some r
    → find_by operation_key id
        (update_where (λ (r : OperationRow). operation_key r == id) (set_progress s now) rows)
      ≡ some (set_progress s now r)
find-progress s now id rows r found =
    find_by-update_where operation_key (λ (r : OperationRow). operation_key r == id)
      (set_progress s now) (λ a. refl) id rows
    ∙ ground (arith, found, find_by-key operation_key id rows r found)

-- The row of the operation after the first transaction.
started-row :
    (env : Env) (lim : Limits) (op : Operation) (p : Plan) (j : Job) (v v1 : Vault)
    (r : OperationRow)
    → find_by operation_key op.id v.operations ≡ some r
    → r.operation ≡ op
    → started env lim op p j v ≡ ok v1
    → (q : OperationRow) × (find_by operation_key op.id v1.operations ≡ some q)
      × (over q.operation ≡ over op)
started-row env lim op p j v v1 r found is_op h =
    elim (started-by op.status env lim op p j v v1 refl h) [
      | inl e ↦ (
        r,
        subst (λ w. find_by operation_key op.id w.operations ≡ some r) (sym e) found,
        ap over is_op,
      )
      | inr e ↦ (
        set_progress Progress.applying env.now r,
        subst
            (λ w.
              find_by operation_key op.id w.operations
              ≡ some (set_progress Progress.applying env.now r))
            (sym e) (find-progress Progress.applying env.now op.id v.operations r found),
        ap over is_op,
      )
    ]

-- An operation that is over is returned as it is.
read-over :
    (env : Env) (t : ℕ) (c : Codec) (pc : PlanCodec) (lim : Limits) (id : ℕ) (v : Vault)
    (q : OperationRow) (p : Plan) (o : Operation)
    → find_by operation_key id v.operations ≡ some q
    → q.operation.status ≡ Progress.completed
    → checked_plan env pc lim q.operation v.plans ≡ ok p
    → o ≡ q.operation
    → apply (at_time t env) c pc lim id v ≡ (v, ok o)
unfolding apply read checked_plan
read-over env t c pc lim id v q p o row done checked same = ground arith

-- After an Apply that removes something and succeeds, another one, at any time, changes nothing and
-- returns the same completed operation.
apply-again :
    (env : Env) (t : ℕ) (c : Codec) (pc : PlanCodec) (lim : Limits) (id : ℕ) (v v' : Vault)
    (op o : Operation) (p : Plan)
    → read env pc lim id v ≡ ok (op, p)
    → is_completed op.status ≡ false
    → apply env c pc lim id v ≡ (v', ok o)
    → apply (at_time t env) c pc lim id v' ≡ (v', ok o)
unfolding apply read
apply-again env t c pc lim id v v' op o p opened still done =
    let h = apply-Finished env c pc lim id v v' op o p opened still done in
    let (r, found, is_op, same, checked) = read-row env pc lim id v op p opened in
    let (q, there, now_over) =
      started-row env lim op p h.job v h.begun r (rw same found) is_op h.passed in
    let row : find_by operation_key id v'.operations
        ≡ some (set_progress Progress.completed env.now q) =
      subst
        (λ k.
          find_by operation_key k v'.operations ≡ some (set_progress Progress.completed env.now q))
        same
        (subst
          (λ (w : Vault).
            find_by operation_key op.id w.operations
            ≡ some (set_progress Progress.completed env.now q))
          (sym h.left)
          (find-progress Progress.completed env.now op.id h.begun.operations q there)) in
    let plans : v'.plans ≡ v.plans =
      ap (λ (w : Vault). w.plans) h.left
      ∙ (started-Untouched env lim op p h.job v h.begun h.passed).1 in
    read-over env t c pc lim id v' (set_progress Progress.completed env.now q) p o row refl
      (subst (λ ps. checked_plan env pc lim (over q.operation) ps ≡ ok p) (sym plans)
        (subst (λ x. checked_plan env pc lim x v.plans ≡ ok p) (sym now_over) checked))
      (h.result ∙ sym now_over)

-- An Apply that removes something and succeeds removes all files of the job's run and no others, marks
-- the job as purged and its artifacts as no longer there, empties the diagnostics of its attempts and the
-- details of its events, and leaves the plans, the workflows, their steps and their results as they
-- were. Another Apply, at any time, then changes nothing and returns the same completed operation.
pub apply-once :
    (env : Env) (t : ℕ) (c : Codec) (pc : PlanCodec) (lim : Limits) (id : ℕ) (v v' : Vault)
    (op o : Operation) (p : Plan)
    → read env pc lim id v ≡ ok (op, p)
    → is_completed op.status ≡ false
    → apply env c pc lim id v ≡ (v', ok o)
    → Purged op p v v' × (apply (at_time t env) c pc lim id v' ≡ (v', ok o))
apply-once env t c pc lim id v v' op o p opened still done = (
  apply-Purged env c pc lim id v v' op o p opened still done,
  apply-again env t c pc lim id v v' op o p opened still done,
)
