-- ===== src/Retention/Resumed.antt =====
-- An operation that was interrupted goes on as if it had not been.
use agent_chun_su.Base.{ℕ, ◌≡◌, refl, ◌∙◌, String, List, some, arith, ◌==◌}
use agent_chun_su.Table.{find_by, update_where}
use agent_chun_su.Table.Laws.{find_by-key, find_by-update_where, update_where-twice}
use agent_chun_su.Store.Model.{Job, Artifact, Content, File, Env, Result, ok, job_key}
use agent_chun_su.Store.Resume.{Codec, Fields, request_map}
use agent_chun_su.Retention.Inventory.{removed}
use agent_chun_su.Retention.Plans.{
  Plan, Progress, Operation, OperationRow, Vault, Limits, PlanCodec, operation_key, read,
}
use agent_chun_su.Retention.{
  set_retiring, set_progress, set_content, set_purged, minimal, without_run, completed_rows,
  start_rows, started, finish_removal, apply_plan, apply,
}
use agent_chun_su.Retention.Steps.{at_time, read-row, started-rows, Reviewed, started-Reviewed}

abbrev pub with_disk : List File → Vault → Vault
with_disk disk v = record v { home = record (v.home) { disk = disk } }

abbrev in_progress : Operation → Operation
in_progress op = record op { status = Progress.applying }

-- After the first transaction the same plan is read, with an operation that is being applied.
read-started :
    (env : Env) (t : ℕ) (pc : PlanCodec) (lim : Limits) (id : ℕ) (v : Vault) (disk : List File)
    (op : Operation) (p : Plan) (j : Job)
    → read env pc lim id v ≡ ok (op, p)
    → read env pc lim id (with_disk disk (start_rows t op j v)) ≡ ok (in_progress op, p)
unfolding read
read-started env t pc lim id v disk op p j h =
    let (r, found, is_op, same, checked) = read-row env pc lim id v op p h in
    ground (
      arith,
      find_by-update_where operation_key (λ (r : OperationRow). operation_key r == op.id)
          (set_progress Progress.applying t) (λ a. refl) id v.operations,
    )

pub find-started :
    (t : ℕ) (v : Vault) (op : Operation) (j : Job) (id : ℕ)
    → find_by job_key id v.home.db.jobs ≡ some j
    → j.id ≡ id
    → find_by job_key id (start_rows t op j v).home.db.jobs ≡ some (set_retiring t j)
find-started t v op j id found same =
    find_by-update_where job_key (λ r. r.id == j.id) (set_retiring t) (λ a. refl) id v.home.db.jobs
    ∙ ground (arith, found)

purged-again :
    (now t job : ℕ) (request : String) (jobs : List Job)
    → update_where
        (λ (r : Job). r.id == job)
        (set_purged now request)
        (update_where (λ (r : Job). r.id == job) (set_retiring t) jobs)
      ≡ update_where (λ (r : Job). r.id == job) (set_purged now request) jobs
purged-again now t job request jobs =
    update_where-twice _ (set_purged now request) (set_retiring t) (λ a. refl) (λ a. refl) jobs

content-again :
    (job : ℕ) (artifacts : List Artifact)
    → update_where
        (λ (r : Artifact). r.job_id == job)
        (set_content Content.purged)
        (update_where (λ (r : Artifact). r.job_id == job) (set_content Content.retiring) artifacts)
      ≡ update_where (λ (r : Artifact). r.job_id == job) (set_content Content.purged) artifacts
content-again job artifacts =
    update_where-twice _ (set_content Content.purged) (set_content Content.retiring) (λ a. refl)
      (λ a. refl) artifacts

progress-again :
    (now t id : ℕ) (rows : List OperationRow)
    → update_where
        (λ (r : OperationRow). operation_key r == id)
        (set_progress Progress.completed now)
        (update_where
          (λ (r : OperationRow). operation_key r == id)
          (set_progress Progress.applying t)
          rows)
      ≡ update_where
          (λ (r : OperationRow). operation_key r == id)
          (set_progress Progress.completed now)
          rows
progress-again now t id rows =
    update_where-twice _ (set_progress Progress.completed now) (set_progress Progress.applying t)
      (λ a. refl) (λ a. refl) rows

-- The second transaction hides when the first was made, and what was removed in between.
finish_removal-started :
    (env : Env) (t : ℕ) (c : Codec) (op : Operation) (p : Plan) (j : Job) (v : Vault)
    (disk : List File) (fs : Fields)
    → j.id ≡ p.job_id
    → request_map (c.unmarshal j.request) ≡ ok fs
    → removed p.job_id disk ≡ removed p.job_id v.home.disk
    → finish_removal env c
        (in_progress op)
        p
        (set_retiring t j)
        (with_disk disk (start_rows t op j v))
      ≡ (
        completed_rows env.now
            (c.marshal (minimal fs))
            op
            j.current_attempt
            p
            (without_run p.job_id v),
        ok (record op { status = Progress.completed }),
      )
unfolding finish_removal
finish_removal-started env t c op p j v disk fs same decoded left =
    rw (decoded, finish_removal)
      (rw
        (
          same,
          left,
          purged-again env.now t p.job_id (c.marshal (minimal fs)) v.home.db.jobs,
          content-again p.job_id v.home.db.artifacts,
          progress-again env.now t op.id v.operations,
        )
        refl)

-- Without an interruption.
finish_removal-at_once :
    (env : Env) (c : Codec) (op : Operation) (p : Plan) (j : Job) (v : Vault) (fs : Fields)
    → j.id ≡ p.job_id
    → request_map (c.unmarshal j.request) ≡ ok fs
    → finish_removal env c op p j (start_rows env.now op j v) ≡ (
      completed_rows env.now
          (c.marshal (minimal fs))
          op
          j.current_attempt
          p
          (without_run p.job_id v),
      ok (record op { status = Progress.completed }),
    )
unfolding finish_removal
finish_removal-at_once env c op p j v fs same decoded =
    rw (decoded, finish_removal)
      (rw
        (
          same,
          purged-again env.now env.now p.job_id (c.marshal (minimal fs)) v.home.db.jobs,
          content-again p.job_id v.home.db.artifacts,
          progress-again env.now env.now op.id v.operations,
        )
        refl)

-- A planned operation, of a job that is as its owner reviewed it, with a request that decodes.
pub record Ready (env : Env) (c : Codec) (pc : PlanCodec) (lim : Limits) (id : ℕ) (v : Vault)
    (op : Operation) (p : Plan) (j : Job) (fs : Fields) : Type 0 where
  pub opened : read env pc lim id v ≡ ok (op, p)
  pub is_planned : op.status ≡ Progress.planned
  pub found : find_by job_key p.job_id v.home.db.jobs ≡ some j
  pub reviewed : Reviewed env lim v p j
  pub decoded : request_map (c.unmarshal j.request) ≡ ok fs

-- What Apply leaves of a vault.
abbrev pub applied :
    Env → Codec → Operation → Plan → Job → Fields → Vault → Vault × Result Operation
applied env c op p j fs v = (
  completed_rows env.now (c.marshal (minimal fs)) op j.current_attempt p (without_run p.job_id v),
  ok (record op { status = Progress.completed }),
)

pub apply-Ready :
    (env : Env) (c : Codec) (pc : PlanCodec) (lim : Limits) (id : ℕ) (v : Vault) (op : Operation)
    (p : Plan) (j : Job) (fs : Fields)
    → Ready env c pc lim id v op p j fs
    → apply env c pc lim id v ≡ applied env c op p j fs v
unfolding apply apply_plan
apply-Ready env c pc lim id v op p j fs h =
    rw (h.opened, apply)
      (rw
        (
          h.is_planned,
          h.found,
          apply_plan,
          started-Reviewed env lim op p j v h.is_planned h.reviewed,
        )
        (finish_removal-at_once env c op p j v fs
          (find_by-key job_key p.job_id v.home.db.jobs j h.found) h.decoded))

-- An Apply that stops after its first transaction, at any time and with any part of the run directory
-- removed, is made good by another: that leaves the same vault and gives the same result as if the first
-- had not been, for a planned operation whose job and content are as reviewed and whose job's request
-- decodes.
pub apply-resumed :
    (env : Env) (t : ℕ) (c : Codec) (pc : PlanCodec) (lim : Limits) (id : ℕ) (v v1 : Vault)
    (disk : List File) (op : Operation) (p : Plan) (j : Job) (fs : Fields)
    → Ready env c pc lim id v op p j fs
    → started (at_time t env) lim op p j v ≡ ok v1
    → removed p.job_id disk ≡ removed p.job_id v.home.disk
    → apply env c pc lim id (with_disk disk v1) ≡ apply env c pc lim id v
unfolding apply apply_plan started
apply-resumed env t c pc lim id v v1 disk op p j fs h begun left =
    let same : j.id ≡ p.job_id = find_by-key job_key p.job_id v.home.db.jobs j h.found in
    rw
      (
        started-rows (at_time t env) lim op p j v v1 h.is_planned begun,
        apply-Ready env c pc lim id v op p j fs h,
      )
      (rw (read-started env t pc lim id v disk op p j h.opened, apply)
        (rw (find-started t v op j p.job_id h.found same, apply_plan)
          (finish_removal-started env t c op p j v disk fs same h.decoded left)))
