-- ===== src/Store/Workflow/Claim/Exclusive.antt =====
-- Claims of steps, one after the other, and the inputs of a claim.
use agent_chun_su.Base.{
  ℕ, ◌≡◌, refl, true, false, List, [], ◌∷◌, some, arith, Option-cases, inl, inr, ap,
}
use agent_chun_su.Table.{find_by, when, All, Apart}
use agent_chun_su.Table.Laws.{find_by-key, find_by-update_where}
use agent_chun_su.Store.Status.{is_ready, is_staged}
use agent_chun_su.Store.Model.{
  Job, WorkflowJob, Step, StepAttempt, Db, Env, ok, err, stale_step, step_key,
}
use agent_chun_su.Store.Workflow.{workflow_of, step_list}
use agent_chun_su.Store.Workflow.Inputs.{
  IsMet, IsPinned, OtherId, resolved_inputs-IsMet, pin_inputs-IsPinned,
}
use agent_chun_su.Store.Workflow.Claim.{claim_step, claim_step_txn, claimable, set_claimed}
use agent_chun_su.Store.Workflow.Claim.Found.{
  claim_step-found, claim_step-open, claim_step-refs, no_step, claim_step-cases, claim_step-writes,
}

-- In the state after a claim the step runs.
second_found :
    (env : Env) (id expected : ℕ) (db : Db) (s : Step) (w : WorkflowJob) (j : Job)
    → find_by step_key id db.steps ≡ some s
    → workflow_of s.job_id db ≡ ok (w, j)
    → w.paused ≡ false
    → is_staged j.status ≡ true
    → is_ready s.state ≡ false
    → claim_step env id expected db ≡ (db, err stale_step)
unfolding claim_step claim_step_txn
second_found env id expected db s w j found wf open_ staged busy = ground arith

workflow_of-same :
    (job : ℕ) (db db' : Db)
    → db'.jobs ≡ db.jobs
    → db'.workflows ≡ db.workflows
    → workflow_of job db' ≡ workflow_of job db
unfolding workflow_of
workflow_of-same job db db' hj hw = rw (hj, hw) refl

-- The step does not wait for a claim, in a job that admits claims.
record IsBusy (id : ℕ) (db : Db) : Type 0 where
  row : Step
  workflow : WorkflowJob
  job : Job
  found : find_by step_key id db.steps ≡ some row
  of_workflow : workflow_of row.job_id db ≡ ok (workflow, job)
  not_paused : workflow.paused ≡ false
  staged : is_staged job.status ≡ true
  busy : is_ready row.state ≡ false

claim_step-IsBusy :
    (env : Env) (id k expected : ℕ) (db : Db)
    → IsBusy id db
    → IsBusy id (claim_step env k expected db).0
claim_step-IsBusy env id k expected db b = elim (claim_step-cases env k expected db) [
  | inl same ↦ rw same b
  | inr (a, good) ↦
      let db' = (claim_step env k expected db).0 in
      let (steps, jobs, workflows) = claim_step-writes env k expected db db' a good in
      record {
        row = b.row;
        workflow = b.workflow;
        job = b.job;
        found =
            rw
              (
                steps,
                find_by-update_where step_key (claimable k expected) (set_claimed env a) (λ r. refl)
                    id db.steps,
                b.found,
              )
              (ap some (stays a b.row b.busy));
        of_workflow = rw (workflow_of-same b.row.job_id db db' jobs workflows) b.of_workflow;
        not_paused = b.not_paused;
        staged = b.staged;
        busy = b.busy;
      }
]
  where
    stays :
        (a : StepAttempt) (s : Step)
        → is_ready s.state ≡ false
        → when (claimable k expected) (set_claimed env a) s ≡ s
    stays a s busy = ground arith

-- A claim that succeeds leaves its step busy.
claimed-IsBusy :
    (env : Env) (id expected : ℕ) (db db' : Db) (a : StepAttempt)
    → claim_step env id expected db ≡ (db', ok a)
    → IsBusy id db'
claimed-IsBusy env id expected db db' a h = elim (Option-cases (find_by step_key id db.steps)) [
  | inl e ↦ absurd (no_step env id expected db db' a e h)
  | inr (s, e) ↦
      let same = find_by-key step_key id db.steps s e in
      let c = claim_step-found env id expected db db' a s e same h in
      let o = claim_step-open env id expected db db' a s e h in
      record {
        row = set_claimed env a s;
        workflow = o.0;
        job = o.1;
        found =
            rw
              (
                c.steps_after,
                find_by-update_where step_key (claimable id expected) (set_claimed env a)
                    (λ r. refl) id db.steps,
                e,
              )
              (ap some (hit s same c.ready c.holder));
        of_workflow = rw (workflow_of-same s.job_id db db' c.jobs_after c.workflows_after) o.2;
        not_paused = o.3;
        staged = o.4;
        busy = refl;
      }
]
  where
    hit :
        (s : Step)
        → s.id ≡ id
        → is_ready s.state ≡ true
        → s.current_attempt_id ≡ expected
        → when (claimable id expected) (set_claimed env a) s ≡ set_claimed env a s
    hit s same ready holder = ground arith

-- Claims of any steps, one after the other; the entries are the time and ids, the step, and the
-- attempt that it is expected to have.
unfoldable pub run_claims : List (Env × ℕ × ℕ) → Db → Db
unfolding claim_step
run_claims [] db = db
run_claims ((env, id, expected) ∷ claims) db = run_claims claims (claim_step env id expected db).0

run_claims-IsBusy :
    (claims : List (Env × ℕ × ℕ)) (id : ℕ) (db : Db)
    → IsBusy id db
    → IsBusy id (run_claims claims db)
unfolding run_claims
run_claims-IsBusy [] id db b = b
run_claims-IsBusy ((env, k, expected) ∷ claims) id db b =
    run_claims-IsBusy claims id (claim_step env k expected db).0
      (claim_step-IsBusy env id k expected db b)

-- After a claim that succeeds, and any number of further claims of any steps, each claim of the step,
-- by anyone, under any expectation and at any time, is refused as stale and changes nothing. Nothing
-- is said of the step after an operation of another kind, such as its completion or a pause.
pub claim_step-exclusive :
    (env env' : Env) (id expected expected' : ℕ) (db db' : Db) (a : StepAttempt)
    (claims : List (Env × ℕ × ℕ))
    → claim_step env id expected db ≡ (db', ok a)
    → claim_step env' id expected' (run_claims claims db') ≡ (run_claims claims db', err stale_step)
claim_step-exclusive env env' id expected expected' db db' a claims h =
    let b = run_claims-IsBusy claims id db' (claimed-IsBusy env id expected db db' a h) in
    second_found env' id expected' (run_claims claims db') b.row b.workflow b.job b.found
      b.of_workflow b.not_paused b.staged b.busy

-- A step is claimed only while its job is staged and not paused, each of its dependencies is
-- completed with an output, and the inputs handed to the attempt are distinct available artifacts of
-- the job, each with its recorded digest.
pub claim_step-inputs :
    (env : Env) (id expected : ℕ) (db db' : Db) (a : StepAttempt)
    → claim_step env id expected db ≡ (db', ok a)
    → (s : Step) × (find_by step_key id db.steps ≡ some s)
      × ((w : WorkflowJob) × (j : Job) × (workflow_of s.job_id db ≡ ok (w, j))
          × (w.paused ≡ false)
          × (is_staged j.status ≡ true))
      × All (IsMet (step_list s.job_id db.steps)) s.depends_on
      × All (IsPinned db s.job_id) a.inputs
      × Apart OtherId a.inputs
claim_step-inputs env id expected db db' a h = elim (Option-cases (find_by step_key id db.steps)) [
  | inl e ↦ absurd (no_step env id expected db db' a e h)
  | inr (s, e) ↦
      let r = claim_step-refs env id expected db db' a s e h in
      let pinned = pin_inputs-IsPinned db s.job_id r.0 a.inputs r.2 in
      (
        s,
        e,
        claim_step-open env id expected db db' a s e h,
        resolved_inputs-IsMet (step_list s.job_id db.steps) s r.0 r.1,
        pinned.0,
        pinned.1,
      )
]
