-- ===== src/Store/Workflow/Claim/Found.antt =====
-- What a claim that succeeds finds and writes.
use agent_chun_su.Base.{
  ℕ, ◌≡◌, refl, true, false, List, [], ◌∷◌, ◌++◌, none, some, arith, Option-cases, inl, inr, ◌⊎◌,
}
use agent_chun_su.Table.{find_by, update_where}
use agent_chun_su.Table.Laws.{find_by-key}
use agent_chun_su.Store.Status.{is_ready, is_staged}
use agent_chun_su.Store.Model.{
  Job, WorkflowJob, Step, StepAttempt, PinnedArtifactRef, Db, Env, ok, step_key,
}
use agent_chun_su.Store.Txn.{Result-cases}
use agent_chun_su.Store.Rows.{insert_step_attempt}
use agent_chun_su.Store.Workflow.{workflow_of, resolved_inputs, step_list, pin_inputs}
use agent_chun_su.Store.Workflow.Claim.{
  claim_step, claim_step_txn, claim_rows, claimable, set_claimed,
}
use agent_chun_su.Store.Workflow.Settled.{Lasts, untouched, written}

-- What a claim that succeeds finds and leaves, for the row of its step.
pub record Claimed (env : Env) (id expected : ℕ) (db db' : Db) (a : StepAttempt) (s : Step)
    : Type 0 where
  pub ready : is_ready s.state ≡ true
  pub holder : s.current_attempt_id ≡ expected
  pub of_step : a.step_id ≡ id
  pub steps_after : db'.steps ≡ update_where (claimable id expected) (set_claimed env a) db.steps
  pub jobs_after : db'.jobs ≡ db.jobs
  pub workflows_after : db'.workflows ≡ db.workflows
  pub attempts_after : db'.step_attempts ≡ db.step_attempts ++ (a ∷ [])

pub claim_step-found :
    (env : Env) (id expected : ℕ) (db db' : Db) (a : StepAttempt) (s : Step)
    → find_by step_key id db.steps ≡ some s
    → s.id ≡ id
    → claim_step env id expected db ≡ (db', ok a)
    → Claimed env id expected db db' a s
unfolding claim_step claim_step_txn claim_rows insert_step_attempt
claim_step-found env id expected db db' a s found same h = ground arith

-- The claim's workflow is not paused, and its job is staged.
pub claim_step-open :
    (env : Env) (id expected : ℕ) (db db' : Db) (a : StepAttempt) (s : Step)
    → find_by step_key id db.steps ≡ some s
    → claim_step env id expected db ≡ (db', ok a)
    → (w : WorkflowJob) × (j : Job) × (workflow_of s.job_id db ≡ ok (w, j))
      × (w.paused ≡ false)
      × (is_staged j.status ≡ true)
unfolding claim_step claim_step_txn
claim_step-open env id expected db db' a s found h = elim (Result-cases (workflow_of s.job_id db)) [
  | inr (e, bad) ↦ absurd (ground arith)
  | inl ((w, j), e) ↦ (w, j, e, ground arith, ground arith)
]

pub claim_step-refs :
    (env : Env) (id expected : ℕ) (db db' : Db) (a : StepAttempt) (s : Step)
    → find_by step_key id db.steps ≡ some s
    → claim_step env id expected db ≡ (db', ok a)
    → (refs : List PinnedArtifactRef) × (resolved_inputs (step_list s.job_id db.steps) s
        ≡ some refs)
      × (pin_inputs db s.job_id refs ≡ ok a.inputs)
unfolding claim_step claim_step_txn claim_rows
claim_step-refs env id expected db db' a s found h =
    elim (Option-cases (resolved_inputs (step_list s.job_id db.steps) s)) [
      | inl e ↦ absurd (ground arith)
      | inr (refs, e) ↦ (refs, e, ground arith)
    ]

pub no_step :
    (env : Env) (id expected : ℕ) (db db' : Db) (a : StepAttempt)
    → find_by step_key id db.steps ≡ none
    → claim_step env id expected db ≡ (db', ok a)
    → ⊥
unfolding claim_step claim_step_txn
no_step env id expected db db' a none_ h = ground arith

-- A claim changes nothing, or it succeeds.
pub claim_step-cases :
    (env : Env) (id expected : ℕ) (db : Db)
    → ((claim_step env id expected db).0 ≡ db)
      ⊎ ((a : StepAttempt) × (claim_step env id expected db
            ≡ ((claim_step env id expected db).0, ok a)))
unfolding claim_step
claim_step-cases env id expected db = elim (Result-cases (claim_step_txn env id expected db)) [
  | inr (e, bad) ↦ inl (ground arith)
  | inl ((db', a), good) ↦ inr (a, rw (good, claim_step) refl)
]

-- What a claim that succeeds does to the tables that claims read.
pub claim_step-writes :
    (env : Env) (id expected : ℕ) (db db' : Db) (a : StepAttempt)
    → claim_step env id expected db ≡ (db', ok a)
    → (db'.steps ≡ update_where (claimable id expected) (set_claimed env a) db.steps)
      × (db'.jobs ≡ db.jobs)
      × (db'.workflows ≡ db.workflows)
claim_step-writes env id expected db db' a h = elim (Option-cases (find_by step_key id db.steps)) [
  | inl e ↦ absurd (no_step env id expected db db' a e h)
  | inr (s, e) ↦
      let c =
        claim_step-found env id expected db db' a s e (find_by-key step_key id db.steps s e) h in
      (c.steps_after, c.jobs_after, c.workflows_after)
]

-- ClaimStep leaves settled steps settled.
pub claim_step-Lasts :
    (env : Env) (id expected : ℕ) (db : Db) → Lasts db (claim_step env id expected db).0
claim_step-Lasts env id expected db = elim (claim_step-cases env id expected db) [
  | inl same ↦ untouched (rw same refl)
  | inr (a, good) ↦
      written (claimable id expected) (set_claimed env a)
        (claim_step-writes env id expected db (claim_step env id expected db).0 a good).0
        (λ r. refl) (λ r h. ground arith)
]
