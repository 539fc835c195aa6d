-- ===== src/Store/Workflow/Spec/Appended.antt =====
-- What AppendSteps adds to a job.
use mathlib.Core.List.{append-nil, append_assoc}
use agent_chun_su.Base.{
  ℕ, ◌+◌, ◌≡◌, refl, true, List, [], ◌∷◌, ◌++◌, String, arith, inl, inr, ap, sym, ◌∙◌, ◌≤◌,
}
use agent_chun_su.Table.{All, length}
use agent_chun_su.Store.Status.{StepState, is_staged}
use agent_chun_su.Store.Model.{Job, WorkflowJob, StepSpec, Step, Db, Env, ok}
use agent_chun_su.Store.Txn.{Result-cases}
use agent_chun_su.Store.Rows.{insert_step_row}
use agent_chun_su.Store.Workflow.{workflow_of, step_list}
use agent_chun_su.Store.Workflow.Spec.{
  insert_step, new_step, append_rows, append_steps_txn, append_steps, keys,
}

-- A new row is pending, is of the job, has an ordinal from the given one on, and has no inputs.
pub record Appended (job from : ℕ) (s : Step) : Type 0 where
  of_job : s.job_id ≡ job
  is_pending : s.state ≡ StepState.pending
  unheld : s.current_attempt_id ≡ 0
  later : from ≤ s.ordinal
  no_inputs : s.input_artifacts ≡ []

insert_step-adds :
    (env : Env) (id job ordinal : ℕ) (spec : StepSpec) (db db' : Db)
    → insert_step env id job ordinal spec [] db ≡ ok db'
    → db'.steps ≡ db.steps ++ (new_step env id job ordinal spec [] ∷ [])
unfolding insert_step insert_step_row
insert_step-adds env id job ordinal spec db db' h = ground arith

-- The keys of the rows are those of the specifications.
abbrev pub spec_keys : List StepSpec → List String
spec_keys [] = []
spec_keys (s ∷ ss) = s.key ∷ spec_keys ss

append_rows-adds :
    (env : Env) (job index ordinal from : ℕ) (specs : List StepSpec) (db db' : Db)
    → from ≤ ordinal
    → append_rows env job index ordinal specs db ≡ ok db'
    → (new : List Step) × (db'.steps ≡ db.steps ++ new)
      × (keys new ≡ spec_keys specs)
      × All (Appended job from) new
unfolding append_rows
append_rows-adds env job index ordinal from [] db db' le h =
    ([], same ∙ sym (append-nil db.steps), refl, tt)
  where
    same : db'.steps ≡ db.steps
    same = ground arith
append_rows-adds env job index ordinal from (s ∷ ss) db db' le h =
    elim (Result-cases (insert_step env (env.fresh index) job ordinal s [] db)) [
      | inr (e, bad) ↦ absurd (ground arith)
      | inl (db1, one) ↦
          (let rest =
              append_rows-adds env job (index + 1) (ordinal + 1) from ss db1 db' (omega arith)
                (ground arith) in
            let row = new_step env (env.fresh index) job ordinal s [] in
            (
              row ∷ rest.0,
              more db1 row rest.0 (insert_step-adds env (env.fresh index) job ordinal s db db1 one)
                  rest.1,
              ap (λ ks. s.key ∷ ks) rest.2,
              (
                record {
                  of_job = refl;
                  is_pending = refl;
                  unheld = refl;
                  later = le;
                  no_inputs = refl;
                },
                rest.3,
              ),
            ))
    ]
  where
    more :
        (mid : Db) (row : Step) (new : List Step)
        → mid.steps ≡ db.steps ++ (row ∷ [])
        → db'.steps ≡ mid.steps ++ new
        → db'.steps ≡ db.steps ++ (row ∷ new)
    more mid row new one rest =
        rest ∙ (ap (λ (l : List Step). l ++ new) one ∙ (append_assoc db.steps (row ∷ []) new))

-- AppendSteps, where it succeeds, adds one row for each specification after the rows that are there:
-- of the job and with its key, pending, held by no attempt, with an ordinal above the number of steps
-- that the job had, and with no inputs, whatever the specification holds. The job was staged and at
-- the expected revision.
pub append_steps-Appended :
    (env : Env) (job revision : ℕ) (specs : List StepSpec) (db db' : Db)
    → append_steps env job revision specs db ≡ (db', ok tt)
    → ((w : WorkflowJob) × (j : Job) × (workflow_of job db ≡ ok (w, j))
        × (w.request_revision ≡ revision)
        × (is_staged j.status ≡ true))
      × (new : List Step) × (db'.steps ≡ db.steps ++ new)
      × (keys new ≡ spec_keys specs)
      × All (Appended job (length (step_list job db.steps) + 1)) new
unfolding append_steps append_steps_txn
append_steps-Appended env job revision specs db db' h = elim (Result-cases (workflow_of job db)) [
  | inr (e, bad) ↦ absurd (ground arith)
  | inl ((w, j), e) ↦
      (let from = length (step_list job db.steps) + 1 in
        let rows = append_rows-adds env job 0 from from specs db db' (omega arith) (ground arith) in
        ((w, j, e, ground arith, ground arith), rows.0, rows.1, rows.2, rows.3))
]
