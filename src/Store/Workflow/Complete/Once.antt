-- ===== src/Store/Workflow/Complete/Once.antt =====
-- What a completion leaves, and the verified output that a completed step stands on.
use agent_chun_su.Base.{
  ℕ, ◌≡◌, ◌≢◌, refl, ap, true, false, List, none, some, arith, ◌==◌, ◌&&◌, eq_iff, Option-cases,
  Bool-cases, ◌∙◌, inl, inr,
}
use agent_chun_su.Table.{find_by, find_where, update_where, when}
use agent_chun_su.Table.Laws.{find_by-key, find_by-update_where}
use agent_chun_su.Store.Status.{
  StepState, is_running_step, is_completed_step, can_complete, can_retry,
}
use agent_chun_su.Store.Model.{Step, Artifact, File, Db, Env, ok, step_key}
use agent_chun_su.Store.Txn.{Result-cases}
use agent_chun_su.Store.Disk.{read_file, read_artifact}
use agent_chun_su.Store.Workflow.Complete.{
  check_output, runs_step, set_finished, runs_step_attempt, close_step_attempt, complete_rows,
  complete_step_txn, complete_step, retryable, retry_step_txn, retry_step,
}
use agent_chun_su.Store.Workflow.Settled.{Lasts, untouched, written, IsSettled}

-- What a completion that succeeds finds and leaves, for the row of its step.
record Completed (env : Env) (disk : List File) (id attempt output : ℕ) (status : StepState)
    (db db' : Db) (t s : Step) : Type 0 where
  allowed : can_complete status ≡ true
  running : is_running_step s.state ≡ true
  holder : s.current_attempt_id ≡ attempt
  has_output : is_completed_step status ≡ true → output ≢ 0
  checked : check_output env disk output s.job_id attempt db ≡ ok tt
  returned : t ≡ set_finished env status output s
  steps_after :
      db'.steps ≡ update_where (runs_step id attempt) (set_finished env status output) db.steps
  attempts_after :
      db'.step_attempts
      ≡ update_where
          (runs_step_attempt id attempt)
          (close_step_attempt env status output)
          db.step_attempts
  jobs_after : db'.jobs ≡ db.jobs

complete_step-found :
    (env : Env) (disk : List File) (id attempt output : ℕ) (status : StepState) (db db' : Db)
    (t s : Step)
    → find_by step_key id db.steps ≡ some s
    → s.id ≡ id
    → complete_step env disk id attempt output status db ≡ (db', ok t)
    → Completed env disk id attempt output status db db' t s
unfolding complete_step complete_step_txn complete_rows
complete_step-found env disk id attempt output status db db' t s found same h = ground arith

absent :
    (env : Env) (disk : List File) (id attempt output : ℕ) (status : StepState) (db db' : Db)
    (t : Step)
    → find_by step_key id db.steps ≡ none
    → complete_step env disk id attempt output status db ≡ (db', ok t)
    → ⊥
unfolding complete_step complete_step_txn
absent env disk id attempt output status db db' t e h = ground arith

pub not_running :
    (env : Env) (disk : List File) (id attempt output : ℕ) (status : StepState) (db : Db) (s : Step)
    → find_by step_key id db.steps ≡ some s
    → is_running_step s.state ≡ false
    → (complete_step env disk id attempt output status db).0 ≡ db
unfolding complete_step complete_step_txn
not_running env disk id attempt output status db s found stopped = ground arith

-- CompleteStep and RetryStep leave settled steps settled.
pub complete_step-Lasts :
    (env : Env) (disk : List File) (id attempt output : ℕ) (status : StepState) (db : Db)
    → Lasts db (complete_step env disk id attempt output status db).0
unfolding complete_step
complete_step-Lasts env disk id attempt output status db =
    elim (Result-cases (complete_step_txn env disk id attempt output status db)) [
      | inr (e, bad) ↦ untouched (ground arith)
      | inl ((db', t), good) ↦
          let whole : complete_step env disk id attempt output status db ≡ (db', ok t) =
            rw (good, complete_step) refl in
          let same : (complete_step env disk id attempt output status db).0 ≡ db' =
            ap (λ q. q.0) whole in
          elim (Option-cases (find_by step_key id db.steps)) [
            | inl e ↦ absurd (absent env disk id attempt output status db db' t e whole)
            | inr (s, e) ↦
                let c =
                  complete_step-found env disk id attempt output status db db' t s e
                    (find_by-key step_key id db.steps s e) whole in
                written (runs_step id attempt) (set_finished env status output)
                  (ap (λ (d : Db). d.steps) same ∙ c.steps_after) (λ r. refl) (λ r h. ground arith)
          ]
    ]

pub retry_step-Lasts :
    (env : Env) (id expected : ℕ) (db : Db) → Lasts db (retry_step env id expected db).0
unfolding retry_step retry_step_txn
retry_step-Lasts env id expected db = elim (Option-cases (find_by step_key id db.steps)) [
  | inl e ↦ untouched (ground arith)
  | inr (s, e) ↦ elim (Bool-cases (can_retry s.state)) [
    | inr closed ↦ untouched (ground arith)
    | inl may ↦ elim (Result-cases (retry_step_txn env id expected db)) [
      | inr (x, bad) ↦ untouched (ground arith)
      | inl ((db', u), good) ↦
          written (retryable id expected s.state)
            (λ r. record r { state = StepState.retry_wait; not_before = 0; updated_at = env.now })
            (ground arith) (λ r. refl) (λ r h. ground arith)
    ]
  ]
]

pub complete_step-completes :
    (env : Env) (disk : List File) (id attempt output : ℕ) (db db' : Db) (t : Step)
    → complete_step env disk id attempt output StepState.completed db ≡ (db', ok t)
    → IsSettled id db'
complete_step-completes env disk id attempt output db db' t h =
    elim (Option-cases (find_by step_key id db.steps)) [
      | inl e ↦ absurd (absent env disk id attempt output StepState.completed db db' t e h)
      | inr (s, e) ↦
          let same = find_by-key step_key id db.steps s e in
          let c =
            complete_step-found env disk id attempt output StepState.completed db db' t s e same
              h in
          (
            set_finished env StepState.completed output s,
            rw
                (
                  c.steps_after,
                  find_by-update_where step_key (runs_step id attempt)
                      (set_finished env StepState.completed output) (λ r. refl) id db.steps,
                  e,
                )
                (ap some (hit s same c.running c.holder)),
            refl,
          )
    ]
  where
    hit :
        (s : Step)
        → s.id ≡ id
        → is_running_step s.state ≡ true
        → s.current_attempt_id ≡ attempt
        → when (runs_step id attempt) (set_finished env StepState.completed output) s
          ≡ set_finished env StepState.completed output s
    hit s same running holder = ground arith

-- The artifact is of this job and attempt, and its file has the recorded digest.
abbrev pub IsVerified : Env → List File → ℕ → ℕ → ℕ → Db → Type 0
IsVerified env disk output job attempt db =
    (a : Artifact) × (find_where (λ (r : Artifact). r.id == output && r.job_id == job) db.artifacts
      ≡ some a)
    × (a.attempt_id ≡ attempt)
    × (b : List ℕ) × (read_file a.path a.bytes disk ≡ ok b)
    × (env.digest b ≡ a.digest)

check_output-IsVerified :
    (env : Env) (disk : List File) (output job attempt : ℕ) (db : Db)
    → output ≢ 0
    → check_output env disk output job attempt db ≡ ok tt
    → IsVerified env disk output job attempt db
unfolding check_output read_artifact
check_output-IsVerified env disk output job attempt db there h =
    elim (Option-cases
      (find_where (λ (r : Artifact). r.id == output && r.job_id == job) db.artifacts)) [
        | inl e ↦ absurd (ground arith)
        | inr (a, e) ↦ elim (Result-cases (read_file a.path a.bytes disk)) [
          | inr (x, bad) ↦ absurd (ground arith)
          | inl (b, read) ↦
              (a, e, ground arith, b, read, ground (arith, eq_iff (env.digest b) a.digest))
        ]
      ]

-- A step becomes completed only on an output that is an artifact of its job and of the attempt that
-- holds it, with a file whose digest is the recorded one.
pub complete_step-IsVerified :
    (env : Env) (disk : List File) (id attempt output : ℕ) (db db' : Db) (t : Step)
    → complete_step env disk id attempt output StepState.completed db ≡ (db', ok t)
    → (s : Step) × (find_by step_key id db.steps ≡ some s)
      × (is_running_step s.state ≡ true)
      × (s.current_attempt_id ≡ attempt)
      × (t.output_artifact_id ≡ output)
      × IsVerified env disk output s.job_id attempt db
complete_step-IsVerified env disk id attempt output db db' t h =
    elim (Option-cases (find_by step_key id db.steps)) [
      | inl e ↦ absurd (absent env disk id attempt output StepState.completed db db' t e h)
      | inr (s, e) ↦
          let c =
            complete_step-found env disk id attempt output StepState.completed db db' t s e
              (find_by-key step_key id db.steps s e) h in
          (
            s,
            e,
            c.running,
            c.holder,
            ap (λ (r : Step). r.output_artifact_id) c.returned,
            check_output-IsVerified env disk output s.job_id attempt db (c.has_output refl)
                c.checked,
          )
    ]
