-- ===== src/Store/Jobs/Keys.antt =====
-- The operations on the queue keep the ids of the jobs apart.
use agent_chun_su.Base.{
  ℕ, ◌≡◌, ◌⊎◌, subst, refl, List, [], ◌∷◌, ◌++◌, String, Option, none, arith, Bool-cases,
  Option-cases, inl, inr,
}
use agent_chun_su.Table.{find_by, Keyed}
use agent_chun_su.Table.Laws.{find_by-absent, Keyed-update_where, Keyed-append, All-map}
use agent_chun_su.Store.Status.{JobStatus, is_running}
use agent_chun_su.Store.Model.{Job, Attempt, Db, File, Home, Env, ok, job_key}
use agent_chun_su.Store.Txn.{Result-cases, exec}
use agent_chun_su.Store.Rows.{job_clash, insert_job, insert_attempt, insert_artifact}
use agent_chun_su.Store.Disk.{write_file}
use agent_chun_su.Store.Jobs.Recovery.{
  recover_interrupted, recover_jobs, recover_job, listing, running_job,
}
use agent_chun_su.Store.Jobs.{
  input_artifact, submit, submitted_job, submit_rows, with_file, start_attempt, start_attempt_txn,
  begin_attempt, finish_attempt, finish_attempt_txn, complete_publication, complete_publication_txn,
  job_is, set_waiting, set_running, budget_exhausted, runs_attempt, set_finished, recovery_required,
  set_published,
}
use agent_chun_su.Store.Jobs.Running.{Owned, RunsUnder-append}

abbrev pub Kept : Db → Type 0
Kept db = Keyed job_key db.jobs

pub start_attempt-Keyed :
    (env : Env) (job : ℕ) (executor : String) (limit : ℕ) (db : Db)
    → Kept db
    → Kept (start_attempt env job executor limit db).0
unfolding start_attempt start_attempt_txn begin_attempt insert_attempt
start_attempt-Keyed env job executor limit db h =
    elim (Option-cases (find_by job_key job db.jobs)) [
      | inl e ↦ ground arith
      | inr (j, e) ↦ ground (
        arith,
        Keyed-update_where job_key (job_is j.id) (set_waiting env budget_exhausted) (λ k. refl)
            db.jobs h,
        Keyed-update_where job_key (job_is job) (set_running env job (env.fresh 0)) (λ k. refl)
            db.jobs h,
      )
    ]

pub finish_attempt-Keyed :
    (env : Env) (a : Attempt) (status : JobStatus) (diagnostic : String) (not_before : ℕ) (db : Db)
    → Kept db
    → Kept (finish_attempt env a status diagnostic not_before db).0
unfolding finish_attempt finish_attempt_txn
finish_attempt-Keyed env a status diagnostic not_before db h = ground (
  arith,
  Keyed-update_where job_key (runs_attempt a.job_id a.id)
      (set_finished env status diagnostic not_before) (λ k. refl) db.jobs h,
)

pub complete_publication-Keyed :
    (env : Env) (job attempt : ℕ) (status : JobStatus) (artifact : ℕ) (db : Db)
    → Kept db
    → Kept (complete_publication env job attempt status artifact db).0
unfolding complete_publication complete_publication_txn
complete_publication-Keyed env job attempt status artifact db h =
    elim (Option-cases (find_by job_key job db.jobs)) [
      | inl e ↦ ground arith
      | inr (j, e) ↦ ground (
        arith,
        Keyed-update_where job_key (job_is job) (set_published env status) (λ k. refl) db.jobs h,
      )
    ]

recover_jobs-Keyed :
    (env : Env) (js : List Job) (db : Db) → Kept db → Kept (recover_jobs env js db).0
unfolding recover_jobs recover_job
recover_jobs-Keyed env [] db h = h
recover_jobs-Keyed env (j ∷ js) db h = elim (Bool-cases (is_running j.status)) [
  | inl e ↦ rw e (
      recover_jobs-Keyed env js (recover_job env j db) (
        Keyed-update_where job_key (running_job j.id) (set_waiting env recovery_required)
          (λ k. refl) db.jobs h))
  | inr e ↦ rw e (recover_jobs-Keyed env js db h)
]

pub recover_interrupted-Keyed :
    (env : Env) (db : Db) → Kept db → Kept (recover_interrupted env db).0
unfolding recover_interrupted
recover_interrupted-Keyed env db h = recover_jobs-Keyed env (listing db.jobs) db h

-- A new row under a new id, or nothing new.
abbrev Adds : Db → Db → Type 0
Adds db db' =
    (db' ≡ db)
    ⊎ ((j : Job) × (find_by job_key j.id db.jobs ≡ none)
        × (db'.jobs ≡ db.jobs ++ (j ∷ []))
        × (db'.attempts ≡ db.attempts))

pub insert_job-new :
    (env : Env) (j : Job) (db db' : Db)
    → insert_job env j db ≡ ok db'
    → (find_by job_key j.id db.jobs ≡ none)
      × (db'.jobs ≡ db.jobs ++ (j ∷ []))
      × (db'.attempts ≡ db.attempts)
unfolding insert_job job_clash
insert_job-new env j db db' done = (
  find_by-absent job_key j.id (job_clash env j) (λ r e. ground arith) db.jobs (ground arith),
  ground arith,
  ground arith,
)

submit_rows-Adds :
    (env : Env) (j : Job) (input : List ℕ) (db : Db)
    → Adds db (exec db (submit_rows env j input db)).0
unfolding submit_rows insert_artifact
submit_rows-Adds env j input db = elim (Result-cases (insert_job env j db)) [
  | inr (e, bad) ↦ inl (ground arith)
  | inl (db1, good) ↦ elim (Result-cases (insert_artifact (input_artifact env j input) db1)) [
    | inr (e, bad) ↦ inl (ground arith)
    | inl (db2, fine) ↦
        (let new = insert_job-new env j db db1 good in
          inr (j, new.0, ground (arith, new.1), ground (arith, new.2)))
  ]
]

submit-Adds :
    (env : Env) (group : String) (input : List ℕ) (request : Option String) (limit : ℕ) (h : Home)
    → Adds h.db (submit env group input request limit h).0.db
unfolding submit with_file
submit-Adds env group input request limit h =
    elim (Result-cases (submitted_job env group input request limit)) [
      | inr (e, bad) ↦ inl (ground arith)
      | inl (j, good) ↦ elim (Result-cases (write_file j.input_ref input h.disk)) [
        | inr (e, bad) ↦ inl (ground arith)
        | inl (disk, there) ↦
            subst (Adds h.db) (shape j disk good there) (submit_rows-Adds env j input h.db)
      ]
    ]
  where
    shape :
        (j : Job) (disk : List File)
        → submitted_job env group input request limit ≡ ok j
        → write_file j.input_ref input h.disk ≡ ok disk
        → (exec h.db (submit_rows env j input h.db)).0
          ≡ (submit env group input request limit h).0.db
    shape j disk good there = ground arith

Adds-keeps : (db db' : Db) → Adds db db' → Kept db → Owned db → Kept db' × Owned db'
Adds-keeps db db' (inl same) keyed owned = rw same (keyed, owned)
Adds-keeps db db' (inr (j, new, jobs, attempts)) keyed owned =
    rw (jobs, attempts)
      (
        Keyed-append job_key db.jobs j new keyed,
        All-map _ _ (λ a. RunsUnder-append db.jobs (j ∷ []) a) db.attempts owned,
      )

-- Submit keeps the ids apart and the running attempts with their jobs.
pub submit-keeps :
    (env : Env) (group : String) (input : List ℕ) (request : Option String) (limit : ℕ) (h : Home)
    → Kept h.db
    → Owned h.db
    → Kept (submit env group input request limit h).0.db
      × Owned (submit env group input request limit h).0.db
submit-keeps env group input request limit h =
    Adds-keeps h.db _ (submit-Adds env group input request limit h)
