-- ===== src/Store/Jobs/Running.antt =====
-- Which attempts run: every operation on the jobs keeps the running attempts tied to the running
-- jobs.
use agent_chun_su.Base.{
  ℕ, ◌≡◌, refl, sym, ◌∙◌, Bool, true, false, List, [], ◌∷◌, ◌++◌, String, Option, none, some, arith,
  ◌==◌, ◌&&◌, Bool-cases, Option-cases, inl, inr,
}
use agent_chun_su.Table.{find_by, update_where, when, All}
use agent_chun_su.Table.Laws.{
  find_by-append, find_by-key, find_by-update_where, All-update_where, All-map, All-append,
}
use agent_chun_su.Store.Status.{JobStatus, is_running, can_start, attempt_status}
use agent_chun_su.Store.Model.{Job, Attempt, Db, Env, job_key}
use agent_chun_su.Store.Rows.{insert_attempt}
use agent_chun_su.Store.Jobs.{
  start_attempt, finish_attempt, exhaust, runs_attempt, running_attempt, close_attempt, finish_rows,
  set_running, set_waiting, set_finished, new_attempt, attempts_of, budget_exhausted, job_is,
}

-- The job of the attempt runs, and this is its current attempt.
abbrev pub owned_by : Attempt → Option Job → Bool
owned_by a none = false
owned_by a (some j) = is_running j.status && j.current_attempt == a.id

abbrev pub RunsUnder : List Job → Attempt → Type 0
RunsUnder jobs a = is_running a.status ≡ true → owned_by a (find_by job_key a.job_id jobs) ≡ true

abbrev pub Owned : Db → Type 0
Owned db = All (RunsUnder db.jobs) db.attempts

-- An update of jobs, and one of attempts that starts none.
module _ (jobs : List Job) (p : Job → Bool) (f : Job → Job) (q : Attempt → Bool)
    (g : Attempt → Attempt) (key : (j : Job) → job_key (f j) ≡ job_key j)
    (same_job : (a : Attempt) → (g a).job_id ≡ a.job_id)
    (stops : (a : Attempt) → is_running (when q g a).status ≡ true → is_running a.status ≡ true)
    (keeps : (j : Job) (a : Attempt)
      → find_by job_key a.job_id jobs ≡ some j
      → j.id ≡ a.job_id
      → is_running (when q g a).status ≡ true
      → owned_by a (some j) ≡ true
      → owned_by (when q g a) (some (when p f j)) ≡ true) where
  RunsUnder-update :
      (a : Attempt) → RunsUnder jobs a → RunsUnder (update_where p f jobs) (when q g a)
  RunsUnder-update a h run = elim (Option-cases (find_by job_key a.job_id jobs)) [
    | inl e ↦ absurd (ground (arith, h (stops a run)))
    | inr (j, e) ↦
        rw (place, find_by-update_where job_key p f key a.job_id jobs, e)
          (keeps j a e (find_by-key job_key _ _ j e) run (rw e at (h (stops a run))))
  ]
    where
      place : (when q g a).job_id ≡ a.job_id
      place = ground (arith, same_job a)

  pub update-Owned :
      (attempts : List Attempt)
      → All (RunsUnder jobs) attempts
      → All (RunsUnder (update_where p f jobs)) (update_where q g attempts)
  update-Owned attempts = All-update_where _ _ q g RunsUnder-update attempts

-- An update of jobs alone.
module _ (jobs : List Job) (p : Job → Bool) (f : Job → Job)
    (key : (j : Job) → job_key (f j) ≡ job_key j)
    (keeps : (j : Job) (a : Attempt)
      → find_by job_key a.job_id jobs ≡ some j
      → j.id ≡ a.job_id
      → owned_by a (some j) ≡ true
      → owned_by a (some (when p f j)) ≡ true) where
  RunsUnder-jobs : (a : Attempt) → RunsUnder jobs a → RunsUnder (update_where p f jobs) a
  RunsUnder-jobs a h run = elim (Option-cases (find_by job_key a.job_id jobs)) [
    | inl e ↦ absurd (ground (arith, h run))
    | inr (j, e) ↦
        rw (find_by-update_where job_key p f key a.job_id jobs, e)
          (keeps j a e (find_by-key job_key _ _ j e) (rw e at (h run)))
  ]

  jobs-Owned :
      (attempts : List Attempt)
      → All (RunsUnder jobs) attempts
      → All (RunsUnder (update_where p f jobs)) attempts
  jobs-Owned attempts = All-map _ _ RunsUnder-jobs attempts

-- A new job does not hide another.
pub RunsUnder-append :
    (jobs js : List Job) (a : Attempt) → RunsUnder jobs a → RunsUnder (jobs ++ js) a
RunsUnder-append jobs js a h run = elim (Option-cases (find_by job_key a.job_id jobs)) [
  | inl e ↦ absurd (ground (arith, h run))
  | inr (j, e) ↦ rw (find_by-append job_key a.job_id jobs js j e) (rw e at (h run))
]

finish_rows-Owned :
    (env : Env) (a : Attempt) (status : JobStatus) (diagnostic : String) (not_before : ℕ) (db : Db)
    → Owned db
    → Owned (finish_rows env a status diagnostic not_before db)
finish_rows-Owned env a status diagnostic not_before db h =
    update-Owned db.jobs (runs_attempt a.job_id a.id)
      (set_finished env status diagnostic not_before) (running_attempt a.id)
      (close_attempt env.now (attempt_status status) diagnostic) (λ j. refl) (λ r. refl)
      (λ r run. ground arith) (λ j r e k run own. ground arith) db.attempts h

pub finish_attempt-Owned :
    (env : Env) (a : Attempt) (status : JobStatus) (diagnostic : String) (not_before : ℕ) (db : Db)
    → Owned db
    → Owned (finish_attempt env a status diagnostic not_before db).0
unfolding finish_attempt
finish_attempt-Owned env a status diagnostic not_before db h =
    ground (arith, finish_rows-Owned env a status diagnostic not_before db h)

-- An update of one job that does not run.
pub idle-Owned :
    (id : ℕ) (j : Job) (f : Job → Job) (jobs : List Job) (attempts : List Attempt)
    → find_by job_key id jobs ≡ some j
    → is_running j.status ≡ false
    → ((k : Job) → job_key (f k) ≡ job_key k)
    → All (RunsUnder jobs) attempts
    → All (RunsUnder (update_where (job_is id) f jobs)) attempts
idle-Owned id j f jobs attempts found idle key = jobs-Owned jobs (job_is id) f key keep attempts
  where
    keep :
        (k : Job) (r : Attempt)
        → find_by job_key r.job_id jobs ≡ some k
        → k.id ≡ r.job_id
        → owned_by r (some k) ≡ true
        → owned_by r (some (when (job_is id) f k)) ≡ true
    keep k r e same own = elim (Bool-cases (r.job_id == id)) [
      | inl hit ↦ (let q : r.job_id ≡ id = ground arith in absurd (ground (arith, clash q)))
      | inr miss ↦ ground arith
    ]
      where
        clash : r.job_id ≡ id → some k ≡ some j
        clash q = sym e ∙ (rw q found)

start_rows-Owned :
    (env : Env) (j : Job) (a : Attempt) (db : Db)
    → find_by job_key a.job_id db.jobs ≡ some j
    → can_start j.status ≡ true
    → Owned db
    → All
        (RunsUnder (update_where (job_is a.job_id) (set_running env a.job_id a.id) db.jobs))
        (db.attempts ++ (a ∷ []))
start_rows-Owned env j a db found start h =
    All-append _ db.attempts (a ∷ [])
      (idle-Owned a.job_id j set db.jobs db.attempts found (ground arith) (λ k. refl) h)
      (
        (λ run.
            rw
              (
                find_by-update_where job_key (job_is a.job_id) set (λ k. refl) a.job_id db.jobs,
                found,
              )
              (ground (arith, find_by-key job_key a.job_id db.jobs j found))),
        tt,
      )
  where
    set : Job → Job
    set = set_running env a.job_id a.id

exhaust-Owned :
    (env : Env) (j : Job) (db : Db)
    → find_by job_key j.id db.jobs ≡ some j
    → can_start j.status ≡ true
    → Owned db
    → Owned (exhaust env j db)
exhaust-Owned env j db found start =
    idle-Owned j.id j (set_waiting env budget_exhausted) db.jobs db.attempts found (ground arith)
      (λ k. refl)

start_found :
    (env : Env) (job : ℕ) (executor : String) (limit : ℕ) (db : Db) (j : Job)
    → find_by job_key job db.jobs ≡ some j
    → j.id ≡ job
    → Owned db
    → Owned (start_attempt env job executor limit db).0
unfolding start_attempt insert_attempt
start_found env job executor limit db j e same h = ground (
  arith,
  exhaust-Owned env j db,
  start_rows-Owned env j (new_attempt env job executor (attempts_of job db)) db,
)

pub start_attempt-Owned :
    (env : Env) (job : ℕ) (executor : String) (limit : ℕ) (db : Db)
    → Owned db
    → Owned (start_attempt env job executor limit db).0
unfolding start_attempt
start_attempt-Owned env job executor limit db h =
    elim (Option-cases (find_by job_key job db.jobs)) [
      | inl e ↦ ground arith
      | inr (j, e) ↦
          start_found env job executor limit db j e (find_by-key job_key job db.jobs j e) h
    ]
