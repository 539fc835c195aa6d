-- ===== src/Store/Jobs/Recovered.antt =====
-- RecoverInterrupted and CompletePublication keep the running attempts tied to the running jobs.
use mathlib.Core.Option
use agent_chun_su.Base.{
  ℕ, ◌≡◌, refl, Bool, true, List, [], ◌∷◌, Option, none, some, arith, ◌==◌, ◌||◌, not, Bool-cases,
  Option-cases, inl, inr,
}
use agent_chun_su.Table.{find_by, when, All, Keyed}
use agent_chun_su.Table.Laws.{find_by-update_where, All-map}
use agent_chun_su.Store.Status.{JobStatus, is_running}
use agent_chun_su.Store.Model.{Job, Attempt, Db, Env, job_key}
use agent_chun_su.Store.Jobs.Recovery.{
  recover_job, running_job, recover_jobs, recover_interrupted, listing, insert_listed,
}
use agent_chun_su.Store.Jobs.{
  running_attempt, close_attempt, set_waiting, recovery_required, complete_publication,
  set_published,
}
use agent_chun_su.Store.Jobs.Running.{Owned, owned_by, idle-Owned, update-Owned}

-- A job as an earlier query returned it: if it still runs, then under the same attempt.
abbrev seen : Job → Option Job → Bool
seen j none = true
seen j (some r) = not (is_running r.status) || r.current_attempt == j.current_attempt

abbrev Seen : List Job → Job → Type 0
Seen jobs j = seen j (find_by job_key j.id jobs) ≡ true

recover_job-Owned :
    (env : Env) (j : Job) (db : Db) → Seen db.jobs j → Owned db → Owned (recover_job env j db)
unfolding recover_job
recover_job-Owned env j db s =
    update-Owned db.jobs (running_job j.id) (set_waiting env recovery_required)
      (running_attempt j.current_attempt)
      (close_attempt env.now JobStatus.interrupted
        "controller interrupted; inspect evidence before retry")
      (λ k. refl) (λ a. refl) (λ a run. ground arith) keep db.attempts
  where
    keep :
        (k : Job) (a : Attempt)
        → find_by job_key a.job_id db.jobs ≡ some k
        → k.id ≡ a.job_id
        → is_running
            (when
              (running_attempt j.current_attempt)
              (close_attempt env.now JobStatus.interrupted
                "controller interrupted; inspect evidence before retry")
              a).status
          ≡ true
        → owned_by a (some k) ≡ true
        → owned_by
            (when
              (running_attempt j.current_attempt)
              (close_attempt env.now JobStatus.interrupted
                "controller interrupted; inspect evidence before retry")
              a)
            (some (when (running_job j.id) (set_waiting env recovery_required) k))
          ≡ true
    keep k a e same run own = elim (Bool-cases (a.job_id == j.id)) [
      | inl hit ↦
          (let q : a.job_id ≡ j.id = ground arith in
            let s' : seen j (some k) ≡ true = (rw (← q, e) at s) in ground arith)
      | inr miss ↦ ground arith
    ]

Seen-recover_job :
    (env : Env) (k j : Job) (db : Db) → Seen db.jobs j → Seen (recover_job env k db).jobs j
unfolding recover_job
Seen-recover_job env k j db s =
    rw
      (find_by-update_where job_key (running_job k.id) (set_waiting env recovery_required)
        (λ r. refl) j.id db.jobs)
      (lift (find_by job_key j.id db.jobs) s)
  where
    lift :
        (o : Option Job)
        → seen j o ≡ true
        → seen j (Option.map (when (running_job k.id) (set_waiting env recovery_required)) o) ≡ true
    lift none h = refl
    lift (some r) h = ground arith

recover_jobs-Owned :
    (env : Env) (js : List Job) (db : Db)
    → All (Seen db.jobs) js
    → Owned db
    → Owned (recover_jobs env js db).0
unfolding recover_jobs
recover_jobs-Owned env [] db s h = h
recover_jobs-Owned env (j ∷ js) db s h = elim (Bool-cases (is_running j.status)) [
  | inl run ↦ rw run (
      recover_jobs-Owned env js (recover_job env j db)
        (All-map _ _ (λ k. Seen-recover_job env j k db) js s.1) (recover_job-Owned env j db s.0 h))
  | inr idle ↦ rw idle (recover_jobs-Owned env js db s.1 h)
]

All-insert_listed :
    (P : Job → Type 0) (j : Job) (js : List Job) → P j → All P js → All P (insert_listed j js)
unfolding insert_listed
All-insert_listed P j [] p h = (p, h)
All-insert_listed P j (k ∷ ks) p h = ground (arith, All-insert_listed P j ks p h.1)

All-listing : (P : Job → Type 0) (js : List Job) → All P js → All P (listing js)
unfolding listing
All-listing P [] h = tt
All-listing P (j ∷ js) h = All-insert_listed P j (listing js) h.0 (All-listing P js h.1)

pub recover_interrupted-Owned :
    (env : Env) (db : Db) → Keyed job_key db.jobs → Owned db → Owned (recover_interrupted env db).0
unfolding recover_interrupted
recover_interrupted-Owned env db keyed h =
    recover_jobs-Owned env (listing db.jobs) db
      (All-listing _ db.jobs (All-map _ _ (λ j e. rw e (ground arith)) db.jobs keyed)) h

complete_found :
    (env : Env) (job attempt : ℕ) (status : JobStatus) (artifact : ℕ) (db : Db) (j : Job)
    → find_by job_key job db.jobs ≡ some j
    → Owned db
    → Owned (complete_publication env job attempt status artifact db).0
unfolding complete_publication
complete_found env job attempt status artifact db j e h =
    ground (arith, idle-Owned job j (set_published env status) db.jobs db.attempts e)

pub complete_publication-Owned :
    (env : Env) (job attempt : ℕ) (status : JobStatus) (artifact : ℕ) (db : Db)
    → Owned db
    → Owned (complete_publication env job attempt status artifact db).0
unfolding complete_publication
complete_publication-Owned env job attempt status artifact db h =
    elim (Option-cases (find_by job_key job db.jobs)) [
      | inl e ↦ ground arith
      | inr (j, e) ↦ complete_found env job attempt status artifact db j e h
    ]
