-- ===== src/Store/History/Kept.antt =====
-- What every history of the queue keeps.
use agent_chun_su.Base.{◌≡◌, ◌⊎◌, true, false, List, [], ◌∷◌, Bool-cases, inl, inr, arith}
use agent_chun_su.Table.{find_by, All, Keyed}
use agent_chun_su.Table.Laws.{All-map}
use agent_chun_su.Store.Status.{is_running}
use agent_chun_su.Store.Model.{Attempt, Db, Home, Env, job_key}
use agent_chun_su.Store.Jobs.Running.{
  owned_by, Owned, RunsUnder, start_attempt-Owned, finish_attempt-Owned,
}
use agent_chun_su.Store.Jobs.Recovered.{recover_interrupted-Owned, complete_publication-Owned}
use agent_chun_su.Store.Jobs.Keys.{
  Kept, submit-keeps, start_attempt-Keyed, finish_attempt-Keyed, recover_interrupted-Keyed,
  complete_publication-Keyed,
}
use agent_chun_su.Store.Workflow.Control.Owned.{cancel-Owned, cancel-Kept}
use agent_chun_su.Store.Resume.{Codec}
use agent_chun_su.Store.Resume.Replies.{resume-Owned, resume-Kept}
use agent_chun_su.Store.History.{
  JobCall, submits, starts, finishes, cancels, publishes, resumes, recovers, run_call, run_calls,
}

-- No attempt runs, unless its job runs with this attempt as its current one.
abbrev IsTied : Db → Attempt → Type 0
IsTied db a = (is_running a.status ≡ false) ⊎ (owned_by a (find_by job_key a.job_id db.jobs) ≡ true)

abbrev pub Tied : Db → Type 0
Tied db = Keyed job_key db.jobs × All (IsTied db) db.attempts

run_call-keeps :
    (c : Codec) (env : Env) (call : JobCall) (h : Home)
    → Kept h.db
    → Owned h.db
    → Kept (run_call c env call h).db × Owned (run_call c env call h).db
unfolding run_call
run_call-keeps c env (submits group input request limit) h k o =
    submit-keeps env group input request limit h k o
run_call-keeps c env (starts job executor limit) h k o = (
  start_attempt-Keyed env job executor limit h.db k,
  start_attempt-Owned env job executor limit h.db o,
)
run_call-keeps c env (finishes a status diagnostic not_before) h k o = (
  finish_attempt-Keyed env a status diagnostic not_before h.db k,
  finish_attempt-Owned env a status diagnostic not_before h.db o,
)
run_call-keeps c env (cancels job) h k o = (cancel-Kept env job h.db k, cancel-Owned env job h.db o)
run_call-keeps c env (publishes job attempt status artifact) h k o = (
  complete_publication-Keyed env job attempt status artifact h.db k,
  complete_publication-Owned env job attempt status artifact h.db o,
)
run_call-keeps c env (resumes job answer) h k o =
    (resume-Kept env c job answer h.db k, resume-Owned env c job answer h.db o)
run_call-keeps c env recovers h k o =
    (recover_interrupted-Keyed env h.db k, recover_interrupted-Owned env h.db k o)

run_calls-keeps :
    (c : Codec) (calls : List (Env × JobCall)) (h : Home)
    → Kept h.db
    → Owned h.db
    → Kept (run_calls c calls h).db × Owned (run_calls c calls h).db
unfolding run_calls
run_calls-keeps c [] h k o = (k, o)
run_calls-keeps c ((env, call) ∷ calls) h k o =
    let first = run_call-keeps c env call h k o in
    run_calls-keeps c calls (run_call c env call h) first.0 first.1

RunsUnder-IsTied : (db : Db) (a : Attempt) → IsTied db a → RunsUnder db.jobs a
RunsUnder-IsTied db a (inl stopped) run = absurd (ground arith)
RunsUnder-IsTied db a (inr own) run = own

IsTied-RunsUnder : (db : Db) (a : Attempt) → RunsUnder db.jobs a → IsTied db a
IsTied-RunsUnder db a h = elim (Bool-cases (is_running a.status)) [
  | inl run ↦ inr (h run)
  | inr stopped ↦ inl stopped
]

-- Whatever sequence of submissions, starts, finishes, cancellations, recoveries of a publication,
-- resumptions and recoveries runs, at whatever times: the ids of the jobs stay apart, and each
-- attempt that runs is the current attempt of a job that runs.
pub run_calls-Tied :
    (c : Codec) (calls : List (Env × JobCall)) (h : Home)
    → Tied h.db
    → Tied (run_calls c calls h).db
run_calls-Tied c calls h t =
    let after =
      run_calls-keeps c calls h t.0 (All-map _ _ (RunsUnder-IsTied h.db) h.db.attempts t.1) in
    (
      after.0,
      All-map _ _ (IsTied-RunsUnder (run_calls c calls h).db) (run_calls c calls h).db.attempts
          after.1,
    )
