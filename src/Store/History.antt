-- ===== src/Store/History.antt =====
-- The queue over time: any sequence of the operations on jobs and attempts, each with a clock and ids
-- of its own.
pub mod Kept
use agent_chun_su.Base.{
  ℕ, ◌≡◌, ◌⊎◌, refl, Bool, true, false, List, [], ◌∷◌, ◌++◌, String, Option, none, some, arith,
  ◌==◌, ◌&&◌, Bool-cases, Option-cases, inl, inr, ◌||◌,
}
use agent_chun_su.Table.{find_by, update_where, exists, All, Keyed}
use agent_chun_su.Table.Laws.{
  find_by-key, find_by-absent, Keyed-update_where, Keyed-append, All-map,
}
use agent_chun_su.Store.Status.{JobStatus, is_running}
use agent_chun_su.Store.Model.{Job, Attempt, Db, Home, Env, Result, ok, err, job_key, File}
use agent_chun_su.Store.Txn.{Result-cases}
use agent_chun_su.Store.Rows.{insert_job, insert_artifact}
use agent_chun_su.Store.Disk.{write_file}
use agent_chun_su.Store.Jobs.Recovery.{recover_interrupted}
use agent_chun_su.Store.Jobs.{
  submit, start_attempt, finish_attempt, complete_publication, job_is, with_file,
}
use agent_chun_su.Store.Workflow.Control.{cancel, set_cancelled, attempt_of_job, end_cancelled}
use agent_chun_su.Store.Resume.{Codec, resume}
use agent_chun_su.Store.Resume.Replies.{resume-Owned}

-- One operation on the queue.
pub data JobCall : Type 0 where
  submits : String → List ℕ → Option String → ℕ → JobCall
  starts : ℕ → String → ℕ → JobCall
  finishes : Attempt → JobStatus → String → ℕ → JobCall
  cancels : ℕ → JobCall
  publishes : ℕ → ℕ → JobStatus → ℕ → JobCall
  resumes : ℕ → String → JobCall
  recovers : JobCall

abbrev with_db : Home → Db → Home
with_db h db = record h { db = db }

unfoldable pub run_call : Codec → Env → JobCall → Home → Home
run_call c env (submits group input request limit) h = (submit env group input request limit h).0
run_call c env (starts job executor limit) h =
    with_db h (start_attempt env job executor limit h.db).0
run_call c env (finishes a status diagnostic not_before) h =
    with_db h (finish_attempt env a status diagnostic not_before h.db).0
run_call c env (cancels job) h = with_db h (cancel env job h.db).0
run_call c env (publishes job attempt status artifact) h =
    with_db h (complete_publication env job attempt status artifact h.db).0
run_call c env (resumes job answer) h = with_db h (resume env c job answer h.db).0
run_call c env recovers h = with_db h (recover_interrupted env h.db).0

unfoldable pub run_calls : Codec → List (Env × JobCall) → Home → Home
unfolding run_call
run_calls c [] h = h
run_calls c ((env, call) ∷ calls) h = run_calls c calls (run_call c env call h)
