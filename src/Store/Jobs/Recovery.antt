-- ===== src/Store/Jobs/Recovery.antt =====
-- RecoverInterrupted of internal/store/lifecycle.go, and Jobs of store.go, whose order it takes.
use agent_chun_su.Base.{ℕ, ◌+◌, Bool, List, [], ◌∷◌, ◌==◌, ◌&&◌, ◌||◌, ltb, leb, if◌then◌else◌}
use agent_chun_su.Table.{update_where}
use agent_chun_su.Store.Status.{JobStatus, is_running}
use agent_chun_su.Store.Model.{Job, Db, Env, no_data}
use agent_chun_su.Store.Rows.{add_event}
use agent_chun_su.Store.Jobs.{close_attempt, recovery_required, running_attempt, set_waiting}

abbrev pub running_job : ℕ → Job → Bool
running_job id r = r.id == id && is_running r.status

-- The transaction of RecoverInterrupted for one job of the listing.
unfoldable pub recover_job : Env → Job → Db → Db
recover_job env j db =
    add_event env.now j.id j.current_attempt "attempt.interrupted" no_data (record db {
      attempts =
          update_where (running_attempt j.current_attempt)
            (close_attempt env.now JobStatus.interrupted
              "controller interrupted; inspect evidence before retry")
            db.attempts;
      jobs = update_where (running_job j.id) (set_waiting env recovery_required) db.jobs;
    })

unfoldable pub recover_jobs : Env → List Job → Db → Db × ℕ
unfolding recover_job
recover_jobs env [] db = (db, 0)
recover_jobs env (j ∷ js) db =
    let (db', n) = recover_jobs env js (if is_running j.status then recover_job env j db else db) in
    (db', (if is_running j.status then 1 else 0) + n)

-- `ORDER BY created_at DESC, id`.
listed_before : Job → Job → Bool
listed_before a b = ltb b.created_at a.created_at || (a.created_at == b.created_at && leb a.id b.id)

unfoldable pub insert_listed : Job → List Job → List Job
unfolding listed_before
insert_listed j [] = j ∷ []
insert_listed j (k ∷ ks) =
    let rest = insert_listed j ks in if listed_before j k then j ∷ k ∷ ks else k ∷ rest

unfoldable pub listing : List Job → List Job
unfolding insert_listed
listing [] = []
listing (j ∷ js) = insert_listed j (listing js)

unfoldable pub recover_interrupted : Env → Db → Db × ℕ
unfolding recover_jobs listing
recover_interrupted env db = recover_jobs env (listing db.jobs) db
