-- ===== src/Schedule/Retries.antt =====
-- The owner's decisions of internal/schedule/schedule.go on an occurrence that did not finish.
use Prim.Native.String.{◌++◌ as str_append}
use agent_chun_su.Base.{ℕ, Bool, true, false, String, ◌==◌, ◌||◌, ltb, str_eq, not, if◌then◌else◌}
use agent_chun_su.Table.{find_by}
use agent_chun_su.Store.Status.{JobStatus}
use agent_chun_su.Store.Model.{Job, Db, Env, Result, ok, no_rows, message, job_key}
use agent_chun_su.Store.Txn.{◌>>=◌, ◌>>◌, refuse_if, or_fail}
use agent_chun_su.Schedule.{Agenda, Tick, TickStatus, exec, is_over, save_tick, tick_key}

-- Manager.Retry: the states that an owner may retry.
abbrev can_retry_tick : TickStatus → Bool
can_retry_tick TickStatus.blocked = true
can_retry_tick TickStatus.waiting_auth = true
can_retry_tick TickStatus.retry_wait = true
can_retry_tick _ = false

unfoldable retry_tick : Env → ℕ → Agenda → Agenda × Result Tick
unfolding save_tick
retry_tick env id g = exec g do
  t ← or_fail (find_by tick_key id g.ticks) no_rows
  refuse_if (not (t.job_id == 0))
      (message "this occurrence has a job; resolve or retry that job instead")
  refuse_if (not (can_retry_tick t.status)) (message "occurrence is not blocked")
  refuse_if (ltb env.now t.not_before) (message "provider retry is not yet eligible")
  let t' = record t { status = TickStatus.pending; diagnostic = "human requested collection retry" }
  ok (save_tick t' g, t')

-- The jobs that Acknowledge leaves alone.
abbrev is_active : JobStatus → Bool
is_active JobStatus.queued = true
is_active JobStatus.running = true
is_active JobStatus.retry_wait = true
is_active _ = false

linked_over : Tick → Db → Result (Unit {0})
linked_over t db =
    if t.job_id == 0
    then ok tt
    else (or_fail (find_by job_key t.job_id db.jobs) no_rows >>= λ (j : Job).
        refuse_if (is_active j.status) (message "cancel or finish the linked job first"))

-- Manager.Acknowledge.
unfoldable acknowledge_tick : ℕ → String → Db → Agenda → Agenda × Result Tick
unfolding linked_over save_tick
acknowledge_tick id reason db g = exec g do
  t ← or_fail (find_by tick_key id g.ticks) no_rows
  refuse_if (str_eq reason "" || is_over t.status)
      (message "an unfinished occurrence and explicit reason are required")
  linked_over t db
  let t' = record t {
    status = TickStatus.skipped;
    diagnostic = str_append "human acknowledged incomplete occurrence: " reason;
  }
  ok (save_tick t' g, t')
