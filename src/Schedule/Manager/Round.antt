-- ===== src/Schedule/Manager/Round.antt =====
-- Manager.Step of internal/schedule/schedule.go: the loop over the schedules.
use agent_chun_su.Base.{
  ℕ, Bool, true, false, List, [], ◌∷◌, Option, none, some, ◌==◌, ◌&&◌, ◌||◌, ltb, leb, not,
  if◌then◌else◌,
}
use agent_chun_su.Table.{find_by}
use agent_chun_su.Store.Status.{JobStatus}
use agent_chun_su.Store.Model.{Job, Env, Result, ok, err, no_rows, job_key}
use agent_chun_su.Store.Queries.{sort_by}
use agent_chun_su.Store.Settings.{queue_paused}
use agent_chun_su.Schedule.{
  TickStatus, Schedule, Tick, Agenda, tick_key, is_over, begin_tick, save_tick,
}
use agent_chun_su.Schedule.Manager.{World, Manager, StepOutcome, collect}

-- The loop goes on with the next schedule, or returns.
pub data Visit : Type 0 where
  next : World → Visit
  return : StepOutcome → Visit

-- The status of the occurrence whose job is in a state.
unfoldable pub job_outcome : JobStatus → TickStatus
job_outcome JobStatus.completed = TickStatus.done
job_outcome JobStatus.partial = TickStatus.done
job_outcome JobStatus.queued = TickStatus.linked
job_outcome JobStatus.running = TickStatus.linked
job_outcome JobStatus.retry_wait = TickStatus.linked
job_outcome _ = TickStatus.blocked

abbrev pub with_agenda : World → Agenda → World
with_agenda w g = record w { agenda = g }

abbrev pub settled : Job → Tick → Tick
settled j t = record t { status = job_outcome j.status; diagnostic = j.diagnostic }

-- `status == Pending || status == RetryWait`.
abbrev pub is_waiting : TickStatus → Bool
is_waiting TickStatus.pending = true
is_waiting TickStatus.retry_wait = true
is_waiting _ = false

abbrev pub may_collect : Env → Tick → Bool
may_collect env t = t.job_id == 0 && is_waiting t.status && leb t.not_before env.now

-- The last occurrence, with what became of its job.
unfoldable pub settle_tick : Tick → World → Result (World × Tick)
unfolding job_outcome save_tick
settle_tick t w =
    if t.job_id == 0 || is_over t.status
    then ok (w, t)
    else (elim (find_by job_key t.job_id w.holdings.db.jobs) [
      | none ↦ err no_rows
      | some j ↦ ok (with_agenda w (save_tick (settled j t) w.agenda), settled j t)
    ])

abbrev pub is_done : TickStatus → Bool
is_done TickStatus.done = true
is_done _ = false

-- The acquisition that the new occurrence continues; 0 for none.
unfoldable pub continuation : Manager → Schedule → Option Tick → World → Result ℕ
continuation m s none w = ok 0
continuation m s (some t) w =
    if is_done t.status
      && not (t.acquisition_id == 0)
      && not (t.job_id == 0)
      && not (m.collectors.is_jira s.connection_id)
    then (elim (m.collectors.has_continuation t.acquisition_id w.holdings) [
      | ok more ↦ ok (if more then t.acquisition_id else 0)
      | err e ↦ err e
    ])
    else ok 0

abbrev pub begun : Manager → Schedule → World → Agenda × Result Tick → StepOutcome
begun m s w (g, ok t) = collect m s t (with_agenda w g)
begun m s w (g, err e) = (with_agenda w g, err e)

-- A schedule whose last occurrence is over, if it had one.
unfoldable pub begin : Env → Manager → Schedule → Option Tick → World → Visit
unfolding continuation begin_tick collect
begin env m s previous w =
    if ltb env.now s.next_run_at then next w else (elim (continuation m s previous w) [
      | err e ↦ return (w, err e)
      | ok c ↦ return (begun m s w (begin_tick env s.id c w.agenda))
    ])

unfoldable pub after_settling : Env → Manager → Schedule → World → Tick → Visit
unfolding begin collect
after_settling env m s w t =
    if is_over t.status
    then begin env m s (some t) w
    else (if may_collect env t then return (collect m s t w) else next w)

unfoldable pub visit : Env → Manager → Schedule → World → Visit
unfolding begin settle_tick after_settling
visit env m s w =
    if not s.enabled
    then next w
    else (if s.last_tick_id == 0
        then begin env m s none w
        else (elim (find_by tick_key s.last_tick_id w.agenda.ticks) [
          | none ↦ return (w, err no_rows)
          | some t ↦ (elim (settle_tick t w) [
            | err e ↦ return (w, err e)
            | ok (w', t') ↦ after_settling env m s w' t'
          ])
        ]))

abbrev pub go_on_with : (World → StepOutcome) → Visit → StepOutcome
go_on_with rest (next w) = rest w
go_on_with rest (return r) = r

unfoldable pub rounds : Env → Manager → List Schedule → World → StepOutcome
unfolding visit
rounds env m [] w = (w, ok none)
rounds env m (s ∷ ss) w = go_on_with (rounds env m ss) (visit env m s w)

-- `ORDER BY created_at,id`.
abbrev pub schedule_before : Schedule → Schedule → Bool
schedule_before a b =
    ltb a.created_at b.created_at || (a.created_at == b.created_at && leb a.id b.id)

unfoldable pub manager_step : Env → Manager → World → StepOutcome
unfolding rounds queue_paused sort_by
manager_step env m w = elim (queue_paused w.settings) [
  | err e ↦ (w, err e)
  | ok paused ↦
      if paused then (w, ok none) else rounds env m (sort_by schedule_before w.agenda.schedules) w
]
