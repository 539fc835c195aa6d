-- ===== src/Schedule.antt =====
-- The recurring collections of internal/store/schedule.go and their occurrences.
pub mod Retries
pub mod Intervals
pub mod Manager
pub mod Occurrences
use Prim.Native.String.{◌++◌ as str_append}
use agent_chun_su.Base.{
  ℕ, suc, ◌+◌, ◌-◌, ◌*◌, ◌/◌, Bool, true, false, List, [], ◌∷◌, ◌++◌, String, none, some, ◌==◌,
  ◌&&◌, ◌||◌, ltb, str_eq, not, if◌then◌else◌,
}
use agent_chun_su.Table.{find_by, count_where, exists, update_where}
use agent_chun_su.Store.Status.{JobStatus}
use agent_chun_su.Store.Model.{
  Job, Db, Env, Error, Result, ok, err, no_rows, constraint, message, job_key,
}
use agent_chun_su.Store.Txn.{◌>>=◌, ◌>>◌, refuse_if, or_fail}

pub data TickStatus : Type 0 where
  pending retry_wait waiting_auth blocked linked done skipped : TickStatus

pub record Schedule : Type 0 where
  pub id : ℕ
  pub connection_id : ℕ
  pub name : String
  pub interval_ms : ℕ
  pub timezone : String
  pub next_run_at : ℕ
  pub enabled : Bool
  pub last_tick_id : ℕ
  pub created_at : ℕ
  pub updated_at : ℕ

pub record Tick : Type 0 where
  pub id : ℕ
  pub schedule_id : ℕ
  pub scheduled_for : ℕ
  pub triggered_at : ℕ
  pub missed_intervals : ℕ
  pub acquisition_id : ℕ
  pub continue_id : ℕ
  pub job_id : ℕ
  pub status : TickStatus
  pub not_before : ℕ
  pub diagnostic : String
  pub collection_attempts : ℕ

-- The tables `schedules` and `schedule_ticks`.
pub record Agenda : Type 0 where
  pub schedules : List Schedule
  pub ticks : List Tick

abbrev pub schedule_key : Schedule → ℕ
schedule_key s = s.id

abbrev pub tick_key : Tick → ℕ
tick_key t = t.id

abbrev schedule_is : ℕ → Schedule → Bool
schedule_is id r = r.id == id

-- `status == "done" || status == "skipped"`.
abbrev pub is_over : TickStatus → Bool
is_over TickStatus.done = true
is_over TickStatus.skipped = true
is_over _ = false

abbrev pub exec {ℓ} : {A : Type ℓ} → Agenda → Result (Agenda × A) → Agenda × Result A
exec g (ok (g', a)) = (g', ok a)
exec g (err e) = (g, err e)

insert_schedule : Schedule → Agenda → Result Agenda
insert_schedule s g =
    if exists (schedule_is s.id) g.schedules
    then err constraint
    else ok (record g { schedules = g.schedules ++ (s ∷ []) })

insert_tick : Tick → Agenda → Result Agenda
insert_tick t g =
    if exists
      (λ r. r.id == t.id || (r.schedule_id == t.schedule_id && r.scheduled_for == t.scheduled_for))
      g.ticks
    then err constraint
    else ok (record g { ticks = g.ticks ++ (t ∷ []) })

abbrev new_schedule : Env → ℕ → ℕ → String → String → ℕ → Schedule
new_schedule env clock connection name zone interval = record {
  id = env.fresh 0;
  connection_id = connection;
  name = name;
  interval_ms = interval / 1000000;
  timezone = zone;
  next_run_at = (clock + interval) / 1000000;
  enabled = false;
  last_tick_id = 0;
  created_at = env.now;
  updated_at = env.now;
}

-- `zone_ok` is time.LoadLocation's answer; `clock` and `interval` are in nanoseconds, as time.Now()
-- and a time.Duration are.
add_schedule_txn :
    Env → ℕ → (String → Bool) → ℕ → String → String → ℕ → Agenda → Result (Agenda × Schedule)
unfolding insert_schedule
add_schedule_txn env clock zone_ok connection name zone interval g = do
  refuse_if (connection == 0 || (str_eq name "" || ltb interval 1000000000))
      (message "schedule needs a connection, name and interval of at least one second")
  refuse_if (not (zone_ok zone)) (message "unknown time zone")
  let s = new_schedule env clock connection name zone interval
  g' ← insert_schedule s g
  ok (g', s)

unfoldable add_schedule :
    Env → ℕ → (String → Bool) → ℕ → String → String → ℕ → Agenda → Agenda × Result Schedule
unfolding add_schedule_txn
add_schedule env clock zone_ok connection name zone interval g =
    exec g (add_schedule_txn env clock zone_ok connection name zone interval g)

-- The statement is no transaction: it takes effect also where the row is missing.
unfoldable enable_schedule : Env → ℕ → Bool → Agenda → Agenda × Result (Unit {0})
enable_schedule env id enabled g = (
  record g {
    schedules =
        update_where (λ r. r.id == id) (λ r. record r { enabled = enabled; updated_at = env.now })
          g.schedules;
  },
  if count_where (λ (r : Schedule). r.id == id) g.schedules == 1
      then ok tt
      else err (message "schedule does not exist"),
)

-- NextInterval: the next time to run, and the number of whole intervals that were missed.
unfoldable pub next_interval : Schedule → ℕ → ℕ × ℕ
next_interval s at =
    if ltb at s.next_run_at
    then (s.next_run_at, 0)
    else (s.next_run_at + steps * s.interval_ms, steps - 1)
  where
    steps : ℕ
    steps = (at - s.next_run_at) / s.interval_ms + 1

-- The check of the last occurrence.
previous_over : Schedule → Agenda → Result (Unit {0})
previous_over s g =
    if s.last_tick_id == 0
    then ok tt
    else (or_fail (find_by tick_key s.last_tick_id g.ticks) no_rows >>= λ (t : Tick).
        refuse_if (not (is_over t.status))
          (message "previous schedule occurrence still requires completion or intervention"))

abbrev pub new_tick : Env → Schedule → ℕ → Tick
new_tick env s continuation = record {
  id = env.fresh 0;
  schedule_id = s.id;
  scheduled_for = s.next_run_at;
  triggered_at = env.now;
  missed_intervals = (next_interval s env.now).1;
  acquisition_id = env.fresh 1;
  continue_id = continuation;
  job_id = 0;
  status = TickStatus.pending;
  not_before = 0;
  diagnostic = "";
  collection_attempts = 0;
}

abbrev advance : Env → Schedule → ℕ → Schedule → Schedule
advance env s tick r = record r {
  next_run_at = (next_interval s env.now).0;
  last_tick_id = tick;
  updated_at = env.now;
}

-- The two statements of BeginTick.
tick_rows : Env → Schedule → ℕ → Agenda → Result (Agenda × Tick)
unfolding insert_tick
tick_rows env s continuation g = do
  let t = new_tick env s continuation
  g' ← insert_tick t g
  ok (
    record g' { schedules = update_where (schedule_is s.id) (advance env s t.id) g'.schedules },
    t,
  )

begin_tick_txn : Env → ℕ → ℕ → Agenda → Result (Agenda × Tick)
unfolding previous_over tick_rows
begin_tick_txn env id continuation g = do
  s ← or_fail (find_by schedule_key id g.schedules) no_rows
  refuse_if (not s.enabled || ltb env.now s.next_run_at) (message "schedule is not due")
  previous_over s g
  tick_rows env s continuation g

unfoldable pub begin_tick : Env → ℕ → ℕ → Agenda → Agenda × Result Tick
unfolding begin_tick_txn
begin_tick env id continuation g = exec g (begin_tick_txn env id continuation g)

unfoldable pub save_tick : Tick → Agenda → Agenda
save_tick t g = record g {
  ticks =
      update_where (λ r. r.id == t.id)
        (λ r. record r {
          acquisition_id = t.acquisition_id;
          job_id = t.job_id;
          status = t.status;
          not_before = t.not_before;
          diagnostic = t.diagnostic;
          collection_attempts = t.collection_attempts;
        })
        g.ticks;
}
