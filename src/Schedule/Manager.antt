-- ===== src/Schedule/Manager.antt =====
-- Manager.Step of internal/schedule/schedule.go: one round over the schedules, which admits at most
-- one collection. The collectors of internal/gmail and internal/jira are an interface: they keep their
-- acquisitions and queue jobs, and do not write schedules or occurrences.
pub mod Round
pub mod Attempts
pub mod Budget
use agent_chun_su.Base.{
  ℕ, suc, ◌+◌, Bool, true, false, List, [], ◌∷◌, String, Option, none, some, ◌==◌, ◌&&◌, ◌||◌, ltb,
  leb, str_eq, not, if◌then◌else◌,
}
use agent_chun_su.Table.{find_by}
use agent_chun_su.Store.Status.{JobStatus}
use agent_chun_su.Store.Model.{Job, Db, Env, Error, Result, ok, err, no_rows, message, job_key}
use agent_chun_su.Store.Txn.{◌>>=◌, or_fail}
use agent_chun_su.Store.Queries.{sort_by}
use agent_chun_su.Store.Settings.{Setting, queue_paused}
use agent_chun_su.Schedule.{
  TickStatus, Schedule, Tick, Agenda, tick_key, is_over, begin_tick, save_tick,
}

-- The fields of an acquisition that the manager reads.
pub record Acquisition : Type 0 where
  pub id : ℕ
  pub status : String
  pub not_before : ℕ

-- What the collectors work on.
pub record Holdings : Type 0 where
  pub db : Db
  pub acquisitions : List Acquisition

pub record World : Type 0 where
  pub agenda : Agenda
  pub settings : List Setting
  pub holdings : Holdings

-- What a collection leaves: the acquisition, why Jira's stopped_tick, and the text of the error, if any.
pub record Collected : Type 0 where
  pub acquisition : Acquisition
  pub stop_reason : String
  pub failure : Option String

-- gmail.LoadConnection and jira.LoadProfile, with the time zone they give; Collector.HasContinuation,
-- Collect, CollectLive, ResumeLive and Queue.
pub record Collectors : Type 0 where
  pub is_jira : ℕ → Bool
  pub mail_zone : ℕ → Option String
  pub jira_zone : ℕ → Option String
  pub has_continuation : ℕ → Holdings → Result Bool
  pub collect_mail : Tick → Holdings → Holdings × Collected
  pub collect_live : Tick → Holdings → Holdings × Collected
  pub resume_live : Tick → Holdings → Holdings × Collected
  pub queue : Bool → ℕ → Holdings → Holdings × Result Job

-- The collectors and the configured limit of attempts.
pub record Manager : Type 0 where
  pub collectors : Collectors
  pub max_attempts : ℕ

abbrev pub StepOutcome : Type 0
StepOutcome = World × Result (Option Tick)

abbrev pub acquisition_key : Acquisition → ℕ
acquisition_key a = a.id

-- `persist`.
abbrev pub persist : Tick → World → StepOutcome
persist t w = (record w { agenda = save_tick t w.agenda }, ok (some t))

abbrev pub stopped_tick : TickStatus → String → Tick → Tick
stopped_tick status diagnostic t = record t { status = status; diagnostic = diagnostic }

abbrev pub linked_tick : ℕ → Job → Tick → Tick
linked_tick acquisition j t = record t {
  acquisition_id = acquisition;
  job_id = j.id;
  status = TickStatus.linked;
  diagnostic = "";
  not_before = 0;
}

abbrev pub error_text : Error → String
error_text (message s) = s
error_text _ = "database error"

-- The end of collect and of collectJira: the collected acquisition is queued as a job.
unfoldable pub queue_result : ℕ → Tick → World → Holdings × Result Job → StepOutcome
queue_result a t w (holdings, ok j) = persist (linked_tick a j t) (record w { holdings = holdings })
queue_result a t w (holdings, err e) =
    persist (stopped_tick TickStatus.blocked (error_text e) (record t { acquisition_id = a }))
      (record w { holdings = holdings })

unfoldable pub queue_tick : Manager → Bool → ℕ → Tick → World → StepOutcome
unfolding queue_result
queue_tick m jira a t w = queue_result a t w (m.collectors.queue jira a w.holdings)

abbrev pub exhausted : Tick → Tick
exhausted t =
    stopped_tick TickStatus.blocked
      "collection attempt budget exhausted; review the limit or explicitly skip this occurrence" t

-- `a.Status != "collected" && a.Status != "partial"`, for an acquisition that is there.
abbrev pub is_collected : Acquisition → Bool
is_collected a = str_eq a.status "collected" || str_eq a.status "partial"

-- Where a collection by mail failed.
unfoldable pub mail_failure : ℕ → Acquisition → Tick → TickStatus
mail_failure max_attempts a t =
    if str_eq a.status "waiting_auth"
    then TickStatus.waiting_auth
    else (if str_eq a.status "retry_wait" && ltb t.collection_attempts max_attempts
        then TickStatus.retry_wait
        else TickStatus.blocked)

unfoldable pub jira_failure : Collected → TickStatus
jira_failure c =
    if str_eq c.acquisition.status "waiting_input" || str_eq c.stop_reason "waiting_auth"
    then TickStatus.waiting_auth
    else (if str_eq c.acquisition.status "retry_wait" || str_eq c.stop_reason "retry_wait"
        then TickStatus.retry_wait
        else TickStatus.blocked)

abbrev pub failed_tick : TickStatus → ℕ → String → Tick → Tick
failed_tick status not_before text t = record t {
  status = status;
  not_before = not_before;
  diagnostic = text;
}

-- What follows a collection.
unfoldable pub after_collection :
    Manager → Bool → (Collected → TickStatus) → Tick → World → Collected → StepOutcome
unfolding queue_tick
after_collection m jira status t w c = elim c.failure [
  | none ↦ queue_tick m jira c.acquisition.id t w
  | some text ↦ persist (failed_tick (status c) c.acquisition.not_before text t) w
]

abbrev pub one_more : Tick → Tick
one_more t = record t { collection_attempts = suc t.collection_attempts }

abbrev pub collected_with :
    Manager → Bool → (Collected → TickStatus) → Tick → World → Holdings × Collected → StepOutcome
collected_with m jira status t w r =
    after_collection m jira status t (record w { holdings = r.0 }) r.1

-- One more attempt, which is saved before the collector runs.
unfoldable pub collection_attempt :
    Manager
    → Bool
    → (Collected → TickStatus)
    → (Tick → Holdings → Holdings × Collected)
    → Tick
    → World
    → StepOutcome
unfolding after_collection save_tick
collection_attempt m jira status run t w =
    if leb m.max_attempts t.collection_attempts
    then persist (exhausted t) w
    else collected_with m jira status (one_more t)
        (record w { agenda = save_tick (one_more t) w.agenda }) (run (one_more t) w.holdings)

abbrev pub mail_status : Manager → Tick → Collected → TickStatus
mail_status m t c = mail_failure m.max_attempts c.acquisition (one_more t)

abbrev pub mail_unavailable : Tick → Tick
mail_unavailable t =
    stopped_tick TickStatus.waiting_auth
      "connection unavailable; repair it and explicitly retry this occurrence" t

abbrev pub mail_rezoned : Tick → Tick
mail_rezoned t =
    stopped_tick TickStatus.blocked "connection timezone changed; review and replace the schedule" t

unfoldable pub collect_from_mail : Manager → Schedule → Tick → World → StepOutcome
unfolding collection_attempt queue_tick mail_failure
collect_from_mail m s t w = elim (m.collectors.mail_zone s.connection_id) [
  | none ↦ persist (mail_unavailable t) w
  | some zone ↦
      if not (str_eq zone s.timezone)
      then persist (mail_rezoned t) w
      else (elim (find_by acquisition_key t.acquisition_id w.holdings.acquisitions) [
        | none ↦ collection_attempt m false (mail_status m t) m.collectors.collect_mail t w
        | some a ↦
            if is_collected a
            then queue_tick m false a.id t w
            else collection_attempt m false (mail_status m t) m.collectors.collect_mail t w
      ])
]

abbrev pub jira_unavailable : Tick → Tick
jira_unavailable t =
    stopped_tick TickStatus.waiting_auth
      "Jira profile is unavailable; repair it and explicitly retry this occurrence" t

abbrev pub jira_rezoned : Tick → Tick
jira_rezoned t =
    stopped_tick TickStatus.blocked "Jira profile timezone changed; review and replace the schedule"
      t

unfoldable pub collect_from_jira : Manager → Schedule → Tick → World → StepOutcome
unfolding collection_attempt queue_tick jira_failure
collect_from_jira m s t w = elim (m.collectors.jira_zone s.connection_id) [
  | none ↦ persist (jira_unavailable t) w
  | some zone ↦
      if not (str_eq zone s.timezone)
      then persist (jira_rezoned t) w
      else (elim (find_by acquisition_key t.acquisition_id w.holdings.acquisitions) [
        | none ↦ collection_attempt m true jira_failure m.collectors.collect_live t w
        | some a ↦
            if is_collected a
            then queue_tick m true a.id t w
            else collection_attempt m true jira_failure m.collectors.resume_live t w
      ])
]

-- Manager.collect.
unfoldable pub collect : Manager → Schedule → Tick → World → StepOutcome
unfolding collect_from_mail collect_from_jira
collect m s t w =
    if m.collectors.is_jira s.connection_id
    then collect_from_jira m s t w
    else collect_from_mail m s t w
