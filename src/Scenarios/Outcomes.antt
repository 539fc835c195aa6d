-- ===== src/Scenarios/Outcomes.antt =====
-- The results of the job and their delivery, the queue of jobs, and a schedule.
use agent_chun_su.Store.Disk.{read_artifact, write_file}
use agent_chun_su.Store.Rows.{insert_artifact, insert_job}
use agent_chun_su.Base.{inr, ◌+◌, ◌*◌, ◌≡◌, ◌≤◌, ◌<◌, refl, true, false, List, [], ◌∷◌, some, arith}
use agent_chun_su.Table.{find_by, find_where, exists}
use agent_chun_su.Table.Laws.{Along}
use agent_chun_su.Store.Status.{JobStatus, StepState, Delivery}
use agent_chun_su.Store.Model.{ResultEvent, Db, Home, Env, ok}
use agent_chun_su.Store.Disk.{read_artifact}
use agent_chun_su.Store.Settings.{
  Setting, set_queue_paused, queue_paused, queue_paused-set_queue_paused,
}
use agent_chun_su.Store.Jobs.{submit, new_job}
use agent_chun_su.Store.Jobs.Submitted.{Submitted, submit-Submitted}
use agent_chun_su.Store.Workflow.Control.{supersede_job_revision}
use agent_chun_su.Store.Results.Events.{ResultEventInput, publish_result_event}
use agent_chun_su.Store.Results.Transitions.{Moves, marks, call, call-Moves}
use agent_chun_su.Store.Results.Completion.{Finishes, call-Finishes}
use agent_chun_su.Store.Resume.{Codec, end, object}
use agent_chun_su.Store.History.{JobCall, submits, starts, recovers, run_calls}
use agent_chun_su.Store.History.Kept.{Tied, run_calls-Tied}
use agent_chun_su.Schedule.{
  Tick, Schedule, TickStatus, Agenda, begin_tick, new_tick, schedule_key, tick_key,
}
use agent_chun_su.Schedule.Occurrences.{save_ticks, begin_tick-once, begin_tick-grid}
use agent_chun_su.Scenarios.{
  clock, job, step_attempt, attempt, event, staged_db, first_step, second_step, output_of,
  output_file,
}

-- Both steps are completed, the first with the output 31.
abbrev done_db : List ResultEvent → Db
done_db results =
    staged_db (first_step StepState.completed 40 31 ∷ second_step StepState.completed 41 32 ∷ [])
      (step_attempt 40 11 StepState.completed ∷ step_attempt 41 12 StepState.completed ∷ [])
      (output_of 31 1 40 ∷ output_of 32 1 41 ∷ []) results

abbrev input : ResultEventInput
input = record {
  job_id = 1;
  step_id = 11;
  artifact_id = 31;
  summary = "done";
  source_references = "";
  gaps = "";
  status = "ready";
  required_decision = "";
}

abbrev published : Db
published = (publish_result_event (clock 5 90) (output_file ∷ []) input (done_db [])).0

-- As the first call returns it, with the empty texts of the input.
abbrev returned : ResultEvent
returned = record (event 90 1 Delivery.available) {
  source_references = "";
  gaps = "";
  required_decision = "";
}

call-Moves_example :
    Along Moves
      (event 90 1 Delivery.sending ∷ [])
      (call
        (clock 9 0)
        (marks 90 Delivery.delivered)
        (done_db (event 90 1 Delivery.sending ∷ []))).results
call-Moves_example =
    call-Moves (clock 9 0) (marks 90 Delivery.delivered)
      (done_db (event 90 1 Delivery.sending ∷ []))

call-Finishes_example :
    Along
      (Finishes (
        call
          (clock 9 0)
          (marks 90 Delivery.delivered)
          (done_db (event 90 1 Delivery.sending ∷ []))))
      (done_db (event 90 1 Delivery.sending ∷ [])).jobs
      (call
        (clock 9 0)
        (marks 90 Delivery.delivered)
        (done_db (event 90 1 Delivery.sending ∷ []))).jobs
call-Finishes_example =
    call-Finishes (clock 9 0) (marks 90 Delivery.delivered)
      (done_db (event 90 1 Delivery.sending ∷ []))

-- The job after a change of its revision: the completed steps are superseded.
abbrev revised : Db
revised =
    (supersede_job_revision (clock 7 0) 1 1 2 (done_db (event 90 1 Delivery.unconfirmed ∷ []))).0

abbrev empty_home : Home
empty_home = record {
  db = record {
    jobs = [];
    attempts = [];
    artifacts = [];
    events = [];
    workflows = [];
    steps = [];
    step_attempts = [];
    results = [];
  };
  disk = [];
}

submit-Submitted_example :
    Submitted
      (clock 3 20)
      (7 ∷ 8 ∷ [])
      100
      empty_home
      (submit (clock 3 20) "mail" (7 ∷ 8 ∷ []) (some "{}") 100 empty_home).0
      (new_job (clock 3 20) "mail" JobStatus.queued "{}")
unfolding submit write_file find_where insert_job exists insert_artifact
submit-Submitted_example =
    submit-Submitted (clock 3 20) "mail" (7 ∷ 8 ∷ []) (some "{}") 100 empty_home
      (submit (clock 3 20) "mail" (7 ∷ 8 ∷ []) (some "{}") 100 empty_home).0
      (new_job (clock 3 20) "mail" JobStatus.queued "{}") refl

abbrev plain : Codec
plain = record { unmarshal = λ t. some (object end); marshal = λ fs. "{}" }

-- A job is submitted and started, the controller stops, and a second job is submitted.
abbrev calls : List (Env × JobCall)
calls =
    (clock 3 20, submits "mail" (7 ∷ []) (some "{}") 100)
    ∷ (clock 4 25, starts 20 "codex" 3)
    ∷ (clock 9 28, recovers)
    ∷ (clock 10 30, submits "mail" (8 ∷ []) (some "{}") 100)
    ∷ []

run_calls-Tied_example : Tied (run_calls plain calls empty_home).db
run_calls-Tied_example = run_calls-Tied plain calls empty_home (tt, tt)

abbrev waiting_home : Db
waiting_home = record empty_home.db {
  jobs = job 1 JobStatus.waiting_input 40 ∷ [];
  attempts = attempt 40 1 JobStatus.interrupted ∷ [];
}

abbrev hourly : Schedule
hourly = record {
  id = 5;
  connection_id = 6;
  name = "inbox";
  interval_ms = 100;
  timezone = "UTC";
  next_run_at = 1000;
  enabled = true;
  last_tick_id = 0;
  created_at = 1;
  updated_at = 1;
}

abbrev agenda : Agenda
agenda = record { schedules = hourly ∷ []; ticks = [] }

-- The occurrence, linked to a job.
abbrev worked_off : Tick
worked_off = record (new_tick (clock 1250 80) hourly 0) { job_id = 1; status = TickStatus.linked }

begin_tick-once_example :
    (begin_tick
      (clock 1300 90)
      5
      0
      (save_ticks (worked_off ∷ []) (begin_tick (clock 1250 80) 5 0 agenda).0)).0
    ≡ save_ticks (worked_off ∷ []) (begin_tick (clock 1250 80) 5 0 agenda).0
unfolding begin_tick find_by exists
begin_tick-once_example =
    begin_tick-once (clock 1250 80) (clock 1300 90) 5 0 0 agenda
      (begin_tick (clock 1250 80) 5 0 agenda).0 (new_tick (clock 1250 80) hourly 0)
      (worked_off ∷ []) (omega arith) (inr tt, tt) refl

begin_tick-grid_example :
    (hourly.enabled ≡ true)
    × (hourly.next_run_at ≤ 1250)
    × ((new_tick (clock 1250 80) hourly 0).scheduled_for ≡ hourly.next_run_at)
    × ((new_tick (clock 1250 80) hourly 0).status ≡ TickStatus.pending)
    × (find_by tick_key
          (new_tick (clock 1250 80) hourly 0).id
          (begin_tick (clock 1250 80) 5 0 agenda).0.ticks
        ≡ some (new_tick (clock 1250 80) hourly 0))
    × (s' : Schedule) × (find_by schedule_key 5 (begin_tick (clock 1250 80) 5 0 agenda).0.schedules
        ≡ some s')
    × (1250 < s'.next_run_at)
    × (s'.next_run_at ≤ 1250 + hourly.interval_ms)
    × (s'.next_run_at
        ≡ (new_tick (clock 1250 80) hourly 0).scheduled_for
          + ((new_tick (clock 1250 80) hourly 0).missed_intervals + 1) * hourly.interval_ms)
unfolding find_by begin_tick exists
begin_tick-grid_example =
    begin_tick-grid (clock 1250 80) 5 0 agenda (begin_tick (clock 1250 80) 5 0 agenda).0
      (new_tick (clock 1250 80) hourly 0) hourly refl (omega arith) refl

abbrev settings : List Setting
settings = record { key = "queue_paused"; value = "false" } ∷ []

paused : queue_paused (set_queue_paused true settings) ≡ ok true
unfolding queue_paused find_where
paused = queue_paused-set_queue_paused true false settings refl
