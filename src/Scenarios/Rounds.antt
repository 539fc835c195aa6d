-- ===== src/Scenarios/Rounds.antt =====
-- Reports of errors, the pace of the receiver, and a round of the schedules.
use agent_chun_su.Errors.Catalog.{catalog}
use agent_chun_su.Table.{find_where, length, exists}
use agent_chun_su.Base.{
  ℕ, zero, suc, ◌≤◌, ◌≡◌, refl, true, false, List, [], ◌∷◌, Bool, some, none, arith,
}
use agent_chun_su.Store.Status.{JobStatus}
use agent_chun_su.Store.Model.{Db, ok}
use agent_chun_su.Errors.Reports.{Recorder, ErrorEnv, Correlation, add, valid_correlation}
use agent_chun_su.Errors.Counts.{tally}
use agent_chun_su.Errors.Tally.{
  ErrorCall, call_record, call_flush, call_acknowledge, report_calls, reported, report_calls-tally,
  report_calls-kept, accepted,
}
use agent_chun_su.Errors.Bounds.{BothSound, report_calls-BothSound}
use agent_chun_su.Telegram.{Pace, retry_delay}
use agent_chun_su.Telegram.Send.{limited, max_reply_units, part_end, parts, send, send_parts}
use agent_chun_su.Telegram.Health.{Identity, Health, Patience}
use agent_chun_su.Telegram.Send.Pairs.{paired_from}
use agent_chun_su.Telegram.Send.Whole.{joined, ids_of, AllFit, AllPaired, messages, send-whole}
use agent_chun_su.Schedule.{Schedule}
use agent_chun_su.Schedule.Manager.{World, Manager, Collectors}
use agent_chun_su.Schedule.Manager.Round.{manager_step}
use agent_chun_su.Schedule.Manager.Attempts.{AllInBudget}
use agent_chun_su.Schedule.Manager.Budget.{manager_step-InBudget}
use agent_chun_su.Scenarios.{clock, job}

-- The files can be written where `free` says so.
abbrev error_env : Bool → ErrorEnv
error_env free = record {
  max_messages = 2;
  max_artifact_bytes = 1000;
  id_of = λ code. code;
  encoded_bytes = λ p. 400;
  now = 5;
  lock_free = free;
  readable = λ code. true;
  writable = λ code. true;
  synced = λ code. true;
}

abbrev no_correlation : Correlation
no_correlation = record { update_id = 3; session_id = ""; job_id = "" }

abbrev nothing_reported : Recorder
nothing_reported = record { pending = λ code. none; disk = λ code. none }

abbrev error_calls : List (ErrorEnv × ErrorCall)
error_calls =
    (error_env false, call_record "poll_failed" no_correlation)
    ∷ (error_env true, call_record "poll_failed" no_correlation)
    ∷ (error_env true, call_record "unknown" no_correlation)
    ∷ (error_env true, call_acknowledge "poll_failed")
    ∷ (error_env true, call_flush)
    ∷ []

report_calls-tally_example :
    tally (report_calls error_calls nothing_reported) "poll_failed"
    ≡ reported "poll_failed" error_calls 0
unfolding add
report_calls-tally_example =
    report_calls-tally error_calls nothing_reported "poll_failed"
      (refl, (refl, (refl, (refl, (refl, tt))))) (omega arith, omega arith)

-- The first write replaces the file, and then fails.
abbrev half_written : List (ErrorEnv × ErrorCall)
half_written =
    (record (error_env true) { synced = λ code. false }, call_record "poll_failed" no_correlation)
    ∷ (error_env true, call_flush)
    ∷ []

report_calls-kept_example :
    reported "poll_failed" half_written 0
    ≤ tally (report_calls half_written nothing_reported) "poll_failed"
unfolding add
report_calls-kept_example =
    report_calls-kept half_written nothing_reported "poll_failed" (omega arith, omega arith)

-- The flush then counts the one report again.
counted_twice : tally (report_calls half_written nothing_reported) "poll_failed" ≡ 2
unfolding report_calls find_where catalog valid_correlation add exists
counted_twice = refl

-- Two reports, one of them while the lock was held.
reported_twice : reported "poll_failed" error_calls 0 ≡ 2
unfolding reported accepted valid_correlation find_where catalog
reported_twice = refl

report_calls-BothSound_example :
    BothSound 2 (report_calls error_calls nothing_reported) "poll_failed"
report_calls-BothSound_example =
    report_calls-BothSound 2 error_calls nothing_reported (refl, (refl, (refl, (refl, (refl, tt)))))
      (λ code. (tt, tt)) "poll_failed"

abbrev pace : Pace
pace = record { poll_seconds = 20; retry_delay_seconds = 60 }

third_delay : retry_delay none 3 pace ≡ 60000000000
unfolding retry_delay
third_delay = refl

abbrev empty_db : Db
empty_db = record {
  jobs = [];
  attempts = [];
  artifacts = [];
  events = [];
  workflows = [];
  steps = [];
  step_attempts = [];
  results = [];
}

-- A mailbox that is not ready yet.
abbrev collectors : Collectors
collectors = record {
  is_jira = λ id. false;
  mail_zone = λ id. some "UTC";
  jira_zone = λ id. none;
  has_continuation = λ id h. ok false;
  collect_mail = λ t h. (
    h,
    record {
      acquisition = record { id = t.acquisition_id; status = "retry_wait"; not_before = 90 };
      stop_reason = "";
      failure = some "rate limited";
    },
  );
  collect_live = λ t h. (
    h,
    record {
      acquisition = record { id = 0; status = ""; not_before = 0 };
      stop_reason = "";
      failure = none;
    },
  );
  resume_live = λ t h. (
    h,
    record {
      acquisition = record { id = 0; status = ""; not_before = 0 };
      stop_reason = "";
      failure = none;
    },
  );
  queue = λ jira id h. (h, ok (job 70 JobStatus.queued 0));
}

abbrev manager : Manager
manager = record { collectors = collectors; max_attempts = 3 }

abbrev daily : Schedule
daily = record {
  id = 4;
  connection_id = 8;
  name = "daily";
  interval_ms = 1000;
  timezone = "UTC";
  next_run_at = 40;
  enabled = true;
  last_tick_id = 0;
  created_at = 1;
  updated_at = 1;
}

abbrev world : World
world = record {
  agenda = record { schedules = daily ∷ []; ticks = [] };
  settings = record { key = "queue_paused"; value = "false" } ∷ [];
  holdings = record { db = empty_db; acquisitions = [] };
}

manager_step-InBudget_example : AllInBudget 3 (manager_step (clock 50 20) manager world).0
manager_step-InBudget_example = manager_step-InBudget (clock 50 20) manager world tt

-- A text of so many letters before what is given.
unfoldable letters : ℕ → List ℕ → List ℕ
letters zero us = us
letters (suc n) us = 97 ∷ letters n us

-- A text whose 4000th unit begins a surrogate pair.
unfoldable long_reply : List ℕ
long_reply = letters 3999 (55357 ∷ 56384 ∷ [])

long_reply-paired : paired_from false long_reply ≡ true
unfolding long_reply letters paired_from
long_reply-paired = refl

send-whole_example :
    (send 9 (λ p. ok (suc (length p), 9)) long_reply
      ≡ (ids_of (λ p. suc (length p)) (messages long_reply), none))
    × (joined (messages long_reply) ≡ limited long_reply)
    × (length (limited long_reply) ≤ max_reply_units)
    × (length (messages long_reply) ≤ 4)
    × AllFit (messages long_reply)
    × AllPaired (messages long_reply)
send-whole_example =
    send-whole 9 (λ p. suc (length p)) long_reply (omega arith) (λ p. omega arith) long_reply-paired

-- The pair is left to the second message.
reply_ids : (send 9 (λ p. ok (suc (length p), 9)) long_reply).0 ≡ 4000 ∷ 3 ∷ []
unfolding send limited parts part_end send_parts long_reply letters
reply_ids = refl

-- So many surrogate pairs.
unfoldable pairs : ℕ → List ℕ → List ℕ
pairs zero us = us
pairs (suc n) us = 55357 ∷ 56384 ∷ pairs n us

-- A reply of 12000 units that takes four messages.
four_messages :
    (send 9 (λ p. ok (suc (length p), 9)) (97 ∷ pairs 5999 (97 ∷ []))).0
    ≡ 4000 ∷ 4001 ∷ 4001 ∷ 2 ∷ []
unfolding send limited parts part_end send_parts pairs
four_messages = refl

abbrev receiver : Identity
receiver = record { pid = 40; start = "morning" }

abbrev heartbeat : Health
heartbeat = record {
  version = 0;
  identity = receiver;
  at = 0;
  started_at = 3;
  state = "busy";
  poll = "connected";
  last_poll_at = 4;
  last_message_at = 4;
  last_reply_at = 0;
  active_update = 9;
  session_id = "";
  ai_blocked = false;
  unpersisted_errors = 0;
}

abbrev patience : Patience
patience = record { poll_seconds = 2; lock_wait_seconds = 5 }
